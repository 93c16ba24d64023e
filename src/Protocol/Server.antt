-- ===== src/Protocol/Server.antt =====
-- protocol/mhproto_server.cpp: `SendChunkToClient` and `LoadChunkFromFile`, which answer the requests of
-- one connection.
pub mod Answers
use mhftp.Base.{
  ℕ, zero, suc, ◌+◌, ◌-◌, ◌==◌, Bool, true, false, Option, none, some, List, [], ◌∷◌, ◌++◌,
  if◌then◌else◌, length, get_elem?, take, drop, replicate,
}
use mhftp.Base.Int.{ℤ, pos, negsuc, ◌*ℤ◌}
use mhftp.Base.Bytes.{int64_bytes}
use mhftp.Posix.{Bytes, World, c_string, read_into, open_file}
use mhftp.Posix.Decimal.{atoi}
use mhftp.Posix.Socket.{Socket}
use mhftp.ConTcp.{SoRead, so_read}
use mhftp.Crypt.{Md5, md5_buffer}
use mhftp.Metadata.{Metadata}
use mhftp.Metadata.PayLoad.{get_pay_load_array}
use mhftp.Metadata.Wire.{read_metadata_header}
use mhftp.Protocol.Request.{request_size}

-- MH_RETRY
abbrev pub mh_retry : ℕ
mh_retry = 10

-- `waitForClient`, the position in the file, and the connection in both directions.
pub record ServeState : Type 0 where
  pub wait_for_client : ℕ
  pub position : ℕ
  pub input : Socket
  pub output : Bytes

-- How a round of the loop ends: by `break`, by going on, by `exit`, or undefined.
pub data Round : Type 0 where
  stop : ServeState → Round
  go : ServeState → Round
  exits : Round
  undefined : Round

-- `lseek(fd, p, SEEK_SET)`: a negative position is refused.
abbrev pub seek_set : ℕ → ℤ → ℕ
seek_set position (pos p) = p
seek_set position (negsuc _) = position

-- `Chunk(size)` allocates `junk size`; the digest is that of the whole buffer, also where the file ends
-- before it is full.
pub record Chunk : Type 0 where
  pub data_ : Bytes
  pub md5sum : Bytes

module _ (md5 : Md5) (junk : ℕ → Bytes) where
  -- `generateCheckSum` of a chunk with these bytes.
  abbrev pub generate_check_sum : Bytes → Chunk
  generate_check_sum bytes = record { data_ = bytes; md5sum = md5_buffer md5 bytes }

  unfoldable pub load_chunk_from_file : Bytes → ℕ → ℕ → Chunk × ℕ
  load_chunk_from_file file position size =
      let bytes = read_into (junk size) size (drop position file) in
      (generate_check_sum bytes, position + length (take size (drop position file)))

  -- The answer to a request: the digest, the size and the bytes.
  abbrev pub chunk_message : ℕ → Chunk → Bytes
  chunk_message size chunk = chunk.md5sum ++ (int64_bytes (pos size) ++ chunk.data_)

  -- `payLoadArray_[chunkNumber]`; a size below zero makes `malloc` fail, and the process exits.
  unfoldable pub serve_chunk : Bytes → ℤ → ServeState → ℕ → Option ℤ → Round
  unfolding ◌*ℤ◌
  serve_chunk file chsize st i none = undefined
  serve_chunk file chsize st i (some (negsuc _)) = exits
  serve_chunk file chsize st i (some (pos size)) =
      let (chunk, position) =
        load_chunk_from_file file (seek_set st.position (pos i *ℤ chsize)) size in
      go (record st { position = position; output = st.output ++ chunk_message size chunk })

  -- -1 ends the loop; another negative number is an index out of bounds.
  unfoldable pub serve_number : Bytes → ℤ → List ℤ → ServeState → ℤ → Round
  unfolding serve_chunk
  serve_number file chsize array st (pos i) = serve_chunk file chsize st i (get_elem? array i)
  serve_number file chsize array st (negsuc zero) = stop (record st { wait_for_client = 0 })
  serve_number file chsize array st (negsuc (suc n)) = undefined

  -- The buffer is zero before the read. A read of another length costs a retry, and is answered all the
  -- same. `atoi` needs a zero in the buffer.
  unfoldable pub serve_request : Bytes → ℤ → List ℤ → ServeState → SoRead → Round
  unfolding serve_number atoi
  serve_request file chsize array st r = elim r.count [
    | pos zero ↦ stop (record st { input = r.rest })
    | negsuc _ ↦ stop (record st { input = r.rest })
    | pos (suc n) ↦
        let waits =
          if suc n == request_size then st.wait_for_client else (st.wait_for_client - 1) in
        let buffer = read_into (replicate request_size 0) request_size r.bytes in
        let st' = record st { wait_for_client = waits; input = r.rest } in
        if length (c_string buffer) == request_size
        then undefined
        else serve_number file chsize array st' (atoi buffer)
  ]

  abbrev answered : Bytes → ℤ → List ℤ → ServeState → Option SoRead → Round
  answered file chsize array st none = undefined
  answered file chsize array st (some r) = serve_request file chsize array st r

  unfoldable pub serve_round : Bytes → ℤ → List ℤ → ServeState → Round
  unfolding serve_request so_read
  serve_round file chsize array st = answered file chsize array st (so_read request_size st.input)

  -- `while (waitForClient)`; `none` means that the fuel ran out.
  unfoldable pub serve_loop : ℕ → Bytes → ℤ → List ℤ → ServeState → Option Round
  unfolding serve_round
  serve_loop zero file chsize array st = none
  serve_loop (suc fuel) file chsize array st =
      if st.wait_for_client == 0 then some (stop st) else elim (serve_round file chsize array st) [
        | go st' ↦ serve_loop fuel file chsize array st'
        | stop st' ↦ some (stop st')
        | exits ↦ some exits
        | undefined ↦ some undefined
      ]

  abbrev opened : ℕ → Metadata → Socket → Option Bytes → Option Round
  opened fuel m s none = some exits
  opened fuel m s (some file) =
      let array = get_pay_load_array m.file_size m.chunk_size m.chunks in
      serve_loop fuel file m.chunk_size array
        (record { wait_for_client = mh_retry; position = 0; input = s; output = [] })

  abbrev headed : ℕ → World → Option (Metadata × Socket) → Option Round
  headed fuel w none = some undefined
  headed fuel w (some (m, s)) = opened fuel m s (open_file (c_string m.file_full) w)

  unfoldable pub send_chunk_to_client : ℕ → Metadata → Socket → World → Option Round
  unfolding serve_loop read_metadata_header get_pay_load_array
  send_chunk_to_client fuel m0 s w = headed fuel w (read_metadata_header m0 s)
