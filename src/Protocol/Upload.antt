-- ===== src/Protocol/Upload.antt =====
-- protocol/mhproto_server.cpp: `ReceiveChunkFromClient`, which writes the chunks of an upload into the
-- server's file; and what the client's `UploadFileToServer` sends for a chunk.
pub mod Placed
pub mod Whole
use mathlib.Core.Option
use mhftp.Base.{
  ℕ, zero, suc, ◌+◌, ◌==◌, leb, Bool, true, false, Option, none, some, List, [], ◌∷◌, ◌++◌,
  if◌then◌else◌, length, take, drop,
}
use mhftp.Base.Int.{ℤ, pos, negsuc, eq_ℤ, leb_ℤ, ◌*ℤ◌}
use mhftp.Base.Bytes.{int64_bytes, int64_of_bytes}
use mhftp.Posix.{Bytes, FileName, World, update_file, open_file, read_into, write_at}
use mhftp.Posix.Socket.{Socket}
use mhftp.ConTcp.{so_read, so_read_into}
use mhftp.Protocol.Server.{seek_set}
use mhftp.Protocol.Client.{max_chunk_size}

-- A chunk on its way to the server: its number, the count of bytes that `read` gave, and the bytes.
abbrev pub upload_message : ℕ → Bytes → Bytes
upload_message i part = int64_bytes (pos i) ++ (int64_bytes (pos (length part)) ++ part)

-- The chunk that the client reads at its place in the file, for a size of `payLoadArray_`. A negative size
-- is undefined, and a size above the buffer's too.
unfoldable pub send_chunk : Bytes → ℕ → ℤ → ℕ → ℤ → Option Bytes
send_chunk file position chunk_size i (negsuc _) = none
send_chunk file position chunk_size i (pos size) =
    if leb size max_chunk_size
    then some (upload_message i (take size (drop (seek_set position (pos i *ℤ chunk_size)) file)))
    else none

-- The variables of `ReceiveChunkFromClient`. `chunk_size` is not set before the first chunk, and the file
-- is missing where `open` failed: then nothing is written.
pub record UploadState : Type 0 where
  pub chunk_number : ℤ
  pub chunk_size : ℤ
  pub buffer : Bytes
  pub position : ℕ
  pub file : Option Bytes
  pub input : Socket

-- The bytes of a chunk, into the buffer and from there into the file, whatever has arrived of them. A size
-- below zero, or above the buffer's, is undefined.
unfoldable pub receive_payload : ℤ → ℤ → UploadState → Option UploadState
unfolding so_read
receive_payload server_size (negsuc _) st = none
receive_payload server_size (pos size) st =
    if leb size max_chunk_size
    then elim (so_read size st.input) [
      | none ↦ none
      | some r ↦
          let buffer = r.bytes ++ drop (length r.bytes) st.buffer in
          let p = seek_set st.position (st.chunk_number *ℤ server_size) in
          some (record st {
            buffer = buffer;
            position = p + size;
            file = Option.map (write_at p (take size buffer)) st.file;
            input = r.rest;
          })
    ]
    else none

-- The read of the size, whose result is not looked at.
unfoldable pub receive_sized : ℤ → UploadState → Option UploadState
unfolding so_read_into receive_payload
receive_sized server_size st = elim (so_read_into (int64_bytes st.chunk_size) 8 st.input) [
  | none ↦ none
  | some (bs, s) ↦
      receive_payload server_size (int64_of_bytes bs)
        (record st { chunk_size = int64_of_bytes bs; input = s })
]

-- A round of the loop: no number, and the number -1, end it.
unfoldable pub receive_round : ℤ → UploadState → Option UploadState
unfolding receive_sized so_read
receive_round server_size st = elim (so_read 8 st.input) [
  | none ↦ none
  | some r ↦
      let number =
        if leb_ℤ r.count (pos 0)
        then negsuc 0
        else int64_of_bytes (read_into (int64_bytes st.chunk_number) 8 r.bytes) in
      let st' = record st { chunk_number = number; input = r.rest } in
      if eq_ℤ number (negsuc 0) then some st' else receive_sized server_size st'
]

-- `while (chunkNumber != -1)`; the outer `none` means that the fuel ran out.
unfoldable pub receive_loop : ℕ → ℤ → UploadState → Option (Option UploadState)
unfolding receive_round
receive_loop zero server_size st = none
receive_loop (suc fuel) server_size st =
    if eq_ℤ st.chunk_number (negsuc 0)
    then some (some st)
    else elim (receive_round server_size st) [
      | none ↦ some none
      | some st' ↦ receive_loop fuel server_size st'
    ]

abbrev pub put_back : World → FileName → Option Bytes → World
put_back w local_file none = w
put_back w local_file (some bs) = record w { files = update_file w.files local_file bs }

-- The world and the connection behind the call. The buffer of `malloc` and the variable `chunkSize` hold
-- anything at first.
unfoldable pub receive_chunk_from_client :
    ℕ → Bytes → ℤ → ℤ → FileName → Socket → World → Option (Option (World × Socket))
unfolding receive_loop open_file
receive_chunk_from_client fuel junk junk_size server_size local_file s w =
    Option.map
      (Option.map (λ st. (put_back w local_file (UploadState.file st), UploadState.input st)))
      (receive_loop fuel server_size (record {
        chunk_number = pos 0;
        chunk_size = junk_size;
        buffer = junk;
        position = 0;
        file = open_file local_file w;
        input = s;
      }))
