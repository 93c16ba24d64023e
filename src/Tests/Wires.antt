-- ===== src/Tests/Wires.antt =====
-- Examples for connections and for what goes over them.
use mathlib.Core.List.{append-nil}
use mhftp.Base.{
  ℕ, suc, ap, sym, take, drop, ◌^◌, ◌<◌, ◌≡◌, refl, some, [], ◌∷◌, ◌++◌, arith, replicate,
  length-replicate, All,
}
use mhftp.Base.Int.{pos}
use mhftp.Posix.{Bytes}
use mhftp.Posix.Socket.{Socket, segment, IsStream}
use mhftp.ConTcp.{so_read}
use mhftp.ConTcp.Reassembly.{so_read-IsStream}
use mhftp.Crypt.{md5_buffer}
use mhftp.Metadata.PayLoad.{chunk_count, get_pay_load_array}
use mhftp.Metadata.Wire.{write_metadata_header, read_metadata_header}
use mhftp.Metadata.Wire.Header.{with_header, read_metadata_header-write_metadata_header}
use mhftp.Protocol.Request.{request_chunk, length-request_chunk}
use mhftp.Protocol.Server.{ServeState, stop, serve_loop, mh_retry}
use mhftp.Protocol.Server.Answers.{message, serve_loop-answers}
use mhftp.Protocol.Client.{chunk, receive_chunk}
use mhftp.Protocol.Client.Receive.{receive_chunk-message}
use mhftp.Posix.{World, done, bytes_eq}
use mhftp.Metadata.Disk.RoundTrip.{Holds, image}
use mhftp.Protocol.Commands.{rcv_cmd, download_chunk}
use mhftp.Protocol.Joining.{join_download}
use mhftp.Protocol.Joining.Heard.{rcv_cmd-join_download}
use mhftp.Tests.Fixtures.{
  busy, meta_name, one_file, five-IsWellFormed, five-Holds, five, five_bytes, first_16, toy_md5,
}

abbrev hello : Socket
hello = segment (1 ∷ 2 ∷ []) ∷ segment (3 ∷ 4 ∷ 5 ∷ []) ∷ []

hello-IsStream : IsStream hello (1 ∷ 2 ∷ 3 ∷ 4 ∷ 5 ∷ [])
hello-IsStream = (omega arith, 3 ∷ 4 ∷ 5 ∷ [], refl, (omega arith, [], refl, refl))

so_read-IsStream_example :
    (s' : Socket) × (so_read 3 hello
      ≡ some (record { count = pos 3; bytes = 1 ∷ 2 ∷ 3 ∷ []; rest = s' }))
    × IsStream s' (4 ∷ 5 ∷ [])
so_read-IsStream_example = so_read-IsStream (1 ∷ 2 ∷ 3 ∷ []) (4 ∷ 5 ∷ []) hello hello-IsStream

-- A connection that brings all its bytes, not none, in one segment.
abbrev whole : Bytes → Socket
whole bs = segment bs ∷ []

whole-IsStream : (b : ℕ) (bs : Bytes) → IsStream (whole (b ∷ bs)) (b ∷ bs)
whole-IsStream b bs = (omega arith, [], sym (append-nil (b ∷ bs)), refl)

read_metadata_header-write_metadata_header_example :
    (s' : Socket) × (read_metadata_header five (whole (write_metadata_header five ++ []))
      ≡ some (with_header five five, s'))
    × IsStream s' []
unfolding write_metadata_header
read_metadata_header-write_metadata_header_example =
    read_metadata_header-write_metadata_header five five []
      (whole (write_metadata_header five ++ [])) refl (ap suc (length-replicate 2047 0))
      (omega arith) (omega arith) (omega arith) (whole-IsStream _ _)

two_requests : All (λ i. (i < 3) × (i < 10 ^ 6)) (2 ∷ 0 ∷ [])
two_requests = ((omega arith, omega arith), ((omega arith, omega arith), tt))

abbrev asked : ServeState
asked = record {
  wait_for_client = mh_retry;
  position = 0;
  input = segment (request_chunk (pos 2)) ∷ segment (request_chunk (pos 0)) ∷ [];
  output = [];
}

asked-IsStream : IsStream asked.input (request_chunk (pos 2) ++ (request_chunk (pos 0) ++ []))
asked-IsStream = (
  omega (arith, length-request_chunk (pos 2)),
  request_chunk (pos 0) ++ [],
  refl,
  (omega (arith, length-request_chunk (pos 0)), [], refl, refl),
)

five_in_three : chunk_count 5 (pos 2) ≡ some (pos 3)
unfolding chunk_count
five_in_three = refl

serve_loop-answers_example :
    (st' : ServeState) × (serve_loop toy_md5
        (λ n. replicate n 0)
        3
        five_bytes
        (pos 2)
        (get_pay_load_array (pos 5) (pos 2) (pos 3))
        asked
      ≡ some (stop st'))
    × (st'.output ≡ message toy_md5 (50 ∷ []) ++ (message toy_md5 (10 ∷ 20 ∷ []) ++ []))
unfolding take drop
serve_loop-answers_example =
    serve_loop-answers toy_md5 (λ n. replicate n 0) five_bytes 2 3 (omega arith) five_in_three
      (2 ∷ 0 ∷ []) 3 asked two_requests (omega arith) (omega arith) asked-IsStream

receive_chunk-message_example :
    (s' : Socket) × (receive_chunk
        (replicate 16 9)
        (whole (message toy_md5 (10 ∷ 20 ∷ []) ++ (7 ∷ [])))
      ≡ some (chunk (md5_buffer toy_md5 (10 ∷ 20 ∷ [])) (10 ∷ 20 ∷ []), s'))
    × IsStream s' (7 ∷ [])
unfolding first_16 take
receive_chunk-message_example =
    receive_chunk-message toy_md5 (10 ∷ 20 ∷ []) (replicate 16 9) (7 ∷ []) _ (omega arith)
      (whole-IsStream _ _)

rcv_cmd-join_download_example :
    (content : Bytes) × (w1 : World) × (sent : Bytes) × (join_download busy meta_name
        (b'f' ∷ [])
        (one_file (image five []))
      ≡ done (record five { file_metadata = busy.file_metadata }, sent) w1)
    × (w1.files (b'f' ∷ []) ≡ some content)
    × Holds w1 meta_name five
    × ((rest : Bytes) (s : Socket)
        → IsStream s (sent ++ rest)
        → (s1 : Socket) × (s2 : Socket) × (rcv_cmd s ≡ some (download_chunk, s1))
          × (read_metadata_header busy s1 ≡ some (with_header busy five, s2))
          × IsStream s2 rest)
unfolding bytes_eq
rcv_cmd-join_download_example =
    rcv_cmd-join_download five busy busy meta_name (b'f' ∷ []) (one_file (image five []))
      five-IsWellFormed five-Holds refl refl
