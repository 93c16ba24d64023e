-- ===== src/Tests/Asks.antt =====
-- Examples for requests for metadata, and for the start of an upload.
use mathlib.Core.List.{append-nil}
use mhftp.Base.{
  ℕ, none, false, some, ◌<◌, ◌≡◌, refl, sym, [], ◌∷◌, ◌++◌, arith, length, length-append,
}
use mhftp.Base.Int.{pos}
use mhftp.Base.Bytes.{int64_bytes, length-int64_bytes}
use mhftp.Posix.{World, done, Bytes, c_string, put_string}
use mhftp.Posix.Socket.{Socket, segment, IsStream}
use mhftp.Tools.{absolute_file}
use mhftp.Protocol.Commands.{
  send_metadata_to_client, ask_metadata, path_size_bytes, Upload, init_upload, ask_upload,
}
use mhftp.Protocol.Commands.Asked.{IsPath, length-path_size}
use mhftp.Protocol.Commands.Answered.{
  StandsFor, offered, Made, send_metadata_to_client-ask_metadata, init_upload-ask_upload,
}
use mhftp.Metadata.PayLoad.{chunk_count}
use mhftp.Metadata.Disk.{load_metadata}
use mhftp.Metadata.Wire.{write_metadata_header}
use mhftp.Metadata.Create.Stored.{fresh}
use mhftp.Protocol.Commands.{mh_ok, abs_file_name, receive_metadata}
use mhftp.Protocol.Commands.Fetched.{header_of, receive_metadata-write_metadata_header}
use mhftp.Tests.Fixtures.{busy, five-IsWellFormed, digest16, five, one_file, five_bytes, toy_md5}

abbrev whole : Bytes → Socket
whole bs = segment (bs ++ []) ∷ []

whole-IsStream : (bs : Bytes) → 0 < length bs → IsStream (whole bs) (bs ++ [])
whole-IsStream bs h =
    (omega (arith, length-append {0} bs []), [], sym (append-nil (bs ++ [])), refl)

f-IsPath : IsPath (b'f' ∷ [])
f-IsPath = (omega arith, (omega arith, tt))

send_metadata_to_client-ask_metadata_example :
    (s' : Socket) × ((one_file five_bytes).files (b'f' ∷ []) ≡ none
      → send_metadata_to_client toy_md5 five [] []
          (whole (ask_metadata (pos 2) (b'f' ∷ [])))
          (one_file five_bytes)
        ≡ done (1 ∷ 0 ∷ [], s') (one_file five_bytes))
    × ((file : Bytes) (c n : ℕ)
        → (one_file five_bytes).files (b'f' ∷ []) ≡ some file
        → (one_file five_bytes).deny (b'f' ∷ []) ≡ false
        → StandsFor (pos 2) c
        → chunk_count (length file) (pos c) ≡ some (pos n)
        → send_metadata_to_client toy_md5 five [] []
            (whole (ask_metadata (pos 2) (b'f' ∷ [])))
            (one_file five_bytes)
          ≡ done
              (0 ∷ 0 ∷ write_metadata_header (offered toy_md5 five (b'f' ∷ []) file c n), s')
              (one_file five_bytes))
    × IsStream s' []
unfolding ask_metadata
send_metadata_to_client-ask_metadata_example =
    send_metadata_to_client-ask_metadata toy_md5 five [] [] (pos 2) (b'f' ∷ []) []
      (whole (ask_metadata (pos 2) (b'f' ∷ []))) (one_file five_bytes) f-IsPath (omega arith)
      (whole-IsStream (ask_metadata (pos 2) (b'f' ∷ [])) (
        omega (
          arith,
          length-append {0} (int64_bytes (pos 2)) (path_size_bytes (b'f' ∷ []) ++ (b'f' ∷ [])),
          length-int64_bytes (pos 2),
        )))

abbrev nothing_yet : Upload
nothing_yet = record { local_file = []; chunk_size = pos 0; upload_digest = digest16 }

abbrev no_files : World
no_files = record { files = λ _. none; deny = λ _. false }

init_upload-ask_upload_example :
    (s' : Socket) × (w' : World) × (init_upload nothing_yet [] []
        (whole (ask_upload (b'f' ∷ []) (pos 2) (pos 5) digest16))
        no_files
      ≡ done
          (
            record {
              local_file = put_string [] (absolute_file (b'f' ∷ []));
              chunk_size = pos 2;
              upload_digest = digest16;
            },
            s',
          )
          w')
    × Made (c_string (put_string [] (absolute_file (b'f' ∷ [])))) no_files w'
    × IsStream s' []
unfolding ask_upload
init_upload-ask_upload_example =
    init_upload-ask_upload nothing_yet [] [] (b'f' ∷ []) digest16 [] (pos 2) (pos 5)
      (whole (ask_upload (b'f' ∷ []) (pos 2) (pos 5) digest16)) no_files f-IsPath (omega arith) refl
      (whole-IsStream (ask_upload (b'f' ∷ []) (pos 2) (pos 5) digest16) (
        omega (
          arith,
          length-append {0} (path_size_bytes (b'f' ∷ []))
              ((b'f' ∷ []) ++ (int64_bytes (pos 2) ++ (int64_bytes (pos 5) ++ digest16))),
          length-path_size (b'f' ∷ []),
        )))

-- The answer for the file of five bytes in chunks of two.
abbrev answer_for_five : Bytes
answer_for_five = mh_ok ++ (write_metadata_header (header_of five 5 2 3) ++ [])

answer_for_five-IsStream : IsStream (segment answer_for_five ∷ []) answer_for_five
answer_for_five-IsStream = (omega arith, [], sym (append-nil answer_for_five), refl)

five_by_two : chunk_count 5 (pos 2) ≡ some (pos 3)
unfolding chunk_count
five_by_two = refl

receive_metadata-write_metadata_header_example :
    (s' : Socket) × (w' : World) × (receive_metadata busy [] []
        (b'f' ∷ [])
        (segment answer_for_five ∷ [])
        (one_file five_bytes)
      ≡ done s' w')
    × (load_metadata five (abs_file_name [] (b'f' ∷ [])) w'
        ≡ done
            (record (fresh busy 5 2 3) {
              digest = digest16;
              file_full = five.file_full;
              file_metadata = b'f' ∷ [];
            })
            w')
    × IsStream s' []
receive_metadata-write_metadata_header_example =
    receive_metadata-write_metadata_header five busy five [] [] (b'f' ∷ []) []
      (segment answer_for_five ∷ []) (one_file five_bytes) 5 2 3 refl
      five-IsWellFormed.file_full_length (omega arith) (omega arith) (omega arith) (omega arith)
      five_by_two (omega arith) refl answer_for_five-IsStream
