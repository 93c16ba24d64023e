-- ===== src/Tests/Uploads.antt =====
-- Examples for uploads.
use mathlib.Core.List.{append-nil}
use mhftp.Base.{
  ℕ, zero, suc, length-append, ◌<◌, ◌≡◌, refl, sym, some, List, [], ◌∷◌, ◌++◌, arith, length, take,
  drop, All,
}
use mhftp.Base.Int.{pos, negsuc}
use mhftp.Base.Bytes.{int64_bytes, length-int64_bytes}
use mhftp.Posix.{Bytes, World, done, c_string}
use mhftp.Base.{replicate}
use mhftp.Metadata.{Metadata}
use mhftp.Metadata.Disk.RoundTrip.{Holds, image}
use mhftp.Metadata.Create.{metadata_name}
use mhftp.Protocol.Uploads.{begin_upload, end_upload}
use mhftp.Protocol.Uploads.Resumed.{taken, announced, begin_upload-resumed}
use mhftp.Posix.Socket.{segment, IsStream}
use mhftp.Protocol.Upload.{upload_message, UploadState, receive_loop}
use mhftp.Protocol.Upload.Placed.{Sendable, upload_bytes}
use mhftp.Protocol.Upload.Whole.{chunks_of, Complete, receive_loop-whole}
use mhftp.Tests.Fixtures.{five_bytes, five, five-IsWellFormed, busy, one_file, toy_md5}

-- The start of an upload into an empty file, whose bytes come in one segment.
abbrev upload_of : Bytes → UploadState
upload_of bs = record {
  chunk_number = pos 0;
  chunk_size = pos 0;
  buffer = [];
  position = 0;
  file = some [];
  input = segment bs ∷ [];
}

upload_some : (us : List (ℕ × Bytes)) → 0 < length (upload_bytes us ++ [])
upload_some [] =
    omega (arith, length-append {0} (int64_bytes (negsuc 0)) [], length-int64_bytes (negsuc 0))
upload_some (u ∷ us) = omega (
  arith,
  length-append {0} (upload_message u.0 u.1 ++ upload_bytes us) [],
  length-append {0} (upload_message u.0 u.1) (upload_bytes us),
  length-append {0} (int64_bytes (pos u.0)) (int64_bytes (pos (length u.1)) ++ u.1),
  length-int64_bytes (pos u.0),
)

one_segment :
    (us : List (ℕ × Bytes))
    → IsStream (segment (upload_bytes us ++ []) ∷ []) (upload_bytes us ++ [])
one_segment us = (upload_some us, [], sym (append-nil (upload_bytes us ++ [])), refl)

abbrev two_parts : List (ℕ × Bytes)
two_parts = (1, 30 ∷ 40 ∷ []) ∷ (0, 10 ∷ 20 ∷ []) ∷ []

two_parts-Sendable : All Sendable two_parts
two_parts-Sendable = ((omega arith, omega arith), ((omega arith, omega arith), tt))

five-Complete : Complete five_bytes 2 (2 ∷ 0 ∷ 1 ∷ [])
five-Complete zero h = (1, refl)
five-Complete (suc zero) h = (1, refl)
five-Complete (suc (suc zero)) h = (2, refl)
five-Complete (suc (suc (suc zero))) h = (2, refl)
five-Complete (suc (suc (suc (suc zero)))) h = (0, refl)
five-Complete (suc (suc (suc (suc (suc j))))) h = absurd (omega arith)

receive_loop-whole_example :
    (st' : UploadState) × (receive_loop 5
        (pos 2)
        (upload_of (upload_bytes (chunks_of five_bytes 2 (2 ∷ 0 ∷ 1 ∷ [])) ++ []))
      ≡ some (some st'))
    × (st'.file ≡ some five_bytes)
    × IsStream st'.input []
unfolding take drop
receive_loop-whole_example =
    receive_loop-whole five_bytes 2 (2 ∷ 0 ∷ 1 ∷ []) 5 [] []
      (upload_of (upload_bytes (chunks_of five_bytes 2 (2 ∷ 0 ∷ 1 ∷ [])) ++ [])) (omega arith)
      five-Complete
      ((omega arith, omega arith), ((omega arith, omega arith), ((omega arith, omega arith), tt)))
      (omega arith) refl refl (omega arith) (one_segment (chunks_of five_bytes 2 (2 ∷ 0 ∷ 1 ∷ [])))

abbrev five_named : Metadata
five_named = record five { file_metadata = c_string (metadata_name (b'f' ∷ [])) }

-- The metadata file has chunks of two bytes, and the command line asks for three.
begin_upload-resumed_example :
    (w1 : World) × (begin_upload toy_md5 busy (b'f' ∷ []) (pos 3) (pos 2) (one_file (image five []))
      ≡ done (taken five_named, replicate 2 (announced toy_md5 (b'f' ∷ []) (pos 3) five)) w1)
    × Holds w1 (c_string (metadata_name (b'f' ∷ []))) (taken five_named)
    × (w2 : World) × (end_upload (taken five_named) w1 ≡ done five_named w2)
    × Holds w2 (c_string (metadata_name (b'f' ∷ []))) five_named
begin_upload-resumed_example =
    begin_upload-resumed toy_md5 (b'f' ∷ []) (pos 3) five busy (one_file (image five []))
      five-IsWellFormed (record { rest = []; stored = refl; allowed = refl }) 1 (omega arith)
