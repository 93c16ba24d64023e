-- ===== src/Protocol/Commands/Answered.antt =====
-- What the server answers to a request for metadata, and what it has behind the start of an upload.
use mhftp.Base.{
  ℕ, ◌<◌, ◌≡◌, ◌⊎◌, inl, inr, refl, ◌∙◌, Bool, true, false, Option, none, some, [], ◌∷◌, ◌++◌,
  arith, length,
}
use mhftp.Base.Int.{ℤ, pos, IsInt64}
use mhftp.Posix.{
  Bytes, FileName, World, done, ◌>>=◌, ◌>>◌, c_string, put_string, bytes_eq, open_or_exit_lem,
}
use mhftp.Posix.Socket.{Socket, IsStream}
use mhftp.Tools.{absolute_file}
use mhftp.Crypt.{Md5, md5_buffer}
use mhftp.Crypt.Stream.{md5_file-md5_buffer}
use mhftp.Metadata.{Metadata}
use mhftp.Metadata.PayLoad.{chunk_count}
use mhftp.Metadata.Disk.RoundTrip.{with_file, with_file-files, with_file-other}
use mhftp.Metadata.Wire.{write_metadata_header}
use mhftp.Metadata.Create.{create}
use mhftp.Protocol.Commands.{
  file_exists, chosen_size, answer_metadata, send_metadata_to_client, ask_metadata, Upload, touch,
  init_upload, ask_upload,
}
use mhftp.Protocol.Commands.Asked.{IsPath, metadata_request_heard, upload_request_heard}

-- The size of a chunk that a request stands for: its own, or a MiB for 0.
abbrev pub StandsFor : ℤ → ℕ → Type 0
StandsFor chunk_size c = (0 < c) × ((chunk_size ≡ pos c) ⊎ ((chunk_size ≡ pos 0) × (c ≡ 1048576)))

chosen_size-StandsFor : (z : ℤ) (c : ℕ) → StandsFor z c → chosen_size z ≡ pos c
chosen_size-StandsFor z c (positive, inl own) = rw own (ground arith)
chosen_size-StandsFor z c (positive, inr (zero, mib)) = rw (zero, mib) refl

-- The object whose header the server sends for a file with its digest, in `n` chunks of `c` bytes.
abbrev pub offered : Md5 → Metadata → FileName → Bytes → ℕ → ℕ → Metadata
offered md5 m0 path file c n = record m0 {
  file_size = pos (length file);
  chunk_size = pos c;
  chunks = pos n;
  file_full = put_string m0.file_full path;
  digest = md5_buffer md5 file;
  in_use = 0;
}

answer_missing :
    (md5 : Md5) (m0 : Metadata) (z : ℤ) (path : FileName) (w : World)
    → w.files path ≡ none
    → answer_metadata md5 m0 z path w ≡ done (1 ∷ 0 ∷ []) w
unfolding answer_metadata
answer_missing md5 m0 z path w e =
    let missing : file_exists path w ≡ false = rw (file_exists, e) refl in
    rw (answer_metadata, missing) refl

answer_found :
    (md5 : Md5) (m0 : Metadata) (path : FileName) (file : Bytes) (c n : ℕ) (w : World)
    → w.files path ≡ some file
    → w.deny path ≡ false
    → chunk_count (length file) (pos c) ≡ some (pos n)
    → answer_metadata md5 m0 (pos c) path w
      ≡ done (0 ∷ 0 ∷ write_metadata_header (offered md5 m0 path file c n)) w
unfolding answer_metadata create
answer_found md5 m0 path file c n w there allowed counted =
    let found : file_exists path w ≡ true = rw (file_exists, there) refl in
    rw
      (
        answer_metadata,
        found,
        create,
        open_or_exit_lem w path 1 file there allowed,
        ◌>>=◌,
        counted,
        md5_file-md5_buffer md5 file,
      )
      refl

-- `SendMetadataToClient`, on a connection where no call fails, that brings what the client sends for a
-- path of less than 2048 bytes, none of them zero, and a chunk size in the range of int64_t. If there is no such file, the
-- answer is 1, in two bytes, and nothing else. If there is one, which may be opened, and the chunk size is positive, or 0, which
-- stands for 1048576, the answer is 0, in two bytes, and the header with the size of the file, that chunk
-- size, the count of the chunks, the digest of the file, and the path in the buffer that the object had before. No file is changed,
-- and the connection is behind the request.
pub send_metadata_to_client-ask_metadata :
    (md5 : Md5) (m0 : Metadata) (junk_chunk junk_size : Bytes) (chunk_size : ℤ) (path rest : Bytes)
    (s : Socket) (w : World)
    → IsPath path
    → IsInt64 chunk_size
    → IsStream s (ask_metadata chunk_size path ++ rest)
    → (s' : Socket) × (w.files path ≡ none
        → send_metadata_to_client md5 m0 junk_chunk junk_size s w ≡ done (1 ∷ 0 ∷ [], s') w)
      × ((file : Bytes) (c n : ℕ)
          → w.files path ≡ some file
          → w.deny path ≡ false
          → StandsFor chunk_size c
          → chunk_count (length file) (pos c) ≡ some (pos n)
          → send_metadata_to_client md5 m0 junk_chunk junk_size s w
            ≡ done (0 ∷ 0 ∷ write_metadata_header (offered md5 m0 path file c n), s') w)
      × IsStream s' rest
send_metadata_to_client-ask_metadata md5 m0 junk_chunk junk_size chunk_size path rest s w is fits
      h =
    let (s', e, behind) =
      metadata_request_heard md5 m0 junk_chunk junk_size chunk_size path rest s w is fits h in
    (
      s',
      λ missing. e ∙ rw (◌>>=◌, answer_missing md5 m0 (chosen_size chunk_size) path w missing) refl,
      λ file c n there allowed size counted.
          e
          ∙ rw
              (
                chosen_size-StandsFor chunk_size c size,
                ◌>>=◌,
                answer_found md5 m0 path file c n w there allowed counted,
              )
              refl,
      behind,
    )

-- What becomes of the file that an upload goes to: it is there if it may be made, and keeps its bytes if
-- it was there; every other file is as it was.
abbrev pub Made : FileName → World → World → Type 0
Made name w w' =
    (w.deny name ≡ false → w.files name ≡ none → w'.files name ≡ some [])
    × ((old : Bytes) → w.files name ≡ some old → w'.files name ≡ some old)
    × ((other : FileName) → bytes_eq name other ≡ false → w'.files other ≡ w.files other)

touch_lem :
    (name : FileName) (w : World) → (w' : World) × (touch name w ≡ done tt w') × Made name w w'
unfolding touch
touch_lem name w = by_case (w.deny name) (w.files name) refl refl
  where
    by_case :
        (d : Bool) (r : Option Bytes)
        → w.deny name ≡ d
        → w.files name ≡ r
        → (w' : World) × (touch name w ≡ done tt w') × Made name w w'
    by_case true r e f = (w, rw e refl, (λ may. absurd cc, λ old there. there, λ other apart. refl))
    by_case false none e f = (
      with_file w name [],
      rw (e, f) refl,
      (
        λ may missing. with_file-files w name [],
        λ old there. absurd cc,
        λ other apart. with_file-other w name other [] apart,
      ),
    )
    by_case false (some old) e f =
        (w, rw (e, f) refl, (λ may missing. absurd cc, λ old there. there, λ other apart. refl))

-- `InitUpload`, on a connection where no call fails, that brings what the client sends for a path of less
-- than 2048 bytes, none of them zero, a chunk size in the range of int64_t, a file size and a digest: the server has
-- the chunk size and the digest, and its local file is what `AbsoluteFile` makes of the path. If that file is
-- not there and it may be opened, it is there then, and empty; if it is there, it keeps its bytes, and every
-- other file is as it was. The connection is behind the request.
pub init_upload-ask_upload :
    (st : Upload) (junk_size junk_file_size path digest rest : Bytes) (chunk_size file_size : ℤ)
    (s : Socket) (w : World)
    → IsPath path
    → IsInt64 chunk_size
    → length digest ≡ 16
    → IsStream s (ask_upload path chunk_size file_size digest ++ rest)
    → (s' : Socket) × (w' : World) × (init_upload st junk_size junk_file_size s w
        ≡ done
            (
              record {
                local_file = put_string st.local_file (absolute_file path);
                chunk_size = chunk_size;
                upload_digest = digest;
              },
              s',
            )
            w')
      × Made (c_string (put_string st.local_file (absolute_file path))) w w'
      × IsStream s' rest
init_upload-ask_upload st junk_size junk_file_size path digest rest chunk_size file_size s w is fits
      sixteen h =
    let (s', e, behind) =
      upload_request_heard st junk_size junk_file_size path digest rest chunk_size file_size s w is
        fits sixteen h in
    let (w', touched, made) =
      touch_lem (c_string (put_string st.local_file (absolute_file path))) w in
    (s', w', e ∙ rw (◌>>=◌, ◌>>◌, touched) refl, made, behind)
