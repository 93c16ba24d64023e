-- ===== src/Protocol/Commands/Asked.antt =====
-- What the server makes of a request for metadata, and of the start of an upload.
use mathlib.Core.List.{append_assoc}
use mhftp.Base.{
  ℕ, zero, suc, ◌-◌, ◌%◌, ◌^◌, ◌<◌, ◌≡◌, ◌≢◌, refl, ap, ap₂, subst, ◌∙◌, true, some, ◌∷◌, ◌++◌,
  arith, leb, length, All, replicate,
}
use mhftp.Base.Int.{ℤ, pos, IsInt64}
use mhftp.Base.Bytes.{
  length-le_bytes, of_le_bytes-le_bytes, int64_bytes, length-int64_bytes,
  int64_of_bytes-int64_bytes,
}
use mhftp.Posix.{Bytes, FileName, World, ◌>>=◌, ◌>>◌, pure, c_string, put_string}
use mhftp.Posix.Socket.{Socket, IsStream}
use mhftp.ConTcp.Reassembly.{reads, so_read_into-IsStream}
use mhftp.Crypt.{Md5}
use mhftp.Tools.{absolute_file}
use mhftp.Tools.Path.{c_string_name}
use mhftp.Metadata.{Metadata}
use mhftp.Protocol.Commands.{
  int16_of_bytes, path_size_bytes, read_path, chosen_size, answer_metadata, send_metadata_to_client,
  ask_metadata, Upload, touch, init_upload, ask_upload,
}

-- The name of a file in a buffer of 2048 bytes.
abbrev pub IsPath : FileName → Type 0
IsPath path = (length path < 2048) × All (λ c. c ≢ 0) path

int16-path_size :
    (path : FileName)
    → length path < 2048
    → int16_of_bytes (path_size_bytes path) ≡ pos (length path)
unfolding int16_of_bytes path_size_bytes
int16-path_size path h =
    let whole : length path % 65536 ≡ length path = ground arith in
    rw (of_le_bytes-le_bytes 2 (length path % 65536) (omega arith), whole) (ground arith)

pub length-path_size : (path : FileName) → length (path_size_bytes path) ≡ 2
unfolding path_size_bytes
length-path_size path = length-le_bytes 2 (length path % 2 ^ 16)

zeros : (k : ℕ) → 0 < k → (bs : Bytes) × (replicate {A = ℕ} k 0 ≡ 0 ∷ bs)
unfolding replicate
zeros zero h = absurd (omega arith)
zeros (suc k) h = (replicate k 0, refl)

read_path_lem :
    (path rest : Bytes) (s : Socket)
    → IsPath path
    → IsStream s (path ++ rest)
    → (buffer : Bytes) × (s' : Socket) × (read_path (pos (length path)) s ≡ some (buffer, s'))
      × (c_string buffer ≡ path)
      × IsStream s' rest
unfolding read_path
read_path_lem path rest s h k =
    let (s', e, q) = reads path rest (length path) s refl k in
    let small : leb (length path) 2048 ≡ true = ground (arith, h.0) in
    let (tail, z) = zeros (2048 - length path) (omega (arith, h.0)) in
    (
      path ++ replicate (2048 - length path) 0,
      s',
      rw (small, e, read_path) refl,
      ap (λ t. c_string (path ++ t)) z ∙ c_string_name path tail h.1,
      q,
    )

-- `SendMetadataToClient` takes the path and the chunk size that the client has sent.
pub metadata_request_heard :
    (md5 : Md5) (m0 : Metadata) (junk_chunk junk_size : Bytes) (chunk_size : ℤ) (path rest : Bytes)
    (s : Socket) (w : World)
    → IsPath path
    → IsInt64 chunk_size
    → IsStream s (ask_metadata chunk_size path ++ rest)
    → (s' : Socket) × (send_metadata_to_client md5 m0 junk_chunk junk_size s w
        ≡ (answer_metadata md5 m0 (chosen_size chunk_size) path >>= λ a. pure (a, s')) w)
      × IsStream s' rest
unfolding send_metadata_to_client ask_metadata
metadata_request_heard md5 m0 junk_chunk junk_size chunk_size path rest s w is fits h =
    let h0 : IsStream s (int64_bytes chunk_size ++ (path_size_bytes path ++ (path ++ rest))) =
      subst (IsStream s) (simp (append_assoc) refl) h in
    let (s1, e1, h1) =
      so_read_into-IsStream junk_chunk (int64_bytes chunk_size) _ 8 s
        (length-int64_bytes chunk_size) h0 in
    let (s2, e2, h2) =
      so_read_into-IsStream junk_size (path_size_bytes path) _ 2 s1 (length-path_size path) h1 in
    let (buffer, s3, e3, name, h3) = read_path_lem path rest s2 is h2 in
    (
      s3,
      rw (e1, e2, ◌>>=◌, int16-path_size path is.0, e3)
          (ap₂ (λ z p. (answer_metadata md5 m0 (chosen_size z) p >>= λ a. pure (a, s3)) w)
            (int64_of_bytes-int64_bytes chunk_size fits) name),
      h3,
    )

-- `InitUpload` takes what the client has sent.
pub upload_request_heard :
    (st : Upload) (junk_size junk_file_size path digest rest : Bytes) (chunk_size file_size : ℤ)
    (s : Socket) (w : World)
    → IsPath path
    → IsInt64 chunk_size
    → length digest ≡ 16
    → IsStream s (ask_upload path chunk_size file_size digest ++ rest)
    → (s' : Socket) × (init_upload st junk_size junk_file_size s w
        ≡ (touch (c_string (put_string st.local_file (absolute_file path)))
              >> pure (
                record {
                  local_file = put_string st.local_file (absolute_file path);
                  chunk_size = chunk_size;
                  upload_digest = digest;
                },
                s',
              ))
            w)
      × IsStream s' rest
unfolding init_upload ask_upload
upload_request_heard st junk_size junk_file_size path digest rest chunk_size file_size s w is fits
      sixteen h =
    let h0 : IsStream s (
        path_size_bytes path
        ++ (path ++ (int64_bytes chunk_size ++ (int64_bytes file_size ++ (digest ++ rest))))) =
      subst (IsStream s) (simp (append_assoc) refl) h in
    let (s1, e1, h1) =
      so_read_into-IsStream junk_size (path_size_bytes path) _ 2 s (length-path_size path) h0 in
    let (buffer, s2, e2, name, h2) = read_path_lem path _ s1 is h1 in
    let (s3, e3, h3) =
      so_read_into-IsStream (int64_bytes st.chunk_size) (int64_bytes chunk_size) _ 8 s2
        (length-int64_bytes chunk_size) h2 in
    let (s4, e4, h4) =
      so_read_into-IsStream junk_file_size (int64_bytes file_size) _ 8 s3
        (length-int64_bytes file_size) h3 in
    let (s5, e5, h5) = so_read_into-IsStream st.upload_digest digest rest 16 s4 sixteen h4 in
    (
      s5,
      rw (e1, ◌>>=◌, int16-path_size path is.0, e2, e3, e4, e5)
          (ap₂
            (λ z p.
              (touch (c_string (put_string st.local_file (absolute_file p)))
                  >> pure (
                    record {
                      local_file = put_string st.local_file (absolute_file p);
                      chunk_size = z;
                      upload_digest = digest;
                    },
                    s5,
                  ))
                w)
            (int64_of_bytes-int64_bytes chunk_size fits) name),
      h5,
    )
