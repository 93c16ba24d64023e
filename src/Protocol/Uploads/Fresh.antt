-- ===== src/Protocol/Uploads/Fresh.antt =====
-- An upload by one process of a file that has no metadata file: its parent makes one.
use mhftp.Base.{
  ℕ, ◌+◌, ◌*◌, ◌^◌, ◌<◌, ◌≡◌, ◌≢◌, refl, sym, ap, ◌∙◌, false, none, some, [], ◌∷◌, arith, length,
  drop, All, length-append, length-drop,
}
use mhftp.Base.Int.{pos}
use mhftp.Posix.{Bytes, FileName, World, done, ◌>>=◌, bytes_eq, c_string, put_string}
use mhftp.Crypt.{Md5, md5_buffer}
use mhftp.Metadata.{Metadata, IsWellFormed}
use mhftp.Metadata.PayLoad.{chunk_count}
use mhftp.Metadata.Disk.RoundTrip.{
  Holds, image, with_file, with_file-other, with_file-Holds, save_metadata_lem,
}
use mhftp.Metadata.Create.{metadata_name, has_metadata_file, stored_name}
use mhftp.Metadata.Create.Stored.{fresh-IsWellFormed, made, stored, store_metadata_lem}
use mhftp.Metadata.Create.Described.{full_name_lem, described, create_stores}
use mhftp.Protocol.Commands.{ask_upload}
use mhftp.Protocol.Uploads.{
  upload_init_command, ready_metadata, init_upload_on_server, upload_loop, begin_upload,
}

length-put_string : (buf s : Bytes) → length s < length buf → length (put_string buf s) ≡ length buf
unfolding put_string
length-put_string buf s h =
    omega
      (arith, length-append {0} s (0 ∷ drop (length s + 1) buf), length-drop {0} (length s + 1) buf)

-- The parent's object when it forks, and what the metadata file holds then.
abbrev pub uploading : Md5 → Metadata → FileName → Bytes → ℕ → ℕ → Metadata
uploading md5 m name file c n =
    record (made (described md5 m name file) name none (length file) c n) { in_use = 2 }

-- What it has told the server.
abbrev pub announcement : Md5 → FileName → Bytes → ℕ → Bytes
announcement md5 name file c =
    upload_init_command ∷ ask_upload name (pos c) (pos (length file)) (md5_buffer md5 file)

-- The file, its name and its chunks, and the name of the metadata file, which does not exist.
pub record Uploadable (m : Metadata) (name : FileName) (file : Bytes) (w : World) (c n : ℕ)
    : Type 0 where
  pub there : w.files name ≡ some file
  pub readable : w.deny name ≡ false
  pub clean : All (λ b. b ≢ 0) name
  pub short : length name < 2048
  pub buffer : length m.file_full ≡ 2048
  pub small : length file < 2 ^ 63
  pub positive : 0 < c
  pub fits : c < 2 ^ 63
  pub cut : chunk_count (length file) (pos c) ≡ some (pos n)
  pub few : n * 32 < 2 ^ 31
  pub missing : w.files (c_string (metadata_name name)) ≡ none
  pub writable : w.deny (c_string (metadata_name name)) ≡ false
  pub apart : bytes_eq (c_string (metadata_name name)) name ≡ false

module _ (md5 : Md5) (m : Metadata) (name : FileName) (file : Bytes) (w : World) (c n : ℕ)
    (ready : Uploadable m name file w c n) where
  abbrev meta_name : FileName
  meta_name = c_string (metadata_name name)

  pub uploading-IsWellFormed : IsWellFormed (uploading md5 m name file c n)
  unfolding stored_name
  uploading-IsWellFormed =
      fresh-IsWellFormed (record (described md5 m name file) { in_use = 2 }) (length file) c n
        (put_string m.file_full name) meta_name (md5.length-final _) (omega arith)
        (length-put_string m.file_full name (omega (arith, ready.short, ready.buffer))
          ∙ ready.buffer)
        ready.small ready.positive ready.fits ready.cut ready.few

  pub begin_upload_fresh :
      (w1 : World) × (begin_upload md5 m name (pos c) (pos 1) w
        ≡ done (uploading md5 m name file c n, announcement md5 name file c ∷ []) w1)
      × Holds w1 meta_name (uploading md5 m name file c n)
      × (w1.files name ≡ some file)
      × (w1.deny name ≡ false)
  unfolding begin_upload upload_loop init_upload_on_server ready_metadata has_metadata_file
      stored_name
  begin_upload_fresh =
      let (full, size) = full_name_lem name ready.clean ready.short in
      let (w0, stores, holds, kept, same) =
        store_metadata_lem (described md5 m name file) name none w file c n (md5.length-final _)
          (omega arith) size ready.small ready.positive ready.fits ready.cut ready.few
          (ap w.files full ∙ ready.there) ready.writable in
      let creates =
        create_stores md5 m name file w c n ready.there ready.readable ready.cut ∙ stores in
      let m2 = uploading md5 m name file c n in
      let new = stored (described md5 m name file) name none (length file) c n in
      let saves =
        save_metadata_lem m2 meta_name w0 _ uploading-IsWellFormed holds.stored holds.allowed in
      (
        with_file w0 meta_name (image m2 (drop (length (image m2 [])) (image new holds.rest))),
        rw (◌>>=◌, ready.missing, creates, saves) refl,
        with_file-Holds w0 meta_name m2 _ holds.allowed,
        with_file-other w0 meta_name name _ ready.apart
            ∙ ap w0.files (sym full)
            ∙ kept (ap (bytes_eq meta_name) full ∙ ready.apart),
        ap (λ d. d name) same ∙ ready.readable,
      )
