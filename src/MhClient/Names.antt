-- ===== src/MhClient/Names.antt =====
-- The names of the two files of a download.
use mhftp.Base.{
  ◌+◌, ◌<◌, ◌≡◌, ◌≢◌, inl, inr, sym, ap, ◌∙◌, false, ◌++◌, arith, length, drop, All, Bool-cases,
  length-append, length-drop,
}
use mhftp.Posix.{Bytes, FileName, bytes_eq, bytes_eq→eq, c_string, put_string}
use mhftp.Tools.{str_cat, absolute_file}
use mhftp.Tools.Path.{c_string-put_string, str_cat_lem}
use mhftp.Metadata.Create.{mdata}
use mhftp.Protocol.Commands.{abs_file_name}
use mhftp.MhClient.{download_names}

bytes_eq_apart : (xs ys : Bytes) → length xs ≢ length ys → bytes_eq xs ys ≡ false
bytes_eq_apart xs ys apart = elim (Bool-cases (bytes_eq xs ys)) [
  | inl same ↦ absurd (apart (ap length (bytes_eq→eq xs ys same)))
  | inr e ↦ e
]

-- A name in a buffer, with ".mdata" behind it.
with_mdata :
    (buffer : Bytes) (name : FileName)
    → All (λ c. c ≢ 0) name
    → length name + 6 < length buffer
    → c_string (str_cat (put_string buffer name) mdata) ≡ name ++ mdata
unfolding put_string
with_mdata buffer name clean fits =
    let dots : All (λ c. c ≢ 0) mdata = (
      omega arith,
      (omega arith, (omega arith, (omega arith, (omega arith, (omega arith, tt))))),
    ) in
    (str_cat_lem name mdata (drop (length name + 1) buffer) clean dots
      (omega (arith, fits, length-drop {0} (length name + 1) buffer))).0

-- For a remote file whose name, without its directories, fits the buffers: the local file of a download has
-- that name, the metadata file has it with ".mdata", as `DownloadMetadataFromServer` calls it too, and the
-- two are never the same file name.
pub download_names_lem :
    (file_name meta_name abs_file : Bytes) (file : FileName)
    → All (λ c. c ≢ 0) (absolute_file file)
    → length (absolute_file file) + 6 < length meta_name
    → length (absolute_file file) + 6 < length abs_file
    → ((download_names file_name meta_name file).0 ≡ absolute_file file)
      × ((download_names file_name meta_name file).1 ≡ absolute_file file ++ mdata)
      × ((download_names file_name meta_name file).1 ≡ abs_file_name abs_file file)
      × (bytes_eq
            (download_names file_name meta_name file).1
            (download_names file_name meta_name file).0
          ≡ false)
      × (bytes_eq
            (download_names file_name meta_name file).0
            (download_names file_name meta_name file).1
          ≡ false)
unfolding download_names abs_file_name
download_names_lem file_name meta_name abs_file file clean fits fits' =
    let name = absolute_file file in
    let local : c_string (put_string file_name name) ≡ name =
      c_string-put_string file_name name clean in
    let meta : (download_names file_name meta_name file).1 ≡ name ++ mdata =
      ap (λ s. c_string (str_cat (put_string meta_name s) mdata)) local
      ∙ with_mdata meta_name name clean fits in
    let longer : length (name ++ mdata) ≡ length name + 6 = length-append {0} name mdata in
    (
      local,
      meta,
      meta ∙ sym (with_mdata abs_file name clean fits'),
      rw (meta, local)
          (bytes_eq_apart (name ++ mdata) name (λ e. absurd (omega (arith, e, longer)))),
      rw (meta, local)
          (bytes_eq_apart name (name ++ mdata) (λ e. absurd (omega (arith, e, longer)))),
    )
