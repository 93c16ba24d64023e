-- ===== src/Metadata/Create.antt =====
-- protocol/metadata.cpp: a new metadata object and its file (`create`, `StoreMetadata`,
-- `writeControlData`, `HasMetadataFile`).
pub mod Stored
pub mod Described
use mathlib.Core.Option
use mhftp.Base.{
  ℕ, zero, suc, Bool, true, false, Option, none, some, List, [], ◌∷◌, ◌++◌, if◌then◌else◌, length,
  replicate,
}
use mhftp.Base.Int.{ℤ, pos, negsuc}
use mhftp.Posix.{
  Bytes, FileName, World, done, M, ◌>>=◌, ◌>>◌, lift, pure, c_string, put_string, put_file,
  open_or_exit, create_or_exit, write_seq,
}
use mhftp.Crypt.{Md5, md5_file}
use mhftp.Tools.{str_cat, absolute_file}
use mhftp.Metadata.{Metadata}
use mhftp.Metadata.PayLoad.{chunk_count, init_control_data}
use mhftp.Metadata.Disk.{load_metadata, table_bytes, header_parts}

-- ".mdata"
abbrev pub mdata : Bytes
mdata = b'.' ∷ b'm' ∷ b'd' ∷ b'a' ∷ b't' ∷ b'a' ∷ []

-- The buffer `fileMetadata` of 1024 bytes, which is taken to be long enough: what `AbsoluteFile` makes of the
-- name of the file, and ".mdata".
unfoldable pub metadata_name : FileName → Bytes
metadata_name file_name = str_cat (str_cat (replicate 1024 0) (absolute_file file_name)) mdata

-- The same, unless the caller gives a name.
unfoldable pub stored_name : FileName → Option FileName → Bytes
unfolding metadata_name
stored_name file_name none = metadata_name file_name
stored_name file_name (some name) = put_string (replicate 1024 0) name

-- `st_size` after `stat`, in a structure of zeros.
abbrev pub stat_size : FileName → M ℕ
stat_size name w = elim (w.files name) [ none ↦ done 0 w | some bs ↦ done (length bs) w ]

-- The table that `writeControlData` makes, by `initControlData`, and writes.
unfoldable pub control_data : Metadata → Option (Metadata × Bytes)
unfolding Option.bind
control_data m =
    Option.bind (init_control_data m)
      (λ m'. Option.map (λ table. (m', table)) (table_bytes m'.chunks m'.chunk_info))

-- The parameters `chunkSize` and `chunks` go into the header; `writeControlData` uses the fields, which
-- the callers give as parameters.
unfoldable pub store_metadata : Metadata → FileName → Option FileName → M Metadata
unfolding stored_name control_data header_parts put_file
store_metadata m file_name given = do
  let file_full = str_cat (replicate 2048 0) file_name
  let file_metadata = c_string (stored_name file_name given)
  content ← create_or_exit file_metadata 1
  file_size ← stat_size (c_string file_full)
  let m' = record m { file_size = pos file_size; file_metadata = file_metadata }
  made ← lift (control_data m')
  put_file file_metadata (
      write_seq 0 (header_parts (record made.0 { file_full = file_full }) ++ (made.1 ∷ [])) content)
  pure made.0

-- `create`: the size, the count of chunks, the name and the digest of a file that exists.
unfoldable pub create : Md5 → Metadata → FileName → Option FileName → ℤ → Bool → M Metadata
unfolding store_metadata
create md5 m file_name given chunk_size save = do
  file ← open_or_exit file_name 1
  chunks ← lift (chunk_count (length file) chunk_size)
  digest ← lift (md5_file md5 file)
  let m' = record m {
    file_size = pos (length file);
    chunk_size = chunk_size;
    chunks = chunks;
    file_full = put_string m.file_full file_name;
    digest = digest;
    in_use = 0;
  }
  if save then store_metadata m' file_name given else pure m'

-- `HasMetadataFile`: whether the file is there, and the object, loaded if the caller wants it.
unfoldable pub has_metadata_file : Metadata → FileName → Bool → M (Bool × Metadata)
has_metadata_file m file_name load w = elim (w.files (c_string (metadata_name file_name))) [
  | none ↦ done (false, m) w
  | some _ ↦
      let file_metadata = c_string (metadata_name file_name) in
      if load
      then (load_metadata (record m { file_metadata = file_metadata }) file_metadata >>= λ m'.
            pure (true, m'))
          w
      else done (true, m) w
]
