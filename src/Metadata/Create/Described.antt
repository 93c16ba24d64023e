-- ===== src/Metadata/Create/Described.antt =====
-- What `create` makes of a file.
use mhftp.Base.{
  ℕ, suc, ◌<◌, ◌≡◌, ◌≢◌, refl, ap, ◌∙◌, true, false, none, some, [], arith, length, replicate, All,
  length-replicate,
}
use mhftp.Base.Int.{pos}
use mhftp.Posix.{Bytes, FileName, World, ◌>>=◌, c_string, put_string, open_or_exit_lem}
use mhftp.Tools.{str_cat}
use mhftp.Tools.Path.{str_cat_lem}
use mhftp.Crypt.{Md5, md5_buffer}
use mhftp.Crypt.Stream.{md5_file-md5_buffer}
use mhftp.Metadata.{Metadata}
use mhftp.Metadata.PayLoad.{chunk_count}
use mhftp.Metadata.Create.{store_metadata, create}
use mhftp.Metadata.Create.Stored.{asked}

-- The buffer of `StoreMetadata` holds the name.
pub full_name_lem :
    (name : FileName)
    → All (λ b. b ≢ 0) name
    → length name < 2048
    → (c_string (str_cat (replicate 2048 0) name) ≡ name)
      × (length (str_cat (replicate 2048 0) name) ≡ 2048)
unfolding replicate
full_name_lem name clean fits =
    let zeros : length (replicate {A = ℕ} 2047 0) ≡ 2047 = length-replicate {0} {A = ℕ} 2047 0 in
    let (full, size) =
      str_cat_lem [] name (replicate 2047 0) tt clean (omega (arith, fits, zeros)) in
    (full, size ∙ ap suc zeros)

-- The object that `create` stores.
abbrev pub described : Md5 → Metadata → FileName → Bytes → Metadata
described md5 m name file = record m {
  file_size = pos (length file);
  file_full = put_string m.file_full name;
  digest = md5_buffer md5 file;
  in_use = 0;
}

pub create_stores :
    (md5 : Md5) (m : Metadata) (name : FileName) (file : Bytes) (w : World) (c n : ℕ)
    → w.files name ≡ some file
    → w.deny name ≡ false
    → chunk_count (length file) (pos c) ≡ some (pos n)
    → create md5 m name none (pos c) true w
      ≡ store_metadata (asked (described md5 m name file) c n) name none w
unfolding create
create_stores md5 m name file w c n there allowed counted =
    rw (open_or_exit_lem w name 1 file there allowed, ◌>>=◌, counted, md5_file-md5_buffer md5 file)
      refl
