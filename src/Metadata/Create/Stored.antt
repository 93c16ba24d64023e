-- ===== src/Metadata/Create/Stored.antt =====
-- What a new metadata file holds.
use mhftp.Base.{
  ℕ, ◌*◌, ◌^◌, ◌<◌, ◌≡◌, refl, sym, ap, ◌∙◌, true, false, Option, none, some, [], arith, length,
  drop, replicate,
}
use mhftp.Base.Int.{pos}
use mhftp.Posix.{
  Bytes, FileName, World, done, ◌>>=◌, c_string, bytes_eq, bytes_eq→eq, create_or_exit,
}
use mhftp.Tools.{str_cat}
use mhftp.Metadata.{Metadata, IsWellFormed}
use mhftp.Metadata.PayLoad.{chunk_count, init_loop, new_table, init_control_data}
use mhftp.Metadata.PayLoad.Tiling.{length-init_loop, init_loop-All-IsChunk}
use mhftp.Metadata.Disk.{load_metadata, encode_table, table_bytes}
use mhftp.Metadata.Disk.Layout.{table_bytes_lem}
use mhftp.Metadata.Disk.RoundTrip.{
  Holds, image, with_file, with_file-other, with_file-Holds, load_metadata-Holds, saved,
}
use mhftp.Metadata.Create.{stored_name, control_data, store_metadata}

-- What `open` with O_CREAT does to the world: another file and the permissions are as they were.
created :
    (w : World) (name other : FileName) (file : Bytes)
    → w.files other ≡ some file
    → w.deny name ≡ false
    → (old : Bytes) × (w1 : World) × (create_or_exit name 1 w ≡ done old w1)
      × (w1.files other ≡ some file)
      × (w1.deny ≡ w.deny)
unfolding create_or_exit
created w name other file there allowed = by_old (w.files name) refl
  where
    unlike : w.files name ≡ none → bytes_eq name other ≡ false
    unlike e =
        let same : bytes_eq name other ≡ true → ⊥ = λ b.
          let q : w.files name ≡ w.files other = ap w.files (bytes_eq→eq name other b) in
          absurd cc in
        ground arith

    by_old :
        (r : Option Bytes)
        → w.files name ≡ r
        → (old : Bytes) × (w1 : World) × (create_or_exit name 1 w ≡ done old w1)
          × (w1.files other ≡ some file)
          × (w1.deny ≡ w.deny)
    by_old none e = (
      [],
      with_file w name [],
      rw (allowed, e) refl,
      with_file-other w name other [] (unlike e) ∙ there,
      refl,
    )
    by_old (some old) e = (old, w, rw (allowed, e) refl, there, refl)

-- The object of a new file: all its chunks are pending.
abbrev pub fresh : Metadata → ℕ → ℕ → ℕ → Metadata
fresh m f c n = record m {
  file_size = pos f;
  chunk_size = pos c;
  chunks = pos n;
  chunk_info = init_loop (pos f) (pos c) n 0;
}

abbrev pub asked : Metadata → ℕ → ℕ → Metadata
asked m c n = record m { chunk_size = pos c; chunks = pos n }

module _ (m : Metadata) (f c n : ℕ) where
  control_data_lem :
      (name : FileName)
      → control_data (record (asked m c n) { file_size = pos f; file_metadata = name })
        ≡ some (
          record (fresh m f c n) { file_metadata = name },
          encode_table (init_loop (pos f) (pos c) n 0),
        )
  unfolding control_data init_control_data new_table
  control_data_lem name =
      rw
        (ap (λ k. table_bytes (pos k) (init_loop (pos f) (pos c) n 0))
            (sym (length-init_loop f c n 0))
          ∙ table_bytes_lem (init_loop (pos f) (pos c) n 0))
        refl

  pub fresh-IsWellFormed :
      (full name : FileName)
      → length m.digest ≡ 16
      → m.in_use < 256
      → length full ≡ 2048
      → f < 2 ^ 63
      → 0 < c
      → c < 2 ^ 63
      → chunk_count f (pos c) ≡ some (pos n)
      → n * 32 < 2 ^ 31
      → IsWellFormed (record (fresh m f c n) { file_full = full; file_metadata = name })
  fresh-IsWellFormed full name d u l ff positive cc counted few = record {
    digest_length = d;
    file_full_length = l;
    file_size_fits = omega arith;
    chunk_size_fits = omega arith;
    chunks_counted = ap pos (sym (length-init_loop f c n 0));
    few = omega (arith, length-init_loop f c n 0);
    in_use_fits = u;
    entries = init_loop-All-IsChunk f c n positive cc counted;
  }

-- The object that `StoreMetadata` leaves in memory, and the one that it leaves in the file.
abbrev pub made : Metadata → FileName → Option FileName → ℕ → ℕ → ℕ → Metadata
made m file_name given f c n = record (fresh m f c n) {
  file_metadata = c_string (stored_name file_name given);
}

abbrev pub stored : Metadata → FileName → Option FileName → ℕ → ℕ → ℕ → Metadata
stored m file_name given f c n = record (made m file_name given f c n) {
  file_full = str_cat (replicate 2048 0) file_name;
}

module _ (m : Metadata) (file_name : FileName) (given : Option FileName) (w : World) (file : Bytes)
    (c n : ℕ) (d : length m.digest ≡ 16) (u : m.in_use < 256)
    (l : length (str_cat (replicate 2048 0) file_name) ≡ 2048) (ff : length file < 2 ^ 63)
    (positive : 0 < c) (cc : c < 2 ^ 63)
    (counted : chunk_count (length file) (pos c) ≡ some (pos n)) (few : n * 32 < 2 ^ 31)
    (there : w.files (c_string (str_cat (replicate 2048 0) file_name)) ≡ some file)
    (allowed : w.deny (c_string (stored_name file_name given)) ≡ false) where
  abbrev name : FileName
  name = c_string (stored_name file_name given)

  abbrev new : Metadata
  new = stored m file_name given (length file) c n

  pub stored-IsWellFormed : IsWellFormed new
  stored-IsWellFormed =
      fresh-IsWellFormed m (length file) c n (str_cat (replicate 2048 0) file_name) name d u l ff
        positive cc counted few

  -- `StoreMetadata` leaves the metadata file with the object, and the file of the data as it was, unless it is the
  -- same.
  pub store_metadata_lem :
      (w' : World) × (store_metadata (asked m c n) file_name given w
        ≡ done (made m file_name given (length file) c n) w')
      × Holds w' name new
      × (bytes_eq name (c_string (str_cat (replicate 2048 0) file_name)) ≡ false
          → w'.files (c_string (str_cat (replicate 2048 0) file_name)) ≡ some file)
      × (w'.deny ≡ w.deny)
  unfolding store_metadata
  store_metadata_lem =
      let (old, w1, opened, kept, same) = created w name _ file there allowed in
      let rest = drop (length (image new [])) old in
      (
        with_file w1 name (image new rest),
        rw (opened, ◌>>=◌, kept, control_data_lem m (length file) c n name, saved new old) refl,
        with_file-Holds w1 name new rest (ap (λ d. d name) same ∙ allowed),
        λ apart. with_file-other w1 name _ (image new rest) apart ∙ kept,
        same,
      )

-- What `LoadMetadata` reads after `StoreMetadata`, in a new file or over an old one, is a new object: the
-- size is that of the file with the given name, the chunk size, count, digest and mark are those of the
-- object, and the table is the one of `initControlData`. The file of the data has to exist, the metadata
-- file may be opened, the count is the one of `chunk_count`, and the numbers are in their ranges.
pub load_metadata-store_metadata :
    (m m0 : Metadata) (file_name : FileName) (given : Option FileName) (w : World) (file : Bytes)
    (c n : ℕ)
    → length m.digest ≡ 16
    → m.in_use < 256
    → length (str_cat (replicate 2048 0) file_name) ≡ 2048
    → length file < 2 ^ 63
    → 0 < c
    → c < 2 ^ 63
    → chunk_count (length file) (pos c) ≡ some (pos n)
    → n * 32 < 2 ^ 31
    → w.files (c_string (str_cat (replicate 2048 0) file_name)) ≡ some file
    → w.deny (c_string (stored_name file_name given)) ≡ false
    → (w' : World) × ((store_metadata (asked m c n) file_name given >>= λ _.
            load_metadata m0 (c_string (stored_name file_name given)))
          w
        ≡ done
            (record (fresh m (length file) c n) {
              file_full = str_cat (replicate 2048 0) file_name;
              file_metadata = m0.file_metadata;
            })
            w')
load_metadata-store_metadata m m0 file_name given w file c n d u l ff positive cc counted few there
      allowed =
    let (w', stores, holds, _, _) =
      store_metadata_lem m file_name given w file c n d u l ff positive cc counted few there
        allowed in
    let wf =
      stored-IsWellFormed m file_name given w file c n d u l ff positive cc counted few there
        allowed in
    (w', rw (stores, ◌>>=◌) (load_metadata-Holds _ m0 _ w' wf holds))
