-- ===== src/InitFile/Created.antt =====
-- `initFile create`: what the metadata file holds then.
use mhftp.Base.{
  ℕ, ◌*◌, ◌^◌, ◌<◌, ◌≤◌, ◌≡◌, ◌≢◌, ◌⊎◌, inl, inr, refl, ap, ◌∙◌, true, false, none, some, List, [],
  ◌∷◌, arith, length, replicate, All,
}
use mhftp.Base.Int.{pos, leb_ℤ, eq_ℤ}
use mhftp.Posix.{
  Bytes, FileName, World, Outcome, done, exit, fault, M, ◌>>=◌, pure, bytes_eq, c_string,
}
use mhftp.Posix.Decimal.{atoi}
use mhftp.Tools.{str_cat}
use mhftp.Crypt.{Md5}
use mhftp.Metadata.{default_chunk_size, Metadata}
use mhftp.Metadata.PayLoad.{chunk_count}
use mhftp.Metadata.Disk.{load_metadata}
use mhftp.Metadata.Create.{stored_name, store_metadata, create}
use mhftp.Metadata.Create.Stored.{fresh, asked, load_metadata-store_metadata}
use mhftp.Protocol.Client.{max_chunk_size}
use mhftp.Metadata.Create.Described.{full_name_lem, described, create_stores}
use mhftp.InitFile.{create_word, create_meta_data, asked_size, run_create, init_file_main}

-- The result of a computation that a later one does not read.
>>=-unread {ℓ} :
    {A : Type ℓ} (m : M A) (k : M Metadata) (w : World)
    → (((m >>= λ _. pure (tt {0})) >>= λ _. pure {A = Bytes} []) >>= λ _. k) w ≡ (m >>= λ _. k) w
>>=-unread m k w = by_outcome (m w) refl
  where
    by_outcome :
        (o : Outcome _)
        → m w ≡ o
        → (((m >>= λ _. pure (tt {0})) >>= λ _. pure {A = Bytes} []) >>= λ _. k) w
          ≡ (m >>= λ _. k) w
    by_outcome (done a w') e = rw (e, ◌>>=◌) refl
    by_outcome (exit c w') e = rw (e, ◌>>=◌) refl
    by_outcome fault e = rw (e, ◌>>=◌) refl

>>=-same {ℓ κ} :
    {A : Type ℓ} {B : Type κ} (m m' : M A) (f : A → M B) (w : World)
    → m w ≡ m' w
    → (m >>= f) w ≡ (m' >>= f) w
>>=-same m m' f w e = rw (e, ◌>>=◌) refl

-- The arguments of `initFile create` that ask for chunks of `c` bytes.
abbrev pub Asks : Bytes → FileName → ℕ → List Bytes → Type 0
Asks program name c argv =
    ((argv ≡ program ∷ create_word ∷ name ∷ []) × (c ≡ default_chunk_size))
    ⊎ ((number : Bytes) × (argv ≡ program ∷ create_word ∷ name ∷ number ∷ [])
        × (atoi number ≡ pos c))

module _ (md5 : Md5) (m m0 : Metadata) (program : Bytes) (name : FileName) (file : Bytes)
    (w : World) (c n : ℕ) (there : w.files name ≡ some file) (allowed : w.deny name ≡ false)
    (positive : 0 < c) (counted : chunk_count (length file) (pos c) ≡ some (pos n)) where
  run_create_lem :
      (argv : List Bytes)
      → Asks program name c argv
      → c ≤ max_chunk_size
      → init_file_main md5 m argv w
        ≡ ((create md5 m name none (pos c) true >>= λ _. pure (tt {0})) >>= λ _. pure []) w
  unfolding init_file_main run_create asked_size create_meta_data bytes_eq
  run_create_lem argv (inl (e, default)) le = rw (e, default) refl
  run_create_lem argv (inr (number, e, size)) le =
      let fits : leb_ℤ (pos c) (pos max_chunk_size) ≡ true = ground arith in
      let some_size : eq_ℤ (pos c) (pos 0) ≡ false = ground arith in
      rw (e, size, fits, some_size) refl

  -- `initFile create` on a file that exists and may be opened, of less than 2^63 bytes, with a name of less
  -- than 2048 characters, none of them zero, and with a chunk size between 1 and MAX_CHUNK_SIZE or none,
  -- which stands for CHUNK_SIZE. The table of its chunks takes less than 2^31 bytes, and the metadata file
  -- may be opened; its name is what `AbsoluteFile` makes of that of the file, with ".mdata". Then the
  -- program succeeds, and what `LoadMetadata` reads from the metadata file is a new object, not in use,
  -- with the size and the digest of the file, the chunk size, their count, and a table of pending chunks
  -- that `initControlData` makes.
  pub init_file_main-create :
      (argv : List Bytes)
      → Asks program name c argv
      → c ≤ max_chunk_size
      → All (λ b. b ≢ 0) name
      → length name < 2048
      → length file < 2 ^ 63
      → n * 32 < 2 ^ 31
      → w.deny (c_string (stored_name name none)) ≡ false
      → (w' : World) × ((init_file_main md5 m argv >>= λ _.
              load_metadata m0 (c_string (stored_name name none)))
            w
          ≡ done
              (record (fresh (described md5 m name file) (length file) c n) {
                file_full = str_cat (replicate 2048 0) name;
                file_metadata = m0.file_metadata;
              })
              w')
  init_file_main-create argv asks le clean fits small few may =
      let (full, size) = full_name_lem name clean fits in
      let (w', e) =
        load_metadata-store_metadata (described md5 m name file) m0 name none w file c n
          (md5.length-final _) (omega arith) size small positive (omega (arith, le)) counted few
          (ap w.files full ∙ there) may in
      let load = load_metadata m0 (c_string (stored_name name none)) in
      (
        w',
        >>=-same (init_file_main md5 m argv)
              ((create md5 m name none (pos c) true >>= λ _. pure (tt {0})) >>= λ _.
                pure {A = Bytes} [])
              (λ _. load) w (run_create_lem argv asks le)
            ∙ >>=-unread (create md5 m name none (pos c) true) load w
            ∙ >>=-same (create md5 m name none (pos c) true)
                (store_metadata (asked (described md5 m name file) c n) name none) (λ _. load) w
                (create_stores md5 m name file w c n there allowed counted)
            ∙ e,
      )
