-- ===== src/Metadata/Check/Verdicts.antt =====
-- What a check of the chunks finds.
use mathlib.Core.List.{append_assoc}
use mathlib.Core.Option
use mhftp.Base.{
  ℕ, ◌+◌, ◌≤◌, ◌≡◌, ◌≢◌, ◌⊎◌, inl, inr, refl, sym, ap, ◌∙◌, true, false, some, List, [], ◌∷◌, ◌++◌,
  arith, if◌then◌else◌, ◌==◌, length, take, drop, length-append, take-append, drop-append,
}
use mhftp.Base.Int.{pos, pos_part, leb_ℤ}
use mhftp.Posix.{Bytes, World, FileName, done, ◌>>=◌, bytes_eq, open_or_exit_lem}
use mhftp.Crypt.{Md5, md5_buffer}
use mhftp.Metadata.{ch_error, ChunkStatus, ChunkInfo, Metadata, IsWellFormed}
use mhftp.Metadata.Disk.RoundTrip.{Holds, load_metadata-Holds}
use mhftp.Metadata.Disk.Update.{with_table}
use mhftp.Metadata.Check.{is_ok, check_chunk, check_loop, check_data_chunks}

-- The parts of a file have the sizes of the entries, none above the size of a chunk.
abbrev pub Laid : ℕ → List ChunkInfo → List Bytes → Type 0
Laid cs [] [] = Unit
Laid cs (c ∷ table) (part ∷ parts) =
    (c.size ≡ pos (length part)) × (length part ≤ cs) × Laid cs table parts
Laid cs _ _ = ⊥

abbrev pub joined : List Bytes → Bytes
joined [] = []
joined (part ∷ parts) = part ++ joined parts

is_ok_cases : (s : ChunkStatus) → (is_ok s ≡ true) ⊎ (is_ok s ≡ false)
is_ok_cases s = ground arith

leb_ℤ_small : (a b : ℕ) → a ≤ b → leb_ℤ (pos a) (pos b) ≡ true
leb_ℤ_small a b h = ground arith

module _ (md5 : Md5) where
  -- A chunk in CH_OK whose part has another digest is in error; every other entry is kept.
  abbrev pub verdict : ChunkInfo → Bytes → ChunkInfo
  verdict c part =
      if is_ok c.status
      then (if bytes_eq (md5_buffer md5 part) c.md5sum then c else record c { status = ch_error })
      else c

  abbrev pub verdicts : List ChunkInfo → List Bytes → List ChunkInfo
  verdicts (c ∷ table) (part ∷ parts) = verdict c part ∷ verdicts table parts
  verdicts table _ = table

  check_chunk_lem :
      (cs : ℕ) (c : ChunkInfo) (part before after : Bytes)
      → c.size ≡ pos (length part)
      → length part ≤ cs
      → check_chunk md5 (pos cs) (before ++ (part ++ after)) (length before) c
        ≡ some (verdict c part, length before + length part)
  unfolding check_chunk
  check_chunk_lem cs c part before after e h =
      let whole : take (length part) (drop (length before) (before ++ (part ++ after))) ≡ part =
        ap (take (length part)) (drop-append before (part ++ after) (length before) refl)
        ∙ take-append part after (length part) refl in
      let small : leb_ℤ (pos (length part)) (pos cs) ≡ true = leb_ℤ_small (length part) cs h in
      elim (is_ok_cases c.status) [
        | inl q ↦ simp (q, e, small, whole) refl
        | inr q ↦ simp (q, e) refl
      ]

  pub check_loop_lem :
      (cs : ℕ) (table : List ChunkInfo) (parts : List Bytes) (before : Bytes)
      → Laid cs table parts
      → check_loop md5 (pos cs) (before ++ joined parts) (length before) (length table) table
        ≡ some (verdicts table parts)
  unfolding check_loop
  check_loop_lem cs [] [] before laid = refl
  check_loop_lem cs [] (part ∷ parts) before laid = absurd laid
  check_loop_lem cs (c ∷ table) [] before laid = absurd laid
  check_loop_lem cs (c ∷ table) (part ∷ parts) before laid =
      rw (check_chunk_lem cs c part before (joined parts) laid.0 laid.1) (
        ap (Option.map (λ t. verdict c part ∷ t)) (
          ap
            (λ file.
              check_loop md5 (pos cs) file (length before + length part) (length table) table)
            (sym (append_assoc before part (joined parts)))
          ∙ ap
              (λ p.
                check_loop md5 (pos cs) ((before ++ part) ++ joined parts) p (length table) table)
              (sym (length-append before part))
          ∙ check_loop_lem cs table parts (before ++ part) laid.2))

  abbrev pub renamed : Metadata → Metadata → Metadata
  renamed m m0 = record m { file_metadata = m0.file_metadata }

  table_of :
      (m : Metadata) (cs : ℕ) (parts : List Bytes)
      → IsWellFormed m
      → m.chunk_size ≡ pos cs
      → Laid cs m.chunk_info parts
      → check_loop md5 m.chunk_size (joined parts) 0 (pos_part m.chunks) m.chunk_info
        ≡ some (verdicts m.chunk_info parts)
  table_of m cs parts wf sized laid =
      ap (λ z. check_loop md5 z (joined parts) 0 (pos_part m.chunks) m.chunk_info) sized
      ∙ ap (λ n. check_loop md5 (pos cs) (joined parts) 0 (pos_part n) m.chunk_info)
          wf.chunks_counted
      ∙ check_loop_lem cs m.chunk_info parts [] laid

  -- `CheckDataChunks` with the metadata file of a well-formed object in use, on a file that lies in parts
  -- as the table says: the object has the new statuses, and no file changes.
  pub check_data_chunks_used :
      (m m0 : Metadata) (meta_file name : FileName) (w : World) (cs : ℕ) (parts : List Bytes)
      → IsWellFormed m
      → Holds w meta_file m
      → m.chunk_size ≡ pos cs
      → Laid cs m.chunk_info parts
      → w.files name ≡ some (joined parts)
      → w.deny name ≡ false
      → m.in_use ≢ 0
      → check_data_chunks md5 m0 meta_file name w
        ≡ done (with_table (renamed m m0) (verdicts m.chunk_info parts)) w
  unfolding check_data_chunks
  check_data_chunks_used m m0 meta_file name w cs parts wf h sized laid stored allowed used =
      let in_use : (m.in_use == 0) ≡ false = ground arith in
      rw
        (
          load_metadata-Holds m m0 meta_file w wf h,
          ◌>>=◌,
          open_or_exit_lem w name 1 (joined parts) stored allowed,
          table_of m cs parts wf sized laid,
          in_use,
        )
        refl
