-- ===== src/Metadata/Reset/Effects.antt =====
-- What a reset leaves in the metadata file.
use mhftp.Base.{
  ℕ, suc, ◌≡◌, ◌≢◌, ◌⊎◌, refl, sym, ap, ◌∙◌, true, false, not, ◌&&◌, some, List, [], ◌∷◌, arith,
  ◌==◌, length, All, drop,
}
use mhftp.Base.Int.{pos, negsuc, pos_part}
use mhftp.Posix.{Bytes, World, FileName, done, exit, ◌>>=◌}
use mhftp.Metadata.{ChunkStatus, ChunkInfo, Metadata, IsChunk, IsWellFormed}
use mhftp.Metadata.Table.{recovered, forgotten, status_loop}
use mhftp.Metadata.Disk.{save_metadata}
use mhftp.Metadata.Disk.RoundTrip.{
  Holds, image, with_file, load_metadata-Holds, save_metadata_lem, renamed-IsWellFormed,
}
use mhftp.Metadata.Reset.{reset_downloading_chunks, reset_all_chunks}

-- The table with every status changed by `f`.
abbrev pub with_statuses : (ChunkStatus → ChunkStatus) → List ChunkInfo → List ChunkInfo
with_statuses f [] = []
with_statuses f (c ∷ table) = record c { status = f c.status } ∷ with_statuses f table

-- The object after a reset.
abbrev pub after_reset : (ChunkStatus → ChunkStatus) → Metadata → Metadata
after_reset f m = record m { in_use = 0; chunk_info = with_statuses f m.chunk_info }

module _ (f : ChunkStatus → ChunkStatus) where
  pub length-with_statuses :
      (table : List ChunkInfo) → length (with_statuses f table) ≡ length table
  length-with_statuses [] = refl
  length-with_statuses (c ∷ table) = ap suc (length-with_statuses table)

  with_statuses-IsChunk :
      (table : List ChunkInfo) → All IsChunk table → All IsChunk (with_statuses f table)
  with_statuses-IsChunk [] h = tt
  with_statuses-IsChunk (c ∷ table) h = (h.0, with_statuses-IsChunk table h.1)

  status_loop_lem :
      (table : List ChunkInfo) → status_loop f (length table) table ≡ some (with_statuses f table)
  unfolding status_loop
  status_loop_lem [] = refl
  status_loop_lem (c ∷ table) = rw (status_loop_lem table) refl

  loop_of :
      (m : Metadata)
      → IsWellFormed m
      → status_loop f (pos_part m.chunks) m.chunk_info ≡ some (with_statuses f m.chunk_info)
  loop_of m wf =
      ap (λ n. status_loop f (pos_part n) m.chunk_info) wf.chunks_counted
      ∙ status_loop_lem m.chunk_info

  pub after_reset-IsWellFormed : (m : Metadata) → IsWellFormed m → IsWellFormed (after_reset f m)
  after_reset-IsWellFormed m wf = record {
    digest_length = wf.digest_length;
    file_full_length = wf.file_full_length;
    file_size_fits = wf.file_size_fits;
    chunk_size_fits = wf.chunk_size_fits;
    chunks_counted = wf.chunks_counted ∙ ap pos (sym (length-with_statuses m.chunk_info));
    few = omega (arith, wf.few, length-with_statuses m.chunk_info);
    in_use_fits = omega arith;
    entries = with_statuses-IsChunk m.chunk_info wf.entries;
  }

-- The image that `SaveMetadata` makes of an object over the file of another.
abbrev pub over : Metadata → Metadata → World → FileName → Bytes → World
over m m' w name rest = with_file w name (image m' (drop (length (image m' [])) (image m rest)))

module _ (m m0 : Metadata) (name : FileName) (w : World) (force : ℕ) (wf : IsWellFormed m)
    (h : Holds w name m) where
  -- `LoadMetadata` keeps the name in the object.
  abbrev loaded : Metadata
  loaded = record m { file_metadata = m0.file_metadata }

  loaded-IsWellFormed : IsWellFormed loaded
  loaded-IsWellFormed = renamed-IsWellFormed m m0.file_metadata wf

  save_reset :
      (f : ChunkStatus → ChunkStatus)
      → save_metadata (after_reset f loaded) name w
        ≡ done tt (over m (after_reset f loaded) w name h.rest)
  save_reset f =
      save_metadata_lem (after_reset f loaded) name w _
        (after_reset-IsWellFormed f loaded loaded-IsWellFormed) h.stored h.allowed

  -- On the file of a well-formed object that is not in use, or by force, `resetDownloadingChunks` leaves a
  -- free file in which the chunks in CH_DOWNLOAD and CH_ERROR are pending; every other status, digest and
  -- size is kept.
  pub reset_downloading_chunks_lem :
      (m.in_use ≡ 0) ⊎ (force ≢ 0)
      → reset_downloading_chunks m0 name force w
        ≡ done (after_reset recovered loaded) (over m (after_reset recovered loaded) w name h.rest)
  unfolding reset_downloading_chunks
  reset_downloading_chunks_lem free =
      let passes : not (not (m.in_use == 0) && force == 0) ≡ true = ground arith in
      rw
        (
          load_metadata-Holds m m0 name w wf h,
          ◌>>=◌,
          passes,
          loop_of recovered m wf,
          save_reset recovered,
        )
        refl

  -- On the file of a well-formed object in use and without force, `resetDownloadingChunks` ends the process
  -- with 1 and the file is as it was.
  pub reset_downloading_chunks_refused :
      m.in_use ≢ 0 → force ≡ 0 → reset_downloading_chunks m0 name force w ≡ exit 1 w
  unfolding reset_downloading_chunks
  reset_downloading_chunks_refused used unforced =
      let refused : not (not (m.in_use == 0) && force == 0) ≡ false = ground arith in
      rw (load_metadata-Holds m m0 name w wf h, ◌>>=◌, refused) refl

  -- On the file of a well-formed object that is not in use, or by force, `resetAllChunks` returns 0 and
  -- leaves a free file in which every chunk is pending; digests and sizes are kept.
  pub reset_all_chunks_lem :
      (m.in_use ≡ 0) ⊎ (force ≢ 0)
      → reset_all_chunks m0 name force w
        ≡ done
            (pos 0, after_reset forgotten loaded)
            (over m (after_reset forgotten loaded) w name h.rest)
  unfolding reset_all_chunks
  reset_all_chunks_lem free =
      let passes : (force == 0 && not (m.in_use == 0)) ≡ false = ground arith in
      rw
        (
          load_metadata-Holds m m0 name w wf h,
          ◌>>=◌,
          passes,
          loop_of forgotten m wf,
          save_reset forgotten,
        )
        refl

  -- On the file of a well-formed object in use and without force, `resetAllChunks` returns -1 and the file
  -- is as it was.
  pub reset_all_chunks_refused :
      m.in_use ≢ 0 → force ≡ 0 → reset_all_chunks m0 name force w ≡ done (negsuc 0, loaded) w
  unfolding reset_all_chunks
  reset_all_chunks_refused used unforced =
      let refused : (force == 0 && not (m.in_use == 0)) ≡ true = ground arith in
      rw (load_metadata-Holds m m0 name w wf h, ◌>>=◌, refused) refl
