-- ===== src/MhStatus/Recovered.antt =====
-- `mhstatus --recover` and `mhstatus --reset`, with `--force` and without.
use mhftp.Base.{◌≡◌, ◌≢◌, ◌⊎◌, inl, inr, refl, ap, ap₂, ◌∙◌, Bool, List, [], ◌∷◌, arith}
use mhftp.Posix.{Bytes, World, done, exit, ◌>>=◌, bytes_eq}
use mhftp.Crypt.{Md5}
use mhftp.Metadata.{
  ChunkStatus, ch_ok, ch_pending, ch_error, ch_download, ch_upload, ChunkInfo, Metadata,
  IsWellFormed,
}
use mhftp.Metadata.Table.{recovered}
use mhftp.Metadata.Disk.{load_metadata}
use mhftp.Metadata.Disk.RoundTrip.{
  Holds, load_metadata-Holds, with_file-Holds, renamed-IsWellFormed,
}
use mhftp.Metadata.Reset.Effects.{
  with_statuses, after_reset, over, after_reset-IsWellFormed, reset_downloading_chunks_lem,
  reset_downloading_chunks_refused,
}
use mhftp.MhStatus.{
  reset_output, long_recover, short_recover, long_reset, short_reset, long_force, short_force,
  command_of_args, recover_meta_data, run_command, status_main,
}

abbrev pub IsRecover : Bytes → Type 0
IsRecover option = (option ≡ long_recover) ⊎ (option ≡ short_recover)

abbrev pub IsReset : Bytes → Type 0
IsReset option = (option ≡ long_reset) ⊎ (option ≡ short_reset)

abbrev pub IsForce : Bytes → Type 0
IsForce option = (option ≡ long_force) ⊎ (option ≡ short_force)

-- The status of a chunk behind a recovery.
abbrev pub after_recovery : ChunkStatus → ChunkStatus
after_recovery ch_ok = ch_ok
after_recovery ch_pending = ch_pending
after_recovery ch_error = ch_pending
after_recovery ch_download = ch_pending
after_recovery ch_upload = ch_upload

recovered_lem :
    (table : List ChunkInfo) → with_statuses recovered table ≡ with_statuses after_recovery table
recovered_lem [] = refl
recovered_lem (c ∷ table) =
    ap₂ (λ s t. record c { status = s } ∷ t) (one c.status) (recovered_lem table)
  where
    one : (s : ChunkStatus) → recovered s ≡ after_recovery s
    one ch_ok = refl
    one ch_pending = refl
    one ch_error = refl
    one ch_download = refl
    one ch_upload = refl

module _ (program file : Bytes) where
  recover_command :
      (option : Bytes)
      → IsRecover option
      → command_of_args (program ∷ option ∷ file ∷ []) ≡ recover_meta_data file 0
  unfolding command_of_args bytes_eq
  recover_command option (inl e) = rw e refl
  recover_command option (inr e) = rw e refl

  forced_recover_command :
      (option force : Bytes)
      → IsRecover option
      → IsForce force
      → command_of_args (program ∷ option ∷ force ∷ file ∷ []) ≡ recover_meta_data file 1
  unfolding command_of_args bytes_eq
  forced_recover_command option force (inl e) (inl f) = rw (e, f) refl
  forced_recover_command option force (inl e) (inr f) = rw (e, f) refl
  forced_recover_command option force (inr e) (inl f) = rw (e, f) refl
  forced_recover_command option force (inr e) (inr f) = rw (e, f) refl

module _ (nocolor : Bool) (md5 : Md5) (m m0 : Metadata) (program option force file : Bytes)
    (w : World) (wf : IsWellFormed m) (h : Holds w file m) where
  -- `LoadMetadata` keeps the name in the object.
  abbrev loaded : Metadata
  loaded = record m { file_metadata = m0.file_metadata }

  -- What `LoadMetadata` reads after a reset.
  reads_reset :
      (f : ChunkStatus → ChunkStatus)
      → load_metadata m0 file (over m (after_reset f loaded) w file h.rest)
        ≡ done (after_reset f loaded) (over m (after_reset f loaded) w file h.rest)
  reads_reset f =
      load_metadata-Holds (after_reset f loaded) m0 file _
        (after_reset-IsWellFormed f loaded (renamed-IsWellFormed m m0.file_metadata wf))
        (with_file-Holds w file (after_reset f loaded) _ h.allowed)

  -- `mhstatus --recover`, or `-r`, on the file of a well-formed object. A file in use is refused with exit
  -- status 1, unless `--force`, or `-f`, is given. Else the program succeeds without a message, and what
  -- `LoadMetadata` reads then is the object, not in use, with the chunks in CH_DOWNLOAD and CH_ERROR
  -- pending again. Those in CH_UPLOAD stay in CH_UPLOAD, although README says that all chunks that are not
  -- OK become pending.
  pub status_main-recover :
      IsRecover option
      → IsForce force
      → (m.in_use ≢ 0 → status_main nocolor md5 m0 (program ∷ option ∷ file ∷ []) w ≡ exit 1 w)
        × (w' : World) × (m.in_use ≡ 0
            → status_main nocolor md5 m0 (program ∷ option ∷ file ∷ []) w ≡ done [] w')
        × (status_main nocolor md5 m0 (program ∷ option ∷ force ∷ file ∷ []) w ≡ done [] w')
        × (load_metadata m0 file w' ≡ done (after_reset after_recovery loaded) w')
  unfolding status_main run_command reset_output
  status_main-recover is_recover is_force = (
    λ used.
        rw
          (
            recover_command program file option is_recover,
            run_command,
            ◌>>=◌,
            reset_downloading_chunks_refused m m0 file w 0 wf h used refl,
          )
          refl,
    over m (after_reset recovered loaded) w file h.rest,
    λ free.
        rw
          (
            recover_command program file option is_recover,
            run_command,
            ◌>>=◌,
            reset_downloading_chunks_lem m m0 file w 0 wf h (inl free),
          )
          refl,
    rw
        (
          forced_recover_command program file option force is_recover is_force,
          run_command,
          ◌>>=◌,
          reset_downloading_chunks_lem m m0 file w 1 wf h (inr (λ e. absurd (omega arith))),
        )
        refl,
    reads_reset recovered
        ∙ ap
            (λ t.
              done (record loaded { in_use = 0; chunk_info = t })
                (over m (after_reset recovered loaded) w file h.rest))
            (recovered_lem m.chunk_info),
  )
