-- ===== src/Metadata/Reset/Aborted.antt =====
-- What a recovery does with the chunks of an upload that was stopped.
use mhftp.Base.{
  ℕ, true, false, zero, suc, ◌≡◌, ◌≢◌, ◌⊎◌, sym, ap, ◌∙◌, some, List, [], ◌∷◌, get_elem?,
}
use mathlib.Core.Option.{some-injective}
use mhftp.Base.Int.{ℤ, pos, negsuc, pos_part}
use mhftp.Posix.{World, FileName, done}
use mhftp.Metadata.{ch_upload, ChunkInfo, Metadata, IsWellFormed}
use mhftp.Metadata.Table.{recovered, is_pending, get_next_pending_chunk}
use mhftp.Metadata.Table.Pending.{IsNextPending, get_next_pending_chunk_finds}
use mhftp.Metadata.Disk.{load_metadata}
use mhftp.Metadata.Disk.RoundTrip.{
  Holds, load_metadata-Holds, with_file-Holds, renamed-IsWellFormed,
}
use mhftp.Metadata.Reset.{reset_downloading_chunks}
use mhftp.Metadata.Reset.Effects.{
  with_statuses, after_reset, over, after_reset-IsWellFormed, reset_downloading_chunks_lem,
}

with_statuses-upload :
    (table : List ChunkInfo) (i : ℕ) (c : ChunkInfo)
    → get_elem? table i ≡ some c
    → c.status ≡ ch_upload
    → get_elem? (with_statuses recovered table) i ≡ some c
with_statuses-upload [] i c e u = absurd cc
with_statuses-upload (x ∷ table) zero c e u =
    let same : x ≡ c = some-injective _ _ e in
    let status : x.status ≡ ch_upload = ap ChunkInfo.status same ∙ u in
    ap (λ s. some (record x { status = recovered s })) status
    ∙ ap (λ s. some (record x { status = s })) (sym status)
    ∙ e
with_statuses-upload (x ∷ table) (suc i) c e u = with_statuses-upload table i c e u

-- `resetDownloadingChunks`, on the file of a well-formed object that is not in use, or by force, with a chunk in
-- CH_UPLOAD: it ends, what `LoadMetadata` reads then has that entry as it was, and
-- `getNextPendingChunk` returns a number that is not the one of that chunk. So no process sends it again.
pub reset_downloading_chunks-upload :
    (m m0 : Metadata) (name : FileName) (w : World) (force : ℕ)
    → IsWellFormed m
    → Holds w name m
    → (m.in_use ≡ 0) ⊎ (force ≢ 0)
    → (i : ℕ) (c : ChunkInfo) → get_elem? m.chunk_info i ≡ some c
    → c.status ≡ ch_upload
    → (m1 : Metadata) × (w1 : World) × (reset_downloading_chunks m0 name force w ≡ done m1 w1)
      × (load_metadata m0 name w1 ≡ done m1 w1)
      × (get_elem? m1.chunk_info i ≡ some c)
      × (r : ℤ) × (get_next_pending_chunk m1 ≡ some r)
      × (r ≢ pos i)
reset_downloading_chunks-upload m m0 name w force wf h free i c at up =
    let loaded = record m { file_metadata = m0.file_metadata } in
    let m1 = after_reset recovered loaded in
    let w1 = over m m1 w name h.rest in
    let wf1 =
      after_reset-IsWellFormed recovered loaded (renamed-IsWellFormed m m0.file_metadata wf) in
    let kept = with_statuses-upload m.chunk_info i c at up in
    let (r, finds, next) = get_next_pending_chunk_finds m1 wf1.chunks_counted in
    (
      m1,
      w1,
      reset_downloading_chunks_lem m m0 name w force wf h free,
      load_metadata-Holds m1 m0 name w1 wf1 (with_file-Holds w name m1 _ h.allowed),
      kept,
      r,
      finds,
      λ same. other m1.chunk_info kept r next same,
    )
  where
    other :
        (table : List ChunkInfo)
        → get_elem? table i ≡ some c
        → (r : ℤ) → IsNextPending table r
        → r ≢ pos i
    other table kept (pos r) (d, found, pending, _) same =
        let at_r : r ≡ i = ap pos_part same in
        let d_is : d ≡ c = some-injective _ _ (sym found ∙ ap (get_elem? table) at_r ∙ kept) in
        let status : is_pending c.status ≡ true =
          ap (λ x. is_pending x.status) (sym d_is) ∙ pending in
        let waits : is_pending c.status ≡ false = ap is_pending up in cc
    other table kept (negsuc n) _ same = cc
