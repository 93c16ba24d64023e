-- ===== src/Protocol/Download/Files.antt =====
-- What a process of a download reads from the metadata file, and what its update leaves there.
use mathlib.Core.Option.{some-injective}
use mhftp.Base.{
  ℕ, subst, ◌≡◌, refl, sym, ap, ◌∙◌, false, Option, none, some, List, length, get_elem?, set,
  length-set,
}
use mhftp.Base.Int.{pos}
use mhftp.Posix.{Bytes, FileName, World, done, bytes_eq}
use mhftp.Crypt.{Md5}
use mhftp.Metadata.{ChunkStatus, ChunkInfo, ch_download, Metadata, IsWellFormed}
use mhftp.Metadata.Table.{with_status, get_next_pending_chunk, set_chunk_status}
use mhftp.Metadata.Table.Pending.{IsNextPending, get_next_pending_chunk_finds}
use mhftp.Metadata.Disk.{load_metadata, update_control_data}
use mhftp.Metadata.Disk.RoundTrip.{
  Holds, image, with_file, with_file-other, with_file-Holds, load_metadata-Holds,
  renamed-IsWellFormed,
}
use mhftp.Metadata.Disk.Update.{with_table, update_control_data_lem, with_table-IsWellFormed}
use mhftp.Protocol.Download.Entries.{set_chunk_status_lem, set-IsChunk}
use mhftp.Protocol.Download.Invariant.{Current, Local}
use mhftp.Protocol.Download.{publishing}
use mhftp.Protocol.Download.Marked.{set-IsWellFormed}

pub done-injective {ℓ} :
    {A : Type ℓ} (a a' : A) (w w' : World) → done a w ≡ done a' w' → (a ≡ a') × (w ≡ w')
done-injective a a' w w' e = (cc, cc)

-- The change of an entry in an object that has the table of the file.
pub set-Current :
    (c : ℕ) (table : List ChunkInfo) (m m' : Metadata) (i : ℕ) (e : ChunkInfo)
    (status : ChunkStatus) (d : Option Bytes)
    → Current c table m
    → get_elem? table i ≡ some e
    → ((bs : Bytes) → d ≡ some bs → length bs ≡ 16)
    → set_chunk_status m i status d ≡ some m'
    → Current c (set table i (with_status status d e)) m'
set-Current c table m m' i e status d (wf, same, sized) there digest h =
    let there' : get_elem? m.chunk_info i ≡ some e = ap (λ t. get_elem? t i) same ∙ there in
    let changed = set_chunk_status_lem m.chunk_info i e there' m m' status d refl h in
    let wf' =
      set-IsWellFormed m i (with_status status d e) wf
        (set-IsChunk m.chunk_info i e status d there' digest wf.entries) in
    subst (Current c (set table i (with_status status d e))) (sym changed)
      (wf', ap (λ t. set t i (with_status status d e)) same, sized)

pub claim-Local :
    (md5 : Md5) (remote : Bytes) (c : ℕ) (table : List ChunkInfo) (content : Bytes)
    (m m' : Metadata) (i : ℕ)
    → Current c table m
    → get_next_pending_chunk m ≡ some (pos i)
    → set_chunk_status m i ch_download none ≡ some m'
    → Local md5 remote c table content (publishing m' i)
claim-Local md5 remote c table content m m' i (wf, same, sized) next h =
    let (r, q, found) = get_next_pending_chunk_finds m wf.chunks_counted in
    let (e, at, waits, _) =
      subst (IsNextPending m.chunk_info) (some-injective _ _ (sym q ∙ next)) found in
    let there : get_elem? table i ≡ some e = ap (λ t. get_elem? t i) (sym same) ∙ at in
    (
      e,
      there,
      waits,
      set-Current c table m m' i e ch_download none (wf, same, sized) there (λ bs x. cc) h,
    )

module _ {c : ℕ} {meta_file : FileName} (header : Metadata) where
  -- What `LoadMetadata` gives is the table of the file.
  pub load-Current :
      header.chunk_size ≡ pos c
      → (table : List ChunkInfo) (m m' : Metadata) (w w' : World)
      → IsWellFormed (with_table header table)
      → Holds w meta_file (with_table header table)
      → load_metadata m meta_file w ≡ done m' w'
      → Current c table m' × (w ≡ w')
  load-Current sized table m m' w w' wf h e =
      let (same, kept) =
        done-injective _ _ _ _
          (sym (load_metadata-Holds (with_table header table) m meta_file w wf h) ∙ e) in
      (
        subst (Current c table) same
            (renamed-IsWellFormed (with_table header table) m.file_metadata wf, refl, sized),
        kept,
      )

  -- What `UpdateControlData` leaves is the new table in the metadata file, and the local file as it was.
  pub update-Holds :
      {local_file : FileName}
      → bytes_eq meta_file local_file ≡ false
      → (table : List ChunkInfo) (i : ℕ) (v : ChunkInfo) (content : Bytes) (m : Metadata)
        (w w' : World)
      → IsWellFormed (with_table header table)
      → Holds w meta_file (with_table header table)
      → w.files local_file ≡ some content
      → Current c (set table i v) m
      → update_control_data m meta_file w ≡ done tt w'
      → IsWellFormed (with_table header (set table i v))
        × Holds w' meta_file (with_table header (set table i v))
        × (w'.files local_file ≡ some content)
  update-Holds {local_file} apart table i v content m w w' wf h stored (wf', same, _) e =
      let many : length m.chunk_info ≡ length table = ap length same ∙ length-set table i v in
      let (_, kept) =
        done-injective _ _ _ _ (
          sym (update_control_data_lem (with_table header table) m meta_file w wf wf' many h)
          ∙ e) in
      let after = with_file w meta_file (image (with_table header m.chunk_info) h.rest) in
      (
        subst (λ t. IsWellFormed (with_table header t)) same
            (with_table-IsWellFormed (with_table header table) m wf wf' many),
        subst (λ u. Holds u meta_file (with_table header (set table i v))) kept
            (subst (λ t. Holds after meta_file (with_table header t)) same
              (with_file-Holds w meta_file (with_table header m.chunk_info) h.rest h.allowed)),
        ap (λ u. World.files u local_file) (sym kept)
            ∙ with_file-other w meta_file local_file _ apart
            ∙ stored,
      )
