-- ===== src/Protocol/Sending/Updates.antt =====
-- What a process of an upload reads from the metadata file, and the invariant behind its two updates.
use mathlib.Core.Option.{some-injective}
use mhftp.Base.{
  ℕ, subst, ◌≡◌, ◌≢◌, refl, sym, ap, ◌∙◌, true, Option, none, some, List, length, get_elem?, set,
}
use mhftp.Base.Int.{pos}
use mhftp.Posix.{Bytes, FileName, World, done}
use mhftp.Metadata.{ChunkInfo, ch_ok, ch_upload, Metadata}
use mhftp.Metadata.PayLoad.{get_pay_load_array}
use mhftp.Metadata.Table.{is_pending, with_status, get_next_pending_chunk, set_chunk_status}
use mhftp.Metadata.Table.Pending.{IsNextPending, get_next_pending_chunk_finds}
use mhftp.Metadata.Disk.{load_metadata, update_control_data}
use mhftp.Metadata.Disk.RoundTrip.{load_metadata-Holds}
use mhftp.Metadata.Disk.Update.{with_table}
use mhftp.Protocol.Turns.{update}
use mhftp.Protocol.Download.Entries.{set_self, set_chunk_status_lem}
use mhftp.Protocol.Download.Invariant.{Current}
use mhftp.Protocol.Download.Files.{done-injective, set-Current, load-Current, update-Holds}
use mhftp.Protocol.Sending.{
  Point, claiming, publishing, claimed, recording, recorded, Process, owned_at, critical_at, owns,
}
use mhftp.Protocol.Sending.Invariant.{
  Local, owner-Marked, begun, Setting, pay_load_array, Inv, changed,
}

-- A step that does not update the metadata file keeps the table. The others change the status of one entry:
-- of a pending one to CH_UPLOAD, or of one in CH_UPLOAD to CH_OK.
abbrev pub Changed : Point → List ChunkInfo → List ChunkInfo → Type 0
Changed (publishing i) table table' =
    (e : ChunkInfo) × (v : ChunkInfo) × (get_elem? table i ≡ some e)
    × (is_pending e.status ≡ true)
    × (v.status ≡ ch_upload)
    × (table' ≡ set table i v)
Changed (recording i) table table' =
    (e : ChunkInfo) × (v : ChunkInfo) × (get_elem? table i ≡ some e)
    × (e.status ≡ ch_upload)
    × (v.status ≡ ch_ok)
    × (table' ≡ set table i v)
Changed _ table table' = table' ≡ table

no_chunk : {i : ℕ} → none ≡ some i → ⊥
no_chunk q = cc

module _ {meta_file local_file : FileName} {header : Metadata} {file : Bytes} {c k : ℕ}
    (setting : Setting meta_file local_file header file c k) {table : List ChunkInfo} {w : World}
    {lock : Option ℕ} {pc : ℕ → Process}
    (inv : Inv meta_file local_file header file c k table w lock pc) (me : ℕ) where
  -- The invariant behind a step of process `me` from the point `a`.
  abbrev pub After : Point → World → Option ℕ → Process → Type 0
  After a w' lock' p' =
      (table' : List ChunkInfo) × Inv meta_file local_file header file c k table' w' lock'
        (update pc me p')
      × Changed a table table'

  abbrev pub p : Process
  p = pc me

  pub local : (a : Point) → p.at ≡ a → Local c table a p.object
  local a here = subst (λ b. Local c table b p.object) here (inv.locals me)

  pub array : (a : Point) → p.at ≡ a → begun a ≡ true → p.sizes ≡ pay_load_array file c k
  array a here b = inv.arrays me (ap begun here ∙ b)

  -- What `LoadMetadata` gives.
  pub loaded :
      (m' : Metadata) (w' : World)
      → load_metadata p.object p.object.file_metadata w ≡ done m' w'
      → Current c table m'
        × (m'.file_metadata ≡ meta_file)
        × (get_pay_load_array m'.file_size m'.chunk_size m'.chunks ≡ pay_load_array file c k)
        × (w ≡ w')
  loaded m' w' e =
      let e' : load_metadata p.object meta_file w ≡ done m' w' =
        subst (λ n. load_metadata p.object n w ≡ done m' w') (inv.named me) e in
      let (current, kept) =
        load-Current header setting.sized table p.object m' w w' inv.well_formed inv.holds e' in
      let (same, _) = done-injective _ _ _ _ (
        sym (
          load_metadata-Holds (with_table header table) p.object meta_file w inv.well_formed
            inv.holds)
        ∙ e') in
      let many : header.chunks ≡ pos k = inv.well_formed.chunks_counted ∙ ap pos inv.counted in
      (
        current,
        ap Metadata.file_metadata (sym same) ∙ inv.named me,
        ap
              (λ m.
                get_pay_load_array (Metadata.file_size m) (Metadata.chunk_size m)
                  (Metadata.chunks m))
              (sym same)
            ∙ rw (setting.sized, setting.measured, many) refl,
        kept,
      )

  -- A change of status keeps the object's name.
  named_after :
      (m m' : Metadata) (i : ℕ) (e : ChunkInfo) (s : _) (d : Option Bytes)
      → get_elem? m.chunk_info i ≡ some e
      → set_chunk_status m i s d ≡ some m'
      → m.file_metadata ≡ meta_file
      → m'.file_metadata ≡ meta_file
  named_after m m' i e s d there q name =
      ap Metadata.file_metadata (set_chunk_status_lem m.chunk_info i e there m m' s d refl q) ∙ name

  pub claimed_next :
      (m' : Metadata) (i : ℕ)
      → p.at ≡ claiming
      → get_next_pending_chunk p.object ≡ some (pos i)
      → set_chunk_status p.object i ch_upload none ≡ some m'
      → Local c table (publishing i) m' × (m'.file_metadata ≡ meta_file)
  claimed_next m' i here next q =
      let (wf, same, sized) = local claiming here in
      let (r, found, first) = get_next_pending_chunk_finds p.object wf.chunks_counted in
      let (e, at, waits, _) =
        subst (IsNextPending p.object.chunk_info) (some-injective _ _ (sym found ∙ next)) first in
      let there : get_elem? table i ≡ some e = ap (λ t. get_elem? t i) (sym same) ∙ at in
      (
        (
          e,
          there,
          waits,
          set-Current c table p.object m' i e ch_upload none (wf, same, sized) there (λ bs x. cc) q,
        ),
        named_after p.object m' i e ch_upload none at q (inv.named me),
      )

  pub published :
      (i : ℕ) (w' : World)
      → p.at ≡ publishing i
      → update_control_data p.object p.object.file_metadata w ≡ done tt w'
      → After (publishing i) w' lock (record p { at = claimed i })
  published i w' here u =
      let (e, there, waits, current) = local (publishing i) here in
      let v = with_status ch_upload none e in
      let u' : update_control_data p.object meta_file w ≡ done tt w' =
        subst (λ n. update_control_data p.object n w ≡ done tt w') (inv.named me) u in
      let (wf', holds', stored') =
        update-Holds header setting.apart table i v file p.object w w' inv.well_formed inv.holds
          inv.stored current u' in
      let unowned : (j : ℕ) → owns (pc j) ≢ some i = λ j theirs.
        let (e', there', status) =
          owner-Marked c table (pc j).at (pc j).object i theirs (inv.locals j) in
        let same : e ≡ e' = some-injective _ _ (sym there ∙ there') in
        let waits' : is_pending ch_upload ≡ true =
          ap is_pending (sym (ap ChunkInfo.status same ∙ status)) ∙ waits in
        cc in
      (
        set table i v,
        changed inv me i e v _ w' there (ap critical_at here) refl wf' holds' stored'
            (λ j _. unowned j) (λ a q. some-injective _ _ q) (λ _. refl)
            (λ a other q. absurd (no_chunk (sym (ap owned_at here) ∙ q)))
            ((v, set_self table i e there v, refl), current.2) (inv.named me)
            (λ _. array _ here refl),
        (e, v, there, waits, refl, refl),
      )

  pub noted :
      (i : ℕ) (d : Bytes) (m' : Metadata) (w' : World)
      → p.at ≡ recording i
      → length d ≡ 16
      → set_chunk_status p.object i ch_ok (some d) ≡ some m'
      → update_control_data m' m'.file_metadata w ≡ done tt w'
      → After (recording i) w' lock (record p { object = m'; at = recorded })
  noted i d m' w' here long q u =
      let ((e, there, status), current) = local (recording i) here in
      let v = with_status ch_ok (some d) e in
      let (wf, same, sized) = current in
      let at : get_elem? p.object.chunk_info i ≡ some e = ap (λ t. get_elem? t i) same ∙ there in
      let name = named_after p.object m' i e ch_ok (some d) at q (inv.named me) in
      let u' : update_control_data m' meta_file w ≡ done tt w' =
        subst (λ n. update_control_data m' n w ≡ done tt w') name u in
      let current' =
        set-Current c table p.object m' i e ch_ok (some d) current there
          (λ bs x. ap length (some-injective _ _ (sym x)) ∙ long) q in
      let (wf', holds', stored') =
        update-Holds header setting.apart table i v file m' w w' inv.well_formed inv.holds
          inv.stored current' u' in
      (
        set table i v,
        changed inv me i e v _ w' there (ap critical_at here) refl wf' holds' stored'
            (λ j other theirs. other (inv.unique me j i (ap owned_at here) theirs))
            (λ a x. absurd (no_chunk x)) (λ x. absurd (never x))
            (λ a other x. absurd (other (some-injective _ _ (sym (ap owned_at here) ∙ x)))) tt name
            (λ _. array _ here refl),
        (e, v, there, status, refl, refl),
      )
    where
      never : ch_ok ≡ ch_upload → ⊥
      never x = cc
