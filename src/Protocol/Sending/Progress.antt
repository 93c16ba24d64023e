-- ===== src/Protocol/Sending/Progress.antt =====
-- As long as a process of an upload has not ended, some process can go on.
use mathlib.Core.Option.{some-injective}
use mhftp.Base.{
  ℕ, subst, ◌<◌, ◌≡◌, ◌⊎◌, inl, inr, refl, sym, ap, ◌∙◌, true, false, Option, none, some, List,
  arith, length, get_elem?, set, dec_lt, Option-cases, replicate, length-set, get_elem?-lt,
  length-replicate,
}
use mhftp.Base.Int.{ℤ, pos, negsuc}
use mhftp.Posix.{Bytes, FileName, World, done, open_file}
use mhftp.Metadata.{ChunkInfo, ch_ok, ch_upload, Metadata}
use mhftp.Metadata.PayLoad.Tiling.{get_pay_load_array_entry}
use mhftp.Metadata.Table.{with_status, get_next_pending_chunk}
use mhftp.Metadata.Table.Pending.{IsNextPending, get_next_pending_chunk_finds}
use mhftp.Metadata.Disk.{load_metadata, update_control_data}
use mhftp.Metadata.Disk.RoundTrip.{load_metadata-Holds}
use mhftp.Metadata.Disk.Update.{with_table, update_control_data_lem}
use mhftp.Protocol.Upload.{send_chunk}
use mhftp.Protocol.Turns.{update_all}
use mhftp.Protocol.Download.Entries.{set_chunk_status_lem}
use mhftp.Protocol.Download.Invariant.{Current}
use mhftp.Protocol.Download.Files.{set-Current}
use mhftp.Protocol.Download.Progress.{set_chunk_status_total}
use mhftp.Protocol.Sending.{
  Point, starting, waiting, selecting, claiming, publishing, claimed, nothing_left, ending, sending,
  sent, reloading, recording, recorded, looping, finished, stopped, Process, critical_at, critical,
  Move, begin, no_file, get_lock, load, none_pending, leave, end_mark, claim, publish, release,
  send, get_lock_again, reload, note, release_again, repeat, System, Step, pick,
}
use mhftp.Protocol.Sending.Invariant.{Local, begun, Setting, Inv}
use mhftp.Protocol.Sending.Written.{send_chunk_lem}
use mhftp.Protocol.Sending.Settled.{ended}
use mhftp.Protocol.Sending.Runs.{Going}
use mhftp.Protocol.Sending.Exclusion.{Held}

module _ {meta_file local_file : FileName} {header : Metadata} {file : Bytes} {c k : ℕ}
    (setting : Setting meta_file local_file header file c k) {table : List ChunkInfo} {w : World}
    {lock : Option ℕ} {pc : ℕ → Process}
    (inv : Inv meta_file local_file header file c k table w lock pc) (me : ℕ) where
  abbrev p : Process
  p = pc me

  -- A step of the process, which does not stop it.
  abbrev Moves : Type 0
  Moves =
      (w' : World) × (lock' : Option ℕ) × (p' : Process) × Move local_file me w lock p w' lock' p'
      × (begun p.at ≡ true → begun p'.at ≡ true)

  local : (a : Point) → p.at ≡ a → Local c table a p.object
  local a here = subst (λ b. Local c table b p.object) here (inv.locals me)

  loads : (m' : Metadata) × (load_metadata p.object p.object.file_metadata w ≡ done m' w)
  loads = (
    _,
    subst
        (λ n.
          load_metadata p.object n w
          ≡ done (record (with_table header table) { file_metadata = p.object.file_metadata }) w)
        (sym (inv.named me))
        (load_metadata-Holds (with_table header table) p.object meta_file w inv.well_formed
          inv.holds),
  )

  -- The update of the file by an object that has a table of the same length.
  updates :
      (m : Metadata) (t : List ChunkInfo)
      → Current c t m
      → length t ≡ length table
      → m.file_metadata ≡ meta_file
      → (w' : World) × (update_control_data m m.file_metadata w ≡ done tt w')
  updates m t (wf, same, _) many name = (
    _,
    ap (λ n. update_control_data m n w) name
        ∙ update_control_data_lem (with_table header table) m meta_file w inv.well_formed wf
            (ap length same ∙ many) inv.holds,
  )

  begins : p.at ≡ starting → Moves
  begins here =
      let (m', e) = loads in
      elim (Option-cases (open_file local_file w)) [
        | inl missing ↦ (
          w,
          lock,
          _,
          no_file m' w here e missing,
          λ b. absurd (not_begun (sym (ap begun here) ∙ b)),
        )
        | inr (content, there) ↦ (w, lock, _, begin m' content w here e there, λ _. refl)
      ]
    where
      not_begun : false ≡ true → ⊥
      not_begun b = cc

  claims :
      (r : ℤ)
      → p.at ≡ claiming
      → get_next_pending_chunk p.object ≡ some r
      → IsNextPending p.object.chunk_info r
      → Moves
  claims (pos i) here e (entry, at, _, _) =
      let (m', q) = set_chunk_status_total p.object i entry ch_upload none at in
      (w, lock, _, claim m' i here e q, λ _. refl)
  claims (negsuc n) here e (none_left, _) =
      (w, lock, _, none_pending here (e ∙ ap (λ a. some (negsuc a)) none_left), λ _. refl)

  sends : (i : ℕ) → p.at ≡ sending i → Moves
  sends i here =
      let ((entry, at, _), sized) = local (sending i) here in
      let below : i < k = omega (arith, get_elem?-lt table i at, inv.counted) in
      let (size, there, _, _, _, _) =
        get_pay_load_array_entry (length file) c k setting.positive setting.cut i below in
      let array = inv.arrays me (rw here refl) in
      (
        w,
        lock,
        _,
        send i 0 (pos size) file _ here inv.stored (ap (λ xs. get_elem? xs i) array ∙ there) (
            ap (λ z. send_chunk file 0 z i (pos size)) sized
            ∙ send_chunk_lem file c k i 0 setting.positive setting.fits setting.cut below (pos size)
                there),
        λ _. refl,
      )

  notes : (i : ℕ) → p.at ≡ recording i → Moves
  notes i here =
      let ((entry, at, _), current) = local (recording i) here in
      let (_, same, _) = current in
      let there : get_elem? p.object.chunk_info i ≡ some entry =
        ap (λ t. get_elem? t i) same ∙ at in
      let d : Bytes = replicate 16 0 in
      let (m', e) = set_chunk_status_total p.object i entry ch_ok (some d) there in
      let v = with_status ch_ok (some d) entry in
      let current' =
        set-Current c table p.object m' i entry ch_ok (some d) current at
          (λ bs q. ap length (some-injective _ _ (sym q)) ∙ length-replicate 16 0) e in
      let name =
        ap Metadata.file_metadata
          (set_chunk_status_lem p.object.chunk_info i entry there p.object m' ch_ok (some d) refl e)
        ∙ inv.named me in
      let (w', u) = updates m' (set table i v) current' (length-set table i v) name in
      (w', lock, _, note i d m' w' here (length-replicate 16 0) e u, λ _. refl)

  -- A process that does not wait for the semaphore, and has not ended, can go on.
  pub goes_on :
      (a : Point) → p.at ≡ a → (critical_at a ≡ true) ⊎ ((lock ≡ none) × (ended a ≡ false)) → Moves
  goes_on starting here h = begins here
  goes_on waiting here (inl x) = cc
  goes_on waiting here (inr (free, _)) =
      (w, some me, _, get_lock (some me) here (rw free refl), λ _. refl)
  goes_on selecting here h = let (m', e) = loads in (w, lock, _, load m' w here e, λ _. refl)
  goes_on claiming here h =
      let (wf, _, _) = local claiming here in
      let (r, e, f) = get_next_pending_chunk_finds p.object wf.chunks_counted in claims r here e f
  goes_on (publishing i) here h =
      let (entry, at, _, current) = local (publishing i) here in
      let v = with_status ch_upload none entry in
      let (w', e) =
        updates p.object (set table i v) current (length-set table i v) (inv.named me) in
      (w', lock, _, publish i w' here e, λ _. refl)
  goes_on (claimed i) here h = (w, none, _, release i here, λ _. refl)
  goes_on nothing_left here h = (w, none, _, leave here, λ _. refl)
  goes_on ending here h = (w, lock, _, end_mark here, λ _. refl)
  goes_on (sending i) here h = sends i here
  goes_on (sent i) here (inl x) = cc
  goes_on (sent i) here (inr (free, _)) =
      (w, some me, _, get_lock_again i (some me) here (rw free refl), λ _. refl)
  goes_on (reloading i) here h =
      let (m', e) = loads in (w, lock, _, reload i m' w here e, λ _. refl)
  goes_on (recording i) here h = notes i here
  goes_on recorded here h = (w, none, _, release_again here, λ _. refl)
  goes_on looping here h = (w, lock, _, repeat here, λ _. refl)
  goes_on finished here (inl x) = cc
  goes_on finished here (inr (_, x)) = cc
  goes_on stopped here (inl x) = cc
  goes_on stopped here (inr (_, x)) = cc

module _ {meta_file local_file : FileName} {header : Metadata} {file : Bytes} {c k : ℕ}
    (setting : Setting meta_file local_file header file c k) (before : ℕ → Type 0) where
  -- One of the processes can do a step that stops nobody.
  pub progress :
      {n : ℕ} {t : System}
      → Going setting before n t
      → Held t
      → (me : ℕ) → me < n
      → ended (t.pc me).at ≡ false
      → (u : System) × Step local_file n t u
        × ((j : ℕ) → begun (t.pc j).at ≡ true → begun (u.pc j).at ≡ true)
  progress {n} {t} (table, nums, inv, _, settled) held me lt going = elim (Option-cases t.lock) [
    | inl free ↦ stepped inv me lt (inr (free, going))
    | inr (j, taken) ↦
        let inside = held j taken in
        elim (dec_lt j n) [
          | yes below ↦ stepped inv j below (inl inside)
          | no out ↦
              let idle = settled.idle j (omega (arith, out)) in
              let q : false ≡ true = sym (ap critical_at idle) ∙ inside in cc
        ]
  ]
    where
      stepped :
          {table : List ChunkInfo}
          → Inv meta_file local_file header file c k table t.world t.lock t.pc
          → (j : ℕ) → j < n
          → (critical (t.pc j) ≡ true) ⊎ ((t.lock ≡ none) × (ended (t.pc j).at ≡ false))
          → (u : System) × Step local_file n t u
            × ((j : ℕ) → begun (t.pc j).at ≡ true → begun (u.pc j).at ≡ true)
      stepped inv j below may =
          let (w', lock', p', move, still) = goes_on setting inv j (t.pc j).at refl may in
          (
            _,
            pick j below move,
            update_all (λ i q. begun (t.pc i).at ≡ true → begun q.at ≡ true) t.pc j p' still
                (λ i _ b. b),
          )
