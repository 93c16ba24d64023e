-- ===== src/Protocol/Download/Progress.antt =====
-- As long as a process of a download has not finished, some process can go on.
use mathlib.Core.Option.{some-injective}
use mhftp.Base.{
  ℕ, ◌*◌, ◌<◌, ◌≤◌, ◌≡◌, ◌≢◌, ◌⊎◌, inl, inr, refl, sym, ap, ◌∙◌, true, false, Option, none, some,
  List, [], arith, length, get_elem?, set, dec_lt, Option-cases, if◌then◌else◌,
}
use mhftp.Base.Int.{ℤ, pos, negsuc, ◌*ℤ◌, pos-*ℤ-pos}
use mhftp.Base.{length-set}
use mhftp.Posix.{Bytes, FileName, World, done}
use mhftp.Crypt.{Md5}
use mhftp.Metadata.{ChunkInfo, ChunkStatus, ch_ok, ch_error, ch_download, Metadata}
use mhftp.Metadata.Table.{with_status, set_status, get_next_pending_chunk, set_chunk_status}
use mhftp.Metadata.Table.Pending.{IsNextPending, get_next_pending_chunk_finds}
use mhftp.Metadata.Disk.{load_metadata, update_control_data}
use mhftp.Metadata.Disk.RoundTrip.{load_metadata-Holds}
use mhftp.Metadata.Disk.Update.{with_table, update_control_data_lem}
use mhftp.Protocol.Client.{receive_chunk}
use mhftp.Protocol.Download.{
  Pc, waiting, selecting, claiming, publishing, claimed, nothing_left, receiving, received, written,
  reloading, recording, recorded, looping, finished, critical, Move, get_lock, load, none_pending,
  claim, publish, release, leave, arrive, write, get_lock_again, reload, note, release_again,
  repeat, quit, System, Step, pick, Reach,
}
use mhftp.Protocol.Download.Invariant.{Current, Local, Setting, Inv}
use mhftp.Protocol.Download.Files.{set-Current}
use mhftp.Base.{length-append, get_elem?-lt, ◌^◌, ◌++◌, ◌∷◌}
use mathlib.Core.List.{append-nil}
use mhftp.Base.Bytes.{int64_bytes}
use mhftp.Posix.Socket.{Socket, segment, IsStream}
use mhftp.Crypt.{md5_buffer}
use mhftp.Protocol.Request.{atoi-request_chunk}
use mhftp.Protocol.Server.Answers.{slice, message, length-slice}
use mhftp.Protocol.Client.{chunk, max_chunk_size}
use mhftp.Protocol.Client.Receive.{receive_chunk-message}
use mhftp.Protocol.Download.Settled.{unbroken}
use mhftp.Protocol.Download.Undisturbed.{calm, calm_step}
use mhftp.Protocol.Download.Runs.{Holding, Reach-Holding}
use mhftp.Protocol.Download.Bounded.{Bounded, Reach-Bounded}

pub set_chunk_status_total :
    (m : Metadata) (i : ℕ) (e : ChunkInfo) (status : ChunkStatus) (d : Option Bytes)
    → get_elem? m.chunk_info i ≡ some e
    → (m' : Metadata) × (set_chunk_status m i status d ≡ some m')
unfolding set_chunk_status
set_chunk_status_total m i e status d there = (
  record m { chunk_info = set m.chunk_info i (with_status status d e) },
  rw (there, set_chunk_status, set_status) refl,
)

-- The server's answer, in one segment.
answered :
    (md5 : Md5) (part : Bytes)
    → length part ≤ max_chunk_size
    → (s : Socket) × (s' : Socket) × IsStream s (message md5 part ++ [])
      × (receive_chunk [] s ≡ some (chunk (md5_buffer md5 part) part, s'))
answered md5 part fits =
    let bytes = message md5 part ++ [] in
    let long : 0 < length bytes = omega (
      arith,
      length-append {0} (message md5 part) [],
      length-append {0} (md5_buffer md5 part) (int64_bytes (pos (length part)) ++ part),
      md5.length-final (md5.update md5.init part),
    ) in
    let s = segment bytes ∷ [] in
    let streams : IsStream s bytes = (long, [], sym (append-nil bytes), refl) in
    let (s', told, _) = receive_chunk-message md5 part [] [] s fits streams in
    (s, s', streams, told)

module _ {md5 : Md5} {remote : Bytes} {c k : ℕ} {meta_file local_file : FileName}
    {header : Metadata} (setting : Setting md5 remote c meta_file local_file header k)
    {table : List ChunkInfo} {content : Bytes} {w : World} {lock : Option ℕ} {pc : ℕ → Pc}
    (inv : Inv md5 remote c meta_file local_file header k table content w lock pc) (me : ℕ) where
  -- A step of a process, to some state.
  abbrev Moves : Pc → Type 0
  Moves p =
      (w' : World) × (lock' : Option ℕ) × (p' : Pc) × (move : Move md5 meta_file local_file remote c
        me w lock p w' lock' p')
      × (unbroken p ≡ true → calm move ≡ true)

  claims :
      (m : Metadata) (r : ℤ)
      → get_next_pending_chunk m ≡ some r
      → IsNextPending m.chunk_info r
      → Moves (claiming m)
  claims m (pos i) e (entry, at, _, _) =
      let (m', q) = set_chunk_status_total m i entry ch_download none at in
      (w, lock, publishing m' i, claim m m' i e q, λ _. refl)
  claims m (negsuc n) e (none_left, _) =
      (w, lock, nothing_left, none_pending m (e ∙ ap (λ a. some (negsuc a)) none_left), λ _. refl)

  -- The update of the file by an object that has a table of the same length.
  updates :
      (m : Metadata) (t : List ChunkInfo)
      → Current c t m
      → length t ≡ length table
      → (w' : World) × (update_control_data m meta_file w ≡ done tt w')
  updates m t (wf, same, _) many = (
    _,
    update_control_data_lem (with_table header table) m meta_file w inv.well_formed wf
        (ap length same ∙ many) inv.holds,
  )

  loads : (m : Metadata) → (m' : Metadata) × (load_metadata m meta_file w ≡ done m' w)
  loads m =
      (_, load_metadata-Holds (with_table header table) m meta_file w inv.well_formed inv.holds)

  -- A process that does not wait for the semaphore, and has not finished, can go on.
  pub goes_on :
      (p : Pc)
      → Local md5 remote c table content p
      → (critical p ≡ true) ⊎ ((lock ≡ none) × (p ≢ finished))
      → Moves p
  goes_on (waiting m) l (inr (free, _)) =
      (w, some me, selecting m, get_lock m (some me) (rw free refl), λ _. refl)
  goes_on (waiting m) l (inl x) = cc
  goes_on (selecting m) l h =
      let (m', e) = loads m in (w, lock, claiming m', load m m' w e, λ _. refl)
  goes_on (claiming m) (wf, _, _) h =
      let (r, e, f) = get_next_pending_chunk_finds m wf.chunks_counted in claims m r e f
  goes_on (publishing m i) (entry, at, _, current) h =
      let v = with_status ch_download none entry in
      let (w', e) = updates m (set table i v) current (length-set table i v) in
      (w', lock, claimed m i, publish m i w' e, λ _. refl)
  goes_on (claimed m i) l h = (w, _, receiving m i, release m i, λ _. refl)
  goes_on nothing_left l h = (w, _, finished, leave, λ _. refl)
  goes_on (receiving m i) ((entry, at, _), _) h =
      let small : i < 10 ^ 6 = omega (arith, get_elem?-lt table i at, inv.counted, setting.few) in
      let part = slice remote c i in
      let (s, s', streams, told) =
        answered md5 part (omega (arith, length-slice remote c i, setting.fits)) in
      (
        w,
        lock,
        received m i (md5_buffer md5 part) part,
        arrive m i i [] [] (md5_buffer md5 part) part s s' (atoi-request_chunk i small) streams
            told,
        λ _. refl,
      )
  goes_on (received m i d part) (_, sized, _, _) h = (
    _,
    lock,
    written m i false d,
    write m i (i * c) d part content (ap (λ z. pos i *ℤ z) sized ∙ pos-*ℤ-pos i c) inv.stored,
    λ _. refl,
  )
  goes_on (written m i err d) l (inr (free, _)) = (
    w,
    some me,
    reloading m i err d,
    get_lock_again m i err d (some me) (rw free refl),
    λ _. refl,
  )
  goes_on (written m i err d) l (inl x) = cc
  goes_on (reloading m i err d) l h =
      let (m', e) = loads m in (w, lock, recording m' i err d, reload m m' i err d w e, λ _. refl)
  goes_on (recording m i err d) ((entry, at, _), (long, _), current) h =
      let (wf, same, _) = current in
      let status = if err then ch_error else ch_ok in
      let (m', e) =
        set_chunk_status_total m i entry status (some d) (ap (λ t. get_elem? t i) same ∙ at) in
      let v = with_status status (some d) entry in
      let current' =
        set-Current c table m m' i entry status (some d) current at
          (λ bs q. ap length (some-injective _ _ (sym q)) ∙ long) e in
      let (w', u) = updates m' (set table i v) current' (length-set table i v) in
      (w', lock, recorded m' err, note m m' i err d w' e u, λ _. refl)
  goes_on (recorded m err) l h = (w, _, looping m err, release_again m err, λ _. refl)
  goes_on (looping m true) l h = (w, lock, finished, quit m true, λ u. cc)
  goes_on (looping m false) l h = (w, lock, waiting m, repeat m, λ _. refl)
  goes_on finished l (inl x) = cc
  goes_on finished l (inr (_, no_end)) = absurd (no_end refl)

module _ {md5 : Md5} {remote : Bytes} {c k : ℕ} {meta_file local_file : FileName}
    {header : Metadata} (setting : Setting md5 remote c meta_file local_file header k) where
  -- From a state with the invariant, however the processes of a download are interleaved: as long as one of them
  -- has not finished, one of them can do a step. So no process waits for the semaphore in vain, and no file
  -- access and no update of an entry is stuck. When no connection has broken before, that step is neither
  -- the break of a connection nor the user's stop.
  pub progress :
      {n : ℕ} {s t : System}
      → Holding setting s
      → Bounded n s
      → Reach md5 meta_file local_file remote c n s t
      → (me : ℕ) → t.pc me ≢ finished
      → (u : System) × (step : Step md5 meta_file local_file remote c n t u) × (((j : ℕ)
            → unbroken (t.pc j) ≡ true)
          → calm_step step ≡ true)
  progress {n} {s} {t} h b run me going =
      let (table, content, inv) = Reach-Holding setting h run in
      let b' = Reach-Bounded b run in
      elim (Option-cases t.lock) [
        | inl free ↦ step inv b' me going (inr (free, going))
        | inr (j, taken) ↦
            let inside = b'.held j taken in
            step inv b' j (λ e. let q : true ≡ false = sym inside ∙ ap critical e in cc)
              (inl inside)
      ]
    where
      step :
          {table : List ChunkInfo} {content : Bytes}
          → Inv md5 remote c meta_file local_file header k table content t.world t.lock t.pc
          → Bounded n t
          → (j : ℕ) → t.pc j ≢ finished
          → (critical (t.pc j) ≡ true) ⊎ ((t.lock ≡ none) × (t.pc j ≢ finished))
          → (u : System) × (step : Step md5 meta_file local_file remote c n t u) × (((j : ℕ)
                → unbroken (t.pc j) ≡ true)
              → calm_step step ≡ true)
      step inv b' j going_j may =
          let (w', lock', p', move, still) = goes_on setting inv j (t.pc j) (inv.locals j) may in
          let within : j < n = elim (dec_lt j n) [
            | yes lt ↦ lt
            | no out ↦ absurd (going_j (b'.idle j (omega (arith, out))))
          ] in
          (_, pick j within move, λ whole. still (whole j))
