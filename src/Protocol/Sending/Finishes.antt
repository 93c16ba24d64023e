-- ===== src/Protocol/Sending/Finishes.antt =====
-- An upload can always go on to its end.
use mhftp.Base.{
  ℕ, zero, suc, subst, ◌+◌, ◌*◌, ◌<◌, ◌≡◌, ◌⊎◌, inl, inr, refl, true, false, arith, dec_lt,
  Bool-cases,
}
use mhftp.Posix.{Bytes, FileName}
use mhftp.Metadata.{Metadata}
use mhftp.Protocol.Sending.{Point, finished, stopped, Process, System, Reach, start, later}
use mhftp.Protocol.Sending.Invariant.{begun, Setting}
use mhftp.Protocol.Sending.Settled.{ended}
use mhftp.Protocol.Sending.Runs.{Going, Reach-Going}
use mhftp.Protocol.Sending.Ends.{run_length, upload_bounded}
use mhftp.Protocol.Sending.Exclusion.{Held, Reach-Held}
use mhftp.Protocol.Sending.Progress.{progress}

-- All processes below `n` have ended, or one has not.
search_going :
    (pc : ℕ → Process) (n : ℕ)
    → ((j : ℕ) → j < n → ended (pc j).at ≡ true) ⊎ ((j : ℕ) × (j < n) × (ended (pc j).at ≡ false))
search_going pc zero = inl (λ j lt. absurd (omega arith))
search_going pc (suc n) = elim (Bool-cases (ended (pc n).at)) [
  | inr going ↦ inr (n, omega arith, going)
  | inl last ↦ elim (search_going pc n) [
    | inr (j, lt, going) ↦ inr (j, omega (arith, lt), going)
    | inl before ↦ inl (λ j lt. elim (dec_lt j n) [
      | yes below ↦ before j below
      | no out ↦
          let same : n ≡ j = omega (arith, out, lt) in subst (λ i. ended (pc i).at ≡ true) same last
    ])
  ]
]

left_by_break : (a : Point) → ended a ≡ true → begun a ≡ true → a ≡ finished
left_by_break finished e b = refl
left_by_break stopped e b = cc
left_by_break _ e b = cc

module _ {meta_file local_file : FileName} {header : Metadata} {file : Bytes} {c k : ℕ}
    (setting : Setting meta_file local_file header file c k) (before : ℕ → Type 0) where
  -- Every run is continued until all have ended; it has no more steps than `upload_bounded` says.
  continued :
      {n : ℕ} {s : System} (fuel : ℕ)
      → Going setting before n s
      → Held s
      → {t : System} (run : Reach local_file n s t)
      → ((j : ℕ) → begun (s.pc j).at ≡ true → begun (t.pc j).at ≡ true)
      → 11 * k + 13 * n < fuel + run_length run
      → (u : System) × Reach local_file n s u
        × ((j : ℕ) → begun (s.pc j).at ≡ true → begun (u.pc j).at ≡ true)
        × ((j : ℕ) → j < n → ended (u.pc j).at ≡ true)
  continued zero g h {t} run kept enough =
      absurd (omega (arith, enough, upload_bounded setting before g run))
  continued {n} (suc fuel) g h {t} run kept enough = elim (search_going t.pc n) [
    | inl all ↦ (t, run, kept, all)
    | inr (me, lt, going) ↦
        let (u, step, still) =
          progress setting before (Reach-Going setting before g run) (Reach-Held h run) me lt
            going in
        continued fuel g h (later run step) (λ j b. still j (kept j b)) (omega (arith, enough))
  ]

  -- However `n` processes of an upload are interleaved, from a state with the invariant in which who holds
  -- the semaphore is between its calls: they can go on so that all end, and each that has begun, and has
  -- not been stopped, ends because no chunk is pending. So no process waits for ever, and no access to the
  -- metadata file, no update of an entry and no chunk is stuck.
  pub upload_can_finish :
      {n : ℕ} {s t : System}
      → Going setting before n s
      → Held s
      → Reach local_file n s t
      → (u : System) × Reach local_file n t u
        × ((j : ℕ) → j < n → ended (u.pc j).at ≡ true)
        × ((j : ℕ) → j < n → begun (t.pc j).at ≡ true → (u.pc j).at ≡ finished)
  upload_can_finish {n} g h run =
      let (u, rest, kept, all) =
        continued (11 * k + 13 * n + 1) (Reach-Going setting before g run) (Reach-Held h run) start
          (λ j b. b) (omega arith) in
      (u, rest, all, λ j lt b. left_by_break (u.pc j).at (all j lt) (kept j b))
