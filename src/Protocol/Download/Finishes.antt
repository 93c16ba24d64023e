-- ===== src/Protocol/Download/Finishes.antt =====
-- An undisturbed download can always go on to its end.
use mhftp.Base.{ℕ, zero, suc, ◌+◌, ◌*◌, ◌<◌, ◌≡◌, ◌≢◌, ◌⊎◌, inl, inr, refl, arith, dec_lt, subst}
use mhftp.Posix.{Bytes, FileName}
use mhftp.Crypt.{Md5}
use mhftp.Metadata.{Metadata}
use mhftp.Protocol.Download.{
  Pc, waiting, selecting, claiming, publishing, claimed, nothing_left, receiving, received, written,
  reloading, recording, recorded, looping, finished, System, Reach, start, later,
}
use mhftp.Protocol.Download.Invariant.{Setting}
use mhftp.Protocol.Download.Bounded.{Bounded, Reach-Bounded}
use mhftp.Protocol.Download.Progress.{progress}
use mhftp.Protocol.Download.Ends.{run_length, run_bounded}
use mhftp.Protocol.Download.Undisturbed.{Calm, Going, Calm-Going}

is_finished : (p : Pc) → (p ≡ finished) ⊎ (p ≢ finished)
is_finished finished = inl refl
is_finished (waiting _) = inr (λ e. cc)
is_finished (selecting _) = inr (λ e. cc)
is_finished (claiming _) = inr (λ e. cc)
is_finished (publishing _ _) = inr (λ e. cc)
is_finished (claimed _ _) = inr (λ e. cc)
is_finished nothing_left = inr (λ e. cc)
is_finished (receiving _ _) = inr (λ e. cc)
is_finished (received _ _ _ _) = inr (λ e. cc)
is_finished (written _ _ _ _) = inr (λ e. cc)
is_finished (reloading _ _ _ _) = inr (λ e. cc)
is_finished (recording _ _ _ _) = inr (λ e. cc)
is_finished (recorded _ _) = inr (λ e. cc)
is_finished (looping _ _) = inr (λ e. cc)

-- All processes below `n` have finished, or one has not.
search_going :
    (pc : ℕ → Pc) (n : ℕ) → ((j : ℕ) → j < n → pc j ≡ finished) ⊎ ((j : ℕ) × (pc j ≢ finished))
search_going pc zero = inl (λ j lt. absurd (omega arith))
search_going pc (suc n) = elim (is_finished (pc n)) [
  | inr going ↦ inr (n, going)
  | inl last ↦ elim (search_going pc n) [
    | inr found ↦ inr found
    | inl before ↦ inl (λ j lt. elim (dec_lt j n) [
      | yes below ↦ before j below
      | no out ↦ let same : n ≡ j = omega (arith, out, lt) in subst (λ i. pc i ≡ finished) same last
    ])
  ]
]

module _ {md5 : Md5} {remote : Bytes} {c k : ℕ} {meta_file local_file : FileName}
    {header : Metadata} (setting : Setting md5 remote c meta_file local_file header k) where
  -- Every undisturbed run is continued until all have finished; it has no more steps than `run_bounded` says.
  continued :
      {n : ℕ} {s : System} (fuel : ℕ)
      → Going setting n s
      → Bounded n s
      → {t : System} (run : Reach md5 meta_file local_file remote c n s t) → Calm run
      → 12 * k + 14 * n < fuel + run_length run
      → (u : System) × (more : Reach md5 meta_file local_file remote c n s u) × Calm more
        × ((j : ℕ) → u.pc j ≡ finished)
  continued zero g b {t} run calm enough =
      let (table, content, inv, _) = g in
      absurd (omega (arith, enough, run_bounded setting (table, content, inv) run))
  continued {n} (suc fuel) g b {t} run calm enough =
      let (table, content, inv, _) = g in
      let b' = Reach-Bounded b run in
      elim (search_going t.pc n) [
        | inl below ↦ (
          t,
          run,
          calm,
          λ j. elim (dec_lt j n) [ yes lt ↦ below j lt | no out ↦ b'.idle j (omega (arith, out)) ],
        )
        | inr (me, going) ↦
            let (u, step, still) = progress setting (table, content, inv) b run me going in
            let (_, _, _, settled) = Calm-Going setting g run calm in
            continued fuel g b (later run step) (calm, still settled.whole) (omega (arith, enough))
      ]

  -- However the processes of a download are interleaved, as long as no connection has broken and the user has not
  -- stopped the client, they can go on so until all have finished: no process waits for ever, and no file access,
  -- no update of an entry and no transfer of a chunk is stuck. At the start, the invariant holds, no chunk is in
  -- CH_UPLOAD, and only the processes from `n` on have finished.
  pub can_finish :
      {n : ℕ} {s t : System}
      → Going setting n s
      → Bounded n s
      → (run : Reach md5 meta_file local_file remote c n s t) → Calm run
      → (u : System) × (rest : Reach md5 meta_file local_file remote c n t u) × Calm rest
        × ((j : ℕ) → u.pc j ≡ finished)
  can_finish {n} g b run calm =
      continued (12 * k + 14 * n + 1) (Calm-Going setting g run calm) (Reach-Bounded b run) start tt
        (omega arith)
