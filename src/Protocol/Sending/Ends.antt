-- ===== src/Protocol/Sending/Ends.antt =====
-- Every step of an upload brings it nearer to its end.
use mhftp.Base.{ℕ, zero, suc, ◌+◌, ◌*◌, ◌<◌, ◌≤◌, ◌≡◌, ap, subst, Option, List, arith}
use mhftp.Posix.{Bytes, FileName, World}
use mhftp.Metadata.{ChunkInfo, Metadata}
use mhftp.Protocol.Turns.{total, total-update}
use mhftp.Protocol.Download.Changes.{missing, to_do, to_do-set, to_do-le_length, missing-is_pending}
use mhftp.Protocol.Sending.{
  Point, starting, waiting, selecting, claiming, publishing, claimed, nothing_left, ending, sending,
  sent, reloading, recording, recorded, looping, finished, stopped, Process, Move, begin, no_file,
  get_lock, load, none_pending, leave, end_mark, claim, publish, release, send, get_lock_again,
  reload, note, release_again, repeat, quit, System, pick, Reach, start, later,
}
use mhftp.Protocol.Sending.Invariant.{Setting, Inv}
use mhftp.Protocol.Sending.Updates.{Changed}
use mhftp.Protocol.Sending.Steps.{Move-Inv}
use mhftp.Protocol.Sending.Runs.{Going}

-- The steps of a process to its end, when it sends no more than the chunk that it has.
abbrev pub left_at : Point → ℕ
left_at finished = 0
left_at stopped = 0
left_at ending = 1
left_at nothing_left = 2
left_at (recording _) = 3
left_at (reloading _) = 4
left_at (sent _) = 5
left_at (sending _) = 6
left_at (claimed _) = 7
left_at (publishing _) = 8
left_at claiming = 9
left_at selecting = 10
left_at waiting = 11
left_at starting = 12
left_at looping = 12
left_at recorded = 13

abbrev pub steps_left : Process → ℕ
steps_left p = left_at p.at

left_at-le : (a : Point) → left_at a ≤ 13
left_at-le finished = omega arith
left_at-le stopped = omega arith
left_at-le ending = omega arith
left_at-le nothing_left = omega arith
left_at-le (recording _) = omega arith
left_at-le (reloading _) = omega arith
left_at-le (sent _) = omega arith
left_at-le (sending _) = omega arith
left_at-le (claimed _) = omega arith
left_at-le (publishing _) = omega arith
left_at-le claiming = omega arith
left_at-le selecting = omega arith
left_at-le waiting = omega arith
left_at-le starting = omega arith
left_at-le looping = omega arith
left_at-le recorded = omega arith

total-le : (pc : ℕ → Process) (n : ℕ) → total steps_left pc n ≤ 13 * n
total-le pc zero = omega arith
total-le pc (suc n) = omega (arith, left_at-le (pc n).at, total-le pc n)

module _ {local_file : FileName} where
  -- A step takes from the steps that are left, where a chunk that is not in CH_OK counts for eleven.
  spent :
      {me : ℕ} {w w' : World} {lock lock' : Option ℕ} {p p' : Process}
      (table table' : List ChunkInfo)
      → Move local_file me w lock p w' lock' p'
      → Changed p.at table table'
      → 11 * to_do table' + steps_left p' < 11 * to_do table + steps_left p
  spent {me} {w} {w'} {lock} {lock'} {p} {p'} table table' move ch = by_move move
    where
      same : (a : Point) → p.at ≡ a → Changed a table table'
      same a here = subst (λ b. Changed b table table') here ch

      -- A step that keeps the table.
      less :
          (a : Point) (l : ℕ)
          → p.at ≡ a
          → table' ≡ table
          → l < left_at a
          → 11 * to_do table' + l < 11 * to_do table + left_at p.at
      less a l here kept lt = omega (arith, ap to_do kept, ap left_at here, lt)

      by_move :
          {w' : World} {lock' : Option ℕ} {p' : Process}
          → Move local_file me w lock p w' lock' p'
          → 11 * to_do table' + steps_left p' < 11 * to_do table + steps_left p
      by_move (begin _ _ _ here _ _) = less starting 11 here (same starting here) (omega arith)
      by_move (no_file _ _ here _ _) = less starting 0 here (same starting here) (omega arith)
      by_move (get_lock _ here _) = less waiting 10 here (same waiting here) (omega arith)
      by_move (load _ _ here _) = less selecting 9 here (same selecting here) (omega arith)
      by_move (none_pending here _) = less claiming 2 here (same claiming here) (omega arith)
      by_move (leave here) = less nothing_left 1 here (same nothing_left here) (omega arith)
      by_move (end_mark here) = less ending 0 here (same ending here) (omega arith)
      by_move (claim _ _ here _ _) = less claiming 8 here (same claiming here) (omega arith)
      by_move (publish i _ here _) =
          let (e, v, there, waits, status, kept) = same (publishing i) here in
          omega (
            arith,
            ap left_at here,
            ap to_do kept,
            to_do-set table i e v there,
            missing-is_pending e.status waits,
            ap missing status,
          )
      by_move (release i here) = less (claimed i) 6 here (same (claimed i) here) (omega arith)
      by_move (send i _ _ _ _ here _ _ _) =
          less (sending i) 5 here (same (sending i) here) (omega arith)
      by_move (get_lock_again i _ here _) = less (sent i) 4 here (same (sent i) here) (omega arith)
      by_move (reload i _ _ here _) =
          less (reloading i) 3 here (same (reloading i) here) (omega arith)
      by_move (note i _ _ _ here _ _ _) =
          let (e, v, there, marked, status, kept) = same (recording i) here in
          omega (
            arith,
            ap left_at here,
            ap to_do kept,
            to_do-set table i e v there,
            ap missing marked,
            ap missing status,
          )
      by_move (release_again here) = less recorded 12 here (same recorded here) (omega arith)
      by_move (repeat here) = less looping 11 here (same looping here) (omega arith)
      by_move (quit here) = less looping 0 here (same looping here) (omega arith)

  abbrev pub run_length : {n : ℕ} {s t : System} → Reach local_file n s t → ℕ
  run_length start = 0
  run_length (later run _) = suc (run_length run)

module _ {meta_file local_file : FileName} {header : Metadata} {file : Bytes} {c k : ℕ}
    (setting : Setting meta_file local_file header file c k) (before : ℕ → Type 0) where
  run_spends :
      {n : ℕ} {s t : System} {table : List ChunkInfo}
      → Inv meta_file local_file header file c k table s.world s.lock s.pc
      → (run : Reach local_file n s t)
      → (table' : List ChunkInfo) × Inv meta_file local_file header file c k table' t.world t.lock
          t.pc
        × (run_length run + (11 * to_do table' + total steps_left t.pc n)
            ≤ 11 * to_do table + total steps_left s.pc n)
  run_spends {table = table} inv start = (table, inv, omega arith)
  run_spends {n} inv (later {t = u} run (pick me {p = p} lt move)) =
      let (table1, inv1, le) = run_spends inv run in
      let (table2, inv2, ch) = Move-Inv setting inv1 me move in
      let less = spent table1 table2 move ch in
      (table2, inv2, omega (arith, le, less, total-update steps_left u.pc me p n lt))

  -- However `n` processes of an upload of `k` chunks are interleaved, from a state with the invariant, they
  -- do no more than `11 * k + 13 * n` steps: the loop of each process ends.
  pub upload_bounded :
      {n : ℕ} {s t : System}
      → Going setting before n s
      → (run : Reach local_file n s t) → run_length run ≤ 11 * k + 13 * n
  upload_bounded {n} {s} (table, _, inv, _, _) run =
      let (_, _, le) = run_spends inv run in
      omega (arith, le, to_do-le_length table, inv.counted, total-le s.pc n)
