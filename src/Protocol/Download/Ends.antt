-- ===== src/Protocol/Download/Ends.antt =====
-- Every step of a download brings it nearer to its end.
use mhftp.Base.{ℕ, zero, suc, ◌+◌, ◌*◌, ◌<◌, ◌≤◌, refl, ap, true, false, Option, List, arith}
use mhftp.Posix.{Bytes, FileName, World}
use mhftp.Crypt.{Md5}
use mhftp.Metadata.{ChunkInfo, Metadata}
use mhftp.Protocol.Turns.{total, total-update}
use mhftp.Protocol.Download.{
  Pc, waiting, selecting, claiming, publishing, claimed, nothing_left, receiving, received, written,
  reloading, recording, recorded, looping, finished, Move, get_lock, load, none_pending, claim,
  publish, release, leave, arrive, break_off, write, get_lock_again, reload, note, release_again,
  repeat, quit, System, pick, Reach, start, later,
}
use mhftp.Protocol.Download.Changes.{
  Changed, missing, to_do, to_do-set, to_do-le_length, missing-is_pending,
}
use mhftp.Protocol.Download.Invariant.{Setting, Inv}
use mhftp.Protocol.Download.Steps.{Move-Inv}
use mhftp.Protocol.Download.Runs.{Holding}

-- The steps of a process to its end, when it brings no more than the chunk that it has.
abbrev pub steps_left : Pc → ℕ
steps_left finished = 0
steps_left nothing_left = 1
steps_left (looping _ true) = 1
steps_left (recorded _ true) = 2
steps_left (recording _ _ _ _) = 3
steps_left (reloading _ _ _ _) = 4
steps_left (written _ _ _ _) = 5
steps_left (received _ _ _ _) = 6
steps_left (receiving _ _) = 7
steps_left (claimed _ _) = 8
steps_left (publishing _ _) = 9
steps_left (claiming _) = 10
steps_left (selecting _) = 11
steps_left (waiting _) = 12
steps_left (looping _ false) = 13
steps_left (recorded _ false) = 14

steps_left-le : (p : Pc) → steps_left p ≤ 14
steps_left-le finished = omega arith
steps_left-le nothing_left = omega arith
steps_left-le (looping _ true) = omega arith
steps_left-le (recorded _ true) = omega arith
steps_left-le (recording _ _ _ _) = omega arith
steps_left-le (reloading _ _ _ _) = omega arith
steps_left-le (written _ _ _ _) = omega arith
steps_left-le (received _ _ _ _) = omega arith
steps_left-le (receiving _ _) = omega arith
steps_left-le (claimed _ _) = omega arith
steps_left-le (publishing _ _) = omega arith
steps_left-le (claiming _) = omega arith
steps_left-le (selecting _) = omega arith
steps_left-le (waiting _) = omega arith
steps_left-le (looping _ false) = omega arith
steps_left-le (recorded _ false) = omega arith

total_le : (pc : ℕ → Pc) (n : ℕ) → total steps_left pc n ≤ 14 * n
total_le pc zero = omega arith
total_le pc (suc n) = omega (arith, steps_left-le (pc n), total_le pc n)

module _ {md5 : Md5} {remote : Bytes} {c : ℕ} {meta_file local_file : FileName} where
  -- A step takes from the steps that are left, where a chunk that is not in CH_OK counts for twelve.
  pub spent :
      {me : ℕ} {w w' : World} {lock lock' : Option ℕ} {p p' : Pc} (table table' : List ChunkInfo)
      → Move md5 meta_file local_file remote c me w lock p w' lock' p'
      → Changed p table table'
      → 12 * to_do table' + steps_left p' < 12 * to_do table + steps_left p
  spent table table' (get_lock _ _ _) h = omega (arith, ap to_do h)
  spent table table' (load _ _ _ _) h = omega (arith, ap to_do h)
  spent table table' (none_pending _ _) h = omega (arith, ap to_do h)
  spent table table' (claim _ _ _ _ _) h = omega (arith, ap to_do h)
  spent table table' (publish _ i _ _) (e, v, there, waits, status, same) = omega (
    arith,
    ap to_do same,
    to_do-set table i e v there,
    missing-is_pending e.status waits,
    ap missing status,
  )
  spent table table' (release _ _) h = omega (arith, ap to_do h)
  spent table table' leave h = omega (arith, ap to_do h)
  spent table table' (arrive _ _ _ _ _ _ _ _ _ _ _ _) h = omega (arith, ap to_do h)
  spent table table' (break_off _ _ _ _ _ _ _ _) h = omega (arith, ap to_do h)
  spent table table' (write _ _ _ _ _ _ _ _) h = omega (arith, ap to_do h)
  spent table table' (get_lock_again _ _ _ _ _ _) h = omega (arith, ap to_do h)
  spent table table' (reload _ _ _ _ _ _ _) h = omega (arith, ap to_do h)
  spent table table' (note _ _ i true _ _ _ _) (e, v, there, under_way, status, same) =
      omega
        (arith, ap to_do same, to_do-set table i e v there, ap missing under_way, ap missing status)
  spent table table' (note _ _ i false _ _ _ _) (e, v, there, under_way, status, same) =
      omega
        (arith, ap to_do same, to_do-set table i e v there, ap missing under_way, ap missing status)
  spent table table' (release_again _ true) h = omega (arith, ap to_do h)
  spent table table' (release_again _ false) h = omega (arith, ap to_do h)
  spent table table' (repeat _) h = omega (arith, ap to_do h)
  spent table table' (quit _ true) h = omega (arith, ap to_do h)
  spent table table' (quit _ false) h = omega (arith, ap to_do h)

  abbrev pub run_length : {n : ℕ} {s t : System} → Reach md5 meta_file local_file remote c n s t → ℕ
  run_length start = 0
  run_length (later run _) = suc (run_length run)

module _ {md5 : Md5} {remote : Bytes} {c k : ℕ} {meta_file local_file : FileName}
    {header : Metadata} (setting : Setting md5 remote c meta_file local_file header k) where
  -- A run and the steps that are left behind it are no more than those that were left before.
  run_spends :
      {n : ℕ} {s t : System} {table : List ChunkInfo} {content : Bytes}
      → Inv md5 remote c meta_file local_file header k table content s.world s.lock s.pc
      → (run : Reach md5 meta_file local_file remote c n s t)
      → (table' : List ChunkInfo) × (content' : Bytes) × Inv md5 remote c meta_file local_file
          header k table' content' t.world t.lock t.pc
        × (run_length run + (12 * to_do table' + total steps_left t.pc n)
            ≤ 12 * to_do table + total steps_left s.pc n)
  run_spends {table = table} {content = content} inv start = (table, content, inv, omega arith)
  run_spends {n} inv (later {t = u} run (pick me {p = p} lt move)) =
      let (table1, content1, inv1, le) = run_spends inv run in
      let (table2, content2, inv2, changed) = Move-Inv setting inv1 me move refl in
      let less = spent table1 table2 move changed in
      (table2, content2, inv2, omega (arith, le, less, total-update steps_left u.pc me p n lt))

  -- However `n` processes of a download are interleaved, from a state with the invariant, they do no more than
  -- `12 * k + 14 * n` steps, where `k` is the number of chunks: the loop of each process ends.
  pub run_bounded :
      {n : ℕ} {s t : System}
      → Holding setting s
      → (run : Reach md5 meta_file local_file remote c n s t) → run_length run ≤ 12 * k + 14 * n
  run_bounded {n} {s} (table, content, inv) run =
      let (_, _, _, le) = run_spends inv run in
      omega (arith, le, to_do-le_length table, inv.counted, total_le s.pc n)
