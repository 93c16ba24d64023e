-- ===== src/Protocol/Download/Bounded.antt =====
-- Who has the semaphore, and which processes there are, in every run of a download.
use mhftp.Base.{ℕ, ◌≤◌, ◌≡◌, true, some, arith}
use mhftp.Posix.{Bytes, FileName}
use mhftp.Crypt.{Md5}
use mhftp.Protocol.Download.{finished, critical, System, Step, pick, Reach, start, later}
use mhftp.Protocol.Download.Exclusion.{discipline}
use mhftp.Protocol.Turns.{update_all, held_after}

-- The holder of the semaphore is in its critical section, and the processes from `n` on do nothing.
pub record Bounded (n : ℕ) (s : System) : Type 0 where
  pub held : (j : ℕ) → s.lock ≡ some j → critical (s.pc j) ≡ true
  pub idle : (j : ℕ) → n ≤ j → s.pc j ≡ finished

module _ {md5 : Md5} {remote : Bytes} {c : ℕ} {meta_file local_file : FileName} where
  Step-Bounded :
      {n : ℕ} {s t : System}
      → Step md5 meta_file local_file remote c n s t
      → Bounded n s
      → Bounded n t
  Step-Bounded {n} {s} (pick me {lock = lock} {p = p} lt move) b = record {
    held = held_after critical s.pc me p s.lock lock (discipline move) b.held;
    idle =
        update_all (λ j q. n ≤ j → q ≡ finished) s.pc me p (λ h. absurd (omega arith))
          (λ j _ h. b.idle j h);
  }

  pub Reach-Bounded :
      {n : ℕ} {s t : System}
      → Bounded n s
      → Reach md5 meta_file local_file remote c n s t
      → Bounded n t
  Reach-Bounded b start = b
  Reach-Bounded b (later run step) = Step-Bounded step (Reach-Bounded b run)
