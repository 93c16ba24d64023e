-- ===== src/Protocol/Sending/Exclusion.antt =====
-- Who has the semaphore in every run of an upload.
use mhftp.Base.{ℕ, ◌≡◌, inl, inr, refl, sym, ap, true, Option, some}
use mhftp.Posix.{FileName, World}
use mhftp.Protocol.Turns.{Disciplined, takes, held_after}
use mhftp.Protocol.Sending.{
  Process, critical_at, critical, Move, begin, no_file, get_lock, load, none_pending, leave,
  end_mark, claim, publish, release, send, get_lock_again, reload, note, release_again, repeat,
  quit, System, pick, Reach, start, later,
}

-- What a step does with the semaphore.
discipline :
    {local_file : FileName} {me : ℕ} {w w' : World} {lock lock' : Option ℕ} {p p' : Process}
    → Move local_file me w lock p w' lock' p'
    → Disciplined me lock lock' (critical p) (critical p')
discipline (begin _ _ _ here _ _) = inl (refl, sym (ap critical_at here))
discipline (no_file _ _ here _ _) = inl (refl, sym (ap critical_at here))
discipline (get_lock _ here e) = takes _ _ _ _ e
discipline (load _ _ here _) = inl (refl, sym (ap critical_at here))
discipline (none_pending here _) = inl (refl, sym (ap critical_at here))
discipline (leave here) = inr (inr (ap critical_at here, refl, refl))
discipline (end_mark here) = inl (refl, sym (ap critical_at here))
discipline (claim _ _ here _ _) = inl (refl, sym (ap critical_at here))
discipline (publish _ _ here _) = inl (refl, sym (ap critical_at here))
discipline (release _ here) = inr (inr (ap critical_at here, refl, refl))
discipline (send _ _ _ _ _ here _ _ _) = inl (refl, sym (ap critical_at here))
discipline (get_lock_again _ _ here e) = takes _ _ _ _ e
discipline (reload _ _ _ here _) = inl (refl, sym (ap critical_at here))
discipline (note _ _ _ _ here _ _ _) = inl (refl, sym (ap critical_at here))
discipline (release_again here) = inr (inr (ap critical_at here, refl, refl))
discipline (repeat here) = inl (refl, sym (ap critical_at here))
discipline (quit here) = inl (refl, sym (ap critical_at here))

-- The holder of the semaphore is between its calls.
abbrev pub Held : System → Type 0
Held s = (j : ℕ) → s.lock ≡ some j → critical (s.pc j) ≡ true

pub Reach-Held :
    {local_file : FileName} {n : ℕ} {s t : System} → Held s → Reach local_file n s t → Held t
Reach-Held h start = h
Reach-Held h (later {t = u} run (pick me {lock = lock} {p = p} _ move)) =
    held_after critical u.pc me p u.lock lock (discipline move) (Reach-Held h run)
