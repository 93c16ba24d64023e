-- ===== src/Protocol/Download/Exclusion.antt =====
-- The semaphore of a download: one process at a time has the metadata file.
use mathlib.Core.Option.{some-injective}
use mhftp.Base.{ℕ, ◌≡◌, inl, inr, refl, sym, ◌∙◌, true, Option, some}
use mhftp.Posix.{Bytes, FileName, World}
use mhftp.Crypt.{Md5}
use mhftp.Protocol.Download.{
  Pc, critical, System, Move, get_lock, load, none_pending, claim, publish, release, leave, arrive,
  break_off, write, get_lock_again, reload, note, release_again, repeat, quit, Step, pick, Reach,
  start, later,
}
use mhftp.Protocol.Turns.{Disciplined, after_turn, takes}

-- Who is between `semaphore_get_lock` and `semaphore_release_lock` holds the semaphore.
abbrev pub HoldsLock : System → Type 0
HoldsLock s = (j : ℕ) → critical (s.pc j) ≡ true → s.lock ≡ some j

module _ {md5 : Md5} {meta_file local_file : FileName} {remote : Bytes} {c : ℕ} where
  -- What a step does with the semaphore: it leaves it alone, takes it when it is free, or gives it back.
  pub discipline :
      {me : ℕ} {w w' : World} {lock lock' : Option ℕ} {p p' : Pc}
      → Move md5 meta_file local_file remote c me w lock p w' lock' p'
      → Disciplined me lock lock' (critical p) (critical p')
  discipline (get_lock _ _ e) = takes _ _ _ _ e
  discipline (load _ _ _ _) = inl (refl, refl)
  discipline (none_pending _ _) = inl (refl, refl)
  discipline (claim _ _ _ _ _) = inl (refl, refl)
  discipline (publish _ _ _ _) = inl (refl, refl)
  discipline (release _ _) = inr (inr (refl, refl, refl))
  discipline leave = inr (inr (refl, refl, refl))
  discipline (arrive _ _ _ _ _ _ _ _ _ _ _ _) = inl (refl, refl)
  discipline (break_off _ _ _ _ _ _ _ _) = inl (refl, refl)
  discipline (write _ _ _ _ _ _ _ _) = inl (refl, refl)
  discipline (get_lock_again _ _ _ _ _ e) = takes _ _ _ _ e
  discipline (reload _ _ _ _ _ _ _) = inl (refl, refl)
  discipline (note _ _ _ _ _ _ _ _) = inl (refl, refl)
  discipline (release_again _ _) = inr (inr (refl, refl, refl))
  discipline (repeat _) = inl (refl, refl)
  discipline (quit _ _) = inl (refl, refl)

  pub Step-HoldsLock :
      {n : ℕ} {s t : System}
      → Step md5 meta_file local_file remote c n s t
      → HoldsLock s
      → HoldsLock t
  Step-HoldsLock {s = s} (pick me {lock = lock} {p = p} _ move) holds =
      after_turn critical s.pc me p s.lock lock (discipline move) holds

  -- A run that starts with no process in its critical section stays so that whoever is there holds the
  -- semaphore.
  pub Reach-HoldsLock :
      {n : ℕ} {s t : System}
      → Reach md5 meta_file local_file remote c n s t
      → HoldsLock s
      → HoldsLock t
  Reach-HoldsLock start holds = holds
  Reach-HoldsLock (later run step) holds = Step-HoldsLock step (Reach-HoldsLock run holds)

  -- However the processes of a download are interleaved, from a state in which whoever is between
  -- `semaphore_get_lock` and `semaphore_release_lock` holds the semaphore: of two processes, one at most is
  -- there.
  pub mutual_exclusion :
      {n : ℕ} {s t : System}
      → HoldsLock s
      → Reach md5 meta_file local_file remote c n s t
      → (i j : ℕ) → critical (t.pc i) ≡ true
      → critical (t.pc j) ≡ true
      → i ≡ j
  mutual_exclusion holds run i j a b =
      some-injective _ _ (sym (Reach-HoldsLock run holds i a) ∙ Reach-HoldsLock run holds j b)
