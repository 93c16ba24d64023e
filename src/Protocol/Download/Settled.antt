-- ===== src/Protocol/Download/Settled.antt =====
-- What holds of the table and the processes of a download that nothing disturbs, and how a step keeps it.
use mathlib.Core.Option.{some-injective}
use mhftp.Base.{
  ℕ, subst, ◌<◌, ◌≡◌, ◌≢◌, inl, inr, sym, ap, ◌∙◌, Bool, true, false, some, List, get_elem?,
  get_elem?-lt, set, ◌==◌, ==_iff, Bool-cases,
}
use mhftp.Base.Int.{negsuc}
use mhftp.Metadata.{ChunkStatus, ChunkInfo, ch_upload, Metadata}
use mhftp.Metadata.Table.{is_pending, get_next_pending_chunk}
use mhftp.Metadata.Table.Pending.{IsNextPending, get_next_pending_chunk_finds}
use mhftp.Protocol.Download.{
  Pc, nothing_left, written, reloading, recording, recorded, looping, finished,
}
use mhftp.Protocol.Download.Entries.{set_self, set_other}
use mhftp.Protocol.Download.Invariant.{Current}
use mhftp.Protocol.Turns.{update, update_all}

abbrev pub Every : (ChunkStatus → Type 0) → List ChunkInfo → Type 0
Every P table = (a : ℕ) (e : ChunkInfo) → get_elem? table a ≡ some e → P e.status

-- Behind the loop by its `break`.
abbrev pub gone : Pc → Bool
gone nothing_left = true
gone finished = true
gone _ = false

-- `sock_error` is not set.
abbrev pub unbroken : Pc → Bool
unbroken (written _ _ true _) = false
unbroken (reloading _ _ true _) = false
unbroken (recording _ _ true _) = false
unbroken (recorded _ true) = false
unbroken (looping _ true) = false
unbroken _ = true

pub Every-set :
    (P : ChunkStatus → Type 0) (table : List ChunkInfo) (i : ℕ) (e v : ChunkInfo)
    → get_elem? table i ≡ some e
    → Every P table
    → P v.status
    → Every P (set table i v)
Every-set P table i e v there all new a e' q = elim (Bool-cases (i == a)) [
  | inl t ↦
      let same : i ≡ a = (==_iff i a).0 t in
      let entry : v ≡ e' =
        some-injective _ _
          (sym (set_self table i e there v) ∙ ap (get_elem? (set table i v)) same ∙ q) in
      subst (λ u. P (ChunkInfo.status u)) entry new
  | inr t ↦
      all a e'
        (set_other table i a v e' (λ same. let u : (i == a) ≡ true = (==_iff i a).1 same in cc) q)
]

abbrev pub Unsent : ChunkStatus → Type 0
Unsent s = s ≢ ch_upload

abbrev pub Taken : ChunkStatus → Type 0
Taken s = is_pending s ≡ false

-- What holds of a table, and of the processes below `n`, in an undisturbed run.
pub record Settled (n : ℕ) (table : List ChunkInfo) (pc : ℕ → Pc) : Type 0 where
  pub unsent : Every Unsent table
  pub over : (j : ℕ) → j < n → gone (pc j) ≡ true → Every Taken table
  pub whole : (j : ℕ) → unbroken (pc j) ≡ true

-- What a calm step keeps.
pub record Kept (p p' : Pc) (table table' : List ChunkInfo) : Type 0 where
  pub unsent' : Every Unsent table → Every Unsent table'
  pub taken' : Every Taken table → Every Taken table'
  pub over' : (gone p ≡ true → Every Taken table) → gone p' ≡ true → Every Taken table'
  pub whole' : unbroken p ≡ true → unbroken p' ≡ true

pub unchanged :
    {p p' : Pc} {table table' : List ChunkInfo}
    → table' ≡ table
    → ((gone p ≡ true → Every Taken table) → gone p' ≡ true → Every Taken table)
    → (unbroken p ≡ true → unbroken p' ≡ true)
    → Kept p p' table table'
unchanged {p} {p'} {table} {table'} same o b = record {
  unsent' = subst (Every Unsent) (sym same);
  taken' = subst (Every Taken) (sym same);
  over' = λ h g. subst (Every Taken) (sym same) (o h g);
  whole' = b;
}

-- What `getNextPendingChunk` says when it returns -1.
pub none_left :
    (c : ℕ) (table : List ChunkInfo) (m : Metadata)
    → Current c table m
    → get_next_pending_chunk m ≡ some (negsuc 0)
    → Every Taken table
none_left c table m (wf, same, _) e a entry at =
    let (r, q, found) = get_next_pending_chunk_finds m wf.chunks_counted in
    let (_, taken) = subst (IsNextPending m.chunk_info) (some-injective _ _ (sym q ∙ e)) found in
    let at' : get_elem? m.chunk_info a ≡ some entry = ap (λ t. get_elem? t a) same ∙ at in
    taken a entry (get_elem?-lt m.chunk_info a at') at'

pub entry_changed :
    {p p' : Pc} {table table' : List ChunkInfo} (i : ℕ) (e v : ChunkInfo) (status : ChunkStatus)
    → get_elem? table i ≡ some e
    → v.status ≡ status
    → table' ≡ set table i v
    → Unsent status
    → Taken status
    → gone p' ≡ false
    → unbroken p' ≡ true
    → Kept p p' table table'
entry_changed {table = table} i e v status there is same unsent taken stays whole = record {
  unsent' = λ all.
      subst (Every Unsent) (sym same)
        (Every-set Unsent table i e v there all (subst Unsent (sym is) unsent));
  taken' = λ all.
      subst (Every Taken) (sym same)
        (Every-set Taken table i e v there all (subst Taken (sym is) taken));
  over' = λ _ g. cc;
  whole' = λ _. whole;
}

pub Move-Settled :
    {n : ℕ} {pc : ℕ → Pc} {me : ℕ} {p : Pc} {table table' : List ChunkInfo}
    → Settled n table pc
    → me < n
    → Kept (pc me) p table table'
    → Settled n table' (update pc me p)
Move-Settled {n} {pc} {me} {p} {table} {table'} was lt kept = record {
  unsent = kept.unsent' was.unsent;
  over =
      update_all (λ j q. j < n → gone q ≡ true → Every Taken table') pc me p
        (λ _. kept.over' (was.over me lt)) (λ j _ below g. kept.taken' (was.over j below g));
  whole =
      update_all (λ _ q. unbroken q ≡ true) pc me p (kept.whole' (was.whole me))
        (λ j _. was.whole j);
}
