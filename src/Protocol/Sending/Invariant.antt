-- ===== src/Protocol/Sending/Invariant.antt =====
-- What holds of the files and of every process of an upload between two steps, and how a step keeps it.
use mathlib.Core.Option.{some-injective}
use mhftp.Base.{
  ℕ, subst, ◌<◌, ◌≤◌, ◌≡◌, ◌≢◌, inl, inr, refl, sym, ap, ◌∙◌, Bool, true, false, Option, none, some,
  List, length, get_elem?, set, Bool-cases, ==_iff, ◌==◌, length-set,
}
use mhftp.Base.Int.{ℤ, pos}
use mhftp.Posix.{Bytes, FileName, World, bytes_eq}
use mhftp.Metadata.{ChunkInfo, ch_upload, Metadata, IsWellFormed}
use mhftp.Metadata.PayLoad.{chunk_count, get_pay_load_array}
use mhftp.Metadata.Table.{is_pending, with_status}
use mhftp.Metadata.Disk.RoundTrip.{Holds}
use mhftp.Metadata.Disk.Update.{with_table}
use mhftp.Protocol.Client.{max_chunk_size}
use mhftp.Protocol.Turns.{
  Disciplined, update, update_all, update_self, after_turn, update_unique, update-owns,
}
use mhftp.Protocol.Download.Entries.{set_self, set_other, set_other_back}
use mhftp.Protocol.Download.Invariant.{Current}
use mhftp.Protocol.Sending.{
  Point, starting, claiming, publishing, claimed, sending, sent, reloading, recording, stopped,
  Process, critical_at, owned_at, critical, owns,
}

-- Entry `i` is in CH_UPLOAD.
abbrev pub Marked : List ChunkInfo → ℕ → Type 0
Marked table i = (e : ChunkInfo) × (get_elem? table i ≡ some e) × (e.status ≡ ch_upload)

-- Behind the first lines of `UploadFileToServer`, and before its last.
abbrev pub begun : Point → Bool
begun starting = false
begun stopped = false
begun _ = true

-- What the object of a process says of the table of the file.
abbrev pub Local : ℕ → List ChunkInfo → Point → Metadata → Type 0
Local c table claiming m = Current c table m
Local c table (publishing i) m =
    (e : ChunkInfo) × (get_elem? table i ≡ some e)
    × (is_pending e.status ≡ true)
    × Current c (set table i (with_status ch_upload none e)) m
Local c table (claimed i) m = Marked table i × (m.chunk_size ≡ pos c)
Local c table (sending i) m = Marked table i × (m.chunk_size ≡ pos c)
Local c table (sent i) m = Marked table i
Local c table (reloading i) m = Marked table i
Local c table (recording i) m = Marked table i × Current c table m
Local c table _ m = Unit

-- A process that does not have the semaphore keeps its knowledge when other chunks change.
Local-table :
    (c : ℕ) (table table' : List ChunkInfo) (a : Point) (m : Metadata)
    → critical_at a ≡ false
    → ((i : ℕ) → owned_at a ≡ some i → Marked table i → Marked table' i)
    → Local c table a m
    → Local c table' a m
Local-table c t t' (claimed i) m out keep (u, l) = (keep i refl u, l)
Local-table c t t' (sending i) m out keep (u, l) = (keep i refl u, l)
Local-table c t t' (sent i) m out keep u = keep i refl u
Local-table c t t' claiming m out keep l = cc
Local-table c t t' (publishing i) m out keep l = cc
Local-table c t t' (reloading i) m out keep l = cc
Local-table c t t' (recording i) m out keep l = cc
Local-table c t t' _ m out keep l = tt

-- The owner of a chunk knows that it is marked.
pub owner-Marked :
    (c : ℕ) (table : List ChunkInfo) (a : Point) (m : Metadata) (i : ℕ)
    → owned_at a ≡ some i
    → Local c table a m
    → Marked table i
owner-Marked c table (claimed i) m j e (u, _) = subst (Marked table) (some-injective _ _ e) u
owner-Marked c table (sending i) m j e (u, _) = subst (Marked table) (some-injective _ _ e) u
owner-Marked c table (sent i) m j e u = subst (Marked table) (some-injective _ _ e) u
owner-Marked c table (reloading i) m j e u = subst (Marked table) (some-injective _ _ e) u
owner-Marked c table (recording i) m j e (u, _) = subst (Marked table) (some-injective _ _ e) u
owner-Marked c table _ m j e l = cc

-- What an upload starts from and never changes: the file, and a header that was made for it, with `k` chunks
-- of at most `c` bytes.
pub record Setting (meta_file local_file : FileName) (header : Metadata) (file : Bytes) (c k : ℕ)
    : Type 0 where
  pub apart : bytes_eq meta_file local_file ≡ false
  pub sized : header.chunk_size ≡ pos c
  pub measured : header.file_size ≡ pos (length file)
  pub positive : 0 < c
  pub fits : c ≤ max_chunk_size
  pub cut : chunk_count (length file) (pos c) ≡ some (pos k)

-- `payLoadArray_` of every process.
abbrev pub pay_load_array : Bytes → ℕ → ℕ → List ℤ
pay_load_array file c k = get_pay_load_array (pos (length file)) (pos c) (pos k)

pub record Inv (meta_file local_file : FileName) (header : Metadata) (file : Bytes) (c k : ℕ)
    (table : List ChunkInfo) (w : World) (lock : Option ℕ) (pc : ℕ → Process) : Type 0 where
  pub well_formed : IsWellFormed (with_table header table)
  pub holds : Holds w meta_file (with_table header table)
  pub counted : length table ≡ k
  pub stored : w.files local_file ≡ some file
  pub locked : (j : ℕ) → critical (pc j) ≡ true → lock ≡ some j
  pub unique : (i j a : ℕ) → owns (pc i) ≡ some a → owns (pc j) ≡ some a → i ≡ j
  pub locals : (j : ℕ) → Local c table (pc j).at (pc j).object
  pub owned :
      (a : ℕ) (e : ChunkInfo)
      → get_elem? table a ≡ some e
      → e.status ≡ ch_upload
      → (j : ℕ) × (owns (pc j) ≡ some a)
  pub named : (j : ℕ) → (pc j).object.file_metadata ≡ meta_file
  pub arrays : (j : ℕ) → begun (pc j).at ≡ true → (pc j).sizes ≡ pay_load_array file c k

module _ {meta_file local_file : FileName} {header : Metadata} {file : Bytes} {c k : ℕ}
    {table : List ChunkInfo} {w : World} {lock : Option ℕ} {pc : ℕ → Process}
    (inv : Inv meta_file local_file header file c k table w lock pc) (me : ℕ) where
  -- A step that leaves the files alone, and after which the process has the chunk that it had.
  pub quiet :
      (a : Point) (p' : Process) (lock' : Option ℕ) (w' : World)
      → (pc me).at ≡ a
      → w ≡ w'
      → Disciplined me lock lock' (critical_at a) (critical p')
      → owns p' ≡ owned_at a
      → Local c table p'.at p'.object
      → p'.object.file_metadata ≡ meta_file
      → (begun p'.at ≡ true → p'.sizes ≡ pay_load_array file c k)
      → Inv meta_file local_file header file c k table w' lock' (update pc me p')
  quiet a p' lock' w' here same d kept l name array = record {
    well_formed = inv.well_formed;
    holds = subst (λ v. Holds v meta_file (with_table header table)) same inv.holds;
    counted = inv.counted;
    stored = ap (λ v. World.files v local_file) (sym same) ∙ inv.stored;
    locked =
        after_turn critical pc me p' lock lock'
          (subst (λ b. Disciplined me lock lock' (critical_at b) (critical p')) (sym here) d)
          inv.locked;
    unique = update_unique pc me p' owns inv.unique (λ j i other mine theirs.
        other (inv.unique me j i (ap owned_at here ∙ sym kept ∙ mine) theirs));
    locals = update_all (λ _ p. Local c table p.at p.object) pc me p' l (λ j _. inv.locals j);
    owned = λ i e there status.
        let (j, mine) = inv.owned i e there status in
        (j, update-owns pc me p' owns i j (λ q. kept ∙ sym (ap owned_at here) ∙ q) mine);
    named =
        update_all (λ _ p. p.object.file_metadata ≡ meta_file) pc me p' name (λ j _. inv.named j);
    arrays =
        update_all (λ _ p. begun p.at ≡ true → p.sizes ≡ pay_load_array file c k) pc me p' array
          (λ j _. inv.arrays j);
  }

  -- Nobody else is in its critical section.
  others_out : critical (pc me) ≡ true → (j : ℕ) → me ≢ j → critical (pc j) ≡ false
  others_out mine j other = elim (Bool-cases (critical (pc j))) [
    | inl theirs ↦
        absurd (other (some-injective _ _ (sym (inv.locked me mine) ∙ inv.locked j theirs)))
    | inr out ↦ out
  ]

  -- A step that changes entry `i` of the file's table, by the process that has the semaphore.
  pub changed :
      (i : ℕ) (e v : ChunkInfo) (p' : Process) (w' : World)
      → get_elem? table i ≡ some e
      → critical (pc me) ≡ true
      → critical p' ≡ true
      → IsWellFormed (with_table header (set table i v))
      → Holds w' meta_file (with_table header (set table i v))
      → w'.files local_file ≡ some file
      → ((j : ℕ) → me ≢ j → owns (pc j) ≢ some i)
      → ((a : ℕ) → owns p' ≡ some a → i ≡ a)
      → (v.status ≡ ch_upload → owns p' ≡ some i)
      → ((a : ℕ) → i ≢ a → owns (pc me) ≡ some a → owns p' ≡ some a)
      → Local c (set table i v) p'.at p'.object
      → p'.object.file_metadata ≡ meta_file
      → (begun p'.at ≡ true → p'.sizes ≡ pay_load_array file c k)
      → Inv meta_file local_file header file c k (set table i v) w' lock (update pc me p')
  changed i e v p' w' there mine_in in' wf holds' stored' none_else only marks kept l name array =
      record {
        well_formed = wf;
        holds = holds';
        counted = length-set table i v ∙ inv.counted;
        stored = stored';
        locked = after_turn critical pc me p' lock lock (inl (refl, in' ∙ sym mine_in)) inv.locked;
        unique =
            update_unique pc me p' owns inv.unique
              (λ j a other mine theirs. none_else j other (theirs ∙ ap some (sym (only a mine))));
        locals =
            update_all (λ _ p. Local c (set table i v) p.at p.object) pc me p' l
              (λ j other.
                Local-table c table (set table i v) (pc j).at (pc j).object
                  (others_out mine_in j other)
                  (λ a theirs (u, at, status). (
                    u,
                    set_other_back table i a v u
                        (λ same. none_else j other (theirs ∙ ap some (sym same))) at,
                    status,
                  ))
                  (inv.locals j));
        owned = owner;
        named =
            update_all (λ _ p. p.object.file_metadata ≡ meta_file) pc me p' name
              (λ j _. inv.named j);
        arrays =
            update_all (λ _ p. begun p.at ≡ true → p.sizes ≡ pay_load_array file c k) pc me p' array
              (λ j _. inv.arrays j);
      }
    where
      owner :
          (a : ℕ) (e' : ChunkInfo)
          → get_elem? (set table i v) a ≡ some e'
          → e'.status ≡ ch_upload
          → (j : ℕ) × (owns (update pc me p' j) ≡ some a)
      owner a e' q status = elim (Bool-cases (i == a)) [
        | inl t ↦
            let same : i ≡ a = (==_iff i a).0 t in
            let entry : v ≡ e' =
              some-injective _ _
                (sym (set_self table i e there v) ∙ ap (get_elem? (set table i v)) same ∙ q) in
            (
              me,
              ap owns (update_self pc me p')
                  ∙ marks (ap ChunkInfo.status entry ∙ status)
                  ∙ ap some same,
            )
        | inr t ↦
            let apart : i ≢ a = λ same. let u : (i == a) ≡ true = (==_iff i a).1 same in cc in
            let (j, mine) = inv.owned a e' (set_other table i a v e' apart q) status in
            (j, update-owns pc me p' owns a j (kept a apart) mine)
      ]
