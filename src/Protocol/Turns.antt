-- ===== src/Protocol/Turns.antt =====
-- Processes that take turns: the state of one of them after a step, the semaphore that they share, and the
-- chunks that they own. For the processes of a download and of an upload.
use mathlib.Core.Option.{some-injective}
use mhftp.Base.{
  ℕ, zero, suc, subst, ◌+◌, ◌≤◌, ◌<◌, ◌≡◌, ◌≢◌, ◌⊎◌, inl, inr, refl, sym, ap, ◌∙◌, Bool, true,
  false, Option, none, some, ◌==◌, ==_iff, Bool-cases, if◌then◌else◌, arith,
}

abbrev pub update {ℓ} : {A : Type ℓ} → (ℕ → A) → ℕ → A → ℕ → A
update f i a j = if i == j then a else f j

-- A test that fails, from a difference.
pub ==-of_ne : (i j : ℕ) → i ≢ j → (i == j) ≡ false
==-of_ne i j h = elim (Bool-cases (i == j)) [ inl e ↦ absurd (h ((==_iff i j).0 e)) | inr e ↦ e ]

-- The semaphore has the value 1, `none`, or a process has taken it. `semop` itself does not fail.
abbrev pub semaphore_get_lock : ℕ → Option ℕ → Option (Option ℕ)
semaphore_get_lock me none = some (some me)
semaphore_get_lock me (some _) = none

abbrev pub semaphore_release_lock : Option ℕ → Option ℕ
semaphore_release_lock _ = none

-- What a step does with the semaphore, and whether the process is between its calls before and behind the
-- step: it leaves it alone, takes it when it is free, or gives it back.
abbrev pub Disciplined : ℕ → Option ℕ → Option ℕ → Bool → Bool → Type 0
Disciplined me lock lock' before after =
    ((lock' ≡ lock) × (after ≡ before))
    ⊎ (((after ≡ true) × (lock ≡ none) × (lock' ≡ some me))
        ⊎ ((before ≡ true) × (lock' ≡ none) × (after ≡ false)))

pub takes :
    (me : ℕ) (lock lock' : Option ℕ) (before : Bool)
    → semaphore_get_lock me lock ≡ some lock'
    → Disciplined me lock lock' before true
takes me none lock' before e = inr (inl (refl, refl, sym (some-injective _ _ e)))
takes me (some _) lock' before e = absurd cc

module _ {ℓ} {A : Type ℓ} where
  -- A property of every process, after a step of process `me`.
  pub update_all {κ} :
      (P : ℕ → A → Type κ) (pc : ℕ → A) (me : ℕ) (p : A)
      → P me p
      → ((j : ℕ) → me ≢ j → P j (pc j))
      → (j : ℕ) → P j (update pc me p j)
  update_all P pc me p mine others j = by_test (me == j) refl
    where
      by_test : (b : Bool) → (me == j) ≡ b → P j (if b then p else pc j)
      by_test true e = let same : me ≡ j = (==_iff me j).0 e in subst (λ k. P k p) same mine
      by_test false e = others j (λ same. let t : (me == j) ≡ true = (==_iff me j).1 same in cc)

  -- Who is between the calls of the semaphore holds it, also after a step.
  pub after_turn :
      (critical : A → Bool) (pc : ℕ → A) (me : ℕ) (p : A) (lock lock' : Option ℕ)
      → Disciplined me lock lock' (critical (pc me)) (critical p)
      → ((j : ℕ) → critical (pc j) ≡ true → lock ≡ some j)
      → (j : ℕ) → critical (update pc me p j) ≡ true
      → lock' ≡ some j
  after_turn critical pc me p lock lock' d held =
      update_all (λ j q. critical q ≡ true → lock' ≡ some j) pc me p (mine d) (others d)
    where
      mine :
          Disciplined me lock lock' (critical (pc me)) (critical p)
          → critical p ≡ true
          → lock' ≡ some me
      mine (inl (l, same)) crit = l ∙ held me (sym same ∙ crit)
      mine (inr (inl (_, _, l))) crit = l
      mine (inr (inr (_, _, out))) crit = absurd cc

      others :
          Disciplined me lock lock' (critical (pc me)) (critical p)
          → (j : ℕ) → me ≢ j
          → critical (pc j) ≡ true
          → lock' ≡ some j
      others (inl (l, _)) j other crit = l ∙ held j crit
      others (inr (inl (_, l, _))) j other crit = let h : lock ≡ some j = held j crit in absurd cc
      others (inr (inr (inside, _, _))) j other crit =
          absurd (other (some-injective _ _ (sym (held me inside) ∙ held j crit)))

  -- Who holds the semaphore is between the calls, also after a step.
  pub held_after :
      (critical : A → Bool) (pc : ℕ → A) (me : ℕ) (p : A) (lock lock' : Option ℕ)
      → Disciplined me lock lock' (critical (pc me)) (critical p)
      → ((j : ℕ) → lock ≡ some j → critical (pc j) ≡ true)
      → (j : ℕ) → lock' ≡ some j
      → critical (update pc me p j) ≡ true
  held_after critical pc me p lock lock' d held =
      update_all (λ j q. lock' ≡ some j → critical q ≡ true) pc me p (mine d) (others d)
    where
      mine :
          Disciplined me lock lock' (critical (pc me)) (critical p)
          → lock' ≡ some me
          → critical p ≡ true
      mine (inl (same, kept)) e = kept ∙ held me (sym same ∙ e)
      mine (inr (inl (inside, _, _))) e = inside
      mine (inr (inr (_, free, _))) e = absurd cc

      others :
          Disciplined me lock lock' (critical (pc me)) (critical p)
          → (j : ℕ) → me ≢ j
          → lock' ≡ some j
          → critical (pc j) ≡ true
      others (inl (same, _)) j other e = held j (sym same ∙ e)
      others (inr (inl (_, _, taken))) j other e =
          absurd (other (some-injective _ _ (sym taken ∙ e)))
      others (inr (inr (_, free, _))) j other e = absurd cc

  -- A property of every process and of what is said of it, after a step that changes both.
  pub update_both {κ μ} :
      {B : Type κ} (P : A → B → Type μ) (pc : ℕ → A) (ns : ℕ → B) (me : ℕ) (p : A) (b : B)
      → P p b
      → ((j : ℕ) → me ≢ j → P (pc j) (ns j))
      → (j : ℕ) → P (update pc me p j) (update ns me b j)
  update_both P pc ns me p b mine others j = elim (Bool-cases (me == j)) [
    | inl e ↦ rw e mine
    | inr e ↦ rw e (others j (λ same. let t : (me == j) ≡ true = (==_iff me j).1 same in cc))
  ]

  module _ (pc : ℕ → A) (me : ℕ) (p : A) where
    pub update_other : (j : ℕ) → me ≢ j → update pc me p j ≡ pc j
    update_other j other = rw (==-of_ne me j other) refl

    pub update_self : update pc me p me ≡ p
    update_self = rw ((==_iff me me).1 refl) refl

    module _ (owns : A → Option ℕ) where
      -- Two owners of a chunk are the same after a step, if the stepping process took nobody's.
      pub update_unique :
          ((i j a : ℕ) → owns (pc i) ≡ some a → owns (pc j) ≡ some a → i ≡ j)
          → ((j a : ℕ) → me ≢ j → owns p ≡ some a → owns (pc j) ≡ some a → ⊥)
          → (i j a : ℕ) → owns (update pc me p i) ≡ some a
          → owns (update pc me p j) ≡ some a
          → i ≡ j
      update_unique old fresh i j a =
          update_all (λ i q. owns q ≡ some a → owns (update pc me p j) ≡ some a → i ≡ j) pc me p
            (λ mine.
              update_all (λ j q. owns q ≡ some a → me ≡ j) pc me p (λ _. refl)
                (λ j other theirs. absurd (fresh j a other mine theirs)) j)
            (λ i other mine.
              update_all (λ j q. owns q ≡ some a → i ≡ j) pc me p
                (λ theirs. absurd (fresh i a other theirs mine))
                (λ j _ theirs. old i j a mine theirs) j)
            i

      -- An owner stays one, if the stepping process keeps its chunk.
      pub update-owns :
          (a j : ℕ)
          → (owns (pc me) ≡ some a → owns p ≡ some a)
          → owns (pc j) ≡ some a
          → owns (update pc me p j) ≡ some a
      update-owns a j keep =
          update_all (λ j q. owns (pc j) ≡ some a → owns q ≡ some a) pc me p keep (λ j _ h. h) j

  -- The sum of a measure over the processes below a bound.
  abbrev pub total : (A → ℕ) → (ℕ → A) → ℕ → ℕ
  total f pc zero = 0
  total f pc (suc n) = f (pc n) + total f pc n

  module _ (f : A → ℕ) (pc : ℕ → A) (me : ℕ) (p : A) where
    above : (n : ℕ) → n ≤ me → total f (update pc me p) n ≡ total f pc n
    above zero le = refl
    above (suc n) le =
        let same = ap f (update_other pc me p n (λ e. absurd (omega (arith, le, e)))) in
        omega (arith, same, above n (omega arith))

    pub total-update :
        (n : ℕ) → me < n → total f (update pc me p) n + f (pc me) ≡ total f pc n + f p
    total-update zero lt = absurd (omega arith)
    total-update (suc n) lt = elim (Bool-cases (me == n)) [
      | inl e ↦
          let here : me ≡ n = (==_iff me n).0 e in
          let now = ap f (update_self pc me p) in
          let at : f (update pc me p n) ≡ f (update pc me p me) =
            ap (λ j. f (update pc me p j)) (sym here) in
          let before : f (pc n) ≡ f (pc me) = ap (λ j. f (pc j)) (sym here) in
          omega (arith, now, at, before, above n (omega (arith, here)))
      | inr e ↦
          let other : me ≢ n = λ same. let t : (me == n) ≡ true = (==_iff me n).1 same in cc in
          let same = ap f (update_other pc me p n other) in
          omega (arith, same, total-update n (omega (arith, other)))
    ]
