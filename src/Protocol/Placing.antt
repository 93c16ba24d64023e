-- ===== src/Protocol/Placing.antt =====
-- A part of a file, written at its place into another file.
use mhftp.Base.{
  ℕ, ◌+◌, ◌-◌, ◌*◌, ◌≤◌, ◌<◌, ◌≡◌, ◌⊎◌, inl, inr, ◌∙◌, [], ◌∷◌, arith, length, drop, get_elem?,
  get_elem?-take, get_elem?-drop, get_elem?-some, get_elem?-lt,
}
use mhftp.Posix.{Bytes, write_at}
use mhftp.Posix.Write.{length-write_at, write_at_inside, write_at_outside}
use mhftp.Protocol.Server.Answers.{slice, length-slice}

length_write_bound :
    (p : ℕ) (bs g : Bytes) (l : ℕ)
    → length g ≤ l
    → (0 < length bs → p + length bs ≤ l)
    → length (write_at p bs g) ≤ l
unfolding write_at
length_write_bound p [] g l h k = h
length_write_bound p (b ∷ bs) g l h k =
    omega (arith, length-write_at p (b ∷ bs) g (omega arith), k (omega arith))

-- A test on where a byte lies.
pub place : (a b j : ℕ) → ((a ≤ j) × (j < a + b)) ⊎ ((j < a) ⊎ (a + b ≤ j))
place a b j = ground arith

module _ (file : Bytes) (c : ℕ) where
  abbrev pub put : ℕ → Bytes → Bytes
  put i g = write_at (c * i) (slice file c i) g

  pub length-put : (i : ℕ) (g : Bytes) → length g ≤ length file → length (put i g) ≤ length file
  length-put i g h =
      length_write_bound (c * i) (slice file c i) g (length file) h
        (λ some_bytes. omega (arith, length-slice file c i))

  pub put_inside :
      (i j : ℕ) (g : Bytes)
      → c * i ≤ j
      → j < c * i + length (slice file c i)
      → get_elem? (put i g) j ≡ get_elem? file j
  put_inside i j g h k =
      write_at_inside (c * i) (slice file c i) g (j - c * i) j (omega arith) (omega arith)
      ∙ get_elem?-take c (drop (c * i) file) (j - c * i) (omega (arith, length-slice file c i))
      ∙ get_elem?-drop (c * i) file (j - c * i) j (omega arith)

  -- A byte that is in its place stays there.
  pub put_keeps :
      (i j : ℕ) (g : Bytes)
      → j < length file
      → get_elem? g j ≡ get_elem? file j
      → get_elem? (put i g) j ≡ get_elem? file j
  put_keeps i j g h e =
      let (b, q) = get_elem?-some file j h in
      elim (place (c * i) (length (slice file c i)) j) [
        | inl (low, high) ↦ put_inside i j g low high
        | inr outside ↦
            write_at_outside (c * i) (slice file c i) g j (get_elem?-lt g j (e ∙ q)) outside ∙ e
      ]
