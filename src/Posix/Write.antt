-- ===== src/Posix/Write.antt =====
-- What a buffer holds after a read and a file after a write.
use mathlib.Core.List.{append-nil, append_assoc}
use mhftp.Base.{
  ℕ, ◌+◌, ◌-◌, ◌≤◌, ◌<◌, ◌≡◌, refl, sym, ap, ap₂, ◌∙◌, ◌⊎◌, inl, inr, List, [], ◌∷◌, ◌++◌, arith,
  length, get_elem?, take, drop, replicate, length-append, length-take, length-drop,
  length-replicate, take-append, drop-append, drop-drop, get_elem?-append_left,
  get_elem?-append_right, get_elem?-take, get_elem?-drop,
}
use mhftp.Posix.{Bytes, read_into, front, write_at, write_seq}

-- A read of as many bytes as are there fills the buffer with them.
pub read_into-append : (buf x rest : Bytes) (n : ℕ) → length x ≡ n → read_into buf n (x ++ rest) ≡ x
unfolding read_into
read_into-append buf x rest n h =
    rw (take-append x rest n h) (take-append x (drop (length x) buf) n h)

-- A read of the rest of a file that is just long enough.
pub read_into_exact : (buf x : Bytes) (n : ℕ) → length x ≡ n → read_into buf n x ≡ x
read_into_exact buf x n h = rw (append-nil x) at (read_into-append buf x [] n h)

length-front : (p : ℕ) (file : Bytes) → length (front p file) ≡ p
unfolding front
length-front p file = omega (
  arith,
  length-append {0} (take p file) (replicate (p - length file) 0),
  length-take {0} p file,
  length-replicate {0} {A = ℕ} (p - length file) 0,
)

pub length-write_at :
    (p : ℕ) (bs file : Bytes)
    → 0 < length bs
    → length (write_at p bs file) ≡ p + length bs + (length file - (p + length bs))
unfolding write_at
length-write_at p [] file h = absurd (omega arith)
length-write_at p (b ∷ bs) file h = omega (
  arith,
  length-append {0} (front p file) ((b ∷ bs) ++ drop (p + length (b ∷ bs)) file),
  length-append {0} (b ∷ bs) (drop (p + length (b ∷ bs)) file),
  length-front p file,
  length-drop {0} (p + length (b ∷ bs)) file,
)

-- Inside what it writes, a write puts its bytes.
pub write_at_inside :
    (p : ℕ) (bs file : Bytes) (i j : ℕ)
    → i < length bs
    → j ≡ p + i
    → get_elem? (write_at p bs file) j ≡ get_elem? bs i
unfolding write_at
write_at_inside p [] file i j h e = absurd (omega arith)
write_at_inside p (b ∷ bs) file i j h e =
    get_elem?-append_right (front p file) _ j i (omega (arith, length-front p file))
    ∙ get_elem?-append_left (b ∷ bs) _ i h

front_below :
    (p : ℕ) (file : Bytes) (j : ℕ)
    → j < p
    → j < length file
    → get_elem? (front p file) j ≡ get_elem? file j
unfolding front
front_below p file j h k =
    get_elem?-append_left (take p file) _ j (omega (arith, length-take {0} p file))
    ∙ get_elem?-take p file j h

-- Outside it, a write keeps the bytes that the file has.
pub write_at_outside :
    (p : ℕ) (bs file : Bytes) (j : ℕ)
    → j < length file
    → (j < p) ⊎ (p + length bs ≤ j)
    → get_elem? (write_at p bs file) j ≡ get_elem? file j
unfolding write_at
write_at_outside p [] file j k h = refl
write_at_outside p (b ∷ bs) file j k (inl h) =
    get_elem?-append_left (front p file) _ j (omega (arith, length-front p file))
    ∙ front_below p file j h k
write_at_outside p (b ∷ bs) file j k (inr h) =
    get_elem?-append_right (front p file) _ j (j - p) (omega (arith, length-front p file))
    ∙ get_elem?-append_right (b ∷ bs) _ (j - p) (j - (p + length (b ∷ bs))) (omega arith)
    ∙ get_elem?-drop (p + length (b ∷ bs)) file _ j (omega arith)

front-append : (p : ℕ) (pre tail : Bytes) → length pre ≡ p → front p (pre ++ tail) ≡ pre
unfolding front replicate
front-append p pre tail h =
    let e : p - length (pre ++ tail) ≡ 0 = omega (arith, length-append {0} pre tail) in
    rw (take-append pre tail p h, e) (append-nil pre)

drop-append_more :
    (pre tail : Bytes) (p n : ℕ) → length pre ≡ p → drop (p + n) (pre ++ tail) ≡ drop n tail
drop-append_more pre tail p n h =
    sym (drop-drop n p (pre ++ tail) (p + n) refl) ∙ ap (drop n) (drop-append pre tail p h)

-- A write at the end of `pre` keeps `pre`, and what lies behind the written bytes.
pub write_at-append :
    (p : ℕ) (pre bs tail : Bytes)
    → length pre ≡ p
    → write_at p bs (pre ++ tail) ≡ pre ++ (bs ++ drop (length bs) tail)
unfolding write_at
write_at-append p pre [] tail h = unfold drop in refl
write_at-append p pre (b ∷ bs) tail h =
    ap₂ ◌++◌ (front-append p pre tail h)
      (ap (λ t. (b ∷ bs) ++ t) (drop-append_more pre tail p (length (b ∷ bs)) h))

abbrev pub concat : List Bytes → Bytes
concat [] = []
concat (bs ∷ more) = bs ++ concat more

-- Writes in a row are one write of all the bytes.
pub write_seq-append :
    (p : ℕ) (pre : Bytes) (parts : List Bytes) (tail : Bytes)
    → length pre ≡ p
    → write_seq p parts (pre ++ tail) ≡ pre ++ (concat parts ++ drop (length (concat parts)) tail)
unfolding write_seq
write_seq-append p pre [] tail h = unfold drop in refl
write_seq-append p pre (bs ∷ more) tail h =
    ap (write_seq (p + length bs) more)
      (write_at-append p pre bs tail h ∙ sym (append_assoc pre bs (drop (length bs) tail)))
    ∙ write_seq-append (p + length bs) (pre ++ bs) more (drop (length bs) tail)
        (omega (arith, length-append {0} pre bs))
    ∙ append_assoc pre bs _
    ∙ ap (λ t. pre ++ t)
        (sym (append_assoc bs (concat more) (drop (length (concat more)) (drop (length bs) tail)))
          ∙ ap (λ t. (bs ++ concat more) ++ t)
              (drop-drop (length (concat more)) (length bs) tail _
                (length-append bs (concat more))))
