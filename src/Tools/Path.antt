-- ===== src/Tools/Path.antt =====
-- What `AbsoluteFile` makes of a path, and what `StrCat` makes of two strings.
use mathlib.Core.List.{append_assoc}
use mhftp.Base.{
  ℕ, zero, suc, ◌+◌, ◌≤◌, ◌<◌, ◌≡◌, ◌≢◌, refl, sym, ap, ◌∙◌, none, some, List, [], ◌∷◌, ◌++◌, arith,
  ≢→==, length, drop, All, length-append, length-drop, take-append, drop-append,
}
use mhftp.Posix.{Bytes, FileName, c_string, put_string}
use mhftp.Base.{dec_lt}
use mhftp.Tools.{str_cat, char_at, absolute_loop, absolute_file}

-- Neither a separator nor the end of the string.
abbrev pub IsNameByte : ℕ → Type 0
IsNameByte c = (c ≢ b'/') × (c ≢ 0)

char_at_slash :
    (dir base : Bytes) (i : ℕ) → i ≡ length dir → char_at (dir ++ (b'/' ∷ base)) i ≡ b'/'
char_at_slash [] base zero h = refl
char_at_slash [] base (suc i) h = absurd (omega arith)
char_at_slash (c ∷ dir) base zero h = absurd (omega arith)
char_at_slash (c ∷ dir) base (suc i) h = char_at_slash dir base i (omega arith)

char_at_name : (base : Bytes) (i : ℕ) → All IsNameByte base → char_at base i ≢ b'/'
char_at_name [] i h = λ e. absurd (omega arith)
char_at_name (c ∷ base) zero h = h.0.0
char_at_name (c ∷ base) (suc i) h = char_at_name base i h.1

char_at_base :
    (dir base : Bytes) (i : ℕ)
    → All IsNameByte base
    → length dir < i
    → char_at (dir ++ (b'/' ∷ base)) i ≢ b'/'
char_at_base [] base zero h k = absurd (omega arith)
char_at_base [] base (suc i) h k = char_at_name base i h
char_at_base (c ∷ dir) base zero h k = absurd (omega arith)
char_at_base (c ∷ dir) base (suc i) h k = char_at_base dir base i h (omega arith)

behind_slash :
    (dir base : Bytes) (i : ℕ) → i ≡ length dir → drop (i + 1) (dir ++ (b'/' ∷ base)) ≡ base
behind_slash dir base i e =
    ap (drop (i + 1)) (sym (append_assoc dir (b'/' ∷ []) base))
    ∙ drop-append (dir ++ (b'/' ∷ [])) base (i + 1)
        (omega (arith, length-append {0} dir (b'/' ∷ [])))

loop_finds :
    (dir base : Bytes) (i : ℕ)
    → All IsNameByte base
    → 0 < length dir
    → length dir ≤ i
    → absolute_loop (dir ++ (b'/' ∷ base)) i ≡ some base
unfolding absolute_loop
loop_finds dir base zero h d e = absurd (omega arith)
loop_finds dir base (suc i) h d e = elim (dec_lt (length dir) (suc i)) [
  | yes lt ↦
      rw (≢→== _ _ (char_at_base dir base (suc i) h lt)) (loop_finds dir base i h d (omega arith))
  | no ge ↦
      let last : suc i ≡ length dir = omega arith in
      rw (char_at_slash dir base (suc i) last, behind_slash dir base (suc i) last) refl
]

loop_misses :
    (c : ℕ) (base : Bytes) (i : ℕ) → All IsNameByte base → absolute_loop (c ∷ base) i ≡ none
unfolding absolute_loop
loop_misses c base zero h = refl
loop_misses c base (suc i) h = rw (≢→== _ _ (char_at_name base i h)) (loop_misses c base i h)

-- Behind a directory that is not empty and a separator, `AbsoluteFile` finds the name, if that has no
-- separator and no zero.
pub absolute_file_base :
    (dir base : FileName)
    → 0 < length dir
    → All IsNameByte base
    → absolute_file (dir ++ (b'/' ∷ base)) ≡ base
unfolding absolute_file
absolute_file_base dir base d h =
    rw
      (loop_finds dir base (length (dir ++ (b'/' ∷ base))) h d
        (omega (arith, length-append {0} dir (b'/' ∷ base))))
      refl

-- A path with no separator and no zero behind its first character is returned whole by `AbsoluteFile`,
-- also where that character is the separator of the root directory.
pub absolute_file_whole :
    (c : ℕ) (base : FileName) → All IsNameByte base → absolute_file (c ∷ base) ≡ c ∷ base
unfolding absolute_file
absolute_file_whole c base h = rw (loop_misses c base (suc (length base)) h) refl

pub c_string_name : (s : Bytes) (rest : Bytes) → All (λ c. c ≢ 0) s → c_string (s ++ (0 ∷ rest)) ≡ s
unfolding c_string
c_string_name [] rest h = refl
c_string_name (c ∷ s) rest h = rw (≢→== _ _ h.0) (ap (λ t. c ∷ t) (c_string_name s rest h.1))

-- A string put into a buffer is the string of the buffer.
pub c_string-put_string : (buf s : Bytes) → All (λ c. c ≢ 0) s → c_string (put_string buf s) ≡ s
unfolding put_string
c_string-put_string buf s h = c_string_name s _ h

All-append {ℓ} :
    {A : Type ℓ} (P : A → Type 0) (xs ys : List A) → All P xs → All P ys → All P (xs ++ ys)
All-append P [] ys h k = k
All-append P (x ∷ xs) ys h k = (h.0, All-append P xs ys h.1 k)

-- `StrCat` into a buffer that holds a string and has room for the other one: the buffer then holds both
-- strings, one behind the other, and keeps its size.
pub str_cat_lem :
    (s t rest : Bytes)
    → All (λ c. c ≢ 0) s
    → All (λ c. c ≢ 0) t
    → length t ≤ length rest
    → (c_string (str_cat (s ++ (0 ∷ rest)) t) ≡ s ++ t)
      × (length (str_cat (s ++ (0 ∷ rest)) t) ≡ length (s ++ (0 ∷ rest)))
unfolding str_cat put_string
str_cat_lem s t rest hs ht fits =
    rw
      (
        c_string_name s rest hs,
        take-append s (0 ∷ rest) (length s) refl,
        drop-append s (0 ∷ rest) (length s) refl,
      )
      (
        ap c_string (sym (append_assoc s t _)) ∙ c_string_name (s ++ t) _ (All-append _ s t hs ht),
        omega (
          arith,
          length-append {0} s (t ++ (0 ∷ drop (length t + 1) (0 ∷ rest))),
          length-append {0} t (0 ∷ drop (length t + 1) (0 ∷ rest)),
          length-append {0} s (0 ∷ rest),
          length-drop {0} (length t + 1) (0 ∷ rest),
        ),
      )
