-- ===== src/Posix/Decimal.antt =====
-- Decimal numbers as `printf("%ld")` writes them and `atoi` reads them.
use native.Mathlib.Nat.{pow-succ', zero-add}
use mhftp.Base.{
  ℕ, zero, suc, ◌+◌, ◌-◌, ◌*◌, ◌/◌, ◌%◌, ◌^◌, ◌≤◌, ◌<◌, ◌≡◌, refl, sym, ap, ◌∙◌, Bool, true, false,
  ◌&&◌, ◌||◌, [], ◌∷◌, ◌++◌, arith, ltb, leb, Bool-cases, inl, inr, ◌==◌, if◌then◌else◌, length,
  replicate, length-append,
}
use mhftp.Base.Int.{ℤ, pos, negsuc}
use mhftp.Posix.{Bytes}
use mathlib.Core.List.{append_assoc}

-- The digits of `n`, at most `k` of them.
unfoldable pub digits : ℕ → ℕ → Bytes
digits zero n = []
digits (suc k) n =
    let more = digits k (n / 10) ++ ((b'0' + n % 10) ∷ []) in
    if ltb n 10 then (b'0' + n) ∷ [] else more

-- A long has 19 digits at most.
unfoldable pub format_long : ℤ → Bytes
format_long (pos n) = digits 19 n
format_long (negsuc n) = b'-' ∷ digits 19 (suc n)

abbrev pub is_digit : ℕ → Bool
is_digit c = leb b'0' c && leb c b'9'

abbrev pub is_space : ℕ → Bool
is_space c = c == b' ' || (leb 9 c && leb c 13)

unfoldable pub scan : ℕ → Bytes → ℕ
scan acc [] = acc
scan acc (c ∷ cs) = if is_digit c then scan (acc * 10 + (c - b'0')) cs else acc

unfoldable pub skip_space : Bytes → Bytes
skip_space [] = []
skip_space (c ∷ cs) = if is_space c then skip_space cs else c ∷ cs

abbrev pub negate : ℕ → ℤ
negate zero = pos 0
negate (suc n) = negsuc n

unfoldable pub scan_signed : Bytes → ℤ
unfolding scan
scan_signed [] = pos 0
scan_signed (c ∷ cs) =
    if c == b'-'
    then negate (scan 0 cs)
    else if c == b'+'
    then pos (scan 0 cs)
    else pos (scan 0 (c ∷ cs))

-- White space, a sign, and the digits up to the first other byte. The value is that of the text; what
-- does not fit an int is for the caller to exclude.
unfoldable pub atoi : Bytes → ℤ
unfolding skip_space scan_signed
atoi s = scan_signed (skip_space s)

-- One digit more.
scan_digit :
    (acc d : ℕ) (rest : Bytes) → d < 10 → scan acc ((b'0' + d) ∷ rest) ≡ scan (acc * 10 + d) rest
unfolding scan
scan_digit acc d rest h =
    let value : b'0' + d - b'0' ≡ d = omega arith in
    let is_one : is_digit (b'0' + d) ≡ true = ground arith in rw (is_one, value) refl

-- Reading the digits of `n` leaves `n` in the accumulator.
pub scan-digits :
    (k n : ℕ) (rest : Bytes) → n < 10 ^ suc k → scan 0 (digits (suc k) n ++ rest) ≡ scan n rest
unfolding digits
scan-digits zero n rest h =
    let e : ltb n 10 ≡ true = ground arith in
    rw e (scan_digit 0 n rest (omega arith) ∙ ap (λ v. scan v rest) (zero-add n))
scan-digits (suc k) n rest h = elim (Bool-cases (ltb n 10)) [
  | inl e ↦ rw e (scan_digit 0 n rest (ground arith) ∙ ap (λ v. scan v rest) (zero-add n))
  | inr e ↦ rw e (
      ap (scan 0) (append_assoc (digits (suc k) (n / 10)) ((b'0' + n % 10) ∷ []) rest)
      ∙ scan-digits k (n / 10) _ (omega (arith, pow-succ' 10 (suc k)))
      ∙ scan_digit (n / 10) (n % 10) rest (omega arith)
      ∙ ap (λ v. scan v rest) (last n))
]
  where
    last : (m : ℕ) → m / 10 * 10 + m % 10 ≡ m
    last m = omega arith

pub length-digits : (k j n : ℕ) → n < 10 ^ suc j → length (digits k n) ≤ suc j
unfolding digits
length-digits zero j n h = omega arith
length-digits (suc k) zero n h = ground arith
length-digits (suc k) (suc j) n h = ground (
  arith,
  pow-succ' 10 (suc j),
  length-append {0} (digits k (n / 10)) ((b'0' + n % 10) ∷ []),
  length-digits k j (n / 10),
)

pow-pos : (n : ℕ) → 0 < 10 ^ n
pow-pos zero = omega arith
pow-pos (suc n) = omega (arith, pow-succ' 10 n, pow-pos n)

grown : (acc d p r : ℕ) → d ≤ 9 → r < (acc * 10 + d + 1) * p → r < (acc + 1) * (10 * p)
grown acc d p r h k =
    let more : (acc * 10 + d + 1) * p ≤ (acc * 10 + 10) * p = grind arith in omega arith

stopped : (acc p : ℕ) → 0 < p → acc < (acc + 1) * (10 * p)
stopped acc p h = grind arith

-- Text of few bytes is a small number.
pub scan-lt : (acc : ℕ) (s : Bytes) → scan acc s < (acc + 1) * 10 ^ length s
unfolding scan
scan-lt acc [] = omega arith
scan-lt acc (c ∷ cs) = elim (Bool-cases (is_digit c)) [
  | inl e ↦
      rw (e, pow-succ' 10 (length cs))
        (grown acc (c - b'0') _ _ (ground arith) (scan-lt (acc * 10 + (c - b'0')) cs))
  | inr e ↦ rw (e, pow-succ' 10 (length cs)) (stopped acc _ (pow-pos (length cs)))
]

-- The digits of a number begin with a digit.
pub digits_head :
    (k n : ℕ) → (c : ℕ) × (cs : Bytes) × (digits (suc k) n ≡ c ∷ cs) × (is_digit c ≡ true)
unfolding digits
digits_head zero n = elim (Bool-cases (ltb n 10)) [
  | inl e ↦ (b'0' + n, [], rw e refl, ground arith)
  | inr e ↦ (b'0' + n % 10, [], rw e refl, ground arith)
]
digits_head (suc k) n = elim (Bool-cases (ltb n 10)) [
  | inl e ↦ (b'0' + n, [], rw e refl, ground arith)
  | inr e ↦
      let (c, cs, p, d) = digits_head k (n / 10) in
      (c, cs ++ ((b'0' + n % 10) ∷ []), rw (e, p) refl, d)
]

pub atoi_digit : (c : ℕ) (cs : Bytes) → is_digit c ≡ true → atoi (c ∷ cs) ≡ pos (scan 0 (c ∷ cs))
unfolding atoi
atoi_digit c cs h =
    let not_space : is_space c ≡ false = ground arith in
    let not_minus : (c == b'-') ≡ false = ground arith in
    let not_plus : (c == b'+') ≡ false = ground arith in rw (not_space, not_minus, not_plus) refl

-- `atoi` reads back the digits of a number, and goes on with what follows them.
pub atoi-digits :
    (k n : ℕ) (rest : Bytes) → n < 10 ^ suc k → atoi (digits (suc k) n ++ rest) ≡ pos (scan n rest)
atoi-digits k n rest h =
    let (c, cs, p, d) = digits_head k n in
    ap (λ s. atoi (s ++ rest)) p
    ∙ atoi_digit c (cs ++ rest) d
    ∙ ap (λ s. pos (scan 0 (s ++ rest))) (sym p)
    ∙ ap pos (scan-digits k n rest h)

-- The zeros behind a text end it.
pub scan-append_zeros : (acc k : ℕ) (s : Bytes) → scan acc (s ++ replicate k 0) ≡ scan acc s
unfolding scan replicate
scan-append_zeros acc zero [] = refl
scan-append_zeros acc (suc k) [] = refl
scan-append_zeros acc k (c ∷ s) =
    ap (λ v. if is_digit c then v else acc) (scan-append_zeros (acc * 10 + (c - b'0')) k s)

pow_mono : (a b : ℕ) → a ≤ b → 10 ^ a ≤ 10 ^ b
pow_mono zero b h = omega (arith, pow-pos b)
pow_mono (suc a) zero h = absurd (omega arith)
pow_mono (suc a) (suc b) h =
    omega (arith, pow-succ' 10 a, pow-succ' 10 b, pow_mono a b (omega arith))

pub scan-lt_pow : (s : Bytes) (k : ℕ) → length s ≤ k → scan 0 s < 10 ^ k
scan-lt_pow s k h = omega (arith, scan-lt 0 s, pow_mono (length s) k h)
