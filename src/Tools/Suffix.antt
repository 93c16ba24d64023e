-- ===== src/Tools/Suffix.antt =====
-- The sizes that the command line can give.
use Prim.Native.Nat.{bit_or}
use mathlib.Core.List.{append-nil}
use mhftp.Base.{
  ℕ, ◌*◌, ◌^◌, ◌≤◌, ◌<◌, ◌≡◌, refl, sym, ap, ◌∙◌, false, Option, none, some, [], ◌∷◌, ◌++◌, arith,
  ltb, ◌==◌, if◌then◌else◌, length, take, length-append, take-append,
}
use mhftp.Base.Int.{pos, pos-*ℤ-pos}
use mhftp.Posix.{Bytes}
use mhftp.Posix.Decimal.{digits, is_digit, atoi, scan, atoi-digits, length-digits}
use mhftp.Tools.{char_at, int_or_undefined, checked_product, mh_k, mh_m, by_suffix, suffix_to_int}

char_at_last : (s : Bytes) (c : ℕ) → char_at (s ++ (c ∷ [])) (length s) ≡ c
char_at_last [] c = refl
char_at_last (x ∷ s) c = char_at_last s c

suffix_to_int-append :
    (s : Bytes) (c : ℕ) → suffix_to_int (s ++ (c ∷ [])) ≡ by_suffix (s ++ (c ∷ [])) c s
suffix_to_int-append [] c = unfold suffix_to_int take in refl
suffix_to_int-append (x ∷ s) c =
    let n : length (s ++ (c ∷ [])) ≡ length (x ∷ s) = omega (arith, length-append {0} s (c ∷ [])) in
    let whole = (x ∷ s) ++ (c ∷ []) in
    unfold_step x (s ++ (c ∷ []))
    ∙ ap (λ i. by_suffix whole (char_at whole i) (take i whole)) n
    ∙ ap (λ d. by_suffix whole d (take (length (x ∷ s)) whole)) (char_at_last (x ∷ s) c)
    ∙ ap (by_suffix whole c) (take-append (x ∷ s) (c ∷ []) _ refl)
  where
    unfold_step :
        (y : ℕ) (t : Bytes)
        → suffix_to_int (y ∷ t)
          ≡ by_suffix (y ∷ t) (char_at (y ∷ t) (length t)) (take (length t) (y ∷ t))
    unfold_step y t = unfold suffix_to_int in refl

int_fits : (n : ℕ) → n < 2 ^ 31 → int_or_undefined (pos n) ≡ some (pos n)
unfolding int_or_undefined
int_fits n h = ground arith

pub atoi_whole : (n : ℕ) → n < 10 ^ 10 → atoi (digits 10 n) ≡ pos n
atoi_whole n h =
    ap atoi (sym (append-nil (digits 10 n))) ∙ atoi-digits 9 n [] h ∙ (unfold scan in refl)

-- The number in front of `K`, `k`, `M` or `m` is multiplied by 1024 or 1048576.
abbrev pub multiplier : ℕ → Option ℕ
multiplier c =
    if bit_or c 0x20 == b'k' then some mh_k else if bit_or c 0x20 == b'm' then some mh_m else none

product :
    (n k : ℕ)
    → 1 ≤ k
    → n * k < 2 ^ 31
    → checked_product (int_or_undefined (pos n)) k ≡ some (pos (n * k))
product n k h fits =
    let small : n ≤ n * k = grind arith in
    rw (int_fits n (omega arith), pos-*ℤ-pos n k) (int_fits (n * k) fits)

by_suffix_lem :
    (number aux : Bytes) (n c k : ℕ)
    → atoi aux ≡ pos n
    → length aux ≤ 63
    → multiplier c ≡ some k
    → is_digit c ≡ false
    → n * k < 2 ^ 31
    → by_suffix number c aux ≡ some (pos (n * k))
unfolding by_suffix
by_suffix_lem number aux n c k e short m d fits =
    let long : ltb 63 (length aux) ≡ false = ground arith in
    rw (d, long, e) (ground (arith, product n 1024, product n 1048576))

-- `SuffixToInt` of the decimal digits of `n` and a unit letter is `n` times the unit, when `n` has at
-- most ten digits and the product fits an `int`.
pub suffix_to_int-digits :
    (n c k : ℕ)
    → n < 10 ^ 10
    → multiplier c ≡ some k
    → is_digit c ≡ false
    → n * k < 2 ^ 31
    → suffix_to_int (digits 10 n ++ (c ∷ [])) ≡ some (pos (n * k))
suffix_to_int-digits n c k h m d fits =
    suffix_to_int-append (digits 10 n) c
    ∙ by_suffix_lem _ (digits 10 n) n c k (atoi_whole n h) (omega (arith, length-digits 10 9 n h)) m
        d fits
