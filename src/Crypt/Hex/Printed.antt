-- ===== src/Crypt/Hex/Printed.antt =====
-- A printed digest can be read back.
use mathlib.Core.List.{append_assoc, append-nil}
use native.Mathlib.Nat.{div-add-mod}
use mhftp.Base.{
  ℕ, ◌+◌, ◌-◌, ◌*◌, ◌/◌, ◌%◌, ◌<◌, ◌≡◌, ◌≢◌, refl, sym, ap, ap₂, ◌∙◌, [], ◌∷◌, ◌++◌, arith, ltb,
  if◌then◌else◌, length, drop, replicate, All, take-append, drop-append, take_all,
}
use mhftp.Posix.{Bytes, c_string, put_string}
use mhftp.Tools.{str_cat}
use mhftp.Tools.Path.{c_string_name}
use mhftp.Crypt.Hex.{hex_digit, hex_pair, hex_loop, digest_to_str}

-- The digits of all bytes, one behind the other.
abbrev hex : Bytes → Bytes
hex [] = []
hex (b ∷ bs) = hex_digit (b / 16) ∷ hex_digit (b % 16) ∷ hex bs

-- The value of a digit, and the bytes of a printed digest.
abbrev pub digit_value : ℕ → ℕ
digit_value c = if ltb c 58 then c - 48 else c - 87

abbrev pub bytes_of_hex : Bytes → Bytes
bytes_of_hex (h ∷ l ∷ cs) = (16 * digit_value h + digit_value l) ∷ bytes_of_hex cs
bytes_of_hex _ = []

digit_value-hex_digit : (n : ℕ) → n < 16 → digit_value (hex_digit n) ≡ n
digit_value-hex_digit n h = ground arith

bytes_of_hex-hex : (bs : Bytes) → All (λ b. b < 256) bs → bytes_of_hex (hex bs) ≡ bs
bytes_of_hex-hex [] h = refl
bytes_of_hex-hex (b ∷ bs) h =
    let high : b / 16 < 16 = omega (arith, h.0) in
    let low : b % 16 < 16 = omega arith in
    ap₂ ◌∷◌
      (rw (digit_value-hex_digit (b / 16) high, digit_value-hex_digit (b % 16) low)
        (omega (arith, div-add-mod b 16)))
      (bytes_of_hex-hex bs h.1)

hex_digit_some : (n : ℕ) → hex_digit n ≢ 0
hex_digit_some n e = ground arith

hex_some : (bs : Bytes) → All (λ c. c ≢ 0) (hex bs)
hex_some [] = tt
hex_some (b ∷ bs) = (hex_digit_some (b / 16), (hex_digit_some (b % 16), hex_some bs))

-- `StrCat` of a pair to a string in a buffer with zeros behind it.
str_cat-pair :
    (s rest : Bytes) (b : ℕ)
    → All (λ c. c ≢ 0) s
    → str_cat (s ++ (0 ∷ 0 ∷ 0 ∷ rest)) (hex_pair b) ≡ (s ++ hex_pair b) ++ (0 ∷ rest)
unfolding str_cat put_string drop
str_cat-pair s rest b h =
    rw
      (
        c_string_name s (0 ∷ 0 ∷ rest) h,
        take-append s (0 ∷ 0 ∷ 0 ∷ rest) (length s) refl,
        drop-append s (0 ∷ 0 ∷ 0 ∷ rest) (length s) refl,
      )
      (sym (append_assoc s (hex_pair b) (0 ∷ rest)))

-- The room for the pairs of these bytes.
abbrev pad : Bytes → Bytes
pad [] = []
pad (b ∷ bs) = 0 ∷ 0 ∷ pad bs

pad_same : (xs ys : Bytes) → length xs ≡ length ys → pad xs ≡ pad ys
pad_same [] [] h = refl
pad_same [] (y ∷ ys) h = absurd (omega arith)
pad_same (x ∷ xs) [] h = absurd (omega arith)
pad_same (x ∷ xs) (y ∷ ys) h = ap (λ t. 0 ∷ 0 ∷ t) (pad_same xs ys (omega arith))

All-pair : (s : Bytes) (b : ℕ) → All (λ c. c ≢ 0) s → All (λ c. c ≢ 0) (s ++ hex_pair b)
All-pair [] b h = (hex_digit_some (b / 16), (hex_digit_some (b % 16), tt))
All-pair (c ∷ s) b h = (h.0, All-pair s b h.1)

hex_loop-hex :
    (bs s : Bytes)
    → All (λ c. c ≢ 0) s
    → hex_loop (s ++ (0 ∷ pad bs)) bs ≡ (s ++ hex bs) ++ (0 ∷ [])
unfolding hex_loop
hex_loop-hex [] s h = ap (λ t. t ++ (0 ∷ [])) (sym (append-nil s))
hex_loop-hex (b ∷ bs) s h =
    ap (λ t. hex_loop t bs) (str_cat-pair s (pad bs) b h)
    ∙ hex_loop-hex bs (s ++ hex_pair b) (All-pair s b h)
    ∙ ap (λ t. t ++ (0 ∷ [])) (append_assoc s (hex_pair b) (hex bs))

room : (digest : Bytes) → length digest ≡ 16 → replicate 33 0 ≡ 0 ∷ pad digest
unfolding replicate
room digest h = ap (λ t. 0 ∷ t) (pad_same (replicate 16 0) digest (sym h))

-- The string that `digestToStr` makes of a digest of 16 bytes gives the digest back, digit by digit.
pub bytes_of_hex-digest_to_str :
    (digest : Bytes)
    → length digest ≡ 16
    → All (λ b. b < 256) digest
    → bytes_of_hex (c_string (digest_to_str digest)) ≡ digest
unfolding digest_to_str
bytes_of_hex-digest_to_str digest h bytes =
    ap bytes_of_hex (
      ap c_string (
        ap (hex_loop (replicate 33 0)) (take_all digest 16 (omega (arith, h)))
        ∙ ap (λ t. hex_loop t digest) (room digest h)
        ∙ hex_loop-hex digest [] tt)
      ∙ c_string_name (hex digest) [] (hex_some digest))
    ∙ bytes_of_hex-hex digest bytes
