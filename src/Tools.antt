-- ===== src/Tools.antt =====
-- tools.cpp: strings in buffers, file names and the numbers of the command line.
pub mod Colors
pub mod Path
pub mod Suffix
use Prim.Native.Nat.{bit_or}
use mhftp.Base.{
  ℕ, zero, suc, ◌+◌, ◌-◌, ◌^◌, ◌≤◌, Bool, true, false, ◌&&◌, Option, none, some, List, [], ◌∷◌,
  ◌++◌, ltb, leb, ◌==◌, if◌then◌else◌, length, take, drop,
}
use mhftp.Base.Int.{ℤ, pos, negsuc, ◌*ℤ◌}
use mhftp.Posix.{Bytes, FileName, c_string, put_string}
use mhftp.Posix.Decimal.{is_digit, atoi}

-- `CopyString`: null pointers, and a copy onto itself, leave the destination alone.
unfoldable pub copy_string : Option Bytes → Option Bytes → Bool → Option Bytes
copy_string none src same = none
copy_string (some dst) none same = some dst
copy_string (some dst) (some src) same =
    if same then some dst else some (put_string dst (c_string src))

-- `StrCat`: the second string goes behind the first. The buffer is taken to be long enough.
unfoldable pub str_cat : Bytes → Bytes → Bytes
unfolding put_string
str_cat dst src =
    let dst_len = length (c_string dst) in take dst_len dst ++ put_string (drop dst_len dst) src

abbrev pub char_at : Bytes → ℕ → ℕ
char_at [] i = 0
char_at (c ∷ s) zero = c
char_at (c ∷ s) (suc i) = char_at s i

-- `for (int i = strlen(full_path) ; i > 0 ; i--)`: the part behind the last separator. The loop does not
-- reach the first character.
unfoldable pub absolute_loop : FileName → ℕ → Option FileName
absolute_loop full_path zero = none
absolute_loop full_path (suc i) =
    if char_at full_path (suc i) == b'/'
    then some (drop (suc i + 1) full_path)
    else absolute_loop full_path i

abbrev pub get_or {ℓ} : {A : Type ℓ} → Option A → A → A
get_or none d = d
get_or (some a) d = a

unfoldable pub absolute_file : FileName → FileName
unfolding absolute_loop
absolute_file full_path = get_or (absolute_loop full_path (length full_path)) full_path

-- An int that a computation overflows is undefined.
unfoldable pub int_or_undefined : ℤ → Option ℤ
int_or_undefined (pos n) = if ltb n (2 ^ 31) then some (pos n) else none
int_or_undefined (negsuc n) = if ltb n (2 ^ 31) then some (negsuc n) else none

abbrev pub checked_product : Option ℤ → ℕ → Option ℤ
checked_product none k = none
checked_product (some z) k = int_or_undefined (z *ℤ pos k)

abbrev pub mh_k : ℕ
mh_k = 1024

abbrev pub mh_m : ℕ
mh_m = 1048576

-- The switch on the last character; `aux` is the text before it, and 64 characters do not fit there.
unfoldable pub by_suffix : Bytes → ℕ → Bytes → Option ℤ
by_suffix number suffix aux =
    let lower = bit_or suffix 0x20 in
    if is_digit suffix
    then int_or_undefined (atoi number)
    else if ltb 63 (length aux)
    then none
    else if lower == b'k'
    then checked_product (int_or_undefined (atoi aux)) mh_k
    else if lower == b'm'
    then checked_product (int_or_undefined (atoi aux)) mh_m
    else some (negsuc 0)

-- Of the empty text the source reads the character before the first.
unfoldable pub suffix_to_int : Bytes → Option ℤ
unfolding by_suffix atoi int_or_undefined ◌*ℤ◌
suffix_to_int [] = none
suffix_to_int (c ∷ s) = by_suffix (c ∷ s) (char_at (c ∷ s) (length s)) (take (length s) (c ∷ s))
