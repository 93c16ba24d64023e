-- ===== src/Crypt/Hex.antt =====
-- crypt/md5Utils.cpp: the printed form of a digest (`digestToStr`).
pub mod Printed
use mhftp.Base.{ℕ, ◌+◌, ◌/◌, ◌%◌, List, [], ◌∷◌, ltb, if◌then◌else◌, take, replicate}
use mhftp.Posix.{Bytes}
use mhftp.Tools.{str_cat}

abbrev pub hex_digit : ℕ → ℕ
hex_digit n = if ltb n 10 then 48 + n else 87 + n

-- `snprintf(digit, sizeof(digit), "%.2x", b)`, for a byte.
abbrev pub hex_pair : ℕ → Bytes
hex_pair b = hex_digit (b / 16) ∷ hex_digit (b % 16) ∷ []

-- The loop over the bytes, with the string so far.
unfoldable pub hex_loop : Bytes → Bytes → Bytes
unfolding str_cat
hex_loop str_digest [] = str_digest
hex_loop str_digest (b ∷ bs) = hex_loop (str_cat str_digest (hex_pair b)) bs

-- The buffer of 33 bytes, behind the loop over 16 of them.
unfoldable pub digest_to_str : Bytes → Bytes
unfolding hex_loop
digest_to_str digest = hex_loop (replicate 33 0) (take 16 digest)
