-- ===== src/Base/Bytes.antt =====
-- Numbers as bytes, lowest first, as the program's machines store them.
use Prim.Native.Nat.{ℕ, zero, suc, ◌+◌, ◌-◌, ◌*◌, ◌/◌, ◌%◌, ◌^◌, ◌<◌}
use mathlib.Core.Path.{◌≡◌, refl, ap, ◌∙◌}
use mathlib.Core.List.{List, [], ◌∷◌}
use native.Mathlib.Omega.{arith}
use native.Mathlib.Nat.{pow-succ'}
use mhftp.Base.Tests.{ltb, if◌then◌else◌}
use mhftp.Base.Lists.{length}
use mhftp.Base.Int.{ℤ, pos, negsuc, IsInt64}

-- The low `k` bytes of a number.
unfoldable pub le_bytes : ℕ → ℕ → List ℕ
le_bytes zero n = []
le_bytes (suc k) n = (n % 256) ∷ le_bytes k (n / 256)

unfoldable pub of_le_bytes : List ℕ → ℕ
of_le_bytes [] = 0
of_le_bytes (b ∷ bs) = b + 256 * of_le_bytes bs

pub length-le_bytes : (k n : ℕ) → length (le_bytes k n) ≡ k
unfolding le_bytes
length-le_bytes zero n = refl
length-le_bytes (suc k) n = ap suc (length-le_bytes k (n / 256))

pub of_le_bytes-le_bytes : (k n : ℕ) → n < 256 ^ k → of_le_bytes (le_bytes k n) ≡ n
unfolding le_bytes of_le_bytes
of_le_bytes-le_bytes zero n h = omega arith
of_le_bytes-le_bytes (suc k) n h =
    let e : 256 ^ suc k ≡ 256 * 256 ^ k = pow-succ' 256 k in
    omega (arith, of_le_bytes-le_bytes k (n / 256) (omega arith))

-- An int64_t in memory, in two's complement.
unfoldable pub word64 : ℤ → ℕ
word64 (pos n) = n % 2 ^ 64
word64 (negsuc n) = 2 ^ 64 - 1 - n % 2 ^ 64

unfoldable pub int64 : ℕ → ℤ
int64 w = if ltb w (2 ^ 63) then pos w else negsuc (2 ^ 64 - 1 - w)

unfoldable pub int64_bytes : ℤ → List ℕ
unfolding word64 le_bytes
int64_bytes z = le_bytes 8 (word64 z)

unfoldable pub int64_of_bytes : List ℕ → ℤ
unfolding int64 of_le_bytes
int64_of_bytes bs = int64 (of_le_bytes bs)

pub length-int64_bytes : (z : ℤ) → length (int64_bytes z) ≡ 8
length-int64_bytes z = unfold int64_bytes in length-le_bytes 8 (word64 z)

int64-word64 : (z : ℤ) → IsInt64 z → int64 (word64 z) ≡ z
unfolding int64 word64
int64-word64 (pos n) h = ground arith
int64-word64 (negsuc n) h = ground arith

word64-lt : (z : ℤ) → word64 z < 256 ^ 8
unfolding word64
word64-lt (pos n) = omega arith
word64-lt (negsuc n) = omega arith

pub int64_of_bytes-int64_bytes : (z : ℤ) → IsInt64 z → int64_of_bytes (int64_bytes z) ≡ z
int64_of_bytes-int64_bytes z h =
    unfold int64_of_bytes int64_bytes in
    (ap int64 (of_le_bytes-le_bytes 8 (word64 z) (word64-lt z)) ∙ int64-word64 z h)
