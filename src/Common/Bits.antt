-- ===== src/Common/Bits.antt =====
-- A test of one bit by a mask, as arithmetic.
use Prim.Native.Nat.{ℕ, zero, suc, ◌/◌, ◌%◌, ◌^◌, ◌≤◌, min, bit_and, digits, bit_and-bitwise}
use mathlib.Core.Path.{◌≡◌, refl}
use mathlib.Core.Bool.{Bool, false, not}
use native.Mathlib.Nat.{pow-suc, one-le-pow}
use native.Mathlib.Omega.{arith}
use sentinet_cpp.Common.Tests.{◌==◌, if◌then◌else◌}

-- Bit `k` of a number.
unfoldable pub bit : ℕ → ℕ → Bool
bit zero x = x % 2 == 1
bit (suc k) x = bit k (x / 2)

-- `x & mask` as a condition.
unfoldable pub has_flag : ℕ → ℕ → Bool
has_flag x mask = not (bit_and x mask == 0)

-- The conjunction of binary digits with `count` rounds to go.
abbrev conjunction : ℕ → ℕ → ℕ → ℕ
conjunction count a b = digits (λ y. zero) min count a b

conjunction-zero : (count a : ℕ) → conjunction count a 0 ≡ 0
conjunction-zero zero a = refl
conjunction-zero (suc count) zero = refl
conjunction-zero (suc count) (suc a) = omega (arith, conjunction-zero count (suc a / 2))

bit-zero : (k : ℕ) → bit k 0 ≡ false
unfolding bit
bit-zero zero = refl
bit-zero (suc k) = bit-zero k

conjunction-pow :
    (k count a : ℕ) → a ≤ count → conjunction count a (2 ^ k) ≡ (if bit k a then 2 ^ k else 0)
unfolding bit
conjunction-pow zero zero zero h = refl
conjunction-pow (suc k) zero zero h = rw (bit-zero k)
conjunction-pow k zero (suc a) h = absurd (omega arith)
conjunction-pow k (suc count) zero h = rw (bit-zero k)
conjunction-pow zero (suc count) (suc a) h = ground (arith, conjunction-zero count (suc a / 2))
conjunction-pow (suc k) (suc count) (suc a) h =
    ground (arith, pow-suc 2 k, conjunction-pow k count (suc a / 2) (omega arith))

-- A mask of one bit tests that bit.
pub has_flag-pow : (k x : ℕ) → has_flag x (2 ^ k) ≡ bit k x
unfolding has_flag
has_flag-pow k x =
    ground (arith, bit_and-bitwise x (2 ^ k), conjunction-pow k x x (omega arith), one-le-pow k 2)
