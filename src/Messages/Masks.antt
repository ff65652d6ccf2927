-- ===== src/Messages/Masks.antt =====
-- Masks of the low bits of a number, for the tests of src/messages/data.c.
use Prim.Native.Nat.{
  ℕ, zero, suc, ◌+◌, ◌/◌, ◌^◌, ◌≤◌, ◌<◌, min, max, bit_and, bit_or, digits, bit_and-bitwise,
  bit_or-bitwise,
}
use native.Mathlib.Nat.{pow-suc}
use sentinet_cpp.Common.Bits.{bit}
use sentinet_cpp.Common.{false, ◌≡◌, refl, arith, leb, ◌==◌, Bool-cases, inl, inr}

abbrev conjunction : ℕ → ℕ → ℕ → ℕ
conjunction count a b = digits (λ y. zero) min count a b

abbrev disjunction : ℕ → ℕ → ℕ → ℕ
disjunction count a b = digits (λ y. y) max count a b

conjunction-le : (count a b : ℕ) → conjunction count a b ≤ b
conjunction-le zero a b = omega arith
conjunction-le (suc count) zero b = omega arith
conjunction-le (suc count) (suc a) b = omega (arith, conjunction-le count (suc a / 2) (b / 2))

le-disjunction : (count a b : ℕ) → b ≤ disjunction count a b
le-disjunction zero a b = omega arith
le-disjunction (suc count) zero b = omega arith
le-disjunction (suc count) (suc a) b = omega (arith, le-disjunction count (suc a / 2) (b / 2))

-- A conjunction is at most its mask.
pub bit_and-le : (a b : ℕ) → bit_and a b ≤ b
bit_and-le a b = omega (arith, bit_and-bitwise a b, conjunction-le a a b)

-- A disjunction is at least its mask.
pub le-bit_or : (a b : ℕ) → b ≤ bit_or a b
le-bit_or a b = omega (arith, bit_or-bitwise a b, le-disjunction a a b)

conjunction-mask :
    (k count a b : ℕ) → a ≤ count → a < 2 ^ k → b + 1 ≡ 2 ^ k → conjunction count a b ≡ a
conjunction-mask k zero zero b h l e = refl
conjunction-mask k zero (suc a) b h l e = absurd (omega arith)
conjunction-mask k (suc count) zero b h l e = refl
conjunction-mask zero (suc count) (suc a) b h l e = absurd (omega arith)
conjunction-mask (suc k) (suc count) (suc a) b h l e =
    let p = pow-suc 2 k in
    omega (
      arith,
      conjunction-mask k count (suc a / 2) (b / 2) (omega arith) (omega (arith, p))
          (omega (arith, p)),
      p,
    )

-- The mask of the `k` low bits keeps exactly the numbers that they hold.
pub bit_and-mask : (k a b : ℕ) → b + 1 ≡ 2 ^ k → (a == bit_and a b) ≡ leb a b
bit_and-mask k a b e = elim (Bool-cases (leb a b)) [
  | inl t ↦
      let kept = conjunction-mask k a a b (omega arith) (ground (arith, t, e)) e in
      ground (arith, t, bit_and-bitwise a b, kept)
  | inr f ↦ ground (arith, f, bit_and-le a b)
]

disjunction-zero : (count a : ℕ) → a ≤ count → disjunction count a 0 ≡ a
disjunction-zero zero zero h = refl
disjunction-zero zero (suc a) h = absurd (omega arith)
disjunction-zero (suc count) zero h = refl
disjunction-zero (suc count) (suc a) h =
    omega (arith, disjunction-zero count (suc a / 2) (omega arith))

-- An empty mask changes nothing.
pub bit_or-zero : (a : ℕ) → bit_or a 0 ≡ a
bit_or-zero a = omega (arith, bit_or-bitwise a 0, disjunction-zero a a (omega arith))

disjunction-pow :
    (k count a : ℕ) → a ≤ count → bit k a ≡ false → disjunction count a (2 ^ k) ≡ a + 2 ^ k
unfolding bit
disjunction-pow k zero zero h e = omega arith
disjunction-pow k zero (suc a) h e = absurd (omega arith)
disjunction-pow k (suc count) zero h e = omega arith
disjunction-pow zero (suc count) (suc a) h e =
    ground (arith, e, disjunction-zero count (suc a / 2) (omega arith))
disjunction-pow (suc k) (suc count) (suc a) h e =
    ground (arith, pow-suc 2 k, disjunction-pow k count (suc a / 2) (omega arith) e)

-- A mask of one bit that is not set is added.
pub bit_or-pow : (k a : ℕ) → bit k a ≡ false → bit_or a (2 ^ k) ≡ a + 2 ^ k
bit_or-pow k a e = omega (arith, bit_or-bitwise a (2 ^ k), disjunction-pow k a a (omega arith) e)
