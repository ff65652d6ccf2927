-- ===== src/Common/Decimal.antt =====
-- Literal strings, and the decimal numbers of the standard library: `std::to_string` of an `int` that is
-- not negative.
use Prim.Native.Char.{code}
use Prim.Native.String
use Prim.Native.Nat.{ℕ, zero, suc, ◌+◌, ◌-◌, ◌*◌, ◌/◌, ◌%◌, ◌^◌, ◌<◌}
use mathlib.Core.Path.{◌≡◌, refl, sym, ap, ◌∙◌}
use mathlib.Core.Logic.{inl, inr}
use mathlib.Core.List.{[], ◌∷◌, ◌++◌}
use native.Mathlib.Omega.{arith}
use sentinet_cpp.Common.Tests.{ltb, if◌then◌else◌, Bool-cases}
use sentinet_cpp.Common.Maps

-- The characters of a literal, which are ASCII.
abbrev pub chars : String.String → Maps.String
chars String.[] = []
chars (String.◌∷◌ c s) = code c ∷ chars s

-- At most `fuel` digits.
unfoldable pub digits : ℕ → ℕ → Maps.String
digits zero n = []
digits (suc fuel) n =
    let last = (48 + n % 10) ∷ [] in
    let front = digits fuel (n / 10) in if ltb n 10 then last else front ++ last

-- An `int` has ten digits at most.
unfoldable pub to_string : ℕ → Maps.String
unfolding digits
to_string n = digits 10 n

-- The number that digits stand for, behind those that stand for `acc`.
abbrev pub value_from : ℕ → Maps.String → ℕ
value_from acc [] = acc
value_from acc (c ∷ s) = value_from (acc * 10 + (c - 48)) s

value_from-append :
    (acc : ℕ) (s t : Maps.String) → value_from acc (s ++ t) ≡ value_from (value_from acc s) t
value_from-append acc [] t = refl
value_from-append acc (c ∷ s) t = value_from-append (acc * 10 + (c - 48)) s t

abbrev tens : ℕ → ℕ
tens zero = 1
tens (suc fuel) = 10 * tens fuel

digits-value : (fuel n : ℕ) → n < tens fuel → value_from 0 (digits fuel n) ≡ n
unfolding digits
digits-value zero n h = omega arith
digits-value (suc fuel) n h = elim (Bool-cases (ltb n 10)) [
  | inl e ↦ ground arith
  | inr e ↦
      let split = value_from-append 0 (digits fuel (n / 10)) ((48 + n % 10) ∷ []) in
      let ih = digits-value fuel (n / 10) (omega arith) in ground (arith, split, ih, e)
]

pub to_string-value : (n : ℕ) → n < 2 ^ 32 → value_from 0 (to_string n) ≡ n
unfolding to_string
to_string-value n h = digits-value 10 n (omega arith)

pub to_string-injective : (n m : ℕ) → n < 2 ^ 32 → m < 2 ^ 32 → to_string n ≡ to_string m → n ≡ m
to_string-injective n m h k e =
    sym (to_string-value n h) ∙ (ap (value_from 0) e ∙ to_string-value m k)
