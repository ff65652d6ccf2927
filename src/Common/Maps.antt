-- ===== src/Common/Maps.antt =====
-- Strings as lists of characters, and the hash maps of the standard library with strings as keys: an
-- association list in which a key is looked up by its first entry.
use Prim.Native.Nat.{ℕ}
use mathlib.Core.Path.{◌≡◌, refl, ap, ◌∙◌}
use mathlib.Core.Logic.{inl, inr}
use mathlib.Core.Bool.{Bool, true, false, ◌&&◌}
use mathlib.Core.Option.{Option, none, some}
use mathlib.Core.List.{List, [], ◌∷◌}
use native.Mathlib.Omega.{arith}
use sentinet_cpp.Common.Tests.{◌==◌, ==_iff, if◌then◌else◌, Bool-cases}

abbrev pub String : Type 0
String = List ℕ

unfoldable pub same : String → String → Bool
same [] [] = true
same [] (b ∷ t) = false
same (a ∷ s) [] = false
same (a ∷ s) (b ∷ t) = (a == b) && same s t

pub same_refl : (s : String) → same s s ≡ true
unfolding same
same_refl [] = refl
same_refl (a ∷ s) = ground (arith, same_refl s)

pub same_comm : (s t : String) → same s t ≡ same t s
unfolding same
same_comm [] [] = refl
same_comm [] (b ∷ t) = refl
same_comm (a ∷ s) [] = refl
same_comm (a ∷ s) (b ∷ t) = ground (arith, same_comm s t)

pub same-≡ : (s t : String) → same s t ≡ true → s ≡ t
unfolding same
same-≡ [] [] e = refl
same-≡ [] (b ∷ t) e = cc
same-≡ (a ∷ s) [] e = cc
same-≡ (a ∷ s) (b ∷ t) e = elim (Bool-cases (a == b)) [
  | inl h ↦ let rest = same-≡ s t (ground (arith, e)) in let first = (==_iff a b).0 h in cc
  | inr h ↦ ground (arith, e)
]

module _ {V : Type 0} where
  unfoldable pub find : String → List (String × V) → Option V
  find key [] = none
  find key ((k, v) ∷ rest) = if same k key then some v else find key rest

  -- `map[key] = value`.
  unfoldable pub put : String → V → List (String × V) → List (String × V)
  put key value [] = (key, value) ∷ []
  put key value ((k, v) ∷ rest) =
      let others = put key value rest in if same k key then (k, value) ∷ rest else (k, v) ∷ others

  pub find-put : (key : String) (v : V) (m : List (String × V)) → find key (put key v m) ≡ some v
  unfolding find put
  find-put key v [] = ground (arith, same_refl key)
  find-put key v ((k, w) ∷ rest) = elim (Bool-cases (same k key)) [
    | inl e ↦ ground (arith, same_refl key)
    | inr e ↦ ground (arith, find-put key v rest)
  ]

  pub find-put_other :
      (key other : String) (v : V) (m : List (String × V))
      → same key other ≡ false
      → find other (put key v m) ≡ find other m
  unfolding find put
  find-put_other key other v [] n = ground arith
  find-put_other key other v ((k, w) ∷ rest) n = elim (Bool-cases (same k key)) [
    | inl e ↦ let m = ap (λ x. same x other) (same-≡ k key e) ∙ n in ground arith
    | inr e ↦ ground (arith, find-put_other key other v rest n)
  ]

  pub put-put :
      (key : String) (v w : V) (m : List (String × V)) → put key w (put key v m) ≡ put key w m
  unfolding put
  put-put key v w [] = ground (arith, same_refl key)
  put-put key v w ((k, u) ∷ rest) = elim (Bool-cases (same k key)) [
    | inl e ↦ ground (arith, e)
    | inr e ↦ ground (arith, e, put-put key v w rest)
  ]
