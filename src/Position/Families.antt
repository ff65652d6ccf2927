-- ===== src/Position/Families.antt =====
-- The families of tags that src/localizer/AprilDetector.cpp knows, by their names and types.
use sentinet_cpp.Common.{
  ℕ, ◌≡◌, ◌||◌, refl, Bool, true, false, Option, none, some, List, [], ◌∷◌, if◌then◌else◌, inl, inr,
  ◌⊎◌,
}
use sentinet_cpp.Common.Maps.{String, same}
use sentinet_cpp.Common.Decimal.{chars}
use sentinet_cpp.Position.AprilTags.{
  Family, tag36h11, tag25h9, tag16h5, tag_circle21h7, tag_circle49h12, tag_standard41h12,
  tag_standard52h13, tag_custom48h12, destroy_family, family_of, destroy_by_type,
}

unfoldable pub code : Family → ℕ
code tag36h11 = 1
code tag25h9 = 2
code tag16h5 = 3
code tag_circle21h7 = 4
code tag_circle49h12 = 5
code tag_standard41h12 = 6
code tag_standard52h13 = 7
code tag_custom48h12 = 8

-- The families that the class knows.
abbrev pub known_names : List String
known_names =
    chars "tag36h11"
    ∷ chars "tag25h9"
    ∷ chars "tag16h5"
    ∷ chars "tagCircle21h7"
    ∷ chars "tagCircle49h12"
    ∷ chars "tagStandard41h12"
    ∷ chars "tagStandard52h13"
    ∷ chars "tagCustom48h12"
    ∷ []

abbrev pub one_of : List String → String → Bool
one_of [] name = false
one_of (n ∷ ns) name = same name n || one_of ns name

family_chain :
    (b1 b2 b3 b4 b5 b6 b7 b8 : Bool)
    → let found : Option (Family × ℕ) =
        if b1
        then some (tag36h11, 1)
        else if b2
        then some (tag25h9, 2)
        else if b3
        then some (tag16h5, 3)
        else if b4
        then some (tag_circle21h7, 4)
        else if b5
        then some (tag_circle49h12, 5)
        else if b6
        then some (tag_standard41h12, 6)
        else if b7
        then some (tag_standard52h13, 7)
        else if b8
        then some (tag_custom48h12, 8)
        else none in
      let any = b1 || (b2 || (b3 || (b4 || (b5 || (b6 || (b7 || (b8 || false))))))) in
      ((found ≡ none) × (any ≡ false)) ⊎ ((f : Family) × (found ≡ some (f, code f)) × (any ≡ true))
unfolding code
family_chain true b2 b3 b4 b5 b6 b7 b8 = inr (tag36h11, refl, refl)
family_chain false true b3 b4 b5 b6 b7 b8 = inr (tag25h9, refl, refl)
family_chain false false true b4 b5 b6 b7 b8 = inr (tag16h5, refl, refl)
family_chain false false false true b5 b6 b7 b8 = inr (tag_circle21h7, refl, refl)
family_chain false false false false true b6 b7 b8 = inr (tag_circle49h12, refl, refl)
family_chain false false false false false true b7 b8 = inr (tag_standard41h12, refl, refl)
family_chain false false false false false false true b8 = inr (tag_standard52h13, refl, refl)
family_chain false false false false false false false true = inr (tag_custom48h12, refl, refl)
family_chain false false false false false false false false = inl (refl, refl)

pub family_code :
    (name : String)
    → ((family_of name ≡ none) × (one_of known_names name ≡ false))
      ⊎ ((f : Family) × (family_of name ≡ some (f, code f)) × (one_of known_names name ≡ true))
unfolding family_of code
family_code name =
    family_chain (same name (chars "tag36h11")) (same name (chars "tag25h9"))
      (same name (chars "tag16h5")) (same name (chars "tagCircle21h7"))
      (same name (chars "tagCircle49h12")) (same name (chars "tagStandard41h12"))
      (same name (chars "tagStandard52h13")) (same name (chars "tagCustom48h12"))

pub destroyed : (f : Family) → destroy_by_type (code f) f ≡ destroy_family f f ∷ []
unfolding destroy_by_type code
destroyed tag36h11 = refl
destroyed tag25h9 = refl
destroyed tag16h5 = refl
destroyed tag_circle21h7 = refl
destroyed tag_circle49h12 = refl
destroyed tag_standard41h12 = refl
destroyed tag_standard52h13 = refl
destroyed tag_custom48h12 = refl
