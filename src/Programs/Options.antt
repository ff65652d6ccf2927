-- ===== src/Programs/Options.antt =====
-- How the loops of src/impl/kermit_kernel.cpp and src/impl/kermit_proxy.cpp look at their arguments.
use sentinet_cpp.Common.{◌||◌, Bool, false, Option, none, some, List, [], ◌∷◌, if◌then◌else◌}
use sentinet_cpp.Common.Maps.{String, same}

-- Whether one of the arguments is a key.
unfoldable pub asked : String → List String → Bool
asked key [] = false
asked key (a ∷ rest) = same a key || asked key rest

-- Whether the last of them is.
unfoldable pub ends_in : String → List String → Bool
ends_in key [] = false
ends_in key (a ∷ []) = same a key
ends_in key (a ∷ b ∷ rest) = ends_in key (b ∷ rest)

abbrev pub first : List String → Option String
first [] = none
first (a ∷ rest) = some a

-- The argument behind the last one that is the key.
unfoldable pub last_after : String → List String → Option String
last_after key [] = none
last_after key (a ∷ rest) = elim (last_after key rest) [
  | some v ↦ some v
  | none ↦ if same a key then first rest else none
]
