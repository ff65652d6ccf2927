-- ===== src/Logging/Names.antt =====
-- The name of a source file that `log_log` of include/scpp/common.h writes to `file`.
use sentinet_cpp.Common.{
  ℕ, zero, suc, ◌+◌, ◌-◌, ◌==◌, ◌≡◌, ◌∙◌, refl, ap, arith, ltb, leb, ◌&&◌, ◌||◌, if◌then◌else◌,
  Bool, false, [], ◌∷◌, ◌++◌, Memory, store8, Bool-cases, inl, inr, u8, length, length-append,
}
use sentinet_cpp.Common.Maps.{String}
use sentinet_cpp.Logging.{slash, char_at, name_loop, copy, file_name}

abbrev pub has_slash : String → Bool
has_slash [] = false
has_slash (c ∷ s) = (c == slash) || has_slash s

no_slash_at : (s : String) (j : ℕ) → has_slash s ≡ false → (char_at s j == slash) ≡ false
unfolding char_at
no_slash_at [] j h = refl
no_slash_at (c ∷ s) zero h = ground arith
no_slash_at (c ∷ s) (suc j) h = no_slash_at s j (ground arith)

char_at-append : (s t : String) (i : ℕ) → char_at (s ++ t) (length s + i) ≡ char_at t i
unfolding char_at
char_at-append [] t i = ap (char_at t) (omega arith)
char_at-append (c ∷ s) t i =
    let at : length (c ∷ s) + i ≡ suc (length s + i) = omega arith in
    ap (char_at (c ∷ (s ++ t))) at ∙ char_at-append s t i

-- The loop over the part without a slash behind the last one.
slash_at : (dir base : String) → char_at (dir ++ (slash ∷ base)) (length dir) ≡ slash
unfolding char_at
slash_at dir base =
    let z : length dir ≡ length dir + 0 = omega arith in
    ap (char_at (dir ++ (slash ∷ base))) z ∙ char_at-append dir (slash ∷ base) 0

behind_slash :
    (dir base : String) (j : ℕ)
    → char_at (dir ++ (slash ∷ base)) (length dir + suc j) ≡ char_at base j
unfolding char_at
behind_slash dir base j = char_at-append dir (slash ∷ base) (suc j)

name_loop-slash :
    (dir base : String) (j : ℕ)
    → has_slash base ≡ false
    → name_loop (dir ++ (slash ∷ base)) (length dir + suc j) ≡ length dir
unfolding name_loop
name_loop-slash dir base zero h =
    let at : length dir + 1 ≡ suc (length dir) = omega arith in
    let c : char_at (dir ++ (slash ∷ base)) (length dir) ≡ slash = slash_at dir base in
    ap (name_loop (dir ++ (slash ∷ base))) at ∙ ground (arith, c)
name_loop-slash dir base (suc j) h =
    let at : length dir + suc (suc j) ≡ suc (length dir + suc j) = omega arith in
    let c : (char_at (dir ++ (slash ∷ base)) (length dir + suc j) == slash) ≡ false =
      ap (λ c. c == slash) (behind_slash dir base j) ∙ no_slash_at base j h in
    let ih = name_loop-slash dir base j h in
    ap (name_loop (dir ++ (slash ∷ base))) at ∙ ground (arith, c, ih)

copy_at :
    (path : String) (from n i : ℕ) (file : Memory) (j : ℕ)
    → copy path from n i file j
      ≡ (if leb i j && ltb j (i + n) then u8 (char_at path (from + (j - i))) else file j)
unfolding copy store8
copy_at path from zero i file j = ground arith
copy_at path from (suc n) i file j =
    let ih = copy_at path (from + 1) n (i + 1) (store8 file i (char_at path from)) j in
    elim (Bool-cases (ltb i j)) [
      | inl below ↦
          let at : from + 1 + (j - (i + 1)) ≡ from + (j - i) = ground (arith, below) in
          ground (arith, ih, below, ap (char_at path) at)
      | inr above ↦ elim (Bool-cases (j == i)) [
        | inl here ↦
            let at : from + (j - i) ≡ from = ground (arith, here) in
            ground (arith, ih, above, here, ap (char_at path) at)
        | inr apart ↦ ground (arith, ih, above, apart)
      ]
    ]

-- What `log_log` makes of a path with a slash: the part from the last slash on, which it keeps, goes to the
-- front of `file` with a terminator behind it, and nothing else changes. It writes two bytes more
-- than the name behind the slash has; so a name of 19 characters or more goes over the end of `file`.
pub file_name-last :
    (dir base : String) (file : Memory) (j : ℕ)
    → has_slash base ≡ false
    → ((file_name (dir ++ (slash ∷ base)) file).1 ≡ length base + 2)
      × ((file_name (dir ++ (slash ∷ base)) file).0 j ≡ (
          if ltb j (length base + 1)
          then u8 (char_at (slash ∷ base) j)
          else if j == length base + 1
          then 0
          else file j))
unfolding file_name store8
file_name-last dir base file j h =
    let path = dir ++ (slash ∷ base) in
    let from : name_loop path (length path) ≡ length dir =
      ap (name_loop path) (length-append dir (slash ∷ base))
      ∙ name_loop-slash dir base (length base) h in
    let n : length path - name_loop path (length path) ≡ length base + 1 =
      omega (arith, from, length-append dir (slash ∷ base)) in
    let c = copy_at path (length dir) (length base + 1) 0 file j in
    let at = char_at-append dir (slash ∷ base) j in
    let same_index : length dir + (j - 0) ≡ length dir + j = omega arith in
    (omega (arith, n), rw (n, from) (ground (arith, c, at, ap (char_at path) same_index)))
