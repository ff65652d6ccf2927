-- ===== src/Position/Lifetime.antt =====
-- What the detector of src/localizer/AprilDetector.cpp calls of the apriltag library from its constructor
-- to its destructor, and what it publishes.
use sentinet_cpp.Common.{
  ℕ, ◌==◌, ◌≡◌, ◌||◌, ◌&&◌, refl, ap, sym, ◌∙◌, Bool, true, false, not, Option, none, some, List,
  [], ◌∷◌, ◌++◌, arith, if◌then◌else◌, inl, inr,
}
use sentinet_cpp.Common.Maps.{String}
use sentinet_cpp.Position.{Pos}
use sentinet_cpp.Position.AprilTags.{
  Family, LibraryCall, create_family, destroy_family, create_detector, destroy_detector, add_family,
  detect, destroy_detections, Tag, no_tag, family_of, initialize_tag, destroy_tag, AprilDetector,
  new_detector, loop, delete_detector,
}
use sentinet_cpp.Position.Families.{code, known_names, one_of, family_code, destroyed}

-- The objects of the library that are alive.
pub record Live : Type 0 where
  pub family : Option Family
  pub detector : Bool
  pub detections : Bool

abbrev pub nothing : Live
nothing = record { family = none; detector = false; detections = false }

-- A call as the library documents it: an object is made once and freed once, a family by the function of
-- its own kind and not before the detector that uses it; a detector that is not there is not used.
unfoldable pub use_library : Live → LibraryCall → Option Live
unfolding code
use_library l (create_family f) = elim l.family [
  | none ↦ some (record l { family = some f })
  | some g ↦ none
]
use_library l (destroy_family f g) = elim l.family [
  | none ↦ none
  | some h ↦
      if code f == code g && code g == code h && not l.detector
      then some (record l { family = none })
      else none
]
use_library l create_detector = if l.detector then none else some (record l { detector = true })
use_library l destroy_detector =
    if l.detector && not l.detections then some (record l { detector = false }) else none
use_library l add_family = elim l.family [
  | none ↦ none
  | some f ↦ if l.detector then some l else none
]
use_library l detect =
    if l.detector && not l.detections then some (record l { detections = true }) else none
use_library l destroy_detections =
    if l.detections then some (record l { detections = false }) else none

-- What is alive after some calls, if each is as documented.
unfoldable pub track : Live → List LibraryCall → Option Live
unfolding use_library
track l [] = some l
track l (c ∷ cs) = elim (use_library l c) [ none ↦ none | some l' ↦ track l' cs ]

pub record Look (P : Type 0) : Type 0 where
  pub frame : P
  pub x : ℕ
  pub y : ℕ
  pub theta : ℕ
  pub key : Bool

module _ {P D : Type 0} (found : P → List D) (draw : D → P → P) where
  -- The calls of `loop` in some turns, with the detector after them.
  unfoldable pub loops : List (Look P) → AprilDetector → AprilDetector × List LibraryCall
  unfolding loop
  loops [] d = (d, [])
  loops (t ∷ ts) d =
      let ((d', goes_on), calls, shown) = loop found draw t.x t.y t.theta t.frame t.key d in
      let (end, rest) = loops ts d' in (end, calls ++ rest)

  -- From the constructor to the destructor.
  unfoldable pub lifetime : Pos → Bool → String → List (Look P) → List LibraryCall
  unfolding loops
  lifetime pos show_stream name turns =
      let (d, calls) = new_detector pos show_stream name in
      let (end, rest) = loops turns d in calls ++ (rest ++ delete_detector end)

  initial_calls :
      (pos : Pos) (s : Bool) (name : String) (f : Family) (type : ℕ)
      → family_of name ≡ some (f, type)
      → new_detector pos s name ≡ (
        record {
          pos = pos;
          tag = record { type = type; tf = some f; td = true; detections = false };
          show_stream = s;
        },
        create_family f ∷ create_detector ∷ add_family ∷ [],
      )
  unfolding new_detector initialize_tag no_tag
  initial_calls pos s name f type e = ground (arith, e)

  loop_calls :
      (frame : P) (x y theta : ℕ) (key : Bool) (d : AprilDetector)
      → ((loop found draw x y theta frame key d).1 ≡ detect ∷ destroy_detections ∷ [])
        × ((loop found draw x y theta frame key d).0.0.tag ≡ d.tag)
  unfolding loop
  loop_calls frame x y theta key d = (ground arith, ground arith)

  loops-track :
      (turns : List (Look P)) (d : AprilDetector) (f : Option Family) (rest : List LibraryCall)
      → let l : Live = record { family = f; detector = true; detections = false } in
        ((loops turns d).0.tag ≡ d.tag) × (track l ((loops turns d).1 ++ rest) ≡ track l rest)
  unfolding loops track use_library
  loops-track [] d f rest = (refl, refl)
  loops-track (t ∷ ts) d f rest =
      let (calls, tag) = loop_calls t.frame t.x t.y t.theta t.key d in
      let (tags, tracks) =
        loops-track ts (loop found draw t.x t.y t.theta t.frame t.key d).0.0 f rest in
      (tags ∙ tag, rw calls tracks)

  last_calls :
      (f : Family)
      → track
          (record { family = some f; detector = true; detections = false })
          (destroy_detector ∷ destroy_family f f ∷ [])
        ≡ some nothing
  unfolding track use_library
  last_calls f = ground arith

  -- Whether there is a turn.
  abbrev pub looks : List (Look P) → Bool
  looks [] = false
  looks (t ∷ ts) = true

  -- The calls behind those of the constructor.
  abbrev later_calls : List (Look P) → AprilDetector → List LibraryCall
  later_calls turns d = (loops turns d).1 ++ delete_detector (loops turns d).0

  lifetime-later :
      (pos : Pos) (s : Bool) (name : String) (turns : List (Look P)) (d : AprilDetector)
      (calls : List LibraryCall)
      → new_detector pos s name ≡ (d, calls)
      → lifetime pos s name turns ≡ calls ++ later_calls turns d
  unfolding lifetime
  lifetime-later pos s name turns d calls e =
      ap (λ (m : AprilDetector × List LibraryCall). m.1 ++ later_calls turns m.0) e

  delete_calls :
      (d : AprilDetector) (f : Family)
      → d.tag ≡ record { type = code f; tf = some f; td = true; detections = false }
      → delete_detector d ≡ destroy_detector ∷ destroy_family f f ∷ []
  unfolding delete_detector destroy_tag
  delete_calls d f e =
      ap (λ (t : Tag). (destroy_tag t).1) e ∙ ap (λ r. destroy_detector ∷ r) (destroyed f)

  lifetime_known :
      (pos : Pos) (s : Bool) (name : String) (turns : List (Look P)) (f : Family)
      → family_of name ≡ some (f, code f)
      → track nothing (lifetime pos s name turns) ≡ some nothing
  unfolding track use_library
  lifetime_known pos s name turns f e =
      let d : AprilDetector = record {
        pos = pos;
        tag = record { type = code f; tf = some f; td = true; detections = false };
        show_stream = s;
      } in
      let calls = create_family f ∷ create_detector ∷ add_family ∷ [] in
      let (tag, tracks) = loops-track turns d (some f) (delete_detector (loops turns d).0) in
      let l : Live = record { family = some f; detector = true; detections = false } in
      ap (track nothing)
        (lifetime-later pos s name turns d calls (initial_calls pos s name f (code f) e))
      ∙ (tracks ∙ (ap (track l) (delete_calls (loops turns d).0 f tag) ∙ last_calls f))

  no_calls :
      (pos : Pos) (s : Bool) (name : String)
      → family_of name ≡ none
      → new_detector pos s name ≡ (record { pos = pos; tag = no_tag; show_stream = s }, [])
  unfolding new_detector initialize_tag no_tag
  no_calls pos s name e = ground (arith, e)

  later_unknown :
      (pos : Pos) (s : Bool) (turns : List (Look P))
      → track nothing (later_calls turns (record { pos = pos; tag = no_tag; show_stream = s }))
        ≡ (if looks turns then none else some nothing)
  unfolding track use_library loops delete_detector destroy_tag no_tag
  later_unknown pos s [] = refl
  later_unknown pos s (t ∷ ts) =
      let d : AprilDetector = record { pos = pos; tag = no_tag; show_stream = s } in
      let calls = (loop_calls t.frame t.x t.y t.theta t.key d).0 in rw calls refl

  flip :
      (b : Bool)
      → (if b then none else some nothing) ≡ (if false || not b then some nothing else none)
  flip true = refl
  flip false = refl

  -- From the constructor to the destructor, over any number of calls of `loop` and whatever is seen: with the
  -- name of one of the eight families each call of the library is as it is documented, and nothing is
  -- left alive, since the family is freed by the function of its own kind, after the detector. With any
  -- other name this holds only if `loop` is never called: it looks with a detector that is not there.
  pub lifetime-track :
      (pos : Pos) (s : Bool) (name : String) (turns : List (Look P))
      → track nothing (lifetime pos s name turns)
        ≡ (if one_of known_names name || not (looks turns) then some nothing else none)
  lifetime-track pos s name turns = elim (family_code name) [
    | inl (e, unknown) ↦
        let calls : lifetime pos s name turns
            ≡ later_calls turns (record { pos = pos; tag = no_tag; show_stream = s }) =
          lifetime-later pos s name turns (record { pos = pos; tag = no_tag; show_stream = s }) []
            (no_calls pos s name e) in
        ap (track nothing) calls
        ∙ (later_unknown pos s turns
            ∙ (flip (looks turns)
                ∙ ap (λ b. if b || not (looks turns) then some nothing else none) (sym unknown)))
    | inr (f, e, known) ↦
        lifetime_known pos s name turns f e
        ∙ ap (λ b. if b || not (looks turns) then some nothing else none) (sym known)
  ]
