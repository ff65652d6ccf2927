-- ===== src/Position/AprilTags.antt =====
-- src/localizer/AprilDetector.cpp: the node that looks for tags in the camera's pictures. The apriltag
-- library is not part of the repository: what is called of it is listed, and its objects are pointers
-- that are set or null.
use sentinet_cpp.Common.{
  ℕ, ◌==◌, ◌&&◌, Bool, true, false, Option, none, some, List, [], ◌∷◌, ◌++◌, if◌then◌else◌,
}
use sentinet_cpp.Common.Maps.{String, same}
use sentinet_cpp.Common.Decimal.{chars}
use sentinet_cpp.Position.{Pos, set_pos}

-- The families of tags, each with a function that makes it and one that frees it.
pub data Family : Type 0 where
  tag36h11 tag25h9 tag16h5 tag_circle21h7 tag_circle49h12 : Family
  tag_standard41h12 tag_standard52h13 tag_custom48h12 : Family

-- A call of the library; `destroy_family f g` is the function for `f` on a family that was made as `g`.
pub data LibraryCall : Type 0 where
  create_family : Family → LibraryCall
  destroy_family : Family → Family → LibraryCall
  create_detector destroy_detector add_family detect destroy_detections : LibraryCall

-- `tag` of the class: `tf`, with the family that it was made as, `td` and `detections`.
pub record Tag : Type 0 where
  pub type : ℕ
  pub tf : Option Family
  pub td : Bool
  pub detections : Bool

unfoldable pub no_tag : Tag
no_tag = record { type = 0; tf = none; td = false; detections = false }

-- The chain of tests on the name of a family, with the type that stands for it.
unfoldable pub family_of : String → Option (Family × ℕ)
family_of name =
    if same name (chars "tag36h11")
    then some (tag36h11, 1)
    else if same name (chars "tag25h9")
    then some (tag25h9, 2)
    else if same name (chars "tag16h5")
    then some (tag16h5, 3)
    else if same name (chars "tagCircle21h7")
    then some (tag_circle21h7, 4)
    else if same name (chars "tagCircle49h12")
    then some (tag_circle49h12, 5)
    else if same name (chars "tagStandard41h12")
    then some (tag_standard41h12, 6)
    else if same name (chars "tagStandard52h13")
    then some (tag_standard52h13, 7)
    else if same name (chars "tagCustom48h12")
    then some (tag_custom48h12, 8)
    else none

-- The settings of the detector, which are constants, are left out.
unfoldable pub initialize_tag : String → Tag → (Tag × Bool) × List LibraryCall
initialize_tag name tag = elim (family_of name) [
  | none ↦ ((tag, false), [])
  | some (f, type) ↦ (
    (record tag { type = type; tf = some f; td = true }, true),
    create_family f ∷ create_detector ∷ add_family ∷ [],
  )
]

-- The `switch (tag.type)` on a family made as `f`.
unfoldable pub destroy_by_type : ℕ → Family → List LibraryCall
destroy_by_type type f =
    if type == 1
    then destroy_family tag36h11 f ∷ []
    else if type == 2
    then destroy_family tag25h9 f ∷ []
    else if type == 3
    then destroy_family tag16h5 f ∷ []
    else if type == 4
    then destroy_family tag_circle21h7 f ∷ []
    else if type == 5
    then destroy_family tag_circle49h12 f ∷ []
    else if type == 6
    then destroy_family tag_standard41h12 f ∷ []
    else if type == 7
    then destroy_family tag_standard52h13 f ∷ []
    else if type == 8
    then destroy_family tag_custom48h12 f ∷ []
    else []

abbrev when : Bool → LibraryCall → List LibraryCall
when b c = if b then c ∷ [] else []

unfoldable pub destroy_tag : Tag → Tag × List LibraryCall
unfolding no_tag destroy_by_type
destroy_tag tag =
    let family : List LibraryCall = elim tag.tf [
      | none ↦ []
      | some f ↦ destroy_by_type tag.type f
    ] in
    (no_tag, when tag.detections destroy_detections ++ (when tag.td destroy_detector ++ family))

pub record AprilDetector : Type 0 where
  pub pos : Pos
  pub tag : Tag
  pub show_stream : Bool

-- The constructor, from a new `Pos` and what the memory of `show_stream` happens to hold: neither the
-- argument of that name nor the result of `initialize_tag` is used.
unfoldable pub new_detector : Pos → Bool → String → AprilDetector × List LibraryCall
unfolding initialize_tag no_tag
new_detector pos show_stream name =
    let ((tag, done), calls) = initialize_tag name no_tag in
    (record { pos = pos; tag = tag; show_stream = show_stream }, calls)

-- The values 4.5, 5.6 and 7.8 as 32-bit patterns.
abbrev pub pose_x : ℕ
pose_x = 0x40900000

abbrev pub pose_y : ℕ
pose_y = 0x40B33333

abbrev pub pose_theta : ℕ
pose_theta = 0x40F9999A

-- The pictures are `P` and the detections in them `D`: what the library finds in one, and what OpenCV
-- makes of one when a detection is drawn on it, are parameters.
module _ {P D : Type 0} (detections_in : P → List D) (draw : D → P → P) where
  unfoldable pub draw_all : List D → P → P
  draw_all [] frame = frame
  draw_all (det ∷ detections) frame = draw_all detections (draw det frame)

  -- One call of `loop`, with the values of `rand`, the next frame of the camera, and whether `waitKey` finds a
  -- key: the detector and the result, the calls of the library, and the picture that is shown.
  unfoldable pub loop :
      ℕ → ℕ → ℕ → P → Bool → AprilDetector → (AprilDetector × Bool) × List LibraryCall × Option P
  unfolding set_pos draw_all
  loop x y theta frame key d =
      let looked : AprilDetector = record d { pos = set_pos x y theta d.pos } in
      let calls = detect ∷ destroy_detections ∷ [] in
      let drawn = draw_all (detections_in frame) frame in
      let shown = if d.show_stream then some drawn else none in
      if d.show_stream && key
      then ((looked, false), calls, shown)
      else ((record d { pos = set_pos pose_x pose_y pose_theta looked.pos }, true), calls, shown)

-- The destructor, less `quit` of the control client; `destroy_video` does nothing.
unfoldable pub delete_detector : AprilDetector → List LibraryCall
unfolding destroy_tag
delete_detector d = (destroy_tag d.tag).1
