-- ===== src/Messages/Data/Retrieve.antt =====
-- `get_data` reads the elements of a message back.
use sentinet_cpp.Common.{
  ℕ, zero, suc, ◌+◌, ◌≤◌, ◌<◌, ◌≡◌, refl, ◌⊎◌, true, false, ◌||◌, some, List, [], ◌∷◌, arith, leb,
  length, get_elem?, Memory, IsBytes, Holds, slice-Holds, load16, subst, ap, ◌∙◌, get_elem?-lt,
}
use sentinet_cpp.Messages.Data.{
  DataBuffer, no_error, erange, no_element, data_pos, fld_pos, max_fields, to_wire, width,
  skip_elements, read_element, get_data,
}
use sentinet_cpp.Messages.Data.Copying.{IsPlain, copy_value-Copies}
use sentinet_cpp.Messages.Data.Items.{Item, extent, Lay, Lay-at, IsMessage, length-le-span}
use sentinet_cpp.Messages.Data.Header.{to_wire-IsMessage, to_wire-fields}

-- The bytes that the first elements of a message take.
abbrev pub before : ℕ → List Item → ℕ
before zero xs = 0
before (suc index) [] = 0
before (suc index) (x ∷ xs) = extent x + before index xs

-- The element at an offset of the data segment.
abbrev pub LiesAt : Memory → ℕ → Item → Type 0
LiesAt m i x = Lay m (data_pos + i) (x ∷ [])

skip_elements-suc :
    (m : Memory) (index i : ℕ) (y : Item)
    → m (data_pos + i) ≡ length y.payload
    → m (data_pos + i + 2 + length y.payload) ≡ 0
    → skip_elements (suc index) m i ≡ skip_elements index m (i + extent y)
unfolding skip_elements
skip_elements-suc m index i y size term =
    let next : data_pos + (i + 2 + m (data_pos + i)) ≡ data_pos + i + 2 + length y.payload =
      omega arith in
    let behind : i + 2 + m (data_pos + i) + 1 ≡ i + extent y = omega arith in
    rw (next, term, skip_elements, behind)

skip_elements-Lay :
    (m : Memory) (xs : List Item) (index i : ℕ) (x : Item)
    → Lay m (data_pos + i) xs
    → get_elem? xs index ≡ some x
    → (skip_elements index m i ≡ some (i + before index xs)) × LiesAt m (i + before index xs) x
unfolding skip_elements
skip_elements-Lay m [] index i x l e = cc
skip_elements-Lay m (y ∷ xs) zero i x (size, code, held, term, rest) e = (
  ap some (omega arith),
  subst (λ z. Lay m (data_pos + (i + 0)) (z ∷ [])) (cc e)
      (Lay-at m (y ∷ []) (omega arith) (size, code, held, term, tt)),
)
skip_elements-Lay m (y ∷ xs) (suc index) i x (size, code, held, term, rest) e =
    let ih = skip_elements-Lay m xs index (i + extent y) x (Lay-at m xs (omega arith) rest) e in
    (
      skip_elements-suc m index i y size term ∙ (ih.0 ∙ ap some (omega arith)),
      Lay-at m (x ∷ []) (omega arith) ih.1,
    )

-- Memory `r` is `dest` with the bytes of the item at its start.
pub record Receives (dest : Memory) (x : Item) (r : Memory) : Type 0 where
  pub received : Holds r 0 x.payload
  pub behind : (j : ℕ) → r (length x.payload + j) ≡ dest (length x.payload + j)

read_element-LiesAt :
    (m dest : Memory) (i : ℕ) (x : Item)
    → IsBytes m
    → LiesAt m i x
    → IsPlain m (data_pos + i + 2) dest 0 (length x.payload) (width x.code)
    → ((read_element m dest i).element ≡ record {
      size = length x.payload;
      type_code = x.code;
      position = some (data_pos + i + 2);
    })
      × Receives dest x (read_element m dest i).destination
      × ((read_element m dest i).errno ≡ no_error)
unfolding read_element
read_element-LiesAt m dest i x b (size, code, held, term, rest) plain =
    let copied = copy_value-Copies m (data_pos + i + 2) dest 0 (length x.payload) x.code b plain in
    (
      ground arith,
      record {
        received =
            rw (size, code)
              (subst (Holds _ 0) (slice-Holds m (data_pos + i + 2) x.payload held) copied.written);
        behind = λ j. rw (size, code) (copied.above (length x.payload + j) (omega arith));
      },
      refl,
    )

in_range :
    (xs : List Item) (index : ℕ) (x : Item)
    → length xs < max_fields
    → get_elem? xs index ≡ some x
    → (leb max_fields (length xs) || leb (length xs) index) ≡ false
in_range xs index x few e = ground (arith, get_elem?-lt xs index e)

out_of_range :
    (xs : List Item) (index : ℕ)
    → (max_fields ≤ length xs) ⊎ (length xs ≤ index)
    → (leb max_fields (length xs) || leb (length xs) index) ≡ true
out_of_range xs index outside = ground arith

-- The bytes of the message that `b` describes, as `to_wire` leaves them.
abbrev pub wire : DataBuffer → Memory
wire b = (to_wire b).bytes

-- After `to_wire`, `get_data` at the index of an element, in a message of fewer than MAX_FIELDS
-- elements, gives the size, the type code and the position of the element, copies its bytes to the
-- destination and no more, and reports no error, if the value can be copied to the destination.
pub get_data-to_wire :
    (b : DataBuffer) (xs : List Item) (dest : Memory) (index : ℕ) (x : Item)
    → IsMessage b xs
    → length xs < max_fields
    → get_elem? xs index ≡ some x
    → IsPlain (wire b) (data_pos + before index xs + 2) dest 0 (length x.payload) (width x.code)
    → ((get_data (some (wire b)) (some dest) index).element ≡ record {
      size = length x.payload;
      type_code = x.code;
      position = some (data_pos + before index xs + 2);
    })
      × Receives dest x (get_data (some (wire b)) (some dest) index).destination
      × ((get_data (some (wire b)) (some dest) index).errno ≡ no_error)
unfolding get_data
get_data-to_wire b xs dest index x m few e plain =
    let w = to_wire-IsMessage b xs m in
    let fields : load16 (wire b) fld_pos ≡ length xs =
      to_wire-fields b (omega (arith, m.fields_is)) ∙ m.fields_is in
    let found = skip_elements-Lay (wire b) xs index 0 x w.lay e in
    let found_at : skip_elements index (wire b) 0 ≡ some (before index xs) =
      found.0 ∙ ap some (omega arith) in
    rw (fields, in_range xs index x few e, get_data, found_at)
      (read_element-LiesAt (wire b) dest (before index xs) x w.bytes_are
        (Lay-at (wire b) (x ∷ []) (omega arith) found.1) plain)

-- After `to_wire`, `get_data` at an index behind the last element, or in a message of MAX_FIELDS
-- elements or more, reports a range error, gives the null element and leaves the destination as it
-- was.
pub get_data_erange :
    (b : DataBuffer) (xs : List Item) (dest : Memory) (index : ℕ)
    → IsMessage b xs
    → (max_fields ≤ length xs) ⊎ (length xs ≤ index)
    → get_data (some (wire b)) (some dest) index
      ≡ record { element = no_element; destination = dest; errno = erange }
unfolding get_data
get_data_erange b xs dest index m outside =
    let fields : load16 (wire b) fld_pos ≡ length xs =
      to_wire-fields b (omega (arith, m.fields_is, m.length_is, m.fits, length-le-span xs))
      ∙ m.fields_is in
    rw (fields, out_of_range xs index outside, get_data)
