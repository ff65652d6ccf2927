-- ===== src/Messages/Data/Append.antt =====
-- `serialize_data` appends one element to the message, or leaves it as it was.
use sentinet_cpp.Common.{
  ℕ, ◌+◌, ◌≤◌, ◌<◌, ◌≡◌, refl, ◌⊎◌, inl, inr, true, false, Bool-cases, some, List, [], ◌∷◌, ◌++◌,
  arith, ltb, if◌then◌else◌, length-append, Memory, IsBytes, Holds-frame, slice, length-slice, u32,
  store8, store8-IsBytes,
}
use sentinet_cpp.Messages.Data.{
  DataBuffer, data_pos, message_size, width, copy_value, append_element, serialize_data,
}
use sentinet_cpp.Messages.Data.Copying.{Copies, IsPlain, copy_value-Copies, copy_value-IsBytes}
use sentinet_cpp.Messages.Data.Items.{
  Item, span, Lay, IsMessage, span-append, length-le-span, Lay-append, Lay-frame,
}

-- The item that a call of `serialize_data` is to add.
abbrev pub item : Memory → ℕ → ℕ → Item
item source n code = record { code = code; payload = slice source 0 n }

-- The message array once the size and the type code are written.
abbrev pub headed : DataBuffer → ℕ → ℕ → Memory
headed b n code = store8 (store8 b.bytes b.byte_length n) (b.byte_length + 1) code

-- The value can be copied to its place behind the size and the type code.
abbrev pub Serializable : DataBuffer → Memory → ℕ → ℕ → Type 0
Serializable b source n code = IsPlain source 0 (headed b n code) (b.byte_length + 2) n (width code)

module _ (b : DataBuffer) (source : Memory) (n code : ℕ) (small : n < 256) (ascii : code < 256)
    (bytes : IsBytes source) (plain : Serializable b source n code) where
  abbrev copied : Memory × ℕ
  copied = copy_value source 0 (headed b n code) (b.byte_length + 2) n code

  copied-Copies : Copies source 0 (headed b n code) (b.byte_length + 2) n copied
  copied-Copies =
      copy_value-Copies source 0 (headed b n code) (b.byte_length + 2) n code bytes plain

  -- Nothing below the old end of the message changes.
  append_element-below :
      (j : ℕ) → j < b.byte_length → (append_element b source n code).bytes j ≡ b.bytes j
  unfolding append_element store8
  append_element-below j h = ground (arith, copied-Copies.below j, copied-Copies.end)

  -- Nor does anything change at or above the new end.
  append_element-above :
      (j : ℕ) → b.byte_length + (3 + n) ≤ j → (append_element b source n code).bytes j ≡ b.bytes j
  unfolding append_element store8
  append_element-above j h = ground (arith, copied-Copies.above j, copied-Copies.end)

  append_element-Lay :
      Lay (append_element b source n code).bytes b.byte_length (item source n code ∷ [])
  unfolding append_element store8
  append_element-Lay = (
    ground (arith, copied-Copies.below b.byte_length, copied-Copies.end, length-slice source 0 n),
    ground (arith, copied-Copies.below (b.byte_length + 1), copied-Copies.end),
    Holds-frame copied.0 (append_element b source n code).bytes (b.byte_length + 2) 0
        (b.byte_length + 2 + n) (slice source 0 n) (omega arith)
        (omega (arith, length-slice source 0 n)) (λ j g h. ground (arith, copied-Copies.end))
        copied-Copies.written,
    ground (arith, copied-Copies.end, length-slice source 0 n),
    tt,
  )

  append_element-IsBytes : IsBytes b.bytes → IsBytes (append_element b source n code).bytes
  unfolding append_element
  append_element-IsBytes old =
      store8-IsBytes _ _ _
        (copy_value-IsBytes _ _ _ _ _ _ (store8-IsBytes _ _ _ (store8-IsBytes _ _ _ old)))

  append_element-IsMessage :
      (xs : List Item)
      → IsMessage b xs
      → b.byte_length + (3 + n) < message_size
      → IsMessage (append_element b source n code) (xs ++ item source n code ∷ [])
  unfolding append_element
  append_element-IsMessage xs m room =
      let total = span-append xs (item source n code ∷ []) in
      let count = length-append xs (item source n code ∷ []) in
      let few = length-le-span xs in
      record {
        lay =
            Lay-append _ data_pos xs (item source n code)
              (Lay-frame b.bytes _ data_pos 0 b.byte_length xs (omega arith)
                (omega (arith, m.length_is)) (λ j g h. append_element-below j h) m.lay)
              (rw (← m.length_is) append_element-Lay);
        length_is = omega (arith, m.length_is, total, length-slice source 0 n);
        fields_is = omega (arith, m.fields_is, m.length_is, count, few);
        fits = omega (arith, m.length_is);
        bytes_are = append_element-IsBytes m.bytes_are;
      }

  -- With a value that can be copied to its place, `serialize_data` returns 0 and leaves a message:
  -- the old one with the new element at its end where that keeps the length below MESSAGE_SIZE,
  -- and the old one itself where it does not.
  pub serialize_data-IsMessage :
      (xs : List Item)
      → IsMessage b xs
      → IsMessage (serialize_data b (some source) n code).0 (
          if ltb (data_pos + span xs + (3 + n)) message_size
          then xs ++ item source n code ∷ []
          else xs)
        × ((serialize_data b (some source) n code).1 ≡ 0)
  unfolding serialize_data
  serialize_data-IsMessage xs m = elim (Bool-cases (ltb (b.byte_length + (3 + n)) message_size)) [
    | inl room ↦ rw (passes room, kept room) (append_element-IsMessage xs m (ground arith), refl)
    | inr full ↦ rw (refused full, dropped full) (m, refl)
  ]
    where
      passes :
          ltb (b.byte_length + (3 + n)) message_size ≡ true
          → ltb (u32 (3 + n + b.byte_length)) message_size ≡ true
      passes e = ground arith

      refused :
          ltb (b.byte_length + (3 + n)) message_size ≡ false
          → ltb (u32 (3 + n + b.byte_length)) message_size ≡ false
      refused e = ground (arith, m.fits)

      kept :
          ltb (b.byte_length + (3 + n)) message_size ≡ true
          → ltb (data_pos + span xs + (3 + n)) message_size ≡ true
      kept e = ground (arith, m.length_is)

      dropped :
          ltb (b.byte_length + (3 + n)) message_size ≡ false
          → ltb (data_pos + span xs + (3 + n)) message_size ≡ false
      dropped e = ground (arith, m.length_is)

  -- With a value that can be copied to its place, `serialize_data` changes no byte of the message
  -- so far and writes nothing at or behind MESSAGE_SIZE.
  pub serialize_data-frame :
      (j : ℕ)
      → b.byte_length < message_size
      → (j < b.byte_length) ⊎ (message_size ≤ j)
      → (serialize_data b (some source) n code).0.bytes j ≡ b.bytes j
  unfolding serialize_data
  serialize_data-frame j fits outside =
      ground (arith, append_element-below j, append_element-above j)
