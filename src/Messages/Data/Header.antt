-- ===== src/Messages/Data/Header.antt =====
-- The header that `to_wire` writes, as the getters read it.
use sentinet_cpp.Common.{
  ℕ, ◌+◌, ◌≤◌, ◌<◌, ◌^◌, ◌≡◌, refl, arith, leb, if◌then◌else◌, IsBytes, store16, store32, load16,
  load32, store8-IsBytes, store16-IsBytes, store32-IsBytes, List, [],
}
use sentinet_cpp.Messages.Data.{
  DataBuffer, data_pos, fld_pos, message_size, to_wire, create_buffer, get_protocol_version,
  get_opcode_impl, get_checksum_impl, get_byte_length_impl, get_number_fields_impl,
}
use sentinet_cpp.Messages.Data.Items.{Item, Lay-frame, IsMessage, span}

-- The fields of the struct lie in the ranges of their types.
pub record InRange (b : DataBuffer) : Type 0 where
  pub protocol_range : b.protocol_version < 2 ^ 8
  pub opcode_range : b.opcode < 2 ^ 8
  pub checksum_range : b.checksum < 2 ^ 16
  pub length_range : b.byte_length < 2 ^ 32
  pub fields_range : b.fields < 2 ^ 16

-- Every byte of the array after `to_wire` that lies behind the header is the old one.
pub to_wire-above : (b : DataBuffer) (j : ℕ) → 12 ≤ j → (to_wire b).bytes j ≡ b.bytes j
unfolding to_wire store16 store32
to_wire-above b j h = ground arith

pub to_wire-fields :
    (b : DataBuffer) → b.fields < 2 ^ 16 → load16 (to_wire b).bytes fld_pos ≡ b.fields
unfolding to_wire load16 store16 store32
to_wire-fields b h = omega arith

pub to_wire-IsBytes : (b : DataBuffer) → IsBytes b.bytes → IsBytes (to_wire b).bytes
unfolding to_wire
to_wire-IsBytes b h = store16-IsBytes _ _ _ (
    store32-IsBytes _ _ _ (
      store16-IsBytes _ _ _
        (store16-IsBytes _ _ _ (store8-IsBytes _ _ _ (store8-IsBytes _ _ _ h)))))

-- Putting the header on the wire leaves the elements alone.
pub to_wire-IsMessage :
    (b : DataBuffer) (xs : List Item) → IsMessage b xs → IsMessage (to_wire b) xs
unfolding to_wire
to_wire-IsMessage b xs m = record {
  lay =
      Lay-frame b.bytes _ data_pos data_pos (data_pos + span xs) xs (omega arith) (omega arith)
        (λ j g h. to_wire-above b j (omega arith)) m.lay;
  length_is = m.length_is;
  fields_is = m.fields_is;
  fits = m.fits;
  bytes_are = to_wire-IsBytes b m.bytes_are;
}

-- For protocol version 1 the getters give back the fields of the struct that `to_wire` wrote: the
-- version, the checksum, the number of fields, and the length where it is MESSAGE_SIZE at most, 0
-- where it is more.
pub getters-to_wire :
    (b : DataBuffer)
    → InRange b
    → b.protocol_version ≡ 1
    → let m = (to_wire b).bytes in
      (get_protocol_version m ≡ 1)
      × (get_checksum_impl m (get_protocol_version m) ≡ b.checksum)
      × (get_byte_length_impl m (get_protocol_version m)
          ≡ (if leb b.byte_length message_size then b.byte_length else 0))
      × (get_number_fields_impl m (get_protocol_version m) ≡ b.fields)
unfolding to_wire get_checksum_impl get_byte_length_impl get_number_fields_impl load16 load32
    store16 store32
getters-to_wire b r v = (omega arith, ground arith, ground arith, ground arith)

-- For protocol version 1 the opcode that `get_opcode` reads is 0 for every message type that the
-- protocol defines (MAX_MESSAGE_TYPE at most), and the one written for every other.
pub get_opcode-to_wire :
    (b : DataBuffer)
    → InRange b
    → b.protocol_version ≡ 1
    → let m = (to_wire b).bytes in
      get_opcode_impl m (get_protocol_version m) ≡ (if leb b.opcode 2 then 0 else b.opcode)
unfolding to_wire get_opcode_impl store16 store32
get_opcode-to_wire b r v = ground arith

-- A new buffer is the empty message.
pub create_buffer-IsMessage : IsMessage create_buffer []
unfolding create_buffer
create_buffer-IsMessage = to_wire-IsMessage _ [] (record {
  lay = tt;
  length_is = refl;
  fields_is = refl;
  fits = omega arith;
  bytes_are = λ a. omega arith;
})
