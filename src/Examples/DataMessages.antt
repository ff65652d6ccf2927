-- ===== src/Examples/DataMessages.antt =====
-- Data messages of src/messages/data_messages.c and pings at concrete inputs.
use sentinet_cpp.Common.{
  ◌≡◌, refl, inr, arith, some, [], ◌∷◌, Memory, IsBytes, zeros, store8, store32, store32-IsBytes,
  load64, store16, store8-IsBytes,
}
use sentinet_cpp.Messages.Data.{
  DataBuffer, create_buffer, serialize_data, get_data, no_error, erange, no_element, width,
  uses_longs, float, double,
}
use sentinet_cpp.Messages.Data.Items.{Item, IsMessage}
use sentinet_cpp.Messages.Data.Append.{item, serialize_data-IsMessage}
use sentinet_cpp.Messages.Data.Retrieve.{wire, Receives, get_data-to_wire, get_data_erange}
use sentinet_cpp.Messages.Data.Header.{InRange, create_buffer-IsMessage}
use sentinet_cpp.Messages.Data.Longs.{serialize_data_longs}

-- The pattern of 1.0f in memory.
abbrev one : Memory
one = store32 zeros 0 0x3f80_0000

one-IsBytes : IsBytes one
one-IsBytes = store32-IsBytes zeros 0 0x3f80_0000 (λ a. omega arith)

abbrev one_item : Item
one_item = item one 4 float

serialize_data-IsMessage_example :
    IsMessage (serialize_data create_buffer (some one) 4 float).0 (one_item ∷ [])
    × ((serialize_data create_buffer (some one) 4 float).1 ≡ 0)
unfolding width
serialize_data-IsMessage_example =
    serialize_data-IsMessage create_buffer one 4 float (omega arith) (omega arith) one-IsBytes refl
      [] create_buffer-IsMessage

abbrev one_message : DataBuffer
one_message = (serialize_data create_buffer (some one) 4 float).0

one_message-IsMessage : IsMessage one_message (one_item ∷ [])
unfolding width
one_message-IsMessage =
    (serialize_data-IsMessage create_buffer one 4 float (omega arith) (omega arith) one-IsBytes refl
      [] create_buffer-IsMessage).0

get_data-to_wire_example :
    ((get_data (some (wire one_message)) (some zeros) 0).element
      ≡ record { size = 4; type_code = float; position = some 15 })
    × Receives zeros one_item (get_data (some (wire one_message)) (some zeros) 0).destination
    × ((get_data (some (wire one_message)) (some zeros) 0).errno ≡ no_error)
unfolding width
get_data-to_wire_example =
    get_data-to_wire one_message (one_item ∷ []) zeros 0 one_item one_message-IsMessage
      (omega arith) refl refl

get_data_erange_example :
    get_data (some (wire one_message)) (some zeros) 1
    ≡ record { element = no_element; destination = zeros; errno = erange }
get_data_erange_example =
    get_data_erange one_message (one_item ∷ []) zeros 1 one_message-IsMessage (inr (omega arith))

new_buffer-InRange : InRange create_buffer
unfolding create_buffer
new_buffer-InRange = omega arith

-- The pattern of the double 1.0, a byte 7 behind it.
abbrev double_one : Memory
double_one = store8 (store8 (store8 zeros 6 0xf0) 7 0x3f) 8 7

double_one-IsBytes : IsBytes double_one
double_one-IsBytes =
    store8-IsBytes _ 8 7 (store8-IsBytes _ 7 0x3f (store8-IsBytes zeros 6 0xf0 (λ a. omega arith)))

-- A double 1.0 ends in the byte 7 that lies behind it, not in a zero.
serialize_data_longs_example :
    (serialize_data create_buffer (some double_one) 8 double).0.bytes 23 ≡ 7
unfolding create_buffer width uses_longs store8 load64 store16 store32
serialize_data_longs_example =
    serialize_data_longs create_buffer double_one double double_one-IsBytes (omega arith) refl refl
