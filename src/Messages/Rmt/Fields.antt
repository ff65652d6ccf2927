-- ===== src/Messages/Rmt/Fields.antt =====
-- What the messages share: a 32-bit field of a struct as a source and a destination, and the
-- offset that `get_data` finds for it.
use sentinet_cpp.Common.{
  ℕ, Option, none, some, ◌==◌, if◌then◌else◌, Memory, zeros, store8, store32, load16, load32,
}
use sentinet_cpp.Messages.Data.{
  DataBuffer, serialize_data, append_element, copy_value, width, skip_elements, read_element,
  get_data, float, int32,
}

-- The memory at a field of four bytes. What lies behind the field is not read.
unfoldable pub field : ℕ → Memory
field v = store32 zeros 0 v

-- `serialize_data(&buff, &v, n, FLOAT)`.
unfoldable pub serialize_float : DataBuffer → ℕ → ℕ → DataBuffer
unfolding serialize_data append_element copy_value width store8 load32 field
serialize_float b v n = (serialize_data b (some (field v)) n float).0

-- `serialize_data(&buff, &v, sizeof(int), INT32)`.
unfoldable pub serialize_int : DataBuffer → ℕ → DataBuffer
unfolding serialize_data append_element copy_value width store8 load32 field
serialize_int b v = (serialize_data b (some (field v)) 4 int32).0

-- The offset of an element's bytes in its message. The null element has none; 0 stands for the
-- meaningless difference that the source takes then.
abbrev pub offset_or_zero : Option ℕ → ℕ
offset_or_zero none = 0
offset_or_zero (some i) = i

-- `(size_t)(get_data(buff.data, &v, index).data - buff.data)`.
unfoldable pub index_of : DataBuffer → ℕ → ℕ → ℕ
unfolding get_data skip_elements read_element load16
index_of b v index =
    offset_or_zero (get_data (some b.bytes) (some (field v)) index).element.position

-- The value of the field after that call.
unfoldable pub value_of : DataBuffer → ℕ → ℕ → ℕ
unfolding get_data skip_elements read_element copy_value width load16 load32 store32 field
value_of b v index = load32 (get_data (some b.bytes) (some (field v)) index).destination 0

-- An array of offsets with one entry set; the initialisers leave all entries zero.
abbrev pub set_index : (ℕ → ℕ) → ℕ → ℕ → ℕ → ℕ
set_index f i v j = if j == i then v else f j

abbrev pub no_indexes : ℕ → ℕ
no_indexes i = 0
