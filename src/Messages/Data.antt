-- ===== src/Messages/Data.antt =====
-- src/messages/data_messages.c: the `data_buffer`, its header on the wire, and the functions that
-- append an element to it and read one back. NO_NET_BYTE is defined, so elements keep the byte
-- order of the machine; `host16` and `host32` are the identity for the byte order that data.h sets.
mod Layout
pub mod Retrieve
pub mod Copying
pub mod Items
pub mod Append
pub mod Header
pub mod Longs
use sentinet_cpp.Common.{
  ℕ, zero, suc, ◌+◌, ◌-◌, Bool, true, false, ◌&&◌, ◌||◌, Option, none, some, bit_and, ltb, leb,
  ◌==◌, if◌then◌else◌, Memory, zeros, u8, u16, u32, store8, store16, store32, store64, load16,
  load32, load64,
}
pub use Layout.*

pub record DataBuffer : Type 0 where
  pub protocol_version : ℕ  -- uint8_t
  pub opcode : ℕ  -- uint8_t
  pub functional_flags : ℕ  -- uint16_t
  pub checksum : ℕ  -- uint16_t
  pub byte_length : ℕ  -- uint32_t
  pub fields : ℕ  -- uint16_t
  pub bytes : Memory  -- BYTE data[MESSAGE_SIZE]
  pub serialize_flags : ℕ  -- uint64_t

-- `host16` and `host32` of data.c with `__RMT_BYTE_ORDER__ == __RMT_BIG_ENDIAN__`.
abbrev pub host16 : ℕ → ℕ
host16 n = n

abbrev pub host32 : ℕ → ℕ
host32 n = n

-- The fields of the struct written to the first bytes of its array.
unfoldable pub to_wire : DataBuffer → DataBuffer
to_wire b = record b { bytes = wire }
  where
    wire : Memory
    wire =
        store16
          (store32
            (store16
              (store16 (store8 (store8 b.bytes prot_pos b.protocol_version) op_pos b.opcode)
                func_pos (host16 b.functional_flags))
              mag_pos (host16 b.checksum))
            byte_pos (host32 b.byte_length))
          fld_pos (host16 b.fields)

unfoldable pub create_buffer : DataBuffer
unfolding to_wire
create_buffer = to_wire (record {
  protocol_version = protocol_version_1;
  opcode = data_packet;
  functional_flags = 0;
  checksum = 0;
  byte_length = data_header_size;
  fields = 0;
  bytes = zeros;
  serialize_flags = 0;
})

abbrev pub get_protocol_version : Memory → ℕ
get_protocol_version m = m 0

unfoldable pub get_opcode_impl : Memory → ℕ → ℕ
get_opcode_impl m version =
    if version == 1 then (if leb (m op_pos) max_message_type then 0 else m op_pos) else 0

unfoldable pub get_checksum_impl : Memory → ℕ → ℕ
get_checksum_impl m version = if version == 1 then load16 m mag_pos else 0

unfoldable pub get_byte_length_impl : Memory → ℕ → ℕ
get_byte_length_impl m version =
    if version == 1
    then (if leb (load32 m byte_pos) message_size then load32 m byte_pos else 0)
    else 0

unfoldable pub get_number_fields_impl : Memory → ℕ → ℕ
get_number_fields_impl m version = if version == 1 then load16 m fld_pos else 0

-- The branches of `switch (type_code)`, the same in `serialize_data` and in `get_data`.
pub data Width : Type 0 where
  word byte half other : Width

unfoldable pub width : ℕ → Width
width code =
    if code == int32 || code == uint32 || code == float
    then word
    else if code == char || code == uint8 || code == int8 || code == byte_type
    then byte
    else if code == int16 || code == bool
    then half
    else other

-- The test before the copy loop over longs.
unfoldable pub uses_longs : Memory → ℕ → Memory → ℕ → Bool
uses_longs source s dest d =
    bit_and (load64 source s) 0xfffffffc == 0 && bit_and (load64 dest d) 0xfffffffc == 0

-- The variables of the two copy loops: the memory written, both pointers and `num_bytes`.
pub record Copy : Type 0 where
  pub memory : Memory
  pub head : ℕ
  pub from : ℕ
  pub left : ℕ

-- `while (num_bytes >= 4) { *destl++ = *sourcel++; num_bytes -= 4; }`, both of type `uint64_t*`.
unfoldable pub copy_longs : ℕ → Memory → Copy → Copy
copy_longs zero source c = c
copy_longs (suc fuel) source c = elim (leb 4 c.left) [
  | true ↦ copy_longs fuel source (record {
    memory = store64 c.memory c.head (load64 source c.from);
    head = c.head + 8;
    from = c.from + 8;
    left = c.left - 4;
  })
  | false ↦ c
]

-- `while (num_bytes--) *head++ = *source++;`.
unfoldable pub copy_bytes : ℕ → Memory → Memory → ℕ → ℕ → Memory
copy_bytes zero source dest h s = dest
copy_bytes (suc n) source dest h s = copy_bytes n source (store8 dest h (source s)) (h + 1) (s + 1)

-- The `default` branch; the second part is the pointer behind the last byte written.
unfoldable pub copy_default : Memory → ℕ → Memory → ℕ → ℕ → Memory × ℕ
copy_default source s dest d n =
    let start : Copy = record { memory = dest; head = d; from = s; left = n } in
    let c = if uses_longs source s dest d then copy_longs n source start else start in
    (copy_bytes c.left source c.memory c.head c.from, c.head + c.left)

-- The branches of the switch: the value at `source + s` written to `dest + d`.
unfoldable pub copy_width : Width → Memory → ℕ → Memory → ℕ → ℕ → Memory × ℕ
copy_width word source s dest d n = (store32 dest d (load32 source s), d + 4)
copy_width byte source s dest d n = (store8 dest d (source s), d + 1)
copy_width half source s dest d n = (store16 dest d (load16 source s), d + 2)
copy_width other source s dest d n = copy_default source s dest d n

unfoldable pub copy_value : Memory → ℕ → Memory → ℕ → ℕ → ℕ → Memory × ℕ
unfolding copy_width
copy_value source s dest d n code = copy_width (width code) source s dest d n

-- What `serialize_data` does behind its check, `data` being at the start of `source`.
unfoldable pub append_element : DataBuffer → Memory → ℕ → ℕ → DataBuffer
append_element b source n code =
    let head = b.byte_length in
    let (written, end) =
      copy_value source 0 (store8 (store8 b.bytes head n) (head + 1) code) (head + 2) n code in
    record b {
      byte_length = u32 (b.byte_length + (3 + n));
      fields = u16 (b.fields + 1);
      bytes = store8 written end 0;
    }

-- It returns 0 whether it appends or not. `none` is a null `data`.
unfoldable pub serialize_data : DataBuffer → Option Memory → ℕ → ℕ → DataBuffer × ℕ
serialize_data b none n code = (b, 0)
serialize_data b (some source) n code =
    if ltb (u32 (3 + n + b.byte_length)) message_size
    then (append_element b source n code, 0)
    else (b, 0)

pub data Errno : Type 0 where
  no_error einval erange ebadmsg : Errno

-- `element`; the pointer is an offset into the message, `none` for null.
pub record Element : Type 0 where
  pub size : ℕ
  pub type_code : ℕ
  pub position : Option ℕ

-- What `get_data` returns, the destination after it, and `errno`.
pub record Got : Type 0 where
  pub element : Element
  pub destination : Memory
  pub errno : Errno

abbrev pub no_element : Element
no_element = record { size = 0; type_code = 0; position = none }

-- The loop over the elements before the wanted one: the offset of that one in the data segment,
-- or `none` where a terminator is not zero. `i` stays below 32 * 258 and does not wrap.
unfoldable pub skip_elements : ℕ → Memory → ℕ → Option ℕ
skip_elements zero m i = some i
skip_elements (suc index) m i =
    let next = i + 2 + m (data_pos + i) in
    elim (m (data_pos + next) == 0) [ true ↦ skip_elements index m (next + 1) | false ↦ none ]

-- The element at offset `i` of the data segment.
unfoldable pub read_element : Memory → Memory → ℕ → Got
read_element m dest i =
    let size = m (data_pos + i) in
    let type_code = m (data_pos + i + 1) in
    let position = data_pos + i + 2 in
    record {
      element = record { size = size; type_code = type_code; position = some position };
      destination = (copy_value m position dest 0 size type_code).0;
      errno = no_error;
    }

unfoldable pub get_data : Option Memory → Option Memory → ℕ → Got
get_data none none index = record { element = no_element; destination = zeros; errno = einval }
get_data none (some dest) index = record {
  element = no_element;
  destination = dest;
  errno = einval;
}
get_data (some m) none index = record { element = no_element; destination = zeros; errno = einval }
get_data (some m) (some dest) index =
    let fields = host16 (load16 m fld_pos) in
    if leb max_fields fields || leb fields index
    then record { element = no_element; destination = dest; errno = erange }
    else elim (skip_elements index m 0) [
      | none ↦ record { element = no_element; destination = dest; errno = ebadmsg }
      | some i ↦ read_element m dest i
    ]
