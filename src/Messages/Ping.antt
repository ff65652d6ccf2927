-- ===== src/Messages/Ping.antt =====
-- src/messages/ping_message.c: the ping packet, its bytes on the wire, and its getters.
pub mod Wire
use sentinet_cpp.Common.{
  ℕ, ◌+◌, leb, ◌==◌, if◌then◌else◌, Memory, zeros, store8, store16, store64, load16, load64, Option,
  none, some,
}

-- include/scpp/messages/ping_message_keys.h.
abbrev pub ack : ℕ
ack = 1

abbrev pub invalid_request : ℕ
invalid_request = 3

abbrev pub state_request : ℕ
state_request = 8

abbrev pub max_ping_type : ℕ
max_ping_type = state_request

abbrev pub ping_header_size : ℕ
ping_header_size = 11

abbrev pub proto_pos : ℕ
proto_pos = 0

abbrev pub op_pos : ℕ
op_pos = proto_pos + 1

abbrev pub type_pos : ℕ
type_pos = op_pos + 1

abbrev pub code_pos : ℕ
code_pos = type_pos + 1

abbrev pub check_pos : ℕ
check_pos = code_pos + 2

abbrev pub excess_pos : ℕ
excess_pos = check_pos + 2

abbrev pub ping_message_size : ℕ
ping_message_size = excess_pos + 8

pub record PingBuffer : Type 0 where
  pub prot : ℕ  -- uint8_t
  pub op : ℕ  -- uint8_t
  pub type : ℕ  -- uint8_t
  pub code : ℕ  -- uint16_t
  pub check : ℕ  -- uint16_t
  pub excess : ℕ  -- uint64_t
  pub bytes : Memory  -- BYTE data[PING_MESSAGE_SIZE]

-- The fields that the initialiser does not name are zero.
unfoldable pub create_buffer_ping : PingBuffer
create_buffer_ping = record {
  prot = 1;
  op = 2;
  type = 0;
  code = 0;
  check = 0;
  excess = 0;
  bytes = zeros;
}

abbrev pub get_protocol_version_ping : Memory → ℕ
get_protocol_version_ping m = m 0

unfoldable pub get_opcode_impl_ping : Memory → ℕ → ℕ
get_opcode_impl_ping m version =
    if version == 1 then (if leb (m op_pos) max_ping_type then m op_pos else 0) else 0

unfoldable pub get_type_impl_ping : Memory → ℕ → ℕ
get_type_impl_ping m version =
    if version == 1 then (if leb (m type_pos) max_ping_type then m type_pos else 0) else 0

unfoldable pub get_code_impl_ping : Memory → ℕ → ℕ
get_code_impl_ping m version = if version == 1 then load16 m code_pos else 0

unfoldable pub get_checksum_impl_ping : Memory → ℕ → ℕ
get_checksum_impl_ping m version = if version == 1 then load16 m check_pos else 0

unfoldable pub get_excess_impl_ping : Memory → ℕ → ℕ
get_excess_impl_ping m version = if version == 1 then load64 m excess_pos else 0

-- `to_wire_ping` of a buffer that is not null; it returns 0.
unfoldable pub to_wire_ping : PingBuffer → PingBuffer
to_wire_ping b = record b {
  bytes =
      store64
        (store16
          (store16 (store8 (store8 (store8 b.bytes proto_pos b.prot) op_pos b.op) type_pos b.type)
            code_pos b.code)
          check_pos b.check)
        excess_pos b.excess;
}

-- `serialize_from_ping` of pointers that are not null; it returns 0.
unfoldable pub serialize_from_ping : PingBuffer → Memory → PingBuffer
unfolding get_opcode_impl_ping get_type_impl_ping get_code_impl_ping get_checksum_impl_ping
    get_excess_impl_ping
serialize_from_ping destination source =
    let version = get_protocol_version_ping source in
    record destination {
      prot = version;
      op = get_opcode_impl_ping source version;
      type = get_type_impl_ping source version;
      code = get_code_impl_ping source version;
      check = get_checksum_impl_ping source version;
      excess = get_excess_impl_ping source version;
    }
