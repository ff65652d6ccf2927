-- ===== src/Messages/Ping/Wire.antt =====
-- What one ping buffer writes and another reads.
use sentinet_cpp.Common.{
  ◌+◌, ◌*◌, ◌%◌, ◌^◌, ◌<◌, ◌≡◌, arith, leb, ltb, if◌then◌else◌, Memory, store8, store64, load32,
  load64,
}
use sentinet_cpp.Messages.Ping.{
  PingBuffer, to_wire_ping, serialize_from_ping, max_ping_type, ping_header_size,
}

-- The fields lie in the ranges of their types.
pub record InRange (b : PingBuffer) : Type 0 where
  pub prot_range : b.prot < 2 ^ 8
  pub op_range : b.op < 2 ^ 8
  pub type_range : b.type < 2 ^ 8
  pub code_range : b.code < 2 ^ 16
  pub check_range : b.check < 2 ^ 16
  pub excess_range : b.excess < 2 ^ 64

-- A message that has passed through a string of PING_HEADER_SIZE bytes: the bytes behind those
-- are whatever lies behind the string, `tail`.
abbrev pub truncated : Memory → Memory → Memory
truncated m tail j = if ltb j ping_header_size then m j else tail j

-- A reader of the whole packet of a version 1 buffer has its fields, with 0 for an opcode or a type
-- above STATE_REQUEST.
pub serialize_from_ping-to_wire_ping :
    (b d : PingBuffer)
    → InRange b
    → b.prot ≡ 1
    → let r = serialize_from_ping d (to_wire_ping b).bytes in
      (r.prot ≡ 1)
      × (r.op ≡ (if leb b.op max_ping_type then b.op else 0))
      × (r.type ≡ (if leb b.type max_ping_type then b.type else 0))
      × (r.code ≡ b.code)
      × (r.check ≡ b.check)
      × (r.excess ≡ b.excess)
unfolding serialize_from_ping to_wire_ping store8 store64 load64
serialize_from_ping-to_wire_ping b d r v =
    (ground arith, ground arith, ground arith, ground arith, ground arith, ground arith)

-- A reader of the first PING_HEADER_SIZE bytes has all fields but the excess, where an operation or a
-- type above the largest one is 0; of the excess it has the lower half, and the upper half is the
-- four bytes that lie behind the string.
pub serialize_from_ping-truncated :
    (b d : PingBuffer) (tail : Memory)
    → InRange b
    → b.prot ≡ 1
    → let r = serialize_from_ping d (truncated (to_wire_ping b).bytes tail) in
      (r.prot ≡ 1)
      × (r.op ≡ (if leb b.op max_ping_type then b.op else 0))
      × (r.type ≡ (if leb b.type max_ping_type then b.type else 0))
      × (r.code ≡ b.code)
      × (r.check ≡ b.check)
      × (r.excess ≡ b.excess % 2 ^ 32 + 2 ^ 32 * load32 tail ping_header_size)
unfolding serialize_from_ping to_wire_ping store8 store64 load64
serialize_from_ping-truncated b d tail r v =
    (ground arith, ground arith, ground arith, ground arith, ground arith, ground arith)
