-- ===== src/Messages/Data/Longs.antt =====
-- The copy over longs in `serialize_data` moves eight bytes for every four that it counts.
use sentinet_cpp.Common.{
  ℕ, ◌+◌, ◌<◌, ◌≡◌, some, true, arith, Memory, IsBytes, load64, store64, store8, load64_byte,
  store64_first,
}
use sentinet_cpp.Messages.Data.{
  DataBuffer, message_size, other, width, uses_longs, copy_longs, copy_bytes, copy_default,
  copy_width, copy_value, append_element, serialize_data,
}
use sentinet_cpp.Messages.Data.Append.{headed}

-- The two rounds of the loop for eight bytes.
copy_value-longs :
    (source dest : Memory) (d code : ℕ)
    → width code ≡ other
    → uses_longs source 0 dest d ≡ true
    → copy_value source 0 dest d 8 code
      ≡ (store64 (store64 dest d (load64 source 0)) (d + 8) (load64 source 8), d + 8 + 8 + 0)
unfolding copy_value copy_default copy_longs copy_bytes
copy_value-longs source dest d code w longs = rw (w, copy_width) (rw (longs, copy_default))

-- A value of eight bytes whose type code has no branch of its own, where the message has room for
-- it: if the test for longs passes, the byte behind the value, which should end the element with a
-- zero, is the byte that lies behind the value in the caller's memory.
pub serialize_data_longs :
    (b : DataBuffer) (source : Memory) (code : ℕ)
    → IsBytes source
    → b.byte_length + 11 < message_size
    → width code ≡ other
    → uses_longs source 0 (headed b 8 code) (b.byte_length + 2) ≡ true
    → (serialize_data b (some source) 8 code).0.bytes (b.byte_length + 10) ≡ source 8
unfolding serialize_data append_element store8
serialize_data_longs b source code bytes room w longs = ground (
  arith,
  copy_value-longs source (headed b 8 code) (b.byte_length + 2) code w longs,
  store64_first (store64 (headed b 8 code) (b.byte_length + 2) (load64 source 0))
      (b.byte_length + 2 + 8) (load64 source 8),
  load64_byte source 8 bytes,
)
