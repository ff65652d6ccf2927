-- ===== src/Messages/Checksum.antt =====
-- src/messages/checksum.c: the number of bits that are set in some bytes.
pub mod Counting
use sentinet_cpp.Common.{
  ℕ, zero, suc, ◌+◌, ◌/◌, ◌%◌, ◌^◌, ◌==◌, bit_and, if◌then◌else◌, Bool, Memory,
}

-- The loop `for (uint8_t value = *temp; value; value >>= 1)`; a byte is shifted at most eight times.
unfoldable pub bits_loop : ℕ → ℕ → ℕ → ℕ
bits_loop zero value ret = ret
bits_loop (suc fuel) value ret =
    if value == 0
    then ret
    else bits_loop fuel (value / 2) (if bit_and value 1 == 0 then ret else ret + 1)

-- The loop over `left` bytes from `temp` on.
unfoldable pub bytes_loop : Memory → ℕ → ℕ → ℕ → ℕ
bytes_loop m zero temp ret = ret
bytes_loop m (suc left) temp ret = bytes_loop m left (temp + 1) (bits_loop 8 (m temp) ret)

-- The count is returned as a `uint16_t`.
unfoldable pub create_checksum : Memory → ℕ → ℕ
create_checksum m byte_size = bytes_loop m byte_size 0 0 % 2 ^ 16

unfoldable pub validate_checksum : Memory → ℕ → ℕ → Bool
validate_checksum m byte_size checksum = checksum == create_checksum m byte_size
