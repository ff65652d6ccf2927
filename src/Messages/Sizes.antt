-- ===== src/Messages/Sizes.antt =====
-- src/messages/data.c: the least number of bits that hold an integer, and the copy of some bytes. An
-- integer is its bit pattern.
pub mod Least
pub mod Copying
use sentinet_cpp.Common.{
  ℕ, zero, suc, ◌+◌, ◌-◌, ◌*◌, ◌/◌, ◌%◌, ◌^◌, ◌==◌, ◌&&◌, ltb, bit_and, bit_or, if◌then◌else◌, Bool,
  Memory, load16, load32, load64, store8,
}
use sentinet_cpp.Messages.Data.{int16, uint16, int32, uint32, int64, uint64}

-- `data >> 62` is a few bits, and `(1L << 63) >> n` has all bits from `63 - n` on set.
unfoldable pub smallest_64_size : ℕ → ℕ
smallest_64_size value =
    if (value == bit_and value (bit_or (2 ^ 8 - 1) (value / 2 ^ 62)))
      && (value == bit_or value (2 ^ 64 - 2 ^ 8))
    then 8
    else if (value == bit_and value (bit_or (2 ^ 16 - 1) (value / 2 ^ 62)))
        && (value == bit_or value (2 ^ 64 - 2 ^ 16))
    then 16
    else if (value == bit_and value (bit_or (2 ^ 32 - 1) (value / 2 ^ 62)))
        && (value == bit_or value (2 ^ 64 - 2 ^ 32))
    then 32
    else 64

unfoldable pub smallest_32_size : ℕ → ℕ
smallest_32_size value =
    if value == bit_and value (2 ^ 8 - 1)
    then 8
    else if value == bit_and value (2 ^ 16 - 1)
    then 16
    else 32

unfoldable pub smallest_16_size : ℕ → ℕ
smallest_16_size value = if value == bit_and value (2 ^ 8 - 1) then 8 else 16

unfoldable pub signed_smallest_64_size : ℕ → ℕ
signed_smallest_64_size value =
    if value == bit_or value (2 ^ 64 - 2 ^ 8)
    then 8
    else if value == bit_or value (2 ^ 64 - 2 ^ 16)
    then 16
    else if value == bit_or value (2 ^ 64 - 2 ^ 32)
    then 32
    else 64

-- The value of a signed integer of `w` bits as the pattern of one of 64 bits.
abbrev pub extend : ℕ → ℕ → ℕ
extend w value = if ltb value (2 ^ (w - 1)) then value else value + (2 ^ 64 - 2 ^ w)

-- `(1 << 31) >> 23` is an `int`, and `(1L << 31) >> 15` is the `long` 2^16.
unfoldable pub signed_smallest_32_size : ℕ → ℕ
signed_smallest_32_size value =
    if value == bit_or value (2 ^ 32 - 2 ^ 8)
    then 8
    else if extend 32 value == bit_or (extend 32 value) (2 ^ 16)
    then 16
    else 32

-- The `int` that an `int16_t` becomes, as a pattern of 32 bits.
abbrev pub promote : ℕ → ℕ
promote value = if ltb value (2 ^ 15) then value else value + (2 ^ 32 - 2 ^ 16)

-- `((1 << 31) & value) >> n`: all bits from `31 - n` on where the number is negative.
abbrev pub sign_mask : ℕ → ℕ → ℕ
sign_mask n value = if ltb value (2 ^ 31) then 0 else 2 ^ 32 - 2 ^ (31 - n)

unfoldable pub signed_smallest_16_size : ℕ → ℕ
signed_smallest_16_size value =
    if promote value == bit_or (promote value) (sign_mask 23 (promote value))
    then 8
    else if promote value == bit_or (promote value) (sign_mask 15 (promote value))
    then 16
    else 32

-- The new `*num_bytes`, a count of bits. An INT64 is read through an `int16_t*`.
unfoldable pub optimal_size : ℕ → Memory → ℕ → ℕ
optimal_size type_code m num_bytes =
    if type_code == int16
    then signed_smallest_16_size (load16 m 0)
    else if type_code == uint16
    then smallest_16_size (load16 m 0)
    else if type_code == int32
    then signed_smallest_32_size (load32 m 0)
    else if type_code == uint32
    then smallest_32_size (load32 m 0)
    else if type_code == int64
    then signed_smallest_64_size (extend 16 (load16 m 0))
    else if type_code == uint64
    then smallest_64_size (load64 m 0)
    else num_bytes

unfoldable pub optimize_int : ℕ → Memory → ℕ → ℕ × Bool
optimize_int type_code m num_bytes =
    let size = optimal_size type_code m num_bytes in (size, size == num_bytes)

-- The loop `while (len--) *d++ = *s++`.
unfoldable pub memcpy_rmt : Memory → ℕ → ℕ → ℕ → Memory
memcpy_rmt m destination src zero = m
memcpy_rmt m destination src (suc len) =
    memcpy_rmt (store8 m destination (m src)) (destination + 1) (src + 1) len
