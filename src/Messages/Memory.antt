-- ===== src/Messages/Memory.antt =====
-- src/messages/data.c: the functions on bytes and on memory.
pub mod Reversal
pub mod Mirror
use sentinet_cpp.Common.{
  ℕ, zero, suc, ◌+◌, ◌-◌, ◌*◌, ◌/◌, ◌%◌, ◌^◌, Bool, true, false, bit_and, bit_or, ltb, ◌==◌, Memory,
  u8, u32, if◌then◌else◌, store8,
}

-- The loop `while (start < end)` of `reverse_bytes`.
unfoldable pub reverse_loop : ℕ → ℕ → ℕ → Memory → Memory
reverse_loop zero start end m = m
reverse_loop (suc fuel) start end m = elim (ltb start end) [
  | true ↦
      let temp = m start in
      reverse_loop fuel (start + 1) (end - 1) (store8 (store8 m start (m end)) end temp)
  | false ↦ m
]

-- `int end = len` keeps the low 32 bits as a signed number; a negative one ends the loop at once. The loop
-- runs at most `end` times.
unfoldable pub reverse_bytes : Memory → ℕ → Memory
unfolding reverse_loop
reverse_bytes m len = let end = u32 len in if ltb end (2 ^ 31) then reverse_loop end 0 end m else m

-- The loop of the bit swaps behind its first shift, at `bits` bits; a number is shifted at most once for
-- each of them. Where `bits` is 32 or 64 and the number is 0 or 1, the last shift is by as many bits as
-- its type has, which C leaves open; it is 0 here.
unfoldable pub bitswap_loop : ℕ → ℕ → ℕ → ℕ → ℕ → ℕ
bitswap_loop bits zero value reversed count = reversed * 2 ^ count % 2 ^ bits
bitswap_loop bits (suc fuel) value reversed count = elim (value == 0) [
  | true ↦ reversed * 2 ^ count % 2 ^ bits
  | false ↦
      bitswap_loop bits fuel (value / 2) (bit_or (reversed * 2 % 2 ^ bits) (bit_and value 1))
        (count - 1)
]

unfoldable pub bitswap8 : ℕ → ℕ
unfolding bitswap_loop
bitswap8 value = bitswap_loop 8 8 (value / 2) value 8

unfoldable pub bitswap16 : ℕ → ℕ
unfolding bitswap_loop
bitswap16 value = bitswap_loop 16 16 (value / 2) value 16

unfoldable pub bitswap32 : ℕ → ℕ
unfolding bitswap_loop
bitswap32 value = bitswap_loop 32 32 (value / 2) value 32

unfoldable pub bitswap64 : ℕ → ℕ
unfolding bitswap_loop
bitswap64 value = bitswap_loop 64 64 (value / 2) value 64
