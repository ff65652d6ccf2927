-- ===== src/Messages/Sizes/Least.antt =====
-- Where the sizes of src/messages/data.c are the least ones.
use sentinet_cpp.Common.{
  ℕ, zero, suc, ◌+◌, ◌-◌, ◌/◌, ◌^◌, ◌<◌, ◌≡◌, refl, ◌∙◌, arith, ◌==◌, ◌&&◌, ltb, bit_and, bit_or,
  if◌then◌else◌, Bool, true, false, Memory, IsBytes, ap, load16, load32, load64,
}
use sentinet_cpp.Messages.Masks.{bit_and-le, le-bit_or, bit_and-mask, bit_or-zero}
use sentinet_cpp.Messages.Sizes.{
  smallest_64_size, smallest_32_size, smallest_16_size, signed_smallest_16_size,
  signed_smallest_64_size, extend, optimal_size, optimize_int,
}
use sentinet_cpp.Messages.Data.{int16, uint16, int32, uint32, int64, uint64}

-- The least of 8, 16 and 32 bits that hold a number.
abbrev pub least_size : ℕ → ℕ
least_size n = if ltb n (2 ^ 8) then 8 else if ltb n (2 ^ 16) then 16 else 32

smallest_32_size-least : (n : ℕ) → smallest_32_size n ≡ least_size n
unfolding smallest_32_size
smallest_32_size-least n =
    ground (arith, bit_and-mask 8 n (2 ^ 8 - 1) refl, bit_and-mask 16 n (2 ^ 16 - 1) refl)

smallest_16_size-least : (n : ℕ) → n < 2 ^ 16 → smallest_16_size n ≡ least_size n
unfolding smallest_16_size
smallest_16_size-least n l = ground (arith, bit_and-mask 8 n (2 ^ 8 - 1) refl)

few_bits :
    (q : ℕ)
    → q < 4
    → (bit_or (2 ^ 8 - 1) q ≡ 2 ^ 8 - 1)
      × (bit_or (2 ^ 16 - 1) q ≡ 2 ^ 16 - 1)
      × (bit_or (2 ^ 32 - 1) q ≡ 2 ^ 32 - 1)
few_bits zero l = (refl, refl, refl)
few_bits (suc zero) l = (refl, refl, refl)
few_bits (suc (suc zero)) l = (refl, refl, refl)
few_bits (suc (suc (suc zero))) l = (refl, refl, refl)
few_bits (suc (suc (suc (suc q)))) l = absurd (omega arith)

-- A number that has at most the bits of one mask has not all those of another, larger one.
not_both : (n low high : ℕ) → low < high → ((n == bit_and n low) && (n == bit_or n high)) ≡ false
not_both n low high l = ground (arith, bit_and-le n low, le-bit_or n high)

-- No number has all bits from bit 8 on set and has none of them.
smallest_64_size_lem : (n : ℕ) → n < 2 ^ 64 → smallest_64_size n ≡ 64
unfolding smallest_64_size
smallest_64_size_lem n l =
    let (e8, e16, e32) = few_bits (n / 2 ^ 62) (omega arith) in
    ground (
      arith,
      e8,
      e16,
      e32,
      not_both n (2 ^ 8 - 1) (2 ^ 64 - 2 ^ 8) (omega arith),
      not_both n (2 ^ 16 - 1) (2 ^ 64 - 2 ^ 16) (omega arith),
      not_both n (2 ^ 32 - 1) (2 ^ 64 - 2 ^ 32) (omega arith),
    )

signed_smallest_64_size_positive : (n : ℕ) → n < 2 ^ 63 → signed_smallest_64_size n ≡ 64
unfolding signed_smallest_64_size
signed_smallest_64_size_positive n l = ground (
  arith,
  le-bit_or n (2 ^ 64 - 2 ^ 8),
  le-bit_or n (2 ^ 64 - 2 ^ 16),
  le-bit_or n (2 ^ 64 - 2 ^ 32),
)

signed_smallest_16_size_positive : (n : ℕ) → n < 2 ^ 15 → signed_smallest_16_size n ≡ 8
unfolding signed_smallest_16_size
signed_smallest_16_size_positive n l = ground (arith, bit_or-zero n)

load16-lt : (m : Memory) (a : ℕ) → IsBytes m → load16 m a < 2 ^ 16
unfolding load16
load16-lt m a b = let p = b a in let q = b (a + 1) in omega (arith, p, q)

load32-lt : (m : Memory) (a : ℕ) → IsBytes m → load32 m a < 2 ^ 32
unfolding load32
load32-lt m a b = omega (arith, load16-lt m a b, load16-lt m (a + 2) b)

load64-lt : (m : Memory) (a : ℕ) → IsBytes m → load64 m a < 2 ^ 64
unfolding load64
load64-lt m a b = omega (arith, load32-lt m a b, load32-lt m (a + 4) b)

-- For an unsigned integer of 16 or 32 bits the size is the least of 8, 16 and 32 bits that hold it, for one
-- of 64 bits it is always 64; the result is whether the size is the old one. Under a type code that
-- is none of the six nothing changes, and the result is 1.
pub optimize_int-least :
    (m : Memory) (num_bytes other : ℕ)
    → IsBytes m
    → other < int32
    → let of : ℕ → ℕ × Bool = λ size. (size, size == num_bytes) in
      (optimize_int uint16 m num_bytes ≡ of (least_size (load16 m 0)))
      × (optimize_int uint32 m num_bytes ≡ of (least_size (load32 m 0)))
      × (optimize_int uint64 m num_bytes ≡ of 64)
      × (optimize_int other m num_bytes ≡ (num_bytes, true))
unfolding optimize_int optimal_size
optimize_int-least m num_bytes other b l = (
  ap (λ size. (size, size == num_bytes)) (smallest_16_size-least (load16 m 0) (load16-lt m 0 b)),
  ap (λ size. (size, size == num_bytes)) (smallest_32_size-least (load32 m 0)),
  ap (λ size. (size, size == num_bytes)) (smallest_64_size_lem (load64 m 0) (load64-lt m 0 b)),
  ground arith,
)

-- For a positive integer of 16 bits the size is 8 also where it has more bits, and where the type code
-- says 64 bits and the first 16 are such a number it is 64.
pub optimize_int_positive :
    (m : Memory) (num_bytes : ℕ)
    → load16 m 0 < 2 ^ 15
    → (optimize_int int16 m num_bytes ≡ (8, 8 == num_bytes))
      × (optimize_int int64 m num_bytes ≡ (64, 64 == num_bytes))
unfolding optimize_int optimal_size
optimize_int_positive m num_bytes l =
    let small : extend 16 (load16 m 0) ≡ load16 m 0 = ground arith in
    (
      ap (λ size. (size, size == num_bytes)) (signed_smallest_16_size_positive (load16 m 0) l),
      ap (λ size. (size, size == num_bytes))
          (ap signed_smallest_64_size small
            ∙ signed_smallest_64_size_positive (load16 m 0) (omega arith)),
    )
