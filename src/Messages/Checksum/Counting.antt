-- ===== src/Messages/Checksum/Counting.antt =====
-- What src/messages/checksum.c counts, and which changes it notices.
use sentinet_cpp.Common.{
  ℕ, zero, suc, ◌+◌, ◌*◌, ◌/◌, ◌%◌, ◌^◌, ◌<◌, ◌≤◌, ◌≡◌, refl, ap, arith, ◌==◌, Bool-cases, inl, inr,
  if◌then◌else◌, Memory, store8, u8,
}
use sentinet_cpp.Common.Bits.{bit, has_flag, has_flag-pow}
use sentinet_cpp.Messages.Checksum.{bits_loop, bytes_loop, create_checksum, validate_checksum}

-- The bits set among the lowest `k`, and those of the first `n` bytes.
unfoldable pub ones : ℕ → ℕ → ℕ
ones zero b = 0
ones (suc k) b = ones k b + (if bit k b then 1 else 0)

unfoldable pub ones_of : Memory → ℕ → ℕ
ones_of m zero = 0
ones_of m (suc n) = ones_of m n + ones 8 (m n)

ones_low : (k b : ℕ) → ones (suc k) b ≡ b % 2 + ones k (b / 2)
unfolding ones bit
ones_low zero b = ground arith
ones_low (suc k) b = omega (arith, ones_low k b)

ones_zero : (k : ℕ) → ones k 0 ≡ 0
unfolding ones bit
ones_zero zero = refl
ones_zero (suc k) = ground (arith, ones_zero k, ones_low k 0)

bits_loop-ones : (fuel value ret : ℕ) → bits_loop fuel value ret ≡ ret + ones fuel value
unfolding bits_loop has_flag bit ones
bits_loop-ones zero value ret = omega arith
bits_loop-ones (suc fuel) value ret = ground (
  arith,
  bits_loop-ones fuel (value / 2) ret,
  bits_loop-ones fuel (value / 2) (ret + 1),
  ones_low fuel value,
  ones_zero (suc fuel),
  has_flag-pow 0 value,
)

bytes_loop-ones :
    (m : Memory) (left temp ret : ℕ)
    → bytes_loop m left temp ret + ones_of m temp ≡ ret + ones_of m (temp + left)
unfolding bytes_loop ones_of
bytes_loop-ones m zero temp ret = ground arith
bytes_loop-ones m (suc left) temp ret = ground (
  arith,
  bits_loop-ones 8 (m temp) ret,
  bytes_loop-ones m left (temp + 1) (ret + ones 8 (m temp)),
)

ones-le : (k b : ℕ) → ones k b ≤ k
unfolding ones
ones-le zero b = omega arith
ones-le (suc k) b = ground (arith, ones-le k b)

ones_of-le : (m : Memory) (n : ℕ) → ones_of m n ≤ 8 * n
unfolding ones_of
ones_of-le m zero = omega arith
ones_of-le m (suc n) = omega (arith, ones_of-le m n, ones-le 8 (m n))

-- The checksum is the number of bits that are set in the bytes, counted by their positions, modulo
-- 2^16.
pub create_checksum-ones : (m : Memory) (n : ℕ) → create_checksum m n ≡ ones_of m n % 2 ^ 16
unfolding create_checksum ones_of
create_checksum-ones m n = ground (arith, bytes_loop-ones m n 0 0)

ones_of-store8_behind : (m : Memory) (i v n : ℕ) → n ≤ i → ones_of (store8 m i v) n ≡ ones_of m n
unfolding ones_of store8
ones_of-store8_behind m i v zero l = refl
ones_of-store8_behind m i v (suc n) l = ground (arith, ones_of-store8_behind m i v n (omega arith))

-- Changing a byte moves the count by the bits of that byte.
ones_of-store8 :
    (m : Memory) (i v n : ℕ)
    → i < n
    → ones_of (store8 m i v) n + ones 8 (m i) ≡ ones_of m n + ones 8 (u8 v)
unfolding ones_of store8
ones_of-store8 m i v zero l = absurd (omega arith)
ones_of-store8 m i v (suc n) l = elim (Bool-cases (n == i)) [
  | inl e ↦
      let n_is : n ≡ i = ground (arith, e) in
      ground (
        arith,
        n_is,
        ap m n_is,
        ap (ones 8) (ap m n_is),
        ones_of-store8_behind m i v n (omega (arith, n_is)),
      )
  | inr e ↦ ground (arith, e, ones_of-store8 m i v n (ground (arith, e)))
]

-- With at most 8191 bytes, where the count has 16 bits: a buffer in which one byte was changed is
-- valid under its old checksum exactly where the old and the new byte have as many bits set.
pub validate_checksum-store8 :
    (m : Memory) (i v n : ℕ)
    → i < n
    → n < 8192
    → validate_checksum (store8 m i v) n (create_checksum m n) ≡ (ones 8 (m i) == ones 8 (u8 v))
unfolding validate_checksum
validate_checksum-store8 m i v n l s = ground (
  arith,
  create_checksum-ones m n,
  create_checksum-ones (store8 m i v) n,
  ones_of-le m n,
  ones_of-le (store8 m i v) n,
  ones_of-store8 m i v n l,
)
