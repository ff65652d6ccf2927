-- ===== src/Messages/Memory/Mirror.antt =====
-- What the bit swaps of src/messages/data.c make of a number.
use native.Mathlib.Nat.{pow-suc, div-add-mod, add-mul-mod_self_left}
use sentinet_cpp.Common.{
  ℕ, zero, suc, ◌+◌, ◌-◌, ◌*◌, ◌/◌, ◌%◌, ◌^◌, ◌<◌, ◌≡◌, refl, sym, ap, ◌∙◌, bit_and, bit_or, u8,
  arith,
}
use sentinet_cpp.Common.Bits.{bit, has_flag, has_flag-pow}
use sentinet_cpp.Messages.Masks.{bit_and-le, bit_or-zero, bit_or-pow}
use sentinet_cpp.Messages.Memory.{bitswap_loop, bitswap8, bitswap16, bitswap32, bitswap64}

-- The lowest `n` bits of a number from the highest down.
unfoldable pub mirror : ℕ → ℕ → ℕ
mirror zero x = 0
mirror (suc n) x = (x % 2) * 2 ^ n + mirror n (x / 2)

bit_and-one : (x : ℕ) → bit_and x 1 ≡ x % 2
unfolding has_flag bit
bit_and-one x = ground (arith, has_flag-pow 0 x, bit_and-le x 1)

bit_or-low : (q b : ℕ) → b < 2 → bit_or (q * 2) b ≡ q * 2 + b
unfolding bit
bit_or-low q zero h = bit_or-zero (q * 2) ∙ omega arith
bit_or-low q (suc zero) h = bit_or-pow 0 (q * 2) (ground arith)
bit_or-low q (suc (suc b)) h = absurd (omega arith)

-- The remainder of an even number by a power of two is even.
even_mod : (w r : ℕ) → r * 2 % 2 ^ suc w ≡ (r - 2 ^ w * (r * 2 / 2 ^ suc w)) * 2
even_mod w r =
    let power = ap (λ y. y * (r * 2 / 2 ^ suc w)) (pow-suc 2 w) in
    omega (arith, div-add-mod (r * 2) (2 ^ suc w), power)

shift_mod :
    (c w r b m : ℕ)
    → ((r * 2 % 2 ^ w + b) * 2 ^ c + m) % 2 ^ w ≡ (r * 2 ^ suc c + (b * 2 ^ c + m)) % 2 ^ w
shift_mod c w r b m =
    let x = r * 2 / 2 ^ w in
    let rest = r * 2 % 2 ^ w in
    let whole : 2 ^ w * x + rest ≡ r * 2 = div-add-mod (r * 2) (2 ^ w) in
    let spread : r * 2 ^ suc c + (b * 2 ^ c + m) ≡ (rest + b) * 2 ^ c + m + 2 ^ w * (x * 2 ^ c) =
      omega (arith, ap (λ y. r * y) (pow-suc 2 c), ap (λ y. y * 2 ^ c) whole) in
    sym (
      ap (λ y. y % 2 ^ w) spread
      ∙ add-mul-mod_self_left ((rest + b) * 2 ^ c + m) (2 ^ w) (x * 2 ^ c))

mirror-zero : (n : ℕ) → mirror n 0 ≡ 0
unfolding mirror
mirror-zero zero = refl
mirror-zero (suc n) = omega (arith, mirror-zero n)

-- The bit that a turn takes from the number.
joined : (w v r : ℕ) → bit_or (r * 2 % 2 ^ suc w) (bit_and v 1) ≡ r * 2 % 2 ^ suc w + v % 2
joined w v r =
    let q = r - 2 ^ w * (r * 2 / 2 ^ suc w) in
    ap (λ y. bit_or (r * 2 % 2 ^ suc w) y) (bit_and-one v)
    ∙ ap (λ y. bit_or y (v % 2)) (even_mod w r)
    ∙ bit_or-low q (v % 2) (omega arith)
    ∙ ap (λ y. y + v % 2) (sym (even_mod w r))

turn :
    (w n v r : ℕ)
    → 0 < v
    → bitswap_loop (suc w) (suc n) v r (suc n)
      ≡ bitswap_loop (suc w) n (v / 2) (bit_or (r * 2 % 2 ^ suc w) (bit_and v 1)) n
unfolding bitswap_loop
turn w n v r l = ground arith

bitswap_loop-mirror :
    (w n v r : ℕ) → v < 2 ^ n → bitswap_loop (suc w) n v r n ≡ (r * 2 ^ n + mirror n v) % 2 ^ suc w
unfolding bitswap_loop mirror
bitswap_loop-mirror w zero v r l = ap (λ y. y % 2 ^ suc w) (omega arith)
bitswap_loop-mirror w (suc n) zero r l = ap (λ y. y % 2 ^ suc w) (omega (arith, mirror-zero n))
bitswap_loop-mirror w (suc n) (suc v') r l =
    let v = suc v' in
    turn w n v r (omega arith)
    ∙ ap (λ y. bitswap_loop (suc w) n (v / 2) y n) (joined w v r)
    ∙ bitswap_loop-mirror w n (v / 2) (r * 2 % 2 ^ suc w + v % 2) (omega (arith, pow-suc 2 n))
    ∙ shift_mod n (suc w) r (v % 2) (mirror n (v / 2))

-- The bits of a number that one more bit holds, with a zero behind them.
mirror-double : (n x : ℕ) → x < 2 ^ n → mirror (suc n) x ≡ 2 * mirror n x
unfolding mirror
mirror-double zero x l = omega arith
mirror-double (suc n) x l = omega (
  arith,
  pow-suc 2 n,
  mirror-double n (x / 2) (omega (arith, pow-suc 2 n)),
  ap (λ y. x % 2 * y) (pow-suc 2 n),
)

swapped :
    (w x : ℕ)
    → x < 2 ^ suc w
    → bitswap_loop (suc w) (suc w) (x / 2) x (suc w) ≡ 2 * mirror (suc w) x % 2 ^ suc w
unfolding mirror
swapped w x l =
    let rest = 2 * mirror w (x / 2) in
    let p = pow-suc 2 w in
    bitswap_loop-mirror w (suc w) (x / 2) x (omega (arith, p))
    ∙ ap (λ y. y % 2 ^ suc w) (omega (arith, mirror-double w (x / 2) (omega (arith, p))))
    ∙ add-mul-mod_self_left rest (2 ^ suc w) x
    ∙ sym (add-mul-mod_self_left rest (2 ^ suc w) (x % 2))
    ∙ ap (λ y. y % 2 ^ suc w) (omega (arith, ap (λ y. x % 2 * y) p))

-- A number comes out of `bitswap8` with its bits from the highest down, one place too far to the left:
-- the lowest bit is lost.
bitswap8-mirror : (x : ℕ) → x < 2 ^ 8 → bitswap8 x ≡ u8 (2 * mirror 8 x)
unfolding bitswap8
bitswap8-mirror x l = swapped 7 x l

-- The three wider ones likewise.
wide_bitswaps-mirror :
    (x : ℕ)
    → ((x < 2 ^ 16) → bitswap16 x ≡ 2 * mirror 16 x % 2 ^ 16)
      × ((x < 2 ^ 32) → bitswap32 x ≡ 2 * mirror 32 x % 2 ^ 32)
      × ((x < 2 ^ 64) → bitswap64 x ≡ 2 * mirror 64 x % 2 ^ 64)
unfolding bitswap16 bitswap32 bitswap64
wide_bitswaps-mirror x = (swapped 15 x, swapped 31 x, swapped 63 x)
