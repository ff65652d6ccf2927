-- ===== src/Common/Bytes.antt =====
-- Memory as bytes by address, from the first byte of an object on, with the loads and stores of
-- the fixed-width integer types. Multi-byte values lie in little-endian order.
use Prim.Native.Nat.{ℕ, zero, suc, ◌+◌, ◌*◌, ◌/◌, ◌%◌, ◌^◌, ◌≤◌, ◌<◌}
use mathlib.Core.Path.{◌≡◌, refl}
use mathlib.Core.List.{List, [], ◌∷◌}
use native.Mathlib.Omega.{arith}
use sentinet_cpp.Common.Tests.{◌==◌, ltb, if◌then◌else◌, length}

abbrev pub Memory : Type 0
Memory = ℕ → ℕ

-- Memory after a `memset` with zero.
abbrev pub zeros : Memory
zeros a = 0

abbrev pub IsBytes : Memory → Type 0
IsBytes m = (a : ℕ) → m a < 256

abbrev pub u8 : ℕ → ℕ
u8 n = n % 2 ^ 8

abbrev pub u16 : ℕ → ℕ
u16 n = n % 2 ^ 16

abbrev pub u32 : ℕ → ℕ
u32 n = n % 2 ^ 32

abbrev pub u64 : ℕ → ℕ
u64 n = n % 2 ^ 64

unfoldable pub store8 : Memory → ℕ → ℕ → Memory
store8 m a v j = if j == a then u8 v else m j

unfoldable pub store16 : Memory → ℕ → ℕ → Memory
unfolding store8
store16 m a v = store8 (store8 m a v) (a + 1) (v / 2 ^ 8)

unfoldable pub store32 : Memory → ℕ → ℕ → Memory
unfolding store16
store32 m a v = store16 (store16 m a v) (a + 2) (v / 2 ^ 16)

unfoldable pub store64 : Memory → ℕ → ℕ → Memory
unfolding store32
store64 m a v = store32 (store32 m a v) (a + 4) (v / 2 ^ 32)

unfoldable pub load16 : Memory → ℕ → ℕ
load16 m a = m a + 2 ^ 8 * m (a + 1)

unfoldable pub load32 : Memory → ℕ → ℕ
unfolding load16
load32 m a = load16 m a + 2 ^ 16 * load16 m (a + 2)

unfoldable pub load64 : Memory → ℕ → ℕ
unfolding load32
load64 m a = load32 m a + 2 ^ 32 * load32 m (a + 4)

pub store8_self : (m : Memory) (a v : ℕ) → store8 m a v a ≡ u8 v
unfolding store8
store8_self m a v = ground arith

pub store8-IsBytes : (m : Memory) (a v : ℕ) → IsBytes m → IsBytes (store8 m a v)
unfolding store8
store8-IsBytes m a v b j = ground (arith, b j)

pub store16-IsBytes : (m : Memory) (a v : ℕ) → IsBytes m → IsBytes (store16 m a v)
unfolding store16
store16-IsBytes m a v b = store8-IsBytes _ _ _ (store8-IsBytes m a v b)

pub store32-IsBytes : (m : Memory) (a v : ℕ) → IsBytes m → IsBytes (store32 m a v)
unfolding store32
store32-IsBytes m a v b = store16-IsBytes _ _ _ (store16-IsBytes m a v b)

pub store64-IsBytes : (m : Memory) (a v : ℕ) → IsBytes m → IsBytes (store64 m a v)
unfolding store64
store64-IsBytes m a v b = store32-IsBytes _ _ _ (store32-IsBytes m a v b)

-- Every byte of memory after a 16-bit store.
pub store16_at :
    (m : Memory) (a v j : ℕ)
    → store16 m a v j ≡ (if j == a then u8 v else if j == a + 1 then u8 (v / 256) else m j)
unfolding store16
store16_at m a v j = ground arith

-- Every byte of memory after a 32-bit store.
pub store32_at :
    (m : Memory) (a v j : ℕ)
    → store32 m a v j ≡ (
        if j == a
        then u8 v
        else if j == a + 1
        then u8 (v / 256)
        else if j == a + 2
        then u8 (v / 65536)
        else if j == a + 3
        then u8 (v / 16777216)
        else m j)
unfolding store32
store32_at m a v j = ground arith

pub load32-store32 : (m : Memory) (a v : ℕ) → v < 2 ^ 32 → load32 (store32 m a v) a ≡ v
unfolding load32
load32-store32 m a v h = ground (
  arith,
  store32_at m a v a,
  store32_at m a v (a + 1),
  store32_at m a v (a + 2),
  store32_at m a v (a + 2 + 1),
)

-- The bytes of a value that was loaded.
pub load16_bytes :
    (m : Memory) (a : ℕ) → IsBytes m → (u8 (load16 m a) ≡ m a) × (u8 (load16 m a / 256) ≡ m (a + 1))
unfolding load16
load16_bytes m a b = omega (arith, b a, b (a + 1))

pub load32_bytes :
    (m : Memory) (a : ℕ)
    → IsBytes m
    → (u8 (load32 m a) ≡ m a)
      × (u8 (load32 m a / 256) ≡ m (a + 1))
      × (u8 (load32 m a / 65536) ≡ m (a + 1 + 1))
      × (u8 (load32 m a / 16777216) ≡ m (a + 1 + 1 + 1))
unfolding load32
load32_bytes m a b = ground (arith, b a, b (a + 1), b (a + 2), b (a + 2 + 1))

pub store64_first : (m : Memory) (a v : ℕ) → store64 m a v a ≡ u8 v
unfolding store64
store64_first m a v =
    ground (arith, store32_at (store32 m a v) (a + 4) (v / 2 ^ 32) a, store32_at m a v a)

pub load64_byte : (m : Memory) (a : ℕ) → IsBytes m → u8 (load64 m a) ≡ m a
unfolding load64
load64_byte m a b = omega (arith, b a)

pub load16-lt : (m : Memory) (a : ℕ) → IsBytes m → load16 m a < 2 ^ 16
unfolding load16
load16-lt m a b = omega (arith, b a, b (a + 1))

pub load32-lt : (m : Memory) (a : ℕ) → IsBytes m → load32 m a < 2 ^ 32
unfolding load32
load32-lt m a b = omega (arith, b a, b (a + 1), b (a + 2), b (a + 2 + 1))

-- The bytes of a list lie in memory from an address on.
abbrev pub Holds : Memory → ℕ → List ℕ → Type 0
Holds m a [] = Unit {0}
Holds m a (x ∷ xs) = (m a ≡ x) × Holds m (a + 1) xs

-- The first bytes of memory from an address on.
abbrev pub slice : Memory → ℕ → ℕ → List ℕ
slice m a zero = []
slice m a (suc n) = m a ∷ slice m (a + 1) n

pub length-slice : (m : Memory) (a n : ℕ) → length (slice m a n) ≡ n
length-slice m a zero = refl
length-slice m a (suc n) = omega (arith, length-slice m (a + 1) n)

-- What lies in memory between two bounds stays there where memory does not change between them.
pub Holds-frame :
    (m m' : Memory) (a lo b : ℕ) (xs : List ℕ)
    → lo ≤ a
    → a + length xs ≤ b
    → ((j : ℕ) → lo ≤ j → j < b → m' j ≡ m j)
    → Holds m a xs
    → Holds m' a xs
Holds-frame m m' a lo b [] g h same held = tt
Holds-frame m m' a lo b (x ∷ xs) g h same (here, rest) =
    (ground (arith, same a), Holds-frame m m' (a + 1) lo b xs (omega arith) (omega arith) same rest)

pub slice-Holds : (m : Memory) (a : ℕ) (xs : List ℕ) → Holds m a xs → slice m a (length xs) ≡ xs
slice-Holds m a [] held = refl
slice-Holds m a (x ∷ xs) (here, rest) = rw (here, slice-Holds m (a + 1) xs rest)

-- A `std::string` of bytes.
pub record Message : Type 0 where
  pub text : Memory
  pub size : ℕ

-- The memory that a reader of the string sees: its bytes, and behind them whatever lies there.
abbrev pub c_str : Message → Memory → Memory
c_str s tail j = if ltb j s.size then s.text j else tail j
