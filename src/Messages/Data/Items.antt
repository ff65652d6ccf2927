-- ===== src/Messages/Data/Items.antt =====
-- A data message as the list of its elements: the view that `serialize_data` extends and that
-- `get_data` reads.
use sentinet_cpp.Common.{
  ℕ, ◌+◌, ◌*◌, ◌≤◌, ◌<◌, ◌≡◌, subst, List, [], ◌∷◌, ◌++◌, arith, length, Memory, IsBytes, Holds,
  Holds-frame,
}
use sentinet_cpp.Messages.Data.{DataBuffer, data_pos, message_size}

-- An element of a message: its type code and its bytes.
pub record Item : Type 0 where
  pub code : ℕ
  pub payload : List ℕ

-- The bytes that an element takes: its size, its type code, its bytes and a zero.
abbrev pub extent : Item → ℕ
extent x = length x.payload + 3

abbrev pub span : List Item → ℕ
span [] = 0
span (x ∷ xs) = extent x + span xs

-- The items lie one behind the other in memory from `a` on.
abbrev pub Lay : Memory → ℕ → List Item → Type 0
Lay m a [] = Unit {0}
Lay m a (x ∷ xs) =
    (m a ≡ length x.payload)
    × (m (a + 1) ≡ x.code)
    × Holds m (a + 2) x.payload
    × (m (a + 2 + length x.payload) ≡ 0)
    × Lay m (a + extent x) xs

-- The struct describes the message with these items.
pub record IsMessage (b : DataBuffer) (xs : List Item) : Type 0 where
  pub lay : Lay b.bytes data_pos xs
  pub length_is : b.byte_length ≡ data_pos + span xs
  pub fields_is : b.fields ≡ length xs
  pub fits : b.byte_length < message_size
  pub bytes_are : IsBytes b.bytes

pub span-append : (xs ys : List Item) → span (xs ++ ys) ≡ span xs + span ys
span-append [] ys = omega arith
span-append (x ∷ xs) ys = omega (arith, span-append xs ys)

-- Every item takes three bytes at least.
pub length-le-span : (xs : List Item) → 3 * length xs ≤ span xs
length-le-span [] = omega arith
length-le-span (x ∷ xs) = omega (arith, length-le-span xs)

pub Lay-at : (m : Memory) {a b : ℕ} (xs : List Item) → a ≡ b → Lay m a xs → Lay m b xs
Lay-at m xs e l = subst (λ c. Lay m c xs) e l

pub Lay-append :
    (m : Memory) (a : ℕ) (xs : List Item) (y : Item)
    → Lay m a xs
    → Lay m (a + span xs) (y ∷ [])
    → Lay m a (xs ++ y ∷ [])
Lay-append m a [] y l r = Lay-at m (y ∷ []) (omega arith) r
Lay-append m a (x ∷ xs) y (size, code, held, term, rest) r = (
  size,
  code,
  held,
  term,
  Lay-append m (a + extent x) xs y rest (Lay-at m (y ∷ []) (omega arith) r),
)

pub Lay-frame :
    (m m' : Memory) (a lo b : ℕ) (xs : List Item)
    → lo ≤ a
    → a + span xs ≤ b
    → ((j : ℕ) → lo ≤ j → j < b → m' j ≡ m j)
    → Lay m a xs
    → Lay m' a xs
Lay-frame m m' a lo b [] g h same l = tt
Lay-frame m m' a lo b (x ∷ xs) g h same (size, code, held, term, rest) = (
  ground (arith, same a),
  ground (arith, same (a + 1)),
  Holds-frame m m' (a + 2) lo b x.payload (omega arith) (omega arith) same held,
  ground (arith, same (a + 2 + length x.payload)),
  Lay-frame m m' (a + extent x) lo b xs (omega arith) (omega arith) same rest,
)
