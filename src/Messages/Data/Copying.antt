-- ===== src/Messages/Data/Copying.antt =====
-- The copy of one value between two memories: what is written, and what is left alone.
use sentinet_cpp.Common.{
  ℕ, zero, suc, ◌+◌, ◌≤◌, ◌<◌, ◌≡◌, refl, ◌⊎◌, inl, inr, false, arith, Bool-cases, leb,
  store8-IsBytes, store16-IsBytes, store32-IsBytes, store64-IsBytes, Memory, IsBytes, store8,
  store16, store32, store8_self, store16_at, store32_at, load16_bytes, load32_bytes, load16, load32,
  Holds, slice,
}
use sentinet_cpp.Messages.Data.{
  Width, word, byte, half, other, width, uses_longs, Copy, copy_longs, copy_bytes, copy_default,
  copy_width, copy_value,
}

-- `r` is `dest` with the `n` bytes of `source` from `s` on copied to `d`, and the address behind
-- them.
pub record Copies (source : Memory) (s : ℕ) (dest : Memory) (d n : ℕ) (r : Memory × ℕ)
    : Type 0 where
  pub written : Holds r.0 d (slice source s n)
  pub end : r.1 ≡ d + n
  pub below : (j : ℕ) → j < d → r.0 j ≡ dest j
  pub above : (j : ℕ) → d + n ≤ j → r.0 j ≡ dest j

copy_bytes-below :
    (n : ℕ) (source dest : Memory) (h s j : ℕ) → j < h → copy_bytes n source dest h s j ≡ dest j
unfolding copy_bytes store8
copy_bytes-below zero source dest h s j p = refl
copy_bytes-below (suc n) source dest h s j p =
    ground (arith, copy_bytes-below n source (store8 dest h (source s)) (h + 1) (s + 1) j)

copy_bytes-above :
    (n : ℕ) (source dest : Memory) (h s j : ℕ) → h + n ≤ j → copy_bytes n source dest h s j ≡ dest j
unfolding copy_bytes store8
copy_bytes-above zero source dest h s j p = refl
copy_bytes-above (suc n) source dest h s j p =
    ground (arith, copy_bytes-above n source (store8 dest h (source s)) (h + 1) (s + 1) j)

copy_bytes-written :
    (n : ℕ) (source dest : Memory) (h s : ℕ)
    → IsBytes source
    → Holds (copy_bytes n source dest h s) h (slice source s n)
unfolding copy_bytes
copy_bytes-written zero source dest h s b = tt
copy_bytes-written (suc n) source dest h s b = (
  ground (
    arith,
    copy_bytes-below n source (store8 dest h (source s)) (h + 1) (s + 1) h,
    store8_self dest h (source s),
    b s,
  ),
  copy_bytes-written n source (store8 dest h (source s)) (h + 1) (s + 1) b,
)

copy_bytes-Copies :
    (n : ℕ) (source dest : Memory) (d s : ℕ)
    → IsBytes source
    → Copies source s dest d n (copy_bytes n source dest d s, d + n)
copy_bytes-Copies n source dest d s b = record {
  written = copy_bytes-written n source dest d s b;
  end = refl;
  below = λ j p. copy_bytes-below n source dest d s j p;
  above = λ j p. copy_bytes-above n source dest d s j p;
}

-- The value has the width of its type code, or is copied byte by byte.
abbrev pub IsPlain : Memory → ℕ → Memory → ℕ → ℕ → Width → Type 0
IsPlain source s dest d n word = n ≡ 4
IsPlain source s dest d n byte = n ≡ 1
IsPlain source s dest d n half = n ≡ 2
IsPlain source s dest d n other = (n < 4) ⊎ (uses_longs source s dest d ≡ false)

copy_longs-small :
    (fuel : ℕ) (source : Memory) (c : Copy) → c.left < 4 → copy_longs fuel source c ≡ c
unfolding copy_longs
copy_longs-small zero source c h = refl
copy_longs-small (suc fuel) source c h = ground arith

copy_default-plain :
    (source : Memory) (s : ℕ) (dest : Memory) (d n : ℕ)
    → (n < 4) ⊎ (uses_longs source s dest d ≡ false)
    → copy_default source s dest d n ≡ (copy_bytes n source dest d s, d + n)
unfolding copy_default
copy_default-plain source s dest d n plain = elim (Bool-cases (uses_longs source s dest d)) [
  | inl e ↦ rw e (
      rw (
        copy_longs-small n source (record { memory = dest; head = d; from = s; left = n })
          (ground arith)))
  | inr e ↦ rw e
]

store32-Copies :
    (source : Memory) (s : ℕ) (dest : Memory) (d : ℕ)
    → IsBytes source
    → Copies source s dest d 4 (store32 dest d (load32 source s), d + 4)
store32-Copies source s dest d b =
    let v = load32 source s in
    record {
      written = (
        ground (arith, store32_at dest d v d, load32_bytes source s b),
        (
          ground (arith, store32_at dest d v (d + 1), load32_bytes source s b),
          (
            ground (arith, store32_at dest d v (d + 1 + 1), load32_bytes source s b),
            (ground (arith, store32_at dest d v (d + 1 + 1 + 1), load32_bytes source s b), tt),
          ),
        ),
      );
      end = refl;
      below = λ j p. ground (arith, store32_at dest d v j);
      above = λ j p. ground (arith, store32_at dest d v j);
    }

store16-Copies :
    (source : Memory) (s : ℕ) (dest : Memory) (d : ℕ)
    → IsBytes source
    → Copies source s dest d 2 (store16 dest d (load16 source s), d + 2)
store16-Copies source s dest d b =
    let v = load16 source s in
    record {
      written = (
        ground (arith, store16_at dest d v d, load16_bytes source s b),
        (ground (arith, store16_at dest d v (d + 1), load16_bytes source s b), tt),
      );
      end = refl;
      below = λ j p. ground (arith, store16_at dest d v j);
      above = λ j p. ground (arith, store16_at dest d v j);
    }

store8-Copies :
    (source : Memory) (s : ℕ) (dest : Memory) (d : ℕ)
    → IsBytes source
    → Copies source s dest d 1 (store8 dest d (source s), d + 1)
unfolding store8
store8-Copies source s dest d b = record {
  written = (ground (arith, b s), tt);
  end = refl;
  below = λ j p. ground arith;
  above = λ j p. ground arith;
}

copy_width-Copies :
    (w : Width) (source : Memory) (s : ℕ) (dest : Memory) (d n : ℕ)
    → IsBytes source
    → IsPlain source s dest d n w
    → Copies source s dest d n (copy_width w source s dest d n)
unfolding copy_width
copy_width-Copies word source s dest d n b e = rw e (store32-Copies source s dest d b)
copy_width-Copies byte source s dest d n b e = rw e (store8-Copies source s dest d b)
copy_width-Copies half source s dest d n b e = rw e (store16-Copies source s dest d b)
copy_width-Copies other source s dest d n b e =
    rw (copy_default-plain source s dest d n e) (copy_bytes-Copies n source dest d s b)

-- Each branch of the switch copies the value and nothing else.
pub copy_value-Copies :
    (source : Memory) (s : ℕ) (dest : Memory) (d n code : ℕ)
    → IsBytes source
    → IsPlain source s dest d n (width code)
    → Copies source s dest d n (copy_value source s dest d n code)
unfolding copy_value
copy_value-Copies source s dest d n code = copy_width-Copies (width code) source s dest d n

copy_bytes-IsBytes :
    (n : ℕ) (source dest : Memory) (h s : ℕ) → IsBytes dest → IsBytes (copy_bytes n source dest h s)
unfolding copy_bytes
copy_bytes-IsBytes zero source dest h s b = b
copy_bytes-IsBytes (suc n) source dest h s b =
    copy_bytes-IsBytes n source (store8 dest h (source s)) (h + 1) (s + 1)
      (store8-IsBytes dest h (source s) b)

copy_longs-IsBytes :
    (fuel : ℕ) (source : Memory) (c : Copy)
    → IsBytes c.memory
    → IsBytes (copy_longs fuel source c).memory
unfolding copy_longs
copy_longs-IsBytes zero source c b = b
copy_longs-IsBytes (suc fuel) source c b = elim (Bool-cases (leb 4 c.left)) [
  | inl more ↦ rw (more, copy_longs) (copy_longs-IsBytes fuel source _ (store64-IsBytes _ _ _ b))
  | inr done ↦ rw (done, copy_longs) b
]

copy_default-IsBytes :
    (source : Memory) (s : ℕ) (dest : Memory) (d n : ℕ)
    → IsBytes dest
    → IsBytes (copy_default source s dest d n).0
unfolding copy_default
copy_default-IsBytes source s dest d n b =
    let start : Copy = record { memory = dest; head = d; from = s; left = n } in
    elim (Bool-cases (uses_longs source s dest d)) [
      | inl e ↦
          rw (e, copy_default)
            (copy_bytes-IsBytes _ source _ _ _ (copy_longs-IsBytes n source start b))
      | inr e ↦ rw (e, copy_default) (copy_bytes-IsBytes n source dest d s b)
    ]

copy_width-IsBytes :
    (w : Width) (source : Memory) (s : ℕ) (dest : Memory) (d n : ℕ)
    → IsBytes dest
    → IsBytes (copy_width w source s dest d n).0
unfolding copy_width
copy_width-IsBytes word source s dest d n b = store32-IsBytes dest d _ b
copy_width-IsBytes byte source s dest d n b = store8-IsBytes dest d _ b
copy_width-IsBytes half source s dest d n b = store16-IsBytes dest d _ b
copy_width-IsBytes other source s dest d n b = copy_default-IsBytes source s dest d n b

-- Whatever the branch, memory keeps holding bytes.
pub copy_value-IsBytes :
    (source : Memory) (s : ℕ) (dest : Memory) (d n code : ℕ)
    → IsBytes dest
    → IsBytes (copy_value source s dest d n code).0
unfolding copy_value
copy_value-IsBytes source s dest d n code = copy_width-IsBytes (width code) source s dest d n
