-- ===== src/Messages/Sizes/Copying.antt =====
-- What `memcpy_rmt` of src/messages/data.c copies where the two ranges overlap.
use sentinet_cpp.Common.{
  ℕ, zero, suc, ◌+◌, ◌<◌, ◌≤◌, ◌≡◌, ◌⊎◌, inl, inr, refl, ◌∙◌, sym, ap, arith, ◌==◌, Memory, IsBytes,
  false, store8-IsBytes, store8,
}
use sentinet_cpp.Messages.Sizes.{memcpy_rmt}

memcpy_rmt_outside :
    (m : Memory) (destination src len a : ℕ)
    → (a < destination) ⊎ (destination + len ≤ a)
    → memcpy_rmt m destination src len a ≡ m a
unfolding memcpy_rmt store8
memcpy_rmt_outside m destination src zero a o = refl
memcpy_rmt_outside m destination src (suc len) a o =
    let m' = store8 m destination (m src) in
    elim o [
      | inl l ↦
          memcpy_rmt_outside m' (destination + 1) (src + 1) len a (inl (omega (arith, l)))
          ∙ ground (arith, l)
      | inr r ↦
          memcpy_rmt_outside m' (destination + 1) (src + 1) len a (inr (omega (arith, r)))
          ∙ ground (arith, r)
    ]

shifted : (a i : ℕ) → a + suc i ≡ a + 1 + i
shifted a i = omega arith

memcpy_rmt_inside :
    (m : Memory) (destination src len i : ℕ)
    → IsBytes m
    → (destination ≤ src) ⊎ (src + len ≤ destination)
    → i < len
    → memcpy_rmt m destination src len (destination + i) ≡ m (src + i)
unfolding memcpy_rmt store8
memcpy_rmt_inside m destination src zero i b o l = absurd (omega arith)
memcpy_rmt_inside m destination src (suc len) zero b o l =
    let m' = store8 m destination (m src) in
    let first =
      memcpy_rmt_outside m' (destination + 1) (src + 1) len destination (inl (omega arith)) in
    let byte = b src in ground (arith, first, byte)
memcpy_rmt_inside m destination src (suc len) (suc i) b o l =
    let m' = store8 m destination (m src) in
    let rest =
      memcpy_rmt_inside m' (destination + 1) (src + 1) len i
        (store8-IsBytes m destination (m src) b)
        (elim o [ inl d ↦ inl (omega (arith, d)) | inr d ↦ inr (omega (arith, d)) ])
        (omega arith) in
    let apart : (src + 1 + i == destination) ≡ false = elim o [
      | inl d ↦ ground (arith, d)
      | inr d ↦ ground (arith, d)
    ] in
    ap (memcpy_rmt m' (destination + 1) (src + 1) len) (shifted destination i)
    ∙ rest
    ∙ ground (arith, apart)
    ∙ ap m (sym (shifted src i))

-- Of some bytes, the copies arrive at the destination, where that begins at the source or before it, or
-- behind its end, and the memory outside the destination is kept.
pub memcpy_rmt_lem :
    (m : Memory) (destination src len i a : ℕ)
    → IsBytes m
    → (destination ≤ src) ⊎ (src + len ≤ destination)
    → i < len
    → (a < destination) ⊎ (destination + len ≤ a)
    → (memcpy_rmt m destination src len (destination + i) ≡ m (src + i))
      × (memcpy_rmt m destination src len a ≡ m a)
memcpy_rmt_lem m destination src len i a b o l out = (
  memcpy_rmt_inside m destination src len i b o l,
  memcpy_rmt_outside m destination src len a out,
)
