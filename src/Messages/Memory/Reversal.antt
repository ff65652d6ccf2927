-- ===== src/Messages/Memory/Reversal.antt =====
-- What the reversals of src/messages/data.c reverse.
use sentinet_cpp.Common.{
  ltb, ◌&&◌, u32, ◌^◌, ℕ, zero, suc, ◌+◌, ◌-◌, ◌≤◌, ◌<◌, ◌≡◌, ◌≢◌, ◌⊎◌, ap, refl, ◌∙◌, leb, Memory,
  IsBytes, store8, store8-IsBytes, arith, if◌then◌else◌, inl, inr,
}
use sentinet_cpp.Messages.Memory.{reverse_loop, reverse_bytes}

-- The memory after one turn of the loop.
swap : Memory → ℕ → ℕ → Memory
swap m s e = store8 (store8 m s (m e)) e (m s)

swap-IsBytes : (m : Memory) (s e : ℕ) → IsBytes m → IsBytes (swap m s e)
unfolding swap
swap-IsBytes m s e h = store8-IsBytes _ _ _ (store8-IsBytes _ _ _ h)

swap_first : (m : Memory) (s e : ℕ) → IsBytes m → s < e → swap m s e s ≡ m e
unfolding swap store8
swap_first m s e h l = let range = h e in ground (arith, range)

swap_last : (m : Memory) (s e : ℕ) → IsBytes m → s < e → swap m s e e ≡ m s
unfolding swap store8
swap_last m s e h l = let range = h s in ground (arith, range)

swap_other : (m : Memory) (s e i : ℕ) → i ≢ s → i ≢ e → swap m s e i ≡ m i
unfolding swap store8
swap_other m s e i n k = ground arith

less : (s e : ℕ) → (s < e) ⊎ (e ≤ s)
less s e = ground arith

turn :
    (fuel s e : ℕ) (m : Memory)
    → s < e
    → reverse_loop (suc fuel) s e m ≡ reverse_loop fuel (s + 1) (e - 1) (swap m s e)
unfolding reverse_loop swap
turn fuel s e m l = ground arith

no_turn : (fuel s e : ℕ) (m : Memory) → e ≤ s → reverse_loop (suc fuel) s e m ≡ m
unfolding reverse_loop
no_turn fuel s e m l = ground arith

place : (s e i : ℕ) → s ≤ i → i ≤ e → (i ≡ s) ⊎ ((i ≡ e) ⊎ ((s < i) × (i < e)))
place s e i p q = ground arith

reverse_loop_outside :
    (fuel s e i : ℕ) (m : Memory) → (i < s) ⊎ (e < i) → reverse_loop fuel s e m i ≡ m i
unfolding reverse_loop
reverse_loop_outside zero s e i m o = refl
reverse_loop_outside (suc fuel) s e i m o = elim (less s e) [
  | inl l ↦
      let rest = reverse_loop_outside fuel (s + 1) (e - 1) i (swap m s e) (omega arith) in
      ap (λ n. n i) (turn fuel s e m l) ∙ rest ∙ swap_other m s e i (omega arith) (omega arith)
  | inr l ↦ ap (λ n. n i) (no_turn fuel s e m l)
]

reverse_loop_inside :
    (fuel s e i j : ℕ) (m : Memory)
    → IsBytes m
    → e ≤ s + fuel
    → s ≤ i
    → i ≤ e
    → i + j ≡ s + e
    → reverse_loop fuel s e m i ≡ m j
unfolding reverse_loop
reverse_loop_inside zero s e i j m h l p q r = ap m (omega arith)
reverse_loop_inside (suc fuel) s e i j m h l p q r = elim (less s e) [
  | inl t ↦ ap (λ n. n i) (turn fuel s e m t) ∙ elim (place s e i p q) [
    | inl first ↦
        reverse_loop_outside fuel (s + 1) (e - 1) i (swap m s e) (omega arith)
        ∙ ap (swap m s e) first
        ∙ swap_first m s e h t
        ∙ ap m (omega arith)
    | inr (inl last) ↦
        reverse_loop_outside fuel (s + 1) (e - 1) i (swap m s e) (omega arith)
        ∙ ap (swap m s e) last
        ∙ swap_last m s e h t
        ∙ ap m (omega arith)
    | inr (inr between) ↦
        reverse_loop_inside fuel (s + 1) (e - 1) i j (swap m s e) (swap-IsBytes m s e h)
          (omega arith) (omega arith) (omega arith) (omega arith)
        ∙ swap_other m s e j (omega arith) (omega arith)
  ]
  | inr f ↦ ap (λ n. n i) (no_turn fuel s e m f) ∙ ap m (omega arith)
]

-- `reverse_bytes` reverses the `end + 1` bytes from its pointer on, one more than its length names, where
-- `end` is the length as an `int`, and leaves the others; where that is negative, it leaves all.
pub reverse_bytes_at :
    (m : Memory) (len i : ℕ)
    → IsBytes m
    → let end = u32 len in
      reverse_bytes m len i ≡ (if ltb end (2 ^ 31) && leb i end then m (end - i) else m i)
unfolding reverse_bytes
reverse_bytes_at m len i h =
    let end = u32 len in
    elim (less end i) [
      | inl l ↦ let kept = reverse_loop_outside end 0 end i m (inr l) in ground (arith, kept)
      | inr l ↦
          let moved =
            reverse_loop_inside end 0 end i (end - i) m h (omega arith) (omega arith) l
              (omega arith) in
          ground (arith, moved)
    ]
