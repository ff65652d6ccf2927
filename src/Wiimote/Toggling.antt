-- ===== src/Wiimote/Toggling.antt =====
-- The flags of the state in src/controllers/wiimote.cpp.
use sentinet_cpp.Common.{
  ℕ, ◌+◌, ◌-◌, ◌^◌, ◌<◌, ◌≡◌, ◌∙◌, ap, sym, subst, arith, bit_or, if◌then◌else◌, true, false,
  Bool-cases, inl, inr,
}
use sentinet_cpp.Common.Bits.{bit, has_flag, has_flag-pow}
use sentinet_cpp.Messages.Masks.{bit_or-pow}
use sentinet_cpp.Wiimote.{
  Numbers, Buttons, Button, Wiimote, toggle_state, move, control, home, plus_button, minus_button,
  mining, dumping, driving,
}

-- A flag taken away where it is set, and added where it is not.
abbrev pub flip : ℕ → ℕ → ℕ
flip k s = if bit k s then s - 2 ^ k else s + 2 ^ k

-- After `btns &= WIIMOTE_BUTTON_ONE` none of the three buttons that toggle counts as just pressed.
pub record Clears {B : Type 0} (w : Buttons B) : Type 0 where
  pub no_home : (b : B) → w.just_pressed (w.keep_one b) home ≡ false
  pub no_plus : (b : B) → w.just_pressed (w.keep_one b) plus_button ≡ false
  pub no_minus : (b : B) → w.just_pressed (w.keep_one b) minus_button ≡ false

toggled-flip : (k s : ℕ) → (if has_flag s (2 ^ k) then s - 2 ^ k else bit_or s (2 ^ k)) ≡ flip k s
toggled-flip k s = elim (Bool-cases (bit k s)) [
  | inl t ↦ ground (arith, t, has_flag-pow k s)
  | inr f ↦ ground (arith, f, has_flag-pow k s, bit_or-pow k s f)
]

module _ {V B : Type 0} (n : Numbers V) (w : Buttons B) where
  toggle_state-flip :
      (k : ℕ) (button : Button) (r : Wiimote V B)
      → let r' = toggle_state n w (2 ^ k) button r in
        (r'.state ≡ (if w.just_pressed r.btns button then flip k r.state else r.state))
        × (r'.btns ≡ (if w.just_pressed r.btns button then w.keep_one r.btns else r.btns))
  unfolding toggle_state
  toggle_state-flip k button r = (ground (arith, toggled-flip k r.state), ground arith)

  -- The flag that a call of `control` flips, HOME before PLUS before MINUS.
  abbrev pub flipped : B → ℕ → ℕ
  flipped btns s =
      if w.just_pressed btns home
      then flip 2 s
      else if w.just_pressed btns plus_button
      then flip 0 s
      else if w.just_pressed btns minus_button
      then flip 1 s
      else s

  toggle_state-id :
      (toggling : ℕ) (button : Button) (r : Wiimote V B)
      → w.just_pressed r.btns button ≡ false
      → toggle_state n w toggling button r ≡ r
  unfolding toggle_state
  toggle_state-id toggling button r e = ground (arith, e)

  -- A toggle that its button causes, and the others behind it.
  toggle_state_clears :
      (k : ℕ) (button : Button) (r : Wiimote V B)
      → w.just_pressed r.btns button ≡ true
      → let r' = toggle_state n w (2 ^ k) button r in
        (r'.state ≡ flip k r.state) × (r'.btns ≡ w.keep_one r.btns)
  toggle_state_clears k button r e =
      let (s, b) = toggle_state-flip k button r in (ground (arith, s, e), ground (arith, b, e))

  toggles-flipped :
      (r : Wiimote V B)
      → Clears w
      → (toggle_state n w dumping minus_button
          (toggle_state n w mining plus_button (toggle_state n w driving home r))).state
        ≡ flipped r.btns r.state
  toggles-flipped r c = elim (Bool-cases (w.just_pressed r.btns home)) [
    | inl h ↦
        let driven = toggle_state n w driving home r in
        let (s, b) = toggle_state_clears 2 home r h in
        let same =
          toggle_state-id mining plus_button driven
            (ap (λ b. w.just_pressed b plus_button) b ∙ c.no_plus r.btns) in
        let last =
          toggle_state-id dumping minus_button driven
            (ap (λ b. w.just_pressed b minus_button) b ∙ c.no_minus r.btns) in
        ap (λ r. (toggle_state n w dumping minus_button r).state) same
        ∙ (ap (λ (r : Wiimote V B). r.state) last ∙ (s ∙ ground (arith, h)))
    | inr h ↦
        ap
          (λ r.
            (toggle_state n w dumping minus_button (toggle_state n w mining plus_button r)).state)
          (toggle_state-id driving home r h)
        ∙ elim (Bool-cases (w.just_pressed r.btns plus_button)) [
          | inl p ↦
              let mined = toggle_state n w mining plus_button r in
              let (s, b) = toggle_state_clears 0 plus_button r p in
              let last =
                toggle_state-id dumping minus_button mined
                  (ap (λ b. w.just_pressed b minus_button) b ∙ c.no_minus r.btns) in
              ap (λ (r : Wiimote V B). r.state) last ∙ (s ∙ ground (arith, h, p))
          | inr p ↦
              ap (λ r. (toggle_state n w dumping minus_button r).state)
                (toggle_state-id mining plus_button r p)
              ∙ ((toggle_state-flip 1 minus_button r).0 ∙ ground (arith, h, p))
        ]
  ]

  flipped-lt : (b : B) (s : ℕ) → s < 8 → flipped b s < 8
  unfolding bit
  flipped-lt b s l = ground arith

  -- A call of `control` flips at most one flag of the state, also where several buttons are just pressed:
  -- DRIVING for HOME, else MINING for PLUS, else DUMPING for MINUS, where after `btns` is cleared none
  -- of them counts as just pressed. A state below 8 remains below 8.
  pub control-flipped :
      (ms_elapsed : V) (r : Wiimote V B)
      → Clears w
      → r.state < 8
      → ((control n w ms_elapsed r).state ≡ flipped r.btns r.state)
        × ((control n w ms_elapsed r).state < 8)
  unfolding control move
  control-flipped ms_elapsed r c l =
      let is = toggles-flipped (move n w ms_elapsed r) c in
      (is, subst (λ s. s < 8) (sym is) (flipped-lt r.btns r.state l))
