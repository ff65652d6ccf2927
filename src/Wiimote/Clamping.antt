-- ===== src/Wiimote/Clamping.antt =====
-- The bounds of the velocities in src/controllers/wiimote.cpp.
use sentinet_cpp.Common.{ℕ, ◌≡◌, refl, ◌∙◌, sym, subst, arith, false}
use sentinet_cpp.Wiimote.{
  Numbers, Buttons, Button, Constants, Wiimote, move, mining, dumping, driving, home, plus_button,
  minus_button, clamp, toggle_state, control,
}

-- The order of floats other than NaN: no number is above itself, and with a maximum that is not negative
-- the bounds are in order.
pub record IsOrdered {V : Type 0} (n : Numbers V) (c : Constants V) : Type 0 where
  pub irreflexive : (v : V) → n.above v v ≡ false
  pub linear_bounds : n.above (n.negate c.linear_max) c.linear_max ≡ false
  pub angular_bounds : n.above (n.negate c.angular_max) c.angular_max ≡ false

-- A value between two bounds.
pub record IsWithin {V : Type 0} (n : Numbers V) (min max value : V) : Type 0 where
  pub not_over : n.above value max ≡ false
  pub not_under : n.above min value ≡ false

-- The velocities lie between the bounds, which are the given ones.
pub record InBounds {V B : Type 0} (n : Numbers V) (c : Constants V) (r : Wiimote V B)
    : Type 0 where
  pub of_linear : IsWithin n (n.negate c.linear_max) c.linear_max r.linear
  pub of_angular : IsWithin n (n.negate c.angular_max) c.angular_max r.angular
  pub same_constants : r.constants ≡ c

pub clamp-IsWithin :
    {V : Type 0} (n : Numbers V) (value min max : V)
    → ((v : V) → n.above v v ≡ false)
    → n.above min max ≡ false
    → IsWithin n min max (clamp n value min max)
unfolding clamp
clamp-IsWithin n value min max irr ordered = record {
  not_over = ground (arith, irr max, ordered);
  not_under = ground (arith, irr min, ordered);
}

module _ {V B : Type 0} (n : Numbers V) (w : Buttons B) where
  toggle_state_moves :
      (toggling : ℕ) (button : Button) (r : Wiimote V B)
      → ((toggle_state n w toggling button r).linear ≡ r.linear)
        × ((toggle_state n w toggling button r).angular ≡ r.angular)
        × ((toggle_state n w toggling button r).constants ≡ r.constants)
  unfolding toggle_state
  toggle_state_moves toggling button r = (ground arith, ground arith, ground arith)

  move-InBounds :
      (ms_elapsed : V) (r : Wiimote V B)
      → IsOrdered n r.constants
      → InBounds n r.constants (move n w ms_elapsed r)
  unfolding move
  move-InBounds ms_elapsed r o = record {
    of_linear = clamp-IsWithin n _ _ _ o.irreflexive o.linear_bounds;
    of_angular = clamp-IsWithin n _ _ _ o.irreflexive o.angular_bounds;
    same_constants = refl;
  }

  toggle_state-InBounds :
      (toggling : ℕ) (button : Button) (c : Constants V) (r : Wiimote V B)
      → InBounds n c r
      → InBounds n c (toggle_state n w toggling button r)
  toggle_state-InBounds toggling button c r b =
      let (lin, ang, con) = toggle_state_moves toggling button r in
      record {
        of_linear = subst (IsWithin n (n.negate c.linear_max) c.linear_max) (sym lin) b.of_linear;
        of_angular =
            subst (IsWithin n (n.negate c.angular_max) c.angular_max) (sym ang) b.of_angular;
        same_constants = con ∙ b.same_constants;
      }

  -- With bounds in order, and no number above itself, the velocities after a call of `control` lie between
  -- the negated maximum and the maximum, whatever they were, whichever buttons are pressed and
  -- however much time has passed; the bounds are kept.
  pub control-InBounds :
      (ms_elapsed : V) (r : Wiimote V B)
      → IsOrdered n r.constants
      → InBounds n r.constants (control n w ms_elapsed r)
  unfolding control
  control-InBounds ms_elapsed r o = toggle_state-InBounds dumping minus_button r.constants _ (
      toggle_state-InBounds mining plus_button r.constants _
        (toggle_state-InBounds driving home r.constants _ (move-InBounds ms_elapsed r o)))
