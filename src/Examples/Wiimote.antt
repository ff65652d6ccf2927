-- ===== src/Examples/Wiimote.antt =====
-- A Wiimote whose numbers are integers with an offset of 1000, and on which two buttons can be just
-- pressed.
use sentinet_cpp.Common.{ℕ, ◌+◌, ◌-◌, refl, arith, ltb, Bool, true, false, List, [], ◌∷◌}
use sentinet_cpp.Wiimote.{
  Numbers, Buttons, Button, Constants, Wiimote, up, home, plus_button, control,
}
use sentinet_cpp.Wiimote.Connecting.{Link}
use sentinet_cpp.Wiimote.Clamping.{InBounds, control-InBounds}

abbrev offset : Numbers ℕ
offset = record {
  nought = 1000;
  plus = λ a b. a + b - 1000;
  minus = λ a b. a + 1000 - b;
  times = λ a b. a;
  negate = λ a. 2000 - a;
  above = λ a b. ltb b a;
}

-- UP is held, HOME and PLUS may be just pressed.
abbrev is_just : Bool × Bool → Button → Bool
is_just (h, p) home = h
is_just (h, p) plus_button = p
is_just (h, p) _ = false

abbrev is_down : Bool × Bool → Button → Bool
is_down b up = true
is_down b _ = false

abbrev remote : Buttons (Bool × Bool)
remote = record { pressed = is_down; just_pressed = is_just; keep_one = λ b. (false, false) }

abbrev limits : Constants ℕ
limits = record {
  linear_incriment = 1030;
  linear_max = 1020;
  angular_incriment = 1030;
  angular_max = 1020;
}

abbrev both : Wiimote ℕ (Bool × Bool)
both = record { constants = limits; angular = 1000; linear = 1000; state = 4; btns = (true, true) }

control-InBounds_example : InBounds offset limits (control offset remote 16 both)
control-InBounds_example =
    control-InBounds offset remote 16 both
      (record { irreflexive = λ v. ground arith; linear_bounds = refl; angular_bounds = refl })

-- UP is held, and nothing is just pressed.
abbrev held : Wiimote ℕ (Bool × Bool)
held = record {
  constants = limits;
  angular = 1000;
  linear = 1000;
  state = 4;
  btns = (false, false);
}

abbrev gone : ℕ → Bool
gone i = false

abbrev link : Link
link = record { data_set = true; found = 1; connected = 1 }

abbrev lost : List ((ℕ → Bool) × (Bool × Bool) × ℕ)
lost = (gone, (true, true), 16) ∷ (gone, (true, true), 16) ∷ []
