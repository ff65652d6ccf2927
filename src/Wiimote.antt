-- ===== src/Wiimote.antt =====
-- src/controllers/wiimote.cpp: how a Wiimote's buttons become velocities and the state of the robot, with
-- src/include/scpp/controllers/helpers/helper.h. Numbers of type float and the buttons of the wiiuse library are
-- parameters.
pub mod Clamping
pub mod Connecting
pub mod Toggling
use sentinet_cpp.Common.{ℕ, ◌+◌, ◌-◌, ◌&&◌, ◌||◌, not, bit_or, if◌then◌else◌, Bool, true, false}
use sentinet_cpp.Common.Bits.{has_flag}

-- The operations on float that the code uses; `above a b` is `a > b`.
pub record Numbers (V : Type 0) : Type 0 where
  pub nought : V
  pub plus : V → V → V
  pub minus : V → V → V
  pub times : V → V → V
  pub negate : V → V
  pub above : V → V → Bool

-- The buttons that are asked for.
pub data Button : Type 0 where
  up down left right home plus_button minus_button : Button

-- IS_PRESSED and IS_JUST_PRESSED of the buttons of `data[0]`, and `btns &= WIIMOTE_BUTTON_ONE`.
pub record Buttons (B : Type 0) : Type 0 where
  pub pressed : B → Button → Bool
  pub just_pressed : B → Button → Bool
  pub keep_one : B → B

abbrev pub mining : ℕ
mining = 1

abbrev pub dumping : ℕ
dumping = 2

abbrev pub driving : ℕ
driving = 4

pub record Constants (V : Type 0) : Type 0 where
  pub linear_incriment : V
  pub linear_max : V
  pub angular_incriment : V
  pub angular_max : V

pub record Wiimote (V B : Type 0) : Type 0 where
  pub constants : Constants V
  pub angular : V
  pub linear : V
  pub state : ℕ
  pub btns : B

module _ {V : Type 0} (n : Numbers V) where
  unfoldable pub clamp : V → V → V → V
  clamp value min max = if n.above value max then max else if n.above min value then min else value

  unfoldable pub zero_rounding : V → V → V
  zero_rounding value change =
      let d_value = n.plus value change in
      if (n.above value n.nought && n.above n.nought d_value)
        || (n.above n.nought value && n.above d_value n.nought)
      then n.nought
      else value

module _ {V B : Type 0} (n : Numbers V) (w : Buttons B) where
  unfoldable pub incriment_velocity : B → V → V → Button → Button → V
  incriment_velocity btns velocity incriment button_increase button_decrease =
      if w.pressed btns button_increase
      then n.plus velocity incriment
      else if w.pressed btns button_decrease
      then n.minus velocity incriment
      else if n.above velocity n.nought
      then zero_rounding n (n.minus velocity incriment) incriment
      else if n.above n.nought velocity
      then zero_rounding n (n.plus velocity incriment) incriment
      else velocity

  unfoldable pub toggle_state : ℕ → Button → Wiimote V B → Wiimote V B
  toggle_state toggling button r =
      if w.just_pressed r.btns button
      then record r {
        state = if has_flag r.state toggling then r.state - toggling else bit_or r.state toggling;
        btns = w.keep_one r.btns;
      }
      else r

  -- The velocities in `control`, with the milliseconds since the last call.
  unfoldable pub move : V → Wiimote V B → Wiimote V B
  move ms_elapsed r =
      let linear =
        incriment_velocity r.btns r.linear (n.times r.constants.linear_incriment ms_elapsed) up
          down in
      let angular =
        incriment_velocity r.btns r.angular (n.times r.constants.angular_incriment ms_elapsed) right
          left in
      record r {
        linear = clamp n linear (n.negate r.constants.linear_max) r.constants.linear_max;
        angular = clamp n angular (n.negate r.constants.angular_max) r.constants.angular_max;
      }

  unfoldable pub control : V → Wiimote V B → Wiimote V B
  control ms_elapsed r =
      toggle_state dumping minus_button
        (toggle_state mining plus_button (toggle_state driving home (move ms_elapsed r)))

  -- The constructor.
  unfoldable pub new_wiimote : Constants V → B → Wiimote V B
  new_wiimote constants btns = record {
    constants = constants;
    angular = n.nought;
    linear = n.nought;
    state = driving;
    btns = btns;
  }
