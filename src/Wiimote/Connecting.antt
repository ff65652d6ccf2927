-- ===== src/Wiimote/Connecting.antt =====
-- src/controllers/wiimote.cpp: the connection of a Wiimote, and the turns of its loop. What the wiiuse
-- library finds, connects and reads are parameters; messages on the terminal are left out.
use sentinet_cpp.Common.{
  ◌⊎◌, ℕ, zero, suc, ◌+◌, ◌==◌, ◌≡◌, Bool, true, false, List, [], ◌∷◌, if◌then◌else◌,
}
use sentinet_cpp.Wiimote.Clamping.{IsWithin}
use sentinet_cpp.Wiimote.{
  Numbers, Buttons, up, home, plus_button, minus_button, Wiimote, Constants, control,
}

-- `data`, whether it is set, `found` and `connected`.
pub record Link : Type 0 where
  pub data_set : Bool
  pub found : ℕ
  pub connected : ℕ

-- 0 and -1, the results of `connect`.
pub data Connection : Type 0 where
  done failed : Connection

-- The calls that `connect` makes of a remote that it has reached: its light, and what it turns off.
pub data RemoteCall : Type 0 where
  set_leds motion_sensing_off ir_off motion_plus_off : RemoteCall

-- What `wiiuse_init` gave is kept by the constructor.
unfoldable pub new_link : Bool → Link
new_link data_set = record { data_set = data_set; found = 0; connected = 0 }

-- `connect`, with the results of `wiiuse_find` and `wiiuse_connect`.
unfoldable pub connect : ℕ → ℕ → Link → (Link × Connection) × List RemoteCall
connect finds connects l =
    if finds == 0
    then ((record l { found = finds }, failed), [])
    else if connects == 0
    then ((record l { found = finds; connected = connects }, failed), [])
    else (
      (record l { found = finds; connected = connects }, done),
      set_leds ∷ motion_sensing_off ∷ ir_off ∷ motion_plus_off ∷ [],
    )

-- The loop of `heartbeat` from remote `i` on, with as many left; `alive i` is whether the library has a
-- remote `i` that is connected.
unfoldable pub heartbeat_loop : ℕ → (ℕ → Bool) → ℕ → Bool
heartbeat_loop zero alive i = false
heartbeat_loop (suc left) alive i =
    let rest = heartbeat_loop left alive (i + 1) in if alive i then true else rest

unfoldable pub heartbeat : (ℕ → Bool) → Link → Bool
unfolding heartbeat_loop
heartbeat alive l = if l.data_set then heartbeat_loop l.connected alive 0 else false

-- `__start__`, whose result does not depend on `connect`.
unfoldable pub start_wiimote : ℕ → ℕ → Link → (Link × Bool) × List RemoteCall
unfolding connect
start_wiimote finds connects l =
    let ((l', ended), calls) = connect finds connects l in ((l', true), calls)

module _ {V B : Type 0} (n : Numbers V) (w : Buttons B) where
  -- `poll`, with the buttons that `wiiuse_poll` would leave; the events are only printed.
  unfoldable pub poll : Link → (ℕ → Bool) → B → Wiimote V B → Wiimote V B
  unfolding heartbeat
  poll l alive fresh r = if heartbeat alive l then record r { btns = fresh } else r

  -- One call of `loop`, the time passed since the last one included.
  unfoldable pub loop : Link → (ℕ → Bool) → B → V → Wiimote V B → Wiimote V B
  unfolding poll
  loop l alive fresh ms_elapsed r = control n w ms_elapsed (poll l alive fresh r)

  -- Calls of `loop` one after the other, each with what the library has and would read.
  unfoldable pub loops : Link → List ((ℕ → Bool) × B × V) → Wiimote V B → Wiimote V B
  unfolding loop
  loops l [] r = r
  loops l ((alive, fresh, ms) ∷ turns) r = loops l turns (loop l alive fresh ms r)

  -- No remote is connected in any of the calls.
  abbrev pub AllLost : List ((ℕ → Bool) × B × V) → Type 0
  AllLost [] = Unit {0}
  AllLost ((alive, fresh, ms) ∷ turns) = ((j : ℕ) → alive j ≡ false) × AllLost turns

  -- What is taken for granted of floats other than NaN: an order, bounds in order, and an increment that raises
  -- every velocity between the bounds, as one that is not negligible beside the maximum does.
  pub record IsRising (c : Constants V) (ms : V) : Type 0 where
    pub irreflexive : (v : V) → n.above v v ≡ false
    pub transitive : (a b v : V) → n.above a b ≡ true → n.above b v ≡ true → n.above a v ≡ true
    pub bounds : n.above (n.negate c.linear_max) c.linear_max ≡ false
    pub raises :
        (v : V)
        → IsWithin n (n.negate c.linear_max) c.linear_max v
        → n.above (n.plus v (n.times c.linear_incriment ms)) v ≡ true

  -- This holds in all of the calls.
  abbrev pub AllRising : Constants V → List ((ℕ → Bool) × B × V) → Type 0
  AllRising c [] = Unit {0}
  AllRising c ((alive, fresh, ms) ∷ turns) = IsRising c ms × AllRising c turns

  -- The linear velocities after each of the calls.
  unfoldable pub velocities : Link → List ((ℕ → Bool) × B × V) → Wiimote V B → List V
  unfolding loop
  velocities l [] r = []
  velocities l ((alive, fresh, ms) ∷ turns) r =
      let r' = loop l alive fresh ms r in r'.linear ∷ velocities l turns r'

  -- Each velocity is above the one before it, or it is the maximum.
  abbrev pub Climbs : V → V → List V → Type 0
  Climbs max v [] = Unit {0}
  Climbs max v (next ∷ vs) = ((next ≡ max) ⊎ (n.above next v ≡ true)) × Climbs max next vs

  -- The buttons: UP is held, and none that toggles a state is just pressed.
  pub record IsHeld (btns : B) : Type 0 where
    pub up_held : w.pressed btns up ≡ true
    pub no_home : w.just_pressed btns home ≡ false
    pub no_plus : w.just_pressed btns plus_button ≡ false
    pub no_minus : w.just_pressed btns minus_button ≡ false
