-- ===== src/Localizer/Latest.antt =====
-- What the localizer of src/messages/pipe/Simple_Localizer.cpp makes of a sequence of readings.
use sentinet_cpp.Common.{◌≡◌, refl, ◌∙◌, sym, subst, ap, arith, List, [], ◌∷◌, Memory}
use sentinet_cpp.Messages.Rmt.PathState.{
  create_path_state, path_state_to_wire, path_state_from_wire,
}
use sentinet_cpp.Messages.Rmt.Sensor.{
  create_sensor_msg, sensor_msg_from_wire, teensy_sensor_array_from_wire, camera_msg_from_wire,
  minus_one,
}
use sentinet_cpp.Localizer.Readings.{
  Reading, InRange, IsPlaced, IsState, wire, update, update-IsState, receive-update, outgoing,
  state_of,
}
use sentinet_cpp.Localizer.{
  State, SimpleLocalizer, new_localizer, receive, update_outgoing, convert,
}

pub receive-IsPlaced : (l : SimpleLocalizer) (m : Memory) → IsPlaced l → IsPlaced (receive l m).0
unfolding receive teensy_sensor_array_from_wire camera_msg_from_wire
receive-IsPlaced l m p = record {
  path = ground (arith, p.path);
  sensor_head = ground (arith, p.sensor_head);
  sensor_values = ground (arith, p.sensor_values);
  camera_head = ground (arith, p.camera_head);
  camera_values = ground (arith, p.camera_values);
}

pub convert-IsPlaced : (l : SimpleLocalizer) (m : Memory) → IsPlaced l → IsPlaced (convert l m).0.0
unfolding convert update_outgoing path_state_to_wire
convert-IsPlaced l m p =
    let q = receive-IsPlaced l m p in
    record {
      path = q.path;
      sensor_head = q.sensor_head;
      sensor_values = q.sensor_values;
      camera_head = q.camera_head;
      camera_values = q.camera_values;
    }

-- The localizer after the messages of some readings.
unfoldable pub convert_all : SimpleLocalizer → List Reading → SimpleLocalizer
unfolding convert wire
convert_all l [] = l
convert_all l (r ∷ rs) = convert_all (convert l (wire r)).0.0 rs

-- The last velocities of the robot and the last pose of the camera among some readings.
unfoldable pub latest : State → List Reading → State
unfolding update
latest s [] = s
latest s (r ∷ rs) = latest (update r s) rs

abbrev pub AllInRange : List Reading → Type 0
AllInRange [] = Unit
AllInRange (r ∷ rs) = InRange r × AllInRange rs

convert-update :
    (r : Reading) (l : SimpleLocalizer)
    → InRange r
    → IsPlaced l
    → (convert l (wire r)).0.0.state ≡ update r l.state
unfolding convert update_outgoing
convert-update r l i p = receive-update r l i p

convert_all-latest :
    (rs : List Reading) (l : SimpleLocalizer)
    → AllInRange rs
    → IsPlaced l
    → IsState l.state
    → ((convert_all l rs).state ≡ latest l.state rs)
      × IsPlaced (convert_all l rs)
      × IsState (convert_all l rs).state
unfolding convert_all latest
convert_all-latest [] l a p i = (refl, p, i)
convert_all-latest (r ∷ rs) l a p i =
    let next = (convert l (wire r)).0.0 in
    let e = convert-update r l a.0 p in
    let (s, q, j) =
      convert_all-latest rs next a.1 (convert-IsPlaced l (wire r) p)
        (subst IsState (sym e) (update-IsState r l.state a.0 i)) in
    (s ∙ ap (λ x. latest x rs) e, q, j)

pub convert_sent :
    (m : Memory) (l : SimpleLocalizer)
    → IsPlaced l
    → IsState (receive l m).0.state
    → state_of (path_state_from_wire create_path_state (convert l m).0.1.text)
      ≡ (receive l m).0.state
unfolding convert update_outgoing
convert_sent m l p i =
    outgoing (receive l m).0.msg (receive l m).0.state (receive-IsPlaced l m p).path i

abbrev pub no_state : State
no_state = record { x = 0; y = 0; theta = 0; v = 0; w = 0 }

pub new_localizer-IsPlaced : IsPlaced new_localizer
unfolding new_localizer
new_localizer-IsPlaced = record {
  path = refl;
  sensor_head = refl;
  sensor_values = refl;
  camera_head = refl;
  camera_values = refl;
}

-- A new localizer that was given the messages of some readings, all of 32-bit values, and is given
-- the message of one more, puts out a `path_state` that reads as the last velocities of the robot
-- and the last pose of the camera among them, or as zero where there was none.
pub convert-latest :
    (rs : List Reading) (r : Reading)
    → AllInRange rs
    → InRange r
    → state_of (
        path_state_from_wire create_path_state
          (convert (convert_all new_localizer rs) (wire r)).0.1.text)
      ≡ update r (latest no_state rs)
unfolding new_localizer
convert-latest rs r a i =
    let (s, p, j) = convert_all-latest rs new_localizer a new_localizer-IsPlaced (record {
      x_range = omega arith;
      y_range = omega arith;
      theta_range = omega arith;
      v_range = omega arith;
      w_range = omega arith;
    }) in
    let l = convert_all new_localizer rs in
    let e = receive-update r l i p in
    convert_sent (wire r) l p (subst IsState (sym e) (update-IsState r l.state i j))
    ∙ e
    ∙ ap (update r) s

-- A message that is neither of a teensy nor of a camera gives -1 and leaves the state as it is; the
-- localizer puts the state out again.
pub convert_other :
    (m : Memory) (l : SimpleLocalizer)
    → IsPlaced l
    → IsState l.state
    → (sensor_msg_from_wire create_sensor_msg m).1 ≡ minus_one
    → let r = convert l m in
      (r.1 ≡ minus_one)
      × (r.0.0.state ≡ l.state)
      × (state_of (path_state_from_wire create_path_state r.0.1.text) ≡ l.state)
unfolding convert receive
convert_other m l p i e =
    let same_state : (receive l m).0.state ≡ l.state = ground (arith, e) in
    (
      ground (arith, e),
      ground (arith, e),
      convert_sent m l p (subst IsState (sym same_state) i) ∙ same_state,
    )
