-- ===== src/Localizer/Readings.antt =====
-- One reading of a sensor, as the localizer of src/messages/pipe/Simple_Localizer.cpp takes it from
-- the wire, and a state as it puts it there.
use sentinet_cpp.Common.{ℕ, ◌<◌, ◌^◌, ◌≡◌, ◌∙◌, ap, arith, Memory, load32, store32}
use sentinet_cpp.Messages.Rmt.PathState.{
  PathState, create_path_state, path_state_to_wire, path_state_from_wire,
}
use sentinet_cpp.Messages.Rmt.Sensor.{
  TeensySensorArray, CameraMsg, create_teensy_sensor_array, create_camera_msg,
  teensy_sensor_array_to_wire, teensy_sensor_array_from_wire, camera_msg_to_wire,
  camera_msg_from_wire,
}
use sentinet_cpp.Messages.Rmt.RoundTrips.{
  sent_teensy, sent_camera, camera_msg_from_wire-to_wire, teensy_sensor_array_from_wire-to_wire,
}
use sentinet_cpp.Localizer.{State, SimpleLocalizer, teensy_update, camera_update, receive}

pub data Reading : Type 0 where
  teensy : (v w dt : ℕ) → Reading
  camera : (x y theta dt : ℕ) → Reading

-- The message of a reading as a sensor puts it on the wire.
unfoldable pub wire : Reading → Memory
wire (teensy v w dt) = (teensy_sensor_array_to_wire (sent_teensy v w dt)).msg.buff.bytes
wire (camera x y theta dt) = (camera_msg_to_wire (sent_camera x y theta dt)).msg.buff.bytes

abbrev pub InRange : Reading → Type 0
InRange (teensy v w dt) = (v < 2 ^ 32) × (w < 2 ^ 32) × (dt < 2 ^ 32)
InRange (camera x y theta dt) = (x < 2 ^ 32) × (y < 2 ^ 32) × (theta < 2 ^ 32) × (dt < 2 ^ 32)

unfoldable pub update : Reading → State → State
update (teensy v w dt) s = record s { v = v; w = w }
update (camera x y theta dt) s = record s { x = x; y = y; theta = theta }

-- The values lie at the offsets that the messages were created with.
pub record IsPlaced (l : SimpleLocalizer) : Type 0 where
  pub path : l.msg.indexes ≡ create_path_state.indexes
  pub sensor_head : l.sensor.msg.indexes ≡ create_teensy_sensor_array.msg.indexes
  pub sensor_values : l.sensor.indexes ≡ create_teensy_sensor_array.indexes
  pub camera_head : l.camera.msg.indexes ≡ create_camera_msg.msg.indexes
  pub camera_values : l.camera.indexes ≡ create_camera_msg.indexes

-- The values of the state have 32 bits.
pub record IsState (s : State) : Type 0 where
  pub x_range : s.x < 2 ^ 32
  pub y_range : s.y < 2 ^ 32
  pub theta_range : s.theta < 2 ^ 32
  pub v_range : s.v < 2 ^ 32
  pub w_range : s.w < 2 ^ 32

unfoldable pub state_of : PathState → State
state_of p = record { x = p.x; y = p.y; theta = p.theta; v = p.v; w = p.w }

pub update-IsState : (r : Reading) (s : State) → InRange r → IsState s → IsState (update r s)
unfolding update
update-IsState (teensy v w dt) s r i = ground (arith, r, i)
update-IsState (camera x y theta dt) s r i = ground (arith, r, i)

-- An array whose values lie at the created offsets reads what a new one reads.
read_teensy :
    (t : TeensySensorArray) (m : Memory)
    → t.msg.indexes ≡ create_teensy_sensor_array.msg.indexes
    → t.indexes ≡ create_teensy_sensor_array.indexes
    → let r = teensy_sensor_array_from_wire create_teensy_sensor_array m in
      let u = teensy_sensor_array_from_wire t m in r.1 ≡ 1 → (u.0.v ≡ r.0.v) × (u.0.w ≡ r.0.w)
unfolding teensy_sensor_array_from_wire
read_teensy t m h i accepted =
    let h0 = ap (λ f. f 0) h in
    let i0 = ap (λ f. f 0) i in
    let i1 = ap (λ f. f 1) i in
    (ground (arith, h0, i0, i1, accepted), ground (arith, h0, i0, i1, accepted))

read_camera :
    (c : CameraMsg) (m : Memory)
    → c.msg.indexes ≡ create_camera_msg.msg.indexes
    → c.indexes ≡ create_camera_msg.indexes
    → let r = camera_msg_from_wire create_camera_msg m in
      let u = camera_msg_from_wire c m in
      r.1 ≡ 1 → (u.0.x ≡ r.0.x) × (u.0.y ≡ r.0.y) × (u.0.theta ≡ r.0.theta)
unfolding camera_msg_from_wire
read_camera c m h i accepted =
    let h0 = ap (λ f. f 0) h in
    let i0 = ap (λ f. f 0) i in
    let i1 = ap (λ f. f 1) i in
    let i2 = ap (λ f. f 2) i in
    (
      ground (arith, h0, i0, accepted),
      ground (arith, h0, i1, accepted),
      ground (arith, h0, i2, accepted),
    )

pub receive-update :
    (r : Reading) (l : SimpleLocalizer)
    → InRange r
    → IsPlaced l
    → (receive l (wire r)).0.state ≡ update r l.state
unfolding receive wire update teensy_update camera_update
receive-update (teensy v w dt) l r p =
    let m = wire (teensy v w dt) in
    let sent = teensy_sensor_array_from_wire-to_wire v w dt r.0 r.1 r.2 in
    let got = read_teensy l.sensor m p.sensor_head p.sensor_values sent.0 in
    let v_is = got.0 ∙ sent.1 in let w_is = got.1 ∙ sent.2 in ground (arith, sent.4, v_is, w_is)
receive-update (camera x y theta dt) l r p =
    let m = wire (camera x y theta dt) in
    let sent = camera_msg_from_wire-to_wire x y theta dt r.0 r.1 r.2 r.3 in
    let got = read_camera l.camera m p.camera_head p.camera_values sent.0 in
    let x_is = got.0 ∙ sent.1 in
    let y_is = got.1 ∙ sent.2 in
    let theta_is = got.2 ∙ sent.3 in ground (arith, sent.5, x_is, y_is, theta_is)

path_state_at :
    (b : Memory) (s : State)
    → IsState s
    → let at = create_path_state.indexes in
      let m =
        store32
          (store32 (store32 (store32 (store32 b (at 0) s.x) (at 1) s.y) (at 2) s.theta) (at 3) s.v)
          (at 4)
          s.w in
      (load32 m (at 0) ≡ s.x)
      × (load32 m (at 1) ≡ s.y)
      × (load32 m (at 2) ≡ s.theta)
      × (load32 m (at 3) ≡ s.v)
      × (load32 m (at 4) ≡ s.w)
unfolding create_path_state load32 store32
path_state_at b s i = omega (arith, i)

pub outgoing :
    (m : PathState) (s : State)
    → m.indexes ≡ create_path_state.indexes
    → IsState s
    → state_of (
        path_state_from_wire create_path_state
          (path_state_to_wire
            (record m { x = s.x; y = s.y; theta = s.theta; v = s.v; w = s.w })).buff.bytes)
      ≡ s
unfolding state_of path_state_to_wire path_state_from_wire
outgoing m s p i =
    let (x, y, theta, v, w) = path_state_at m.buff.bytes s i in rw (p, x, y, theta, v, w)
