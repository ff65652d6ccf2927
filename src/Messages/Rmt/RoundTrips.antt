-- ===== src/Messages/Rmt/RoundTrips.antt =====
-- What one side puts on the wire the other side reads, for each message of the robot.
use sentinet_cpp.Common.{ℕ, ◌<◌, ◌/◌, ◌^◌, ◌≡◌, arith, u8, store32, load32}
use sentinet_cpp.Messages.Data.{get_protocol_version, op_pos}
use sentinet_cpp.Messages.Rmt.Velocity.{
  CmdVel, create_cmd_vel, cmd_vel_to_wire, cmd_vel_from_wire, create_teensy_msg, teensy_msg_to_wire,
  teensy_msg_from_wire,
}
use sentinet_cpp.Messages.Rmt.PathState.{
  create_path_state, path_state_to_wire, path_state_from_wire,
}
use sentinet_cpp.Messages.Rmt.Sensor.{
  TeensySensorArray, CameraMsg, create_camera_msg, create_teensy_sensor_array, create_sensor_msg,
  camera_msg_to_wire, camera_msg_from_wire, teensy_sensor_array_to_wire,
  teensy_sensor_array_from_wire, sensor_msg_from_wire, teensy_type, camera_type,
}

abbrev pub sent_velocity : ℕ → ℕ → CmdVel
sent_velocity lin ang = record create_cmd_vel { lin = lin; ang = ang }

-- A new `cmd_vel` reads from the wire the velocities, of 32 bits each, that another new `cmd_vel`
-- was given and put there.
pub cmd_vel_from_wire-to_wire :
    (lin ang : ℕ)
    → lin < 2 ^ 32
    → ang < 2 ^ 32
    → let r =
        cmd_vel_from_wire create_cmd_vel (cmd_vel_to_wire (sent_velocity lin ang)).buff.bytes in
      (r.lin ≡ lin) × (r.ang ≡ ang)
unfolding create_cmd_vel cmd_vel_from_wire cmd_vel_to_wire load32 store32
cmd_vel_from_wire-to_wire lin ang p q = omega arith

-- The same for a `teensy_msg`, though its second value was serialized with two bytes.
pub teensy_msg_from_wire-to_wire :
    (lin ang : ℕ)
    → lin < 2 ^ 32
    → ang < 2 ^ 32
    → let sent = record create_teensy_msg { lin = lin; ang = ang } in
      let r = teensy_msg_from_wire create_teensy_msg (teensy_msg_to_wire sent).buff.bytes in
      (r.lin ≡ lin) × (r.ang ≡ ang)
unfolding create_teensy_msg teensy_msg_from_wire teensy_msg_to_wire load32 store32
teensy_msg_from_wire-to_wire lin ang p q = omega arith

-- A new `path_state` reads from the wire the state, of five 32-bit values, that another new one
-- was given and put there.
pub path_state_from_wire-to_wire :
    (x y theta v w : ℕ)
    → x < 2 ^ 32
    → y < 2 ^ 32
    → theta < 2 ^ 32
    → v < 2 ^ 32
    → w < 2 ^ 32
    → let sent = record create_path_state { x = x; y = y; theta = theta; v = v; w = w } in
      let r = path_state_from_wire create_path_state (path_state_to_wire sent).buff.bytes in
      (r.x ≡ x) × (r.y ≡ y) × (r.theta ≡ theta) × (r.v ≡ v) × (r.w ≡ w)
unfolding create_path_state path_state_from_wire path_state_to_wire load32 store32
path_state_from_wire-to_wire x y theta v w hx hy ht hv hw = omega arith

abbrev pub sent_teensy : ℕ → ℕ → ℕ → TeensySensorArray
sent_teensy v w dt = record create_teensy_sensor_array { v = v; w = w; dt = dt }

-- A new sensor array accepts what another new one, given three 32-bit values, puts on the wire, and
-- reads those values; a `sensor_msg` takes it for a teensy message.
pub teensy_sensor_array_from_wire-to_wire :
    (v w dt : ℕ)
    → v < 2 ^ 32
    → w < 2 ^ 32
    → dt < 2 ^ 32
    → let m = (teensy_sensor_array_to_wire (sent_teensy v w dt)).msg.buff.bytes in
      let r = teensy_sensor_array_from_wire create_teensy_sensor_array m in
      (r.1 ≡ 1)
      × (r.0.v ≡ v)
      × (r.0.w ≡ w)
      × (r.0.dt ≡ dt)
      × ((sensor_msg_from_wire create_sensor_msg m).1 ≡ teensy_type)
unfolding create_teensy_sensor_array teensy_sensor_array_from_wire teensy_sensor_array_to_wire
    sensor_msg_from_wire load32 store32
teensy_sensor_array_from_wire-to_wire v w dt p q r = omega arith

abbrev pub sent_camera : ℕ → ℕ → ℕ → ℕ → CameraMsg
sent_camera x y theta dt = record create_camera_msg { x = x; y = y; theta = theta; dt = dt }

-- A new `camera_msg` accepts what another new one, given four 32-bit values, puts on the wire, and
-- reads those values; a `sensor_msg` takes it for a camera message.
pub camera_msg_from_wire-to_wire :
    (x y theta dt : ℕ)
    → x < 2 ^ 32
    → y < 2 ^ 32
    → theta < 2 ^ 32
    → dt < 2 ^ 32
    → let m = (camera_msg_to_wire (sent_camera x y theta dt)).msg.buff.bytes in
      let r = camera_msg_from_wire create_camera_msg m in
      (r.1 ≡ 1)
      × (r.0.x ≡ x)
      × (r.0.y ≡ y)
      × (r.0.theta ≡ theta)
      × (r.0.dt ≡ dt)
      × ((sensor_msg_from_wire create_sensor_msg m).1 ≡ camera_type)
unfolding create_camera_msg camera_msg_from_wire camera_msg_to_wire sensor_msg_from_wire load32
    store32
camera_msg_from_wire-to_wire x y theta dt p q r s = omega arith

-- Putting a `camera_msg` on the wire overwrites the header: the protocol version and the opcode of
-- the message become the two low bytes of `dt`.
pub camera_msg_to_wire_header :
    (x y theta dt : ℕ)
    → let m = (camera_msg_to_wire (sent_camera x y theta dt)).msg.buff.bytes in
      (get_protocol_version m ≡ u8 dt) × (m op_pos ≡ u8 (dt / 2 ^ 8))
unfolding create_camera_msg camera_msg_to_wire load32 store32
camera_msg_to_wire_header x y theta dt = omega arith
