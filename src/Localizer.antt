-- ===== src/Localizer.antt =====
-- src/messages/pipe/Simple_Localizer.cpp: the filter of a proxy that turns the messages of the robot's
-- sensors into a path state.
pub mod Readings
pub mod Latest
use sentinet_cpp.Common.{ℕ, ◌==◌, if◌then◌else◌, Memory, Message}
use sentinet_cpp.Messages.Rmt.PathState.{PathState, create_path_state, path_state_to_wire}
use sentinet_cpp.Messages.Rmt.Sensor.{
  TeensySensorArray, CameraMsg, create_sensor_msg, create_teensy_sensor_array, create_camera_msg,
  sensor_msg_from_wire, teensy_sensor_array_from_wire, camera_msg_from_wire, teensy_type,
  camera_type, minus_one,
}

pub record State : Type 0 where
  pub x : ℕ
  pub y : ℕ
  pub theta : ℕ
  pub v : ℕ
  pub w : ℕ

pub record SimpleLocalizer : Type 0 where
  pub msg : PathState
  pub sensor : TeensySensorArray
  pub camera : CameraMsg
  pub state : State

unfoldable pub new_localizer : SimpleLocalizer
new_localizer = record {
  msg = create_path_state;
  sensor = create_teensy_sensor_array;
  camera = create_camera_msg;
  state = record { x = 0; y = 0; theta = 0; v = 0; w = 0 };
}

-- `teensy_update` and `camera_update` do not use their `dt`.
unfoldable pub teensy_update : ℕ → ℕ → State → State
teensy_update v w s = record s { v = v; w = w }

unfoldable pub camera_update : ℕ → ℕ → ℕ → State → State
camera_update x y theta s = record s { x = x; y = y; theta = theta }

-- The branches on the type of the message, and the result of `convert`.
unfoldable pub receive : SimpleLocalizer → Memory → SimpleLocalizer × ℕ
unfolding teensy_update camera_update
receive l text =
    let ret = (sensor_msg_from_wire create_sensor_msg text).1 in
    let t = (teensy_sensor_array_from_wire l.sensor text).0 in
    let c = (camera_msg_from_wire l.camera text).0 in
    if ret == teensy_type
    then (record l { sensor = t; state = teensy_update t.v t.w l.state }, ret)
    else if ret == camera_type
    then (record l { camera = c; state = camera_update c.x c.y c.theta l.state }, ret)
    else (l, minus_one)

-- The state written to the outgoing message.
unfoldable pub update_outgoing : SimpleLocalizer → SimpleLocalizer
update_outgoing l = record l {
  msg = path_state_to_wire (record m {
    x = l.state.x;
    y = l.state.y;
    theta = l.state.theta;
    v = l.state.v;
    w = l.state.w;
  });
}
  where
    m : PathState
    m = l.msg

-- The localizer after the call, the message that replaces the incoming one, and the result.
unfoldable pub convert : SimpleLocalizer → Memory → (SimpleLocalizer × Message) × ℕ
unfolding receive update_outgoing
convert l text =
    let (l', ret) = receive l text in
    let sent = update_outgoing l' in
    ((sent, record { text = sent.msg.buff.bytes; size = sent.msg.buff.byte_length }), ret)
