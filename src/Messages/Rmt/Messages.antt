-- ===== src/Messages/Rmt/Messages.antt =====
-- The messages of the robot are data messages: writing a value in place leaves the message that
-- serializing it would give.
use sentinet_cpp.Common.{
  ℕ, ◌+◌, refl, arith, [], ◌∷◌, ltb, Memory, IsBytes, store8-IsBytes, store32-IsBytes, some,
  Bool-cases, inl, inr, u32,
}
use sentinet_cpp.Messages.Data.{
  DataBuffer, create_buffer, to_wire, serialize_data, append_element, float, int32, message_size,
}
use sentinet_cpp.Messages.Data.Items.{Item, IsMessage}
use sentinet_cpp.Messages.Data.Append.{item}
use sentinet_cpp.Messages.Data.Copying.{copy_value-IsBytes}
use sentinet_cpp.Messages.Data.Header.{create_buffer-IsMessage, to_wire-IsBytes}
use sentinet_cpp.Messages.Rmt.Fields.{field, serialize_float, serialize_int}
use sentinet_cpp.Messages.Rmt.Velocity.{CmdVel, create_cmd_vel, cmd_vel_to_wire}
use sentinet_cpp.Messages.Rmt.PathState.{PathState, create_path_state, path_state_to_wire}
use sentinet_cpp.Messages.Rmt.Sensor.{
  TeensySensorArray, create_teensy_sensor_array, teensy_sensor_array_to_wire,
}
use sentinet_cpp.Messages.Rmt.RoundTrips.{sent_velocity, sent_teensy}

-- The element that `serialize_data` makes of a float.
abbrev pub float_item : ℕ → Item
float_item v = item (field v) 4 float

abbrev pub int_item : ℕ → Item
int_item v = item (field v) 4 int32

serialize_data-IsBytes :
    (b : DataBuffer) (source : Memory) (n code : ℕ)
    → IsBytes b.bytes
    → IsBytes (serialize_data b (some source) n code).0.bytes
unfolding serialize_data append_element
serialize_data-IsBytes b source n code h =
    elim (Bool-cases (ltb (u32 (3 + n + b.byte_length)) message_size)) [
      | inl room ↦
          rw (room, serialize_data)
            (store8-IsBytes _ _ _
              (copy_value-IsBytes _ _ _ _ _ _ (store8-IsBytes _ _ _ (store8-IsBytes _ _ _ h))))
      | inr full ↦ rw (full, serialize_data) h
    ]

serialize_float-IsBytes :
    (b : DataBuffer) (v n : ℕ) → IsBytes b.bytes → IsBytes (serialize_float b v n).bytes
serialize_float-IsBytes b v n = unfold serialize_float in serialize_data-IsBytes b (field v) n float

serialize_int-IsBytes :
    (b : DataBuffer) (v : ℕ) → IsBytes b.bytes → IsBytes (serialize_int b v).bytes
serialize_int-IsBytes b v = unfold serialize_int in serialize_data-IsBytes b (field v) 4 int32

abbrev two_floats : DataBuffer → DataBuffer
two_floats b = serialize_float (serialize_float b 0 4) 0 4

two_floats-IsBytes : (b : DataBuffer) → IsBytes b.bytes → IsBytes (two_floats b).bytes
two_floats-IsBytes b h =
    serialize_float-IsBytes (serialize_float b 0 4) 0 4 (serialize_float-IsBytes b 0 4 h)

new_buffer-IsBytes : IsBytes create_buffer.bytes
new_buffer-IsBytes = create_buffer-IsMessage.bytes_are

create_cmd_vel-IsBytes : IsBytes create_cmd_vel.buff.bytes
unfolding create_cmd_vel
create_cmd_vel-IsBytes =
    to_wire-IsBytes (two_floats create_buffer) (two_floats-IsBytes create_buffer new_buffer-IsBytes)

cmd_vel_to_wire-IsBytes :
    (v : CmdVel) → IsBytes v.buff.bytes → IsBytes (cmd_vel_to_wire v).buff.bytes
unfolding cmd_vel_to_wire
cmd_vel_to_wire-IsBytes v h =
    store32-IsBytes _ (v.indexes 1) (v.ang) (store32-IsBytes (v.buff.bytes) (v.indexes 0) (v.lin) h)

-- After `cmd_vel_to_wire` the buffer of a new `cmd_vel` is the message with its two velocities.
pub cmd_vel_to_wire-IsMessage :
    (lin ang : ℕ)
    → IsMessage
        (cmd_vel_to_wire (sent_velocity lin ang)).buff
        (float_item lin ∷ float_item ang ∷ [])
unfolding create_cmd_vel cmd_vel_to_wire
cmd_vel_to_wire-IsMessage lin ang = record {
  lay = omega arith;
  length_is = refl;
  fields_is = refl;
  fits = omega arith;
  bytes_are = cmd_vel_to_wire-IsBytes (sent_velocity lin ang) create_cmd_vel-IsBytes;
}

create_path_state-IsBytes : IsBytes create_path_state.buff.bytes
unfolding create_path_state
create_path_state-IsBytes =
    let two = two_floats create_buffer in
    let four = two_floats two in
    to_wire-IsBytes (serialize_float four 0 4) (
      serialize_float-IsBytes four 0 4
        (two_floats-IsBytes two (two_floats-IsBytes create_buffer new_buffer-IsBytes)))

path_state_to_wire-IsBytes :
    (v : PathState) → IsBytes v.buff.bytes → IsBytes (path_state_to_wire v).buff.bytes
unfolding path_state_to_wire
path_state_to_wire-IsBytes v h = store32-IsBytes _ (v.indexes 4) (v.w) (
    store32-IsBytes _ (v.indexes 3) (v.v) (
      store32-IsBytes _ (v.indexes 2) (v.theta) (
        store32-IsBytes _ (v.indexes 1) (v.y)
          (store32-IsBytes (v.buff.bytes) (v.indexes 0) (v.x) h))))

-- After `path_state_to_wire` the buffer of a new `path_state` is the message with its five values.
pub path_state_to_wire-IsMessage :
    (x y theta v w : ℕ)
    → IsMessage
        (path_state_to_wire
          (record create_path_state { x = x; y = y; theta = theta; v = v; w = w })).buff
        (float_item x ∷ float_item y ∷ float_item theta ∷ float_item v ∷ float_item w ∷ [])
unfolding create_path_state path_state_to_wire
path_state_to_wire-IsMessage x y theta v w = record {
  lay = omega arith;
  length_is = refl;
  fields_is = refl;
  fits = omega arith;
  bytes_are =
      path_state_to_wire-IsBytes
        (record create_path_state { x = x; y = y; theta = theta; v = v; w = w })
        create_path_state-IsBytes;
}

create_teensy_sensor_array-IsBytes : IsBytes create_teensy_sensor_array.msg.buff.bytes
unfolding create_teensy_sensor_array
create_teensy_sensor_array-IsBytes =
    let sensor = to_wire (serialize_int create_buffer 0) in
    let two = two_floats sensor in
    to_wire-IsBytes (serialize_float two 0 4) (
      serialize_float-IsBytes two 0 4 (
        two_floats-IsBytes sensor (
          to_wire-IsBytes (serialize_int create_buffer 0)
            (serialize_int-IsBytes create_buffer 0 new_buffer-IsBytes))))

teensy_sensor_array_to_wire-IsBytes :
    (v : TeensySensorArray)
    → IsBytes v.msg.buff.bytes
    → IsBytes (teensy_sensor_array_to_wire v).msg.buff.bytes
unfolding teensy_sensor_array_to_wire
teensy_sensor_array_to_wire-IsBytes v h = store32-IsBytes _ (v.indexes 2) (v.dt) (
    store32-IsBytes _ (v.indexes 1) (v.w) (
      store32-IsBytes _ (v.indexes 0) (v.v)
        (store32-IsBytes (v.msg.buff.bytes) (v.msg.indexes 0) (v.msg.type) h)))

-- After `teensy_sensor_array_to_wire` the buffer of a new sensor array is the message with the type
-- code and its three values.
pub teensy_sensor_array_to_wire-IsMessage :
    (v w dt : ℕ)
    → IsMessage
        (teensy_sensor_array_to_wire (sent_teensy v w dt)).msg.buff
        (int_item 1 ∷ float_item v ∷ float_item w ∷ float_item dt ∷ [])
unfolding create_teensy_sensor_array teensy_sensor_array_to_wire
teensy_sensor_array_to_wire-IsMessage v w dt = record {
  lay = omega arith;
  length_is = refl;
  fields_is = refl;
  fits = omega arith;
  bytes_are =
      teensy_sensor_array_to_wire-IsBytes (sent_teensy v w dt) create_teensy_sensor_array-IsBytes;
}
