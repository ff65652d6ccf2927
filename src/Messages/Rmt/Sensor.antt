-- ===== src/Messages/Rmt/Sensor.antt =====
-- `sensor_msg` and the two messages that extend it, `teensy_sensor_array` and `camera_msg`. Where a
-- function returns an `int`, it is the bit pattern of one: `minus_one` is -1.
use sentinet_cpp.Common.{ℕ, ◌-◌, ◌^◌, ◌==◌, if◌then◌else◌, Memory, store32, load32}
use sentinet_cpp.Messages.Data.{DataBuffer, create_buffer, to_wire}
use sentinet_cpp.Messages.Rmt.Fields.{
  serialize_float, serialize_int, index_of, value_of, set_index, no_indexes,
}

abbrev pub minus_one : ℕ
minus_one = 2 ^ 32 - 1

abbrev pub teensy_type : ℕ
teensy_type = 1

abbrev pub camera_type : ℕ
camera_type = 2

pub record SensorMsg : Type 0 where
  pub type : ℕ
  pub indexes : ℕ → ℕ
  pub buff : DataBuffer

unfoldable pub create_sensor_msg : SensorMsg
unfolding create_buffer serialize_int to_wire index_of value_of
create_sensor_msg =
    let buff = to_wire (serialize_int create_buffer 0) in
    record {
      type = value_of buff 0 0;
      indexes = set_index no_indexes 0 (index_of buff 0 0);
      buff = buff;
    }

-- The message after the call, and the result.
unfoldable pub sensor_msg_from_wire : SensorMsg → Memory → SensorMsg × ℕ
sensor_msg_from_wire s m =
    let id = load32 m (s.indexes 0) in
    if id == camera_type
    then (record s { type = camera_type }, camera_type)
    else if id == teensy_type
    then (record s { type = teensy_type }, teensy_type)
    else (s, minus_one)

pub record TeensySensorArray : Type 0 where
  pub v : ℕ
  pub w : ℕ
  pub dt : ℕ
  pub indexes : ℕ → ℕ
  pub msg : SensorMsg

unfoldable pub create_teensy_sensor_array : TeensySensorArray
unfolding create_sensor_msg serialize_float to_wire index_of value_of
create_teensy_sensor_array =
    let sensor = create_sensor_msg in
    let two = serialize_float (serialize_float sensor.buff 0 4) 0 4 in
    let buff = to_wire (serialize_float two 0 4) in
    record {
      v = value_of buff 0 1;
      w = value_of buff 0 2;
      dt = value_of buff 0 3;
      indexes =
          set_index (set_index (set_index no_indexes 0 (index_of buff 0 1)) 1 (index_of buff 0 2)) 2
            (index_of buff 0 3);
      msg = record sensor { type = teensy_type; buff = buff };
    }

unfoldable pub teensy_sensor_array_to_wire : TeensySensorArray → TeensySensorArray
teensy_sensor_array_to_wire t = record t {
  msg = record s {
    buff = record b {
      bytes =
          store32
            (store32 (store32 (store32 b.bytes (s.indexes 0) s.type) (t.indexes 0) t.v)
              (t.indexes 1) t.w)
            (t.indexes 2) t.dt;
    };
  };
}
  where
    s : SensorMsg
    s = t.msg

    b : DataBuffer
    b = s.buff

unfoldable pub teensy_sensor_array_from_wire : TeensySensorArray → Memory → TeensySensorArray × ℕ
teensy_sensor_array_from_wire t m =
    if load32 m (t.msg.indexes 0) == teensy_type
    then (
      record t {
        v = load32 m (t.indexes 0);
        w = load32 m (t.indexes 1);
        dt = load32 m (t.indexes 2);
      },
      1,
    )
    else (t, minus_one)

pub record CameraMsg : Type 0 where
  pub x : ℕ
  pub y : ℕ
  pub theta : ℕ
  pub dt : ℕ
  pub indexes : ℕ → ℕ
  pub msg : SensorMsg

-- Three of the four values get an offset, and the values are read one element too late.
unfoldable pub create_camera_msg : CameraMsg
unfolding create_sensor_msg serialize_float to_wire index_of value_of
create_camera_msg =
    let sensor = create_sensor_msg in
    let two = serialize_float (serialize_float sensor.buff 0 4) 0 4 in
    let buff = to_wire (serialize_float (serialize_float two 0 4) 0 4) in
    record {
      x = 0;
      y = value_of buff 0 1;
      theta = value_of buff 0 2;
      dt = value_of buff 0 3;
      indexes =
          set_index (set_index (set_index no_indexes 0 (index_of buff 0 1)) 1 (index_of buff 0 2)) 2
            (index_of buff 0 3);
      msg = record sensor { type = camera_type; buff = buff };
    }

unfoldable pub camera_msg_to_wire : CameraMsg → CameraMsg
camera_msg_to_wire c = record c {
  msg = record s {
    buff = record b {
      bytes =
          store32
            (store32
              (store32 (store32 (store32 b.bytes (s.indexes 0) s.type) (c.indexes 0) c.x)
                (c.indexes 1) c.y)
              (c.indexes 2) c.theta)
            (c.indexes 3) c.dt;
    };
  };
}
  where
    s : SensorMsg
    s = c.msg

    b : DataBuffer
    b = s.buff

unfoldable pub camera_msg_from_wire : CameraMsg → Memory → CameraMsg × ℕ
camera_msg_from_wire c m =
    if load32 m (c.msg.indexes 0) == camera_type
    then (
      record c {
        x = load32 m (c.indexes 0);
        y = load32 m (c.indexes 1);
        theta = load32 m (c.indexes 2);
        dt = load32 m (c.indexes 3);
      },
      1,
    )
    else (c, minus_one)
