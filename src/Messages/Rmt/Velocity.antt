-- ===== src/Messages/Rmt/Velocity.antt =====
-- `cmd_vel` and `teensy_msg`: a linear and an angular velocity.
use sentinet_cpp.Common.{ℕ, Memory, store32, load32}
use sentinet_cpp.Messages.Data.{DataBuffer, create_buffer, to_wire}
use sentinet_cpp.Messages.Rmt.Fields.{serialize_float, index_of, value_of, set_index, no_indexes}

pub record CmdVel : Type 0 where
  pub lin : ℕ
  pub ang : ℕ
  pub indexes : ℕ → ℕ
  pub buff : DataBuffer

unfoldable pub create_cmd_vel : CmdVel
unfolding create_buffer serialize_float to_wire index_of value_of
create_cmd_vel =
    let buff = to_wire (serialize_float (serialize_float create_buffer 0 4) 0 4) in
    record {
      lin = value_of buff 0 0;
      ang = value_of buff 0 1;
      indexes = set_index (set_index no_indexes 0 (index_of buff 0 0)) 1 (index_of buff 0 1);
      buff = buff;
    }

unfoldable pub cmd_vel_to_wire : CmdVel → CmdVel
cmd_vel_to_wire v = record v {
  buff = record b { bytes = store32 (store32 b.bytes (v.indexes 0) v.lin) (v.indexes 1) v.ang };
}
  where
    b : DataBuffer
    b = v.buff

unfoldable pub cmd_vel_from_wire : CmdVel → Memory → CmdVel
cmd_vel_from_wire v m = record v { lin = load32 m (v.indexes 0); ang = load32 m (v.indexes 1) }

pub record TeensyMsg : Type 0 where
  pub lin : ℕ
  pub ang : ℕ
  pub indexes : ℕ → ℕ
  pub buff : DataBuffer

-- The angular velocity is serialized with the size of an `int16_t` and the type code FLOAT.
unfoldable pub create_teensy_msg : TeensyMsg
unfolding create_buffer serialize_float to_wire index_of value_of
create_teensy_msg =
    let buff = to_wire (serialize_float (serialize_float create_buffer 0 4) 0 2) in
    record {
      lin = value_of buff 0 0;
      ang = value_of buff 0 1;
      indexes = set_index (set_index no_indexes 0 (index_of buff 0 0)) 1 (index_of buff 0 1);
      buff = buff;
    }

unfoldable pub teensy_msg_to_wire : TeensyMsg → TeensyMsg
teensy_msg_to_wire v = record v {
  buff = record b { bytes = store32 (store32 b.bytes (v.indexes 1) v.ang) (v.indexes 0) v.lin };
}
  where
    b : DataBuffer
    b = v.buff

unfoldable pub teensy_msg_from_wire : TeensyMsg → Memory → TeensyMsg
teensy_msg_from_wire v m = record v { lin = load32 m (v.indexes 0); ang = load32 m (v.indexes 1) }
