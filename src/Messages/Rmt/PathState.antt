-- ===== src/Messages/Rmt/PathState.antt =====
-- `path_state`: the state vector that the localizer sends on.
use sentinet_cpp.Common.{ℕ, Memory, store32, load32}
use sentinet_cpp.Messages.Data.{DataBuffer, create_buffer, to_wire}
use sentinet_cpp.Messages.Rmt.Fields.{serialize_float, index_of, value_of, set_index, no_indexes}

pub record PathState : Type 0 where
  pub x : ℕ
  pub y : ℕ
  pub theta : ℕ
  pub v : ℕ
  pub w : ℕ
  pub indexes : ℕ → ℕ
  pub buff : DataBuffer

unfoldable pub create_path_state : PathState
unfolding create_buffer serialize_float to_wire index_of value_of
create_path_state =
    let two = serialize_float (serialize_float create_buffer 0 4) 0 4 in
    let buff = to_wire (serialize_float (serialize_float (serialize_float two 0 4) 0 4) 0 4) in
    let first = set_index (set_index no_indexes 0 (index_of buff 0 0)) 1 (index_of buff 0 1) in
    record {
      x = value_of buff 0 0;
      y = value_of buff 0 1;
      theta = value_of buff 0 2;
      v = value_of buff 0 3;
      w = value_of buff 0 4;
      indexes =
          set_index (set_index (set_index first 2 (index_of buff 0 2)) 3 (index_of buff 0 3)) 4
            (index_of buff 0 4);
      buff = buff;
    }

unfoldable pub path_state_to_wire : PathState → PathState
path_state_to_wire p = record p {
  buff = record b {
    bytes =
        store32
          (store32
            (store32 (store32 (store32 b.bytes (p.indexes 0) p.x) (p.indexes 1) p.y) (p.indexes 2)
              p.theta)
            (p.indexes 3) p.v)
          (p.indexes 4) p.w;
  };
}
  where
    b : DataBuffer
    b = p.buff

unfoldable pub path_state_from_wire : PathState → Memory → PathState
path_state_from_wire p m = record p {
  x = load32 m (p.indexes 0);
  y = load32 m (p.indexes 1);
  theta = load32 m (p.indexes 2);
  v = load32 m (p.indexes 3);
  w = load32 m (p.indexes 4);
}
