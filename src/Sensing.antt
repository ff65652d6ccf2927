-- ===== src/Sensing.antt =====
-- From src/kernel/KermitKernel.cpp to src/messages/pipe/Simple_Localizer.cpp: what the kernel sends of
-- its robot, and what the localizer makes of it.
use sentinet_cpp.Common.{
  ℕ, ◌<◌, ◌^◌, ◌≡◌, refl, ◌∙◌, sym, subst, ap, arith, Memory, c_str, load32, store32,
}
use sentinet_cpp.Messages.Rmt.PathState.{create_path_state, path_state_from_wire}
use sentinet_cpp.Messages.Rmt.Sensor.{
  TeensySensorArray, create_sensor_msg, create_teensy_sensor_array, sensor_msg_from_wire,
  teensy_sensor_array_from_wire, teensy_sensor_array_to_wire, teensy_type,
}
use sentinet_cpp.Kernel.{Kernel, localizer_cmd_get_data}
use sentinet_cpp.Localizer.{
  State, SimpleLocalizer, receive, convert, teensy_update, update_outgoing,
}
use sentinet_cpp.Localizer.Readings.{IsPlaced, IsState, state_of}
use sentinet_cpp.Localizer.Latest.{convert_sent}

-- The outgoing message is laid out as it was created.
pub record IsLaidOut (t : TeensySensorArray) : Type 0 where
  pub head : t.msg.indexes ≡ create_teensy_sensor_array.msg.indexes
  pub values : t.indexes ≡ create_teensy_sensor_array.indexes
  pub type_is : t.msg.type ≡ teensy_type
  pub length_is : t.msg.buff.byte_length ≡ create_teensy_sensor_array.msg.buff.byte_length

-- The robot's measured values have 32 bits.
pub record IsMeasured (k : Kernel) : Type 0 where
  pub v_range : k.teensy.v < 2 ^ 32
  pub w_range : k.teensy.w < 2 ^ 32
  pub dt_range : k.teensy.dt < 2 ^ 32

pub array_at :
    (b tail : Memory) (v w dt : ℕ)
    → v < 2 ^ 32
    → w < 2 ^ 32
    → dt < 2 ^ 32
    → let at = create_teensy_sensor_array.indexes in
      let head = create_teensy_sensor_array.msg.indexes in
      let m =
        c_str
          (record {
            text =
                store32
                  (store32 (store32 (store32 b (head 0) teensy_type) (at 0) v) (at 1) w)
                  (at 2)
                  dt;
            size = create_teensy_sensor_array.msg.buff.byte_length;
          })
          tail in
      (load32 m (head 0) ≡ teensy_type) × (load32 m (at 0) ≡ v) × (load32 m (at 1) ≡ w)
unfolding create_teensy_sensor_array load32 store32
array_at b tail v w dt p q r = omega arith

same_head : create_sensor_msg.indexes 0 ≡ create_teensy_sensor_array.msg.indexes 0
unfolding create_sensor_msg create_teensy_sensor_array
same_head = refl

pub receive_teensy :
    (l : SimpleLocalizer) (m : Memory) (v w : ℕ)
    → IsPlaced l
    → load32 m (create_teensy_sensor_array.msg.indexes 0) ≡ teensy_type
    → load32 m (create_teensy_sensor_array.indexes 0) ≡ v
    → load32 m (create_teensy_sensor_array.indexes 1) ≡ w
    → ((receive l m).1 ≡ teensy_type) × ((receive l m).0.state ≡ record l.state { v = v; w = w })
unfolding receive teensy_update sensor_msg_from_wire teensy_sensor_array_from_wire
receive_teensy l m v w p e v_is w_is =
    let h0 = ap (λ f. f 0) p.sensor_head in
    let i0 = ap (λ f. f 0) p.sensor_values in
    let i1 = ap (λ f. f 1) p.sensor_values in
    (ground (arith, h0, same_head, e), ground (arith, h0, i0, i1, same_head, e, v_is, w_is))

-- The string that the kernel sends, where its message is laid out as created.
kernel_message :
    (k : Kernel) (tail : Memory)
    → IsLaidOut k.teensy_buffer
    → let at = create_teensy_sensor_array.indexes in
      let head = create_teensy_sensor_array.msg.indexes in
      c_str (localizer_cmd_get_data k).1 tail
      ≡ c_str
          (record {
            text =
                store32
                  (store32
                    (store32
                      (store32 k.teensy_buffer.msg.buff.bytes (head 0) teensy_type)
                      (at 0)
                      k.teensy.v)
                    (at 1)
                    k.teensy.w)
                  (at 2)
                  k.teensy.dt;
            size = create_teensy_sensor_array.msg.buff.byte_length;
          })
          tail
unfolding localizer_cmd_get_data teensy_sensor_array_to_wire
kernel_message k tail o = rw (o.head, o.values, o.type_is, o.length_is)

-- The message in which the kernel sends what its robot measured, three 32-bit values, is a teensy
-- message to a localizer, whatever lies in memory behind it: the localizer takes over both
-- velocities and keeps the pose, and what it puts out reads as that state. The layout that the
-- kernel's message was created with is kept.
pub localizer_cmd_get_data-convert :
    (k : Kernel) (l : SimpleLocalizer) (tail : Memory)
    → IsLaidOut k.teensy_buffer
    → IsMeasured k
    → IsPlaced l
    → IsState l.state
    → let r = convert l (c_str (localizer_cmd_get_data k).1 tail) in
      let s : State = record l.state { v = k.teensy.v; w = k.teensy.w } in
      (r.1 ≡ teensy_type)
      × (r.0.0.state ≡ s)
      × (state_of (path_state_from_wire create_path_state r.0.1.text) ≡ s)
      × IsLaidOut (localizer_cmd_get_data k).0.teensy_buffer
unfolding convert update_outgoing localizer_cmd_get_data teensy_sensor_array_to_wire
localizer_cmd_get_data-convert k l tail o i p j =
    let m = c_str (localizer_cmd_get_data k).1 tail in
    let (head, v, w) =
      subst
        (λ m.
          (load32 m (create_teensy_sensor_array.msg.indexes 0) ≡ teensy_type)
          × (load32 m (create_teensy_sensor_array.indexes 0) ≡ k.teensy.v)
          × (load32 m (create_teensy_sensor_array.indexes 1) ≡ k.teensy.w))
        (sym (kernel_message k tail o))
        (array_at k.teensy_buffer.msg.buff.bytes tail k.teensy.v k.teensy.w k.teensy.dt i.v_range
          i.w_range i.dt_range) in
    let (type, taken) = receive_teensy l m k.teensy.v k.teensy.w p head v w in
    let state : (receive l m).0.state ≡ record l.state { v = k.teensy.v; w = k.teensy.w } = taken in
    let ranges : IsState (record l.state { v = k.teensy.v; w = k.teensy.w }) = record {
      x_range = j.x_range;
      y_range = j.y_range;
      theta_range = j.theta_range;
      v_range = i.v_range;
      w_range = i.w_range;
    } in
    (
      type,
      state,
      convert_sent m l p (subst IsState (sym state) ranges) ∙ state,
      record { head = o.head; values = o.values; type_is = o.type_is; length_is = o.length_is },
    )
