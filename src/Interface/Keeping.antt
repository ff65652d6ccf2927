-- ===== src/Interface/Keeping.antt =====
-- What each operation on the robot of src/kernel/KermitNetworkInterface.cpp keeps: the layout of the
-- kernel's messages, the ranges of the measured values, and the bytes of the device's buffer.
use sentinet_cpp.Common.{
  ℕ, ap, store8-IsBytes, store32-IsBytes, IsBytes, ◌^◌, ◌<◌, ◌≡◌, refl, ◌∙◌, sym, subst, arith,
  Memory, List,
}
use sentinet_cpp.Messages.Rmt.Velocity.{CmdVel, create_cmd_vel, cmd_vel_from_wire}
use sentinet_cpp.Messages.Rmt.Sensor.{
  TeensySensorArray, create_teensy_sensor_array, teensy_sensor_array_to_wire,
}
use sentinet_cpp.Kernel.{
  Kernel, Teensy, new_kernel, drive_message_subscribe_callback, robot_ping_handler,
  localizer_cmd_get_data, dump_handler, mine_handler, move_to_mine_handler, move_to_dump_handler,
  init_handler, clean_exit_handler, stop_everything_handler, dispatch,
}
use sentinet_cpp.Control.RmtClient.{Ping}
use sentinet_cpp.Kernel.Driving.{robot_ping_handler-teensy}
use sentinet_cpp.Serial.{Input, TeensyDevice, send_drive, teensy_send_data}
use sentinet_cpp.Sensing.{IsLaidOut, IsMeasured}
use sentinet_cpp.Interface.{Robot, send_turn, read_turn}
use sentinet_cpp.Serial.Ranges.{read_teensy_response-IsMeasured}

-- Both of the kernel's messages are laid out as their constructors made them, the measured values
-- have 32 bits, and the device's buffer holds bytes.
pub record IsReady (r : Robot) : Type 0 where
  pub placed : r.kernel.cvel_buffer.indexes ≡ create_cmd_vel.indexes
  pub laid : IsLaidOut r.kernel.teensy_buffer
  pub measured : IsMeasured r.kernel
  pub buffered : IsBytes r.device.buffer

pub begins-IsReady :
    (t : Teensy) (d : TeensyDevice)
    → IsMeasured (new_kernel t)
    → IsBytes d.buffer
    → IsReady (record { kernel = new_kernel t; device = d })
unfolding new_kernel create_teensy_sensor_array
begins-IsReady t d m b = record {
  placed = refl;
  laid = record { head = refl; values = refl; type_is = refl; length_is = refl };
  measured = m;
  buffered = b;
}

-- The parts of a kernel that a request leaves as they were.
abbrev buffers : Kernel → CmdVel × TeensySensorArray
buffers k = (k.cvel_buffer, k.teensy_buffer)

buffers-dump_handler : (excess : ℕ) (k : Kernel) → buffers (dump_handler excess k) ≡ buffers k
unfolding dump_handler
buffers-dump_handler excess k = ground arith

buffers-mine_handler : (excess : ℕ) (k : Kernel) → buffers (mine_handler excess k) ≡ buffers k
unfolding mine_handler
buffers-mine_handler excess k = ground arith

buffers_move :
    (excess : ℕ) (k : Kernel)
    → (buffers (move_to_mine_handler excess k) ≡ buffers k)
      × (buffers (move_to_dump_handler excess k) ≡ buffers k)
unfolding move_to_mine_handler move_to_dump_handler
buffers_move excess k = (ground arith, ground arith)

buffers_end :
    (excess : ℕ) (k : Kernel)
    → (buffers (init_handler excess k) ≡ buffers k)
      × (buffers (clean_exit_handler excess k) ≡ buffers k)
      × (buffers (stop_everything_handler excess k) ≡ buffers k)
unfolding init_handler clean_exit_handler stop_everything_handler
buffers_end excess k = (ground arith, ground arith, refl)

buffers-robot_ping_handler :
    (p : Ping) (k : Kernel) → buffers (robot_ping_handler p k).0 ≡ buffers k
unfolding robot_ping_handler dispatch
buffers-robot_ping_handler p k = ground (
  arith,
  buffers-dump_handler p.excess k,
  buffers-mine_handler p.excess k,
  buffers_move p.excess k,
  buffers_end p.excess k,
)

pub drive_message_indexes :
    (m : Memory) (k : Kernel)
    → let l = drive_message_subscribe_callback m k in
      (l.cvel_buffer.indexes ≡ k.cvel_buffer.indexes)
      × (l.teensy_buffer ≡ k.teensy_buffer)
      × (l.teensy.v ≡ k.teensy.v)
      × (l.teensy.w ≡ k.teensy.w)
      × (l.teensy.dt ≡ k.teensy.dt)
unfolding drive_message_subscribe_callback cmd_vel_from_wire
drive_message_indexes m k = ground arith

pub ping-IsReady :
    (p : Ping) (r : Robot)
    → IsReady r
    → IsReady (record r { kernel = (robot_ping_handler p r.kernel).0 })
ping-IsReady p r h =
    let same = buffers-robot_ping_handler p r.kernel in
    let t = robot_ping_handler-teensy p r.kernel in
    let f = h.measured in
    record {
      placed = ap (λ (b : CmdVel × TeensySensorArray). b.0.indexes) same ∙ h.placed;
      laid = subst (λ (b : CmdVel × TeensySensorArray). IsLaidOut b.1) (sym same) h.laid;
      measured = record {
        v_range = subst (λ (t : Teensy). t.v < 2 ^ 32) (sym t) f.v_range;
        w_range = subst (λ (t : Teensy). t.w < 2 ^ 32) (sym t) f.w_range;
        dt_range = subst (λ (t : Teensy). t.dt < 2 ^ 32) (sym t) f.dt_range;
      };
      buffered = h.buffered;
    }

pub drive-IsReady :
    (m : Memory) (r : Robot)
    → IsReady r
    → IsReady (record r { kernel = drive_message_subscribe_callback m r.kernel })
drive-IsReady m r h =
    let (at, buffer, v, w, dt) = drive_message_indexes m r.kernel in
    let f = h.measured in
    record {
      placed = at ∙ h.placed;
      laid = subst IsLaidOut (sym buffer) h.laid;
      measured = record {
        v_range = subst (λ n. n < 2 ^ 32) (sym v) f.v_range;
        w_range = subst (λ n. n < 2 ^ 32) (sym w) f.w_range;
        dt_range = subst (λ n. n < 2 ^ 32) (sym dt) f.dt_range;
      };
      buffered = h.buffered;
    }

pub send_turn-IsReady : (r : Robot) → IsReady r → IsReady (send_turn r).0
unfolding send_turn send_drive teensy_send_data
send_turn-IsReady r h = record {
  placed = h.placed;
  laid = h.laid;
  measured = record {
    v_range = h.measured.v_range;
    w_range = h.measured.w_range;
    dt_range = h.measured.dt_range;
  };
  buffered = store8-IsBytes _ _ _ (
      store8-IsBytes _ _ _
        (store32-IsBytes _ _ _ (store32-IsBytes _ _ _ (store8-IsBytes _ _ _ h.buffered))));
}

pub read_turn-IsReady : (r : Robot) (input : List Input) → IsReady r → IsReady (read_turn r input).0
unfolding read_turn
read_turn-IsReady r input h =
    let t = r.kernel.teensy in
    let f = h.measured in
    let (b, v, w, dt) =
      read_teensy_response-IsMeasured r.device
        (record { omega = t.w; velocity = t.v; w_err = t.w_err; dt = t.dt }) input h.buffered
        f.v_range f.w_range f.dt_range in
    record {
      placed = h.placed;
      laid = h.laid;
      measured = record { v_range = v; w_range = w; dt_range = dt };
      buffered = b;
    }

pub publish-IsReady :
    (r : Robot) → IsReady r → IsReady (record r { kernel = (localizer_cmd_get_data r.kernel).0 })
unfolding localizer_cmd_get_data teensy_sensor_array_to_wire
publish-IsReady r h = record {
  placed = h.placed;
  laid = record {
    head = h.laid.head;
    values = h.laid.values;
    type_is = h.laid.type_is;
    length_is = h.laid.length_is;
  };
  measured = record {
    v_range = h.measured.v_range;
    w_range = h.measured.w_range;
    dt_range = h.measured.dt_range;
  };
  buffered = h.buffered;
}
