-- ===== src/Interface/Sensed.antt =====
-- From the port in src/kernel/serial.c over the kernel to src/messages/pipe/Simple_Localizer.cpp: what
-- becomes of a response of the teensy.
use sentinet_cpp.Common.{ℕ, ◌<◌, ◌^◌, ◌≡◌, sym, subst, ap, Memory, c_str, List, ◌++◌}
use sentinet_cpp.Messages.Rmt.PathState.{create_path_state, path_state_from_wire}
use sentinet_cpp.Messages.Rmt.Sensor.{teensy_type}
use sentinet_cpp.Kernel.{Kernel, localizer_cmd_get_data}
use sentinet_cpp.Localizer.{State, SimpleLocalizer, convert}
use sentinet_cpp.Localizer.Readings.{IsPlaced, IsState, state_of}
use sentinet_cpp.Serial.{Input, Measured}
use sentinet_cpp.Serial.Frames.{response, read_teensy_response-response}
use sentinet_cpp.Serial.Until.{bytes}
use sentinet_cpp.Interface.{Robot, read_turn}
use sentinet_cpp.Sensing.{IsLaidOut, localizer_cmd_get_data-convert}

abbrev sensed : Kernel → ℕ → ℕ → ℕ → ℕ → Kernel
sensed k v w w_err dt = record k {
  teensy = record { lin = k.teensy.lin; ang = k.teensy.ang; v = v; w = w; w_err = w_err; dt = dt };
}

read_turn-response :
    (r : Robot) (v w w_err dt : ℕ) (rest : List Input)
    → v < 2 ^ 32
    → w < 2 ^ 32
    → w_err < 2 ^ 32
    → dt < 2 ^ 32
    → let got = read_turn r (bytes (response v w w_err dt) ++ rest) in
      (got.0.kernel ≡ sensed r.kernel v w w_err dt) × (got.1 ≡ rest)
unfolding read_turn
read_turn-response r v w w_err dt rest p q s t =
    let m : Measured = record {
      omega = r.kernel.teensy.w;
      velocity = r.kernel.teensy.v;
      w_err = r.kernel.teensy.w_err;
      dt = r.kernel.teensy.dt;
    } in
    let (ok_is, measured, dv, dw, de, dd, left) =
      read_teensy_response-response v w w_err dt r.device m rest p q s t in
    (ap (λ (m : Measured). sensed r.kernel m.velocity m.omega m.w_err m.dt) measured, left)

-- A response of the teensy of four 32-bit values, read in full by a turn of the port's thread, and
-- then sent by the kernel and received by the localizer, whatever lies behind it in both places: the
-- localizer takes over both velocities and keeps the pose, and what it puts out reads as that state.
-- The input behind the response is not touched.
pub read_turn-convert :
    (r : Robot) (v w w_err dt : ℕ) (rest : List Input) (l : SimpleLocalizer) (tail : Memory)
    → v < 2 ^ 32
    → w < 2 ^ 32
    → w_err < 2 ^ 32
    → dt < 2 ^ 32
    → IsLaidOut r.kernel.teensy_buffer
    → IsPlaced l
    → IsState l.state
    → let got = read_turn r (bytes (response v w w_err dt) ++ rest) in
      let c = convert l (c_str (localizer_cmd_get_data got.0.kernel).1 tail) in
      let s : State = record l.state { v = v; w = w } in
      (c.1 ≡ teensy_type)
      × (c.0.0.state ≡ s)
      × (state_of (path_state_from_wire create_path_state c.0.1.text) ≡ s)
      × (got.1 ≡ rest)
read_turn-convert r v w w_err dt rest l tail p q s t laid placed state =
    let (kernel_is, left) = read_turn-response r v w w_err dt rest p q s t in
    let k = sensed r.kernel v w w_err dt in
    let (type_is, state_is, out_is, laid') =
      localizer_cmd_get_data-convert k l tail
        (record {
          head = laid.head;
          values = laid.values;
          type_is = laid.type_is;
          length_is = laid.length_is;
        })
        (record { v_range = p; w_range = q; dt_range = t }) placed state in
    let holds = λ (k : Kernel).
      let c = convert l (c_str (localizer_cmd_get_data k).1 tail) in
      let s : State = record l.state { v = v; w = w } in
      (c.1 ≡ teensy_type)
      × (c.0.0.state ≡ s)
      × (state_of (path_state_from_wire create_path_state c.0.1.text) ≡ s) in
    let (a, b, c) = subst holds (sym kernel_is) (type_is, state_is, out_is) in (a, b, c, left)
