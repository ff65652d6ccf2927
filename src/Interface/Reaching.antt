-- ===== src/Interface/Reaching.antt =====
-- Every state that the robot of src/kernel/KermitNetworkInterface.cpp reaches from the constructor of
-- src/kernel/KermitKernel.cpp, by any interleaving of the threads that share it.
use sentinet_cpp.Common.{ℕ, IsBytes, ◌^◌, ◌<◌, ◌≡◌, some, Memory, List, ◌++◌, c_str, if◌then◌else◌}
use sentinet_cpp.Messages.Rmt.PathState.{create_path_state, path_state_from_wire}
use sentinet_cpp.Messages.Rmt.Sensor.{teensy_type}
use sentinet_cpp.Kernel.{
  Teensy, new_kernel, drive_message_subscribe_callback, robot_ping_handler, localizer_cmd_get_data,
}
use sentinet_cpp.Control.RmtClient.{Ping}
use sentinet_cpp.Localizer.{State, SimpleLocalizer, convert}
use sentinet_cpp.Localizer.Readings.{IsPlaced, IsState, state_of}
use sentinet_cpp.Serial.{Input, TeensyDevice}
use sentinet_cpp.Serial.Frames.{decode, response}
use sentinet_cpp.Serial.Until.{bytes}
use sentinet_cpp.Sensing.{IsMeasured}
use sentinet_cpp.Interface.{Robot, send_turn, read_turn}
use sentinet_cpp.Interface.Frames.{drive_message, drive_message-frame}
use sentinet_cpp.Interface.Sensed.{read_turn-convert}
use sentinet_cpp.Interface.Keeping.{
  IsReady, begins-IsReady, ping-IsReady, drive-IsReady, send_turn-IsReady, read_turn-IsReady,
  publish-IsReady,
}

-- The robots that are reached: the constructor's, and what a request, a drive message, the two halves
-- of a turn of the port's thread, and the publisher of the measured values leave of one.
pub data Reach (t : Teensy) (d : TeensyDevice) : Robot → Type 0 where
  begins : Reach t d (record { kernel = new_kernel t; device = d })
  requests :
      (p : Ping) {r : Robot}
      → Reach t d r
      → Reach t d (record r { kernel = (robot_ping_handler p r.kernel).0 })
  drives :
      (m : Memory) {r : Robot}
      → Reach t d r
      → Reach t d (record r { kernel = drive_message_subscribe_callback m r.kernel })
  sends : {r : Robot} → Reach t d r → Reach t d (send_turn r).0
  reads : (input : List Input) {r : Robot} → Reach t d r → Reach t d (read_turn r input).0
  publishes :
      {r : Robot}
      → Reach t d r
      → Reach t d (record r { kernel = (localizer_cmd_get_data r.kernel).0 })

-- In every state that the robot reaches, however the threads that share it take turns, whatever they
-- receive and whatever the port gives to read: both messages of the kernel are laid out as they were
-- created, the measured values have 32 bits and the device's buffer holds bytes, where the memory of
-- the two held such values at the start.
pub Reach-IsReady :
    {t : Teensy} {d : TeensyDevice} {r : Robot}
    → IsMeasured (new_kernel t)
    → IsBytes d.buffer
    → Reach t d r
    → IsReady r
Reach-IsReady {t} {d} m b begins = begins-IsReady t d m b
Reach-IsReady m b (requests p {r} h) = ping-IsReady p r (Reach-IsReady m b h)
Reach-IsReady m b (drives x {r} h) = drive-IsReady x r (Reach-IsReady m b h)
Reach-IsReady m b (sends {r} h) = send_turn-IsReady r (Reach-IsReady m b h)
Reach-IsReady m b (reads input {r} h) = read_turn-IsReady r input (Reach-IsReady m b h)
Reach-IsReady m b (publishes {r} h) = publish-IsReady r (Reach-IsReady m b h)

-- In every state that the robot reaches, a drive message of two 32-bit velocities comes out at the
-- port: where the kernel accepts velocities the frame of the next turn carries both, whatever lies
-- behind the message, and where it does not the frame carries zeros. The memory of the robot holds
-- 32-bit values and bytes at the start.
pub Reach-frame :
    {t : Teensy} {d : TeensyDevice} {r : Robot} (lin ang : ℕ) (tail : Memory)
    → IsMeasured (new_kernel t)
    → IsBytes d.buffer
    → Reach t d r
    → lin < 2 ^ 32
    → ang < 2 ^ 32
    → let kernel = drive_message_subscribe_callback (drive_message lin ang tail) r.kernel in
      let frame = (send_turn (record r { kernel = kernel })).1 in
      decode frame ≡ some (if r.kernel.receiving_cvels then (lin, ang) else (0, 0))
Reach-frame {r} lin ang tail m b h p q =
    drive_message-frame r lin ang tail p q (Reach-IsReady m b h).placed

-- In every state that the robot reaches, a response of the teensy of four 32-bit values that is next
-- to read, taken by a turn of the port's thread, then sent by the kernel and received by the
-- localizer, whatever lies behind it in both places: the localizer takes over both velocities and
-- keeps the pose, and what it puts out reads as that state. The input behind the response is not
-- touched. The memory of the robot holds 32-bit values and bytes at the start.
pub Reach-convert :
    {t : Teensy} {d : TeensyDevice} {r : Robot} (v w w_err dt : ℕ) (rest : List Input)
    (l : SimpleLocalizer) (tail : Memory)
    → IsMeasured (new_kernel t)
    → IsBytes d.buffer
    → Reach t d r
    → v < 2 ^ 32
    → w < 2 ^ 32
    → w_err < 2 ^ 32
    → dt < 2 ^ 32
    → IsPlaced l
    → IsState l.state
    → let got = read_turn r (bytes (response v w w_err dt) ++ rest) in
      let c = convert l (c_str (localizer_cmd_get_data got.0.kernel).1 tail) in
      let s : State = record l.state { v = v; w = w } in
      (c.1 ≡ teensy_type)
      × (c.0.0.state ≡ s)
      × (state_of (path_state_from_wire create_path_state c.0.1.text) ≡ s)
      × (got.1 ≡ rest)
Reach-convert {r} v w w_err dt rest l tail m b h p q e f placed state =
    read_turn-convert r v w w_err dt rest l tail p q e f (Reach-IsReady m b h).laid placed state
