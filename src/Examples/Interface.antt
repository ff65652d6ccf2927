-- ===== src/Examples/Interface.antt =====
-- The kernel's interface at concrete inputs.
use sentinet_cpp.Common.{
  ℕ, ◌*◌, ◌≤◌, ◌<◌, suc, ◌≡◌, refl, arith, ltb, Bool, true, false, some, List, [], ◌∷◌, ◌++◌, zeros,
  c_str, length, load32, Memory,
}
use sentinet_cpp.Common.Bits.{has_flag, bit}
use sentinet_cpp.Common.Maps.{String, same}
use sentinet_cpp.Messages.Rmt.Velocity.{cmd_vel_to_wire}
use sentinet_cpp.Messages.Rmt.RoundTrips.{sent_velocity}
use sentinet_cpp.Messages.Rmt.Sensor.{teensy_type}
use sentinet_cpp.Messages.Rmt.PathState.{create_path_state, path_state_from_wire}
use sentinet_cpp.Control.RmtClient.{Ping}
use sentinet_cpp.Control.ZmqClient.{returned, thrown, future_already_retrieved}
use sentinet_cpp.Control.ZmqClient.Calls.{no_sockets}
use sentinet_cpp.Control.ZmqClient.Quitting.{AllThreads}
use sentinet_cpp.Kernel.{
  Teensy, new_kernel, drive_message_subscribe_callback, localizer_cmd_get_data, robot_ping_handler,
  dispatch, move_to_mine_handler, on_flag,
}
use sentinet_cpp.Kernel.Driving.{pings, drives}
use sentinet_cpp.Localizer.{State, convert, new_localizer}
use sentinet_cpp.Localizer.Readings.{state_of}
use sentinet_cpp.Localizer.Latest.{new_localizer-IsPlaced}
use sentinet_cpp.Serial.{byte, new_teensy_device}
use sentinet_cpp.Serial.Frames.{decode, response}
use sentinet_cpp.Serial.Until.{bytes}
use sentinet_cpp.Interface.{
  Robot, Addresses, Settings, set_alive_time, new_interface, init_teensy_peripheral, init_comms,
  kermit_quit, destroy, start, send_turn, read_turn,
}
use sentinet_cpp.Interface.Alive.{IsLast}
use sentinet_cpp.Interface.Ending.{kermit_quit-AllThreads}
use sentinet_cpp.Interface.Frames.{RobotEvent, handles, sends, reads, frames, AllStop, frames-stop}
use sentinet_cpp.Sensing.{IsMeasured}
use sentinet_cpp.Interface.Reaching.{
  Reach, begins, requests, drives as drives_robot, Reach-frame, Reach-convert,
}
use sentinet_cpp.Interface.Commanded.{Reach-commanded}
use sentinet_cpp.Interface.Start.{start-IsLast}

abbrev pub any_teensy : Teensy
any_teensy = record { lin = 3; ang = 4; v = 5; w = 6; w_err = 7; dt = 8 }

-- A kernel that accepts velocities.
abbrev driving : Robot
driving = record {
  kernel = record (new_kernel any_teensy) { receiving_cvels = true };
  device = new_teensy_device;
}

abbrev stop_request : Ping
stop_request = record { type = 2; code = 1; excess = 0 }

-- A turn of the thread with a drive message between its halves.
abbrev history : List RobotEvent
history = sends ∷ handles (drives zeros) ∷ reads ∷ sends ∷ []

frames-stop_example :
    let stopped = frames driving (byte 1 ∷ []) (handles (pings stop_request) ∷ history) in
    let started =
      frames
        (record { kernel = new_kernel any_teensy; device = new_teensy_device })
        (byte 1 ∷ [])
        history in
    AllStop stopped × (length stopped ≡ 2) × AllStop started × (length started ≡ 2)
frames-stop_example =
    frames-stop driving stop_request any_teensy (byte 1 ∷ []) history refl (tt, tt)

-- A kernel that is asked to drive to the mine, and takes one drive message.
abbrev pub drive_request : Ping
drive_request = record { type = 2; code = 16; excess = 2 }

pub reached : Reach any_teensy new_teensy_device (record {
  kernel =
      drive_message_subscribe_callback zeros
        (robot_ping_handler drive_request (new_kernel any_teensy)).0;
  device = new_teensy_device;
})
reached = drives_robot zeros (requests drive_request begins)

abbrev pub moving : Robot
moving = record {
  kernel =
      drive_message_subscribe_callback zeros
        (robot_ping_handler drive_request (new_kernel any_teensy)).0;
  device = new_teensy_device;
}

pub measured : IsMeasured (new_kernel any_teensy)
unfolding new_kernel
measured = record { v_range = omega arith; w_range = omega arith; dt_range = omega arith }

pub buffered : (j : ℕ) → new_teensy_device.buffer j < 256
unfolding new_teensy_device
buffered j = omega arith

-- A drive message whose bytes are all 1, which comes after the request to drive.
abbrev ones : Memory
ones i = 1

abbrev told : Reach any_teensy new_teensy_device (record {
  kernel =
      drive_message_subscribe_callback ones
        (robot_ping_handler drive_request (new_kernel any_teensy)).0;
  device = new_teensy_device;
})
told = drives_robot ones (requests drive_request begins)

Reach-commanded_example :
    let k =
      drive_message_subscribe_callback ones
        (robot_ping_handler drive_request (new_kernel any_teensy)).0 in
    (k.receiving_cvels ≡ true)
    × (decode (send_turn (record { kernel = k; device = new_teensy_device })).1
        ≡ some (0x01010101, 0x01010101))
unfolding bit load32
Reach-commanded_example = Reach-commanded told measured buffered ((λ i. omega arith), tt)

Reach-frame_example :
    let sent = (cmd_vel_to_wire (sent_velocity 1000 70000)).buff in
    let m = c_str (record { text = sent.bytes; size = sent.byte_length }) zeros in
    let kernel = drive_message_subscribe_callback m moving.kernel in
    decode (send_turn (record moving { kernel = kernel })).1 ≡ some (1000, 70000)
unfolding new_kernel robot_ping_handler dispatch move_to_mine_handler on_flag
    drive_message_subscribe_callback has_flag
Reach-frame_example =
    Reach-frame 1000 70000 zeros measured buffered reached (omega arith) (omega arith)

Reach-convert_example :
    let got = read_turn moving (bytes (response 5 6 7 8) ++ (byte 1 ∷ [])) in
    let c = convert new_localizer (c_str (localizer_cmd_get_data got.0.kernel).1 zeros) in
    let s : State = record { x = 0; y = 0; theta = 0; v = 5; w = 6 } in
    (c.1 ≡ teensy_type)
    × (c.0.0.state ≡ s)
    × (state_of (path_state_from_wire create_path_state c.0.1.text) ≡ s)
    × (got.1 ≡ byte 1 ∷ [])
unfolding new_localizer
Reach-convert_example =
    Reach-convert 5 6 7 8 (byte 1 ∷ []) new_localizer zeros measured buffered reached (omega arith)
      (omega arith) (omega arith) (omega arith) new_localizer-IsPlaced
      (record {
        x_range = omega arith;
        y_range = omega arith;
        theta_range = omega arith;
        v_range = omega arith;
        w_range = omega arith;
      })

abbrev address : String
address = 1 ∷ []

abbrev addresses : Addresses
addresses = record {
  cmd_vel = 2 ∷ [];
  cmd_vel_topic = 3 ∷ [];
  localizer = 4 ∷ [];
  localizer_topic = 5 ∷ [];
}

kermit_quit-AllThreads_example :
    let made = init_teensy_peripheral {F = ℕ} (new_interface {F = ℕ} address 7 false no_sockets) in
    let begun = init_comms {F = ℕ} addresses 8 9 made in
    let ended = kermit_quit begun.0 in
    (begun.1 ≡ returned true)
    × ((init_comms {F = ℕ} addresses 8 9 begun.0).1 ≡ thrown future_already_retrieved)
    × (ended.1 ≡ returned true)
    × AllThreads true begun.0.sockets ended.0.sockets
    × (ended.0.running ≡ false)
    × ((destroy ended.0).closes ≡ 2)
unfolding same
kermit_quit-AllThreads_example = kermit_quit-AllThreads address addresses 7 8 9 false refl

abbrev settings : Settings
settings = record { s_port = []; s_period = 100000; time_alive = 0 }

-- Always true, a tick of a millisecond a turn, and true for three turns.
abbrev always : ℕ → Bool
always i = true

abbrev millis : ℕ → ℕ
millis i = i * 1000

abbrev thrice : ℕ → Bool
thrice i = ltb i 3

start-IsLast_example :
    (n : ℕ) × ((start {F = ℕ}
        (suc (2 * 1000000))
        always
        millis
        (set_alive_time 2 settings).0
        addresses
        8
        9
        (new_interface {F = ℕ} address 7 true no_sockets)).1
      ≡ some n)
    × IsLast always millis (2 * 1000000) n
    × (n ≤ 2 * 1000000)
start-IsLast_example =
    start-IsLast always millis settings address addresses 7 8 9 true 2 (omega arith)
      (λ i. omega arith)
