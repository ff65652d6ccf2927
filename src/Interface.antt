-- ===== src/Interface.antt =====
-- src/kernel/KermitNetworkInterface.cpp: what the kernel is built on, with the thread that talks to the
-- teensy, the loop that keeps the program alive, and its end.
pub mod Frames
pub mod Alive
pub mod Keeping
pub mod Reaching
pub mod Commanded
pub mod Sensed
pub mod Ending
pub mod Start
use sentinet_cpp.Common.{
  ℕ, zero, suc, ◌+◌, ◌*◌, ◌==◌, ◌&&◌, ◌||◌, ltb, if◌then◌else◌, Bool, true, false, not, Option,
  none, some, List,
}
use sentinet_cpp.Common.Maps.{String}
use sentinet_cpp.Control.ZmqClient.{
  SocketData, Outcome, returned, thrown, subscribe, publish_periodic, bind_server, quit,
}
use sentinet_cpp.Kernel.{Kernel, Teensy}
use sentinet_cpp.Serial.{
  Input, Status, TeensyDevice, new_teensy_device, Measured, send_drive, read_teensy_response,
}

-- The kernel of `Kernel` and the device of `teensy.dev`, which the thread uses.
pub record Robot : Type 0 where
  pub kernel : Kernel
  pub device : TeensyDevice

-- The first half of a turn of the thread of `init_teensy_peripheral`: the robot after it, and the bytes
-- handed to `write`.
unfoldable pub send_turn : Robot → Robot × List ℕ
send_turn r =
    let (device, frame) = send_drive r.kernel.teensy.lin r.kernel.teensy.ang r.device in
    (record r { device = device }, frame)

-- The second half, with the input that it leaves; the thread takes no lock between the two.
unfoldable pub read_turn : Robot → List Input → Robot × List Input
read_turn r input =
    let got =
      read_teensy_response r.device
        (record { omega = t.w; velocity = t.v; w_err = t.w_err; dt = t.dt }) input in
    (
      record {
        kernel = record k {
          teensy = record t {
            v = got.measured.velocity;
            w = got.measured.omega;
            w_err = got.measured.w_err;
            dt = got.measured.dt;
          };
        };
        device = got.device;
      },
      got.input,
    )
  where
    k : Kernel
    k = r.kernel

    t : Teensy
    t = r.kernel.teensy

unfoldable pub serial_turn : Robot → List Input → (Robot × List Input) × List ℕ
unfolding send_turn read_turn
serial_turn r input = let (sent, frame) = send_turn r in (read_turn sent input, frame)

-- The test of the loop of `kermit_start` in its turn `i`: what `running` is then, and the
-- microseconds since the start.
unfoldable pub goes_on : Bool → (ℕ → Bool) → (ℕ → ℕ) → ℕ → ℕ → Bool
goes_on infinite running elapsed alive i = running i && (infinite || ltb (elapsed i) alive)

-- That loop on fuel; its result is the number of turns.
unfoldable pub alive_loop : ℕ → Bool → (ℕ → Bool) → (ℕ → ℕ) → ℕ → ℕ → Option ℕ
unfolding goes_on
alive_loop zero infinite running elapsed alive i = none
alive_loop (suc fuel) infinite running elapsed alive i =
    let rest = alive_loop fuel infinite running elapsed alive (i + 1) in
    elim (goes_on infinite running elapsed alive i) [ true ↦ rest | false ↦ some i ]

-- `kermit_start` behind `init_comms`, with the seconds to be alive; 0 is forever.
unfoldable pub kermit_start : ℕ → (ℕ → Bool) → (ℕ → ℕ) → ℕ → Option ℕ
unfolding alive_loop
kermit_start fuel running elapsed time_alive =
    alive_loop fuel (time_alive == 0) running elapsed (time_alive * 1000000) 0

-- The addresses and topics of `init_comms`, which `to_conn_addr` makes from the ports.
pub record Addresses : Type 0 where
  pub cmd_vel : String
  pub cmd_vel_topic : String
  pub localizer : String
  pub localizer_topic : String

-- The state of the interface besides the robot: `async_sender` is whether the thread was made, and
-- `closes` counts the calls of `teensy_cleanup`.
pub record Interface (F : Type 0) : Type 0 where
  pub sockets : SocketData F
  pub running : Bool
  pub debug : Bool
  pub async_sender : Bool
  pub closes : ℕ

-- What `set_serial_attributes` and `set_alive_time` of src/kernel/KermitKernel.cpp set.
pub record Settings : Type 0 where
  pub s_port : String
  pub s_period : ℕ
  pub time_alive : ℕ

unfoldable pub set_serial_attributes : String → ℕ → Settings → Settings × Bool
set_serial_attributes port serial_period s =
    (record s { s_port = port; s_period = serial_period }, true)

unfoldable pub set_alive_time : ℕ → Settings → Settings × Bool
set_alive_time timer s = (record s { time_alive = timer }, true)

-- The constructor's calls of the two, with the name of the port.
unfoldable pub new_settings : String → Settings → Settings
unfolding set_serial_attributes set_alive_time
new_settings port s = (set_serial_attributes port 100000 (set_alive_time 0 s).0).0

module _ {F : Type 0} where
  -- The constructor, with the server that a `RMTControlClient` binds.
  unfoldable pub new_interface : String → F → Bool → SocketData F → Interface F
  new_interface address ping_server debug sockets = record {
    sockets = (bind_server address ping_server sockets).0;
    running = true;
    debug = debug;
    async_sender = false;
    closes = 0;
  }

  unfoldable pub init_teensy_peripheral : Interface F → Interface F
  init_teensy_peripheral s = if s.debug then s else record s { async_sender = true }

  -- The two threads, a subscription and a publisher of one message per second. An exception of the
  -- first call leaves the function.
  unfoldable pub init_comms : Addresses → F → F → Interface F → Interface F × Outcome
  init_comms a drive_message localizer_cmd s =
      let (sockets, outcome) = subscribe a.cmd_vel a.cmd_vel_topic drive_message s.sockets in
      elim outcome [
        | thrown e ↦ (record s { sockets = sockets }, thrown e)
        | returned done ↦
            let (sockets', outcome') =
              publish_periodic a.localizer a.localizer_topic localizer_cmd 1000000 sockets in
            elim outcome' [
              | thrown e ↦ (record s { sockets = sockets' }, thrown e)
              | returned done' ↦ (record s { sockets = sockets' }, returned true)
            ]
      ]

  -- `start` of the kernel, on fuel for the loop: the state at the loop, what `init_comms` ended with, and
  -- the number of turns.
  unfoldable pub start :
      ℕ
      → (ℕ → Bool)
      → (ℕ → ℕ)
      → Settings
      → Addresses
      → F
      → F
      → Interface F
      → (Interface F × Outcome) × Option ℕ
  unfolding init_teensy_peripheral init_comms kermit_start
  start fuel running elapsed s a drive_message localizer_cmd i =
      let (begun, outcome) = init_comms a drive_message localizer_cmd (init_teensy_peripheral i) in
      let turns = kermit_start fuel running elapsed s.time_alive in
      ((begun, outcome), elim outcome [ thrown e ↦ none | returned b ↦ turns ])

  unfoldable pub kermit_quit : Interface F → Interface F × Outcome
  kermit_quit s =
      let (sockets, outcome) = quit s.sockets in
      (
        record s {
          running = false;
          sockets = sockets;
          closes = if s.async_sender then s.closes + 1 else s.closes;
        },
        outcome,
      )

  -- The destructor; the one of the kernel calls `kermit_quit` before it.
  unfoldable pub destroy : Interface F → Interface F
  destroy s = record s { closes = s.closes + 1 }
