-- ===== src/Kernel.antt =====
-- src/kernel/KermitKernel.cpp: the kernel that drives the robot. A float is its 32-bit pattern, and
-- 0.0 is the pattern 0.
pub mod Driving
pub mod Pings
use sentinet_cpp.Common.{ℕ, ◌==◌, if◌then◌else◌, Bool, true, false, Memory, Message, zeros}
use sentinet_cpp.Common.Bits.{has_flag}
use sentinet_cpp.Messages.Rmt.Velocity.{CmdVel, create_cmd_vel, cmd_vel_from_wire}
use sentinet_cpp.Messages.Rmt.Sensor.{
  TeensySensorArray, create_teensy_sensor_array, teensy_sensor_array_to_wire,
}
use sentinet_cpp.Messages.Ping.{ack, state_request}
use sentinet_cpp.Control.RmtClient.{Ping, RmtClient, new_client, register_ping_func}

-- The codes and flags of a STATE_REQUEST in include/scpp/messages/ping_message_keys.h.
abbrev pub stop_everything : ℕ
stop_everything = 1

abbrev pub dump : ℕ
dump = 2

abbrev pub mine : ℕ
mine = 4

abbrev pub move_to_dump : ℕ
move_to_dump = 8

abbrev pub move_to_mine : ℕ
move_to_mine = 16

abbrev pub init_state : ℕ
init_state = 32

abbrev pub clean_exit : ℕ
clean_exit = 64

abbrev pub entering_state : ℕ
entering_state = 1

abbrev pub exiting_state : ℕ
exiting_state = 16

abbrev pub start_driving : ℕ
start_driving = 2

abbrev pub stop_driving : ℕ
stop_driving = 4

-- `teensy` of KermitNetworkInterface: the velocities commanded and those measured.
pub record Teensy : Type 0 where
  pub lin : ℕ
  pub ang : ℕ
  pub v : ℕ
  pub w : ℕ
  pub w_err : ℕ
  pub dt : ℕ

pub record Kernel : Type 0 where
  pub cvel_buffer : CmdVel
  pub teensy_buffer : TeensySensorArray
  pub receiving_cvels : Bool
  pub teensy : Teensy

unfoldable pub update_teensy_message : ℕ → ℕ → Kernel → Kernel
update_teensy_message lin ang k = record k { teensy = record t { lin = lin; ang = ang } }
  where
    t : Teensy
    t = k.teensy

-- The constructor, from the memory that `teensy` happens to hold.
unfoldable pub new_kernel : Teensy → Kernel
unfolding update_teensy_message
new_kernel teensy = update_teensy_message 0 0 (record {
  cvel_buffer = create_cmd_vel;
  teensy_buffer = create_teensy_sensor_array;
  receiving_cvels = false;
  teensy = teensy;
})

unfoldable pub drive_message_subscribe_callback : Memory → Kernel → Kernel
unfolding update_teensy_message
drive_message_subscribe_callback m k =
    let k' = record k { cvel_buffer = cmd_vel_from_wire k.cvel_buffer m } in
    if k'.receiving_cvels
    then update_teensy_message k'.cvel_buffer.lin k'.cvel_buffer.ang k'
    else update_teensy_message 0 0 k'

-- The measured values put into the outgoing message, which is returned as a string.
unfoldable pub localizer_cmd_get_data : Kernel → Kernel × Message
localizer_cmd_get_data k =
    let t =
      teensy_sensor_array_to_wire (record b { v = k.teensy.v; w = k.teensy.w; dt = k.teensy.dt }) in
    (
      record k { teensy_buffer = t },
      record { text = t.msg.buff.bytes; size = t.msg.buff.byte_length },
    )
  where
    b : TeensySensorArray
    b = k.teensy_buffer

abbrev receive : Bool → Kernel → Kernel
receive b k = record k { receiving_cvels = b }

-- `if (excess & flag) receiving_cvels = b;`.
unfoldable pub on_flag : ℕ → ℕ → Bool → Kernel → Kernel
on_flag excess flag b k = if has_flag excess flag then receive b k else k

unfoldable pub stop_everything_handler : ℕ → Kernel → Kernel
unfolding update_teensy_message
stop_everything_handler excess k = update_teensy_message 0 0 (receive false k)

-- START_DUMPING, CLEAN_END_DUMPING and ABORT_DUMPING are 2, 4 and 8.
unfoldable pub dump_handler : ℕ → Kernel → Kernel
unfolding on_flag
dump_handler excess k = on_flag excess exiting_state false (
    on_flag excess 8 false
      (on_flag excess 4 false (on_flag excess 2 false (on_flag excess entering_state false k))))

-- START_MINING, CLEAN_END_MINING and ABORT_MINING are 2, 8 and 4.
unfoldable pub mine_handler : ℕ → Kernel → Kernel
unfolding on_flag
mine_handler excess k = on_flag excess exiting_state false (
    on_flag excess 4 false
      (on_flag excess 8 false (on_flag excess 2 false (on_flag excess entering_state false k))))

unfoldable pub move_to_mine_handler : ℕ → Kernel → Kernel
unfolding on_flag
move_to_mine_handler excess k = on_flag excess exiting_state false (
    on_flag excess stop_driving false
      (on_flag excess start_driving true (on_flag excess entering_state false k)))

unfoldable pub move_to_dump_handler : ℕ → Kernel → Kernel
unfolding on_flag
move_to_dump_handler excess k = on_flag excess exiting_state false (
    on_flag excess stop_driving false
      (on_flag excess start_driving true (on_flag excess entering_state false k)))

-- SYS_ON, ZERO_ALL and DEPLOY_CAMERA are 2, 4 and 8.
unfoldable pub init_handler : ℕ → Kernel → Kernel
unfolding on_flag
init_handler excess k =
    on_flag excess 8 false
      (on_flag excess 4 false (on_flag excess 2 false (on_flag excess entering_state false k)))

-- RETRACT_ALL and SYS_OFF are 4 and 8.
unfoldable pub clean_exit_handler : ℕ → Kernel → Kernel
unfolding on_flag
clean_exit_handler excess k =
    on_flag excess 8 false (on_flag excess 4 true (on_flag excess entering_state false k))

-- The `switch (p.code)`.
unfoldable pub dispatch : ℕ → ℕ → Kernel → Kernel
unfolding stop_everything_handler dump_handler mine_handler move_to_dump_handler
    move_to_mine_handler init_handler clean_exit_handler
dispatch code excess k =
    if code == stop_everything
    then stop_everything_handler excess k
    else if code == dump
    then dump_handler excess k
    else if code == mine
    then mine_handler excess k
    else if code == move_to_dump
    then move_to_dump_handler excess k
    else if code == move_to_mine
    then move_to_mine_handler excess k
    else if code == init_state
    then init_handler excess k
    else if code == clean_exit
    then clean_exit_handler excess k
    else k

unfoldable pub robot_ping_handler : Ping → Kernel → Kernel × Ping
unfolding dispatch
robot_ping_handler p k = (dispatch p.code p.excess k, record { type = ack; code = 0; excess = 0 })

-- The client that the constructor leaves, with its handler for STATE_REQUEST.
unfoldable pub kernel_client : RmtClient Kernel
unfolding new_client register_ping_func robot_ping_handler
kernel_client = (register_ping_func state_request robot_ping_handler (new_client Kernel)).0
