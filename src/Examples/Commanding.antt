-- ===== src/Examples/Commanding.antt =====
-- Drive messages under way to the robot, with two filters that are not used.
use sentinet_cpp.Common.{ℕ, ◌≡◌, refl, arith, false, none, some, List, [], ◌∷◌, Option, zeros}
use sentinet_cpp.Common.Bits.{has_flag}
use sentinet_cpp.Common.Maps.{String}
use sentinet_cpp.Control.NetworkPatterns.{subscription_thread}
use sentinet_cpp.Kernel.{
  new_kernel, drive_message_subscribe_callback, robot_ping_handler, dispatch, move_to_mine_handler,
  on_flag,
}
use sentinet_cpp.Pipe.{stop_proxy, spin, convert_all}
use sentinet_cpp.Pipe.Turns.{spins, start_proxy, proxy_loop, pub_sub_spin}
use sentinet_cpp.Serial.Frames.{decode}
use sentinet_cpp.Interface.{send_turn}
use sentinet_cpp.Programs.Addresses.{cmd_vel_topic}
use sentinet_cpp.Programs.KernelMain.{kernel_addresses}
use sentinet_cpp.Programs.Commanding.{drive_string, on_string, subscription_thread-frame}
use sentinet_cpp.Examples.Interface.{moving, measured, buffered, reached}

abbrev prefix : ℕ → String → ℕ × String
prefix c message = (c, c ∷ message)

abbrev polls : List (Option (String × String))
polls =
    some (cmd_vel_topic, drive_string (7, 8))
    ∷ none
    ∷ some (cmd_vel_topic, drive_string (1000, 70000))
    ∷ []

subscription_thread-frame_example :
    let k =
      (subscription_thread kernel_addresses.cmd_vel cmd_vel_topic
        (on_string zeros)
        (none ∷ polls)
        moving.kernel).0 in
    decode (send_turn (record moving { kernel = k })).1 ≡ some (1000, 70000)
unfolding start_proxy proxy_loop pub_sub_spin spin convert_all stop_proxy new_kernel
    robot_ping_handler dispatch move_to_mine_handler on_flag drive_message_subscribe_callback
    has_flag
subscription_thread-frame_example =
    subscription_thread-frame prefix zeros (7, 8) ((1000, 70000) ∷ []) polls (none ∷ polls)
      (spins false (some (cmd_vel_topic, [])) ∷ []) measured buffered reached refl
      (omega arith, omega arith, (omega arith, omega arith, tt)) refl refl
