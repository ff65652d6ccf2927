-- ===== src/Examples/Robot.antt =====
-- The control client and the kernel at concrete inputs.
use sentinet_cpp.Common.{ℕ, ◌+◌, ◌≡◌, refl, arith, true, zeros, c_str, load32}
use sentinet_cpp.Common.Bits.{bit}
use sentinet_cpp.Control.RmtClient.{
  Ping, Handler, RmtClient, new_client, register_ping_func, ping_server_callback, ping_request,
  ping_response,
}
use sentinet_cpp.Control.RmtClient.Answers.{new_client-IsReady}
use sentinet_cpp.Kernel.{Kernel, Teensy, new_kernel, robot_ping_handler, kernel_client}
use sentinet_cpp.Kernel.Driving.{robot_ping_handler-receiving}
use sentinet_cpp.Kernel.Pings.{kernel-ping_request}

abbrev rest : Teensy
rest = record { lin = 3; ang = 4; v = 5; w = 6; w_err = 0; dt = 0 }

-- A request to start driving to the mine.
abbrev start_request : Ping
start_request = record { type = 8; code = 16; excess = 2 }

robot_ping_handler-receiving_example :
    ((robot_ping_handler start_request (new_kernel rest)).0.receiving_cvels ≡ true)
    × ((robot_ping_handler start_request (new_kernel rest)).1
        ≡ record { type = 1; code = 0; excess = 0 })
unfolding bit
robot_ping_handler-receiving_example = robot_ping_handler-receiving start_request (new_kernel rest)

kernel-ping_request_example :
    let r =
      ping_server_callback kernel_client
        (new_kernel rest)
        (c_str (ping_request (new_client Kernel) start_request).1 zeros) in
    (r.0.1 ≡ (robot_ping_handler start_request (new_kernel rest)).0)
    × ((ping_response (new_client Kernel) (c_str r.1 zeros)).1.type ≡ 1)
    × ((ping_response (new_client Kernel) (c_str r.1 zeros)).1.code ≡ 0)
unfolding load32
kernel-ping_request_example =
    kernel-ping_request (new_client Kernel) (new_kernel rest) start_request zeros zeros
      (new_client-IsReady Kernel) (omega arith) refl (omega arith) refl

-- A handler that counts and answers with the code that it got.
abbrev counting : Handler ℕ
counting p n = (n + 1, record { type = 1; code = p.code; excess = 0 })

abbrev counter_client : RmtClient ℕ
counter_client = (register_ping_func 8 counting (new_client ℕ)).0
