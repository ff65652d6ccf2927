-- ===== src/Kernel/Driving.antt =====
-- When the kernel accepts velocities, and what it then commands.
use sentinet_cpp.Common.{
  ℕ, ◌≡◌, refl, Bool, true, false, ◌||◌, List, [], ◌∷◌, arith, ◌==◌, if◌then◌else◌, Memory, ap, ◌∙◌,
  load32,
}
use sentinet_cpp.Common.Bits.{bit, has_flag-pow}
use sentinet_cpp.Messages.Rmt.Velocity.{cmd_vel_from_wire}
use sentinet_cpp.Control.RmtClient.{Ping}
use sentinet_cpp.Kernel.{
  Kernel, Teensy, new_kernel, drive_message_subscribe_callback, robot_ping_handler, stop_everything,
  dump, mine, move_to_dump, move_to_mine, init_state, clean_exit,
}

-- Some bit of the excess among those that a state's flags use.
abbrev any_bit : List ℕ → ℕ → Bool
any_bit [] excess = false
any_bit (i ∷ is) excess = bit i excess || any_bit is excess

-- Whether velocities are accepted after a request, bits 0 to 4 of the excess being its flags.
abbrev pub accepts : ℕ → ℕ → Bool → Bool
accepts code excess old =
    if code == stop_everything
    then false
    else if code == dump || code == mine
    then (if any_bit (0 ∷ 1 ∷ 2 ∷ 3 ∷ 4 ∷ []) excess then false else old)
    else if code == move_to_dump || code == move_to_mine
    then (if bit 2 excess || bit 4 excess
        then false
        else if bit 1 excess
        then true
        else if bit 0 excess
        then false
        else old)
    else if code == init_state
    then (if any_bit (0 ∷ 1 ∷ 2 ∷ 3 ∷ []) excess then false else old)
    else if code == clean_exit
    then (if bit 3 excess
        then false
        else if bit 2 excess
        then true
        else if bit 0 excess
        then false
        else old)
    else old

-- After a request the kernel accepts velocities exactly as the code and the bits of the excess say:
-- a request to stop, or one flag of dumping, mining or starting up, ends it; a driving request
-- starts it by bit 1 unless bit 2 or 4 is set; a clean exit starts it by bit 2 unless bit 3 is set;
-- any other code leaves it as it was, also one that is the bits of several of these requests or'ed.
-- The reply is a plain acknowledgement.
pub robot_ping_handler-receiving :
    (p : Ping) (k : Kernel)
    → ((robot_ping_handler p k).0.receiving_cvels ≡ accepts p.code p.excess k.receiving_cvels)
      × ((robot_ping_handler p k).1 ≡ record { type = 1; code = 0; excess = 0 })
unfolding robot_ping_handler
robot_ping_handler-receiving p k = (
  ground (
    arith,
    has_flag-pow 0 p.excess,
    has_flag-pow 1 p.excess,
    has_flag-pow 2 p.excess,
    has_flag-pow 3 p.excess,
    has_flag-pow 4 p.excess,
  ),
  refl,
)

-- A request changes the commanded velocities only by STOP_EVERYTHING, which sets both to zero.
-- Every other request, also one that stops driving or leaves a state, keeps them, and none changes
-- the values measured.
pub robot_ping_handler-teensy :
    (p : Ping) (k : Kernel)
    → (robot_ping_handler p k).0.teensy ≡ (record k.teensy {
      lin = if p.code == stop_everything then 0 else k.teensy.lin;
      ang = if p.code == stop_everything then 0 else k.teensy.ang;
    })
unfolding robot_ping_handler
robot_ping_handler-teensy p k = ground arith

-- What happens to a kernel: a request, a drive message, or new values measured by the thread that
-- talks to the robot.
pub data Event : Type 0 where
  pings : Ping → Event
  drives : Memory → Event
  measures : ℕ → ℕ → ℕ → ℕ → Event

unfoldable pub step : Kernel → Event → Kernel
step k (pings p) = (robot_ping_handler p k).0
step k (drives m) = drive_message_subscribe_callback m k
step k (measures v w w_err dt) = record k {
  teensy = record t { v = v; w = w; w_err = w_err; dt = dt };
}
  where
    t : Teensy
    t = k.teensy

pub run : Kernel → List Event → Kernel
run k [] = k
run k (e ∷ es) = run (step k e) es

-- No request of the history starts the acceptance of velocities.
abbrev pub IsQuiet : List Event → Type 0
IsQuiet [] = Unit {0}
IsQuiet (pings p ∷ es) = (accepts p.code p.excess false ≡ false) × IsQuiet es
IsQuiet (drives m ∷ es) = IsQuiet es
IsQuiet (measures v w w_err dt ∷ es) = IsQuiet es

-- The robot is told to stand still, and drive messages cannot change that.
pub record IsStill (k : Kernel) : Type 0 where
  pub deaf : k.receiving_cvels ≡ false
  pub no_lin : k.teensy.lin ≡ 0
  pub no_ang : k.teensy.ang ≡ 0

ping-IsStill :
    (p : Ping) (k : Kernel)
    → accepts p.code p.excess false ≡ false
    → IsStill k
    → IsStill (robot_ping_handler p k).0
ping-IsStill p k quiet s =
    let t = robot_ping_handler-teensy p k in
    record {
      deaf = (robot_ping_handler-receiving p k).0 ∙ (ap (accepts p.code p.excess) s.deaf ∙ quiet);
      no_lin = ap (λ (t : Teensy). t.lin) t ∙ ground arith;
      no_ang = ap (λ (t : Teensy). t.ang) t ∙ ground arith;
    }

-- A drive message commands its velocities where they are accepted, and zero where they are not.
pub drive_message-teensy :
    (m : Memory) (k : Kernel)
    → let k' = drive_message_subscribe_callback m k in
      (k'.receiving_cvels ≡ k.receiving_cvels)
      × (k'.teensy.lin ≡ (if k.receiving_cvels then load32 m (k.cvel_buffer.indexes 0) else 0))
      × (k'.teensy.ang ≡ (if k.receiving_cvels then load32 m (k.cvel_buffer.indexes 1) else 0))
unfolding drive_message_subscribe_callback cmd_vel_from_wire
drive_message-teensy m k = ground arith

run-IsStill : (es : List Event) (k : Kernel) → IsQuiet es → IsStill k → IsStill (run k es)
unfolding run step
run-IsStill [] k q s = s
run-IsStill (pings p ∷ es) k q s =
    run-IsStill es ((robot_ping_handler p k).0) q.1 (ping-IsStill p k q.0 s)
run-IsStill (drives m ∷ es) k q s =
    let d = drive_message-teensy m k in
    run-IsStill es (drive_message_subscribe_callback m k) q (record {
      deaf = ground arith;
      no_lin = ground (arith, s.deaf);
      no_ang = ground (arith, s.deaf);
    })
run-IsStill (measures v w w_err dt ∷ es) k q s =
    run-IsStill es (step k (measures v w w_err dt)) q
      (record { deaf = s.deaf; no_lin = s.no_lin; no_ang = s.no_ang })

pub step-IsStill : (e : Event) (k : Kernel) → IsQuiet (e ∷ []) → IsStill k → IsStill (step k e)
unfolding run
step-IsStill e k q s = run-IsStill (e ∷ []) k q s

pub stop-IsStill : (k : Kernel) (p : Ping) → p.code ≡ stop_everything → IsStill (step k (pings p))
unfolding step
stop-IsStill k p e =
    let t = robot_ping_handler-teensy p k in
    record {
      deaf = (robot_ping_handler-receiving p k).0 ∙ ground arith;
      no_lin = ap (λ (t : Teensy). t.lin) t ∙ ground arith;
      no_ang = ap (λ (t : Teensy). t.ang) t ∙ ground arith;
    }

pub new_kernel-IsStill : (t : Teensy) → IsStill (new_kernel t)
unfolding new_kernel
new_kernel-IsStill t = record { deaf = refl; no_lin = refl; no_ang = refl }

-- From its start on, whatever the memory held, and through every history without a request that
-- starts the acceptance of velocities, the kernel tells the robot to stand still.
pub run-new_kernel-IsStill :
    (t : Teensy) (es : List Event) → IsQuiet es → IsStill (run (new_kernel t) es)
run-new_kernel-IsStill t es q = run-IsStill es (new_kernel t) q (new_kernel-IsStill t)

-- STOP_EVERYTHING, in any state and with any excess, makes the robot stand still until a request
-- starts the acceptance of velocities anew.
pub run-stop-IsStill :
    (k : Kernel) (p : Ping) (es : List Event)
    → p.code ≡ stop_everything
    → IsQuiet es
    → IsStill (run (step k (pings p)) es)
run-stop-IsStill k p es e q = run-IsStill es (step k (pings p)) q (stop-IsStill k p e)
