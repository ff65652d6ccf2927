-- ===== src/Interface/Frames.antt =====
-- What the thread of `init_teensy_peripheral` in src/kernel/KermitNetworkInterface.cpp writes to the port
-- while requests and drive messages come in.
use sentinet_cpp.Common.{
  ℕ, suc, ◌^◌, ◌<◌, ◌≡◌, refl, ◌∙◌, sym, subst, ap, arith, Bool-cases, inl, inr, some, List, [],
  ◌∷◌, Memory, length, c_str, if◌then◌else◌, load32, store32,
}
use sentinet_cpp.Control.RmtClient.{Ping}
use sentinet_cpp.Messages.Rmt.Velocity.{create_cmd_vel, cmd_vel_to_wire}
use sentinet_cpp.Messages.Rmt.RoundTrips.{sent_velocity}
use sentinet_cpp.Kernel.{Teensy, new_kernel, drive_message_subscribe_callback, stop_everything}
use sentinet_cpp.Kernel.Driving.{
  Event, pings, step, IsQuiet, IsStill, step-IsStill, stop-IsStill, new_kernel-IsStill,
  drive_message-teensy,
}
use sentinet_cpp.Serial.{Input, send_drive}
use sentinet_cpp.Serial.Frames.{decode, send_drive-decode}
use sentinet_cpp.Interface.{Robot, send_turn, read_turn}

-- What happens to a robot: a request or a drive message in another thread, and the two halves of a
-- turn of the thread of the port.
pub data RobotEvent : Type 0 where
  handles : Event → RobotEvent
  sends reads : RobotEvent

-- The frames that a history hands to `write`.
pub frames : Robot → List Input → List RobotEvent → List (List ℕ)
frames r input [] = []
frames r input (handles e ∷ es) = frames (record r { kernel = step r.kernel e }) input es
frames r input (sends ∷ es) = (send_turn r).1 ∷ frames (send_turn r).0 input es
frames r input (reads ∷ es) = frames (read_turn r input).0 (read_turn r input).1 es

abbrev sendings : List RobotEvent → ℕ
sendings [] = 0
sendings (handles e ∷ es) = sendings es
sendings (sends ∷ es) = suc (sendings es)
sendings (reads ∷ es) = sendings es

-- No request of the history starts the acceptance of velocities.
abbrev pub IsQuietRobot : List RobotEvent → Type 0
IsQuietRobot [] = Unit {0}
IsQuietRobot (handles e ∷ es) = IsQuiet (e ∷ []) × IsQuietRobot es
IsQuietRobot (sends ∷ es) = IsQuietRobot es
IsQuietRobot (reads ∷ es) = IsQuietRobot es

-- Every frame tells the robot to stand still.
abbrev pub AllStop : List (List ℕ) → Type 0
AllStop [] = Unit {0}
AllStop (f ∷ fs) = (decode f ≡ some (0, 0)) × AllStop fs

read_turn-IsStill :
    (r : Robot) (input : List Input) → IsStill r.kernel → IsStill (read_turn r input).0.kernel
unfolding read_turn
read_turn-IsStill r input s = record { deaf = s.deaf; no_lin = s.no_lin; no_ang = s.no_ang }

send_turn-decode :
    (r : Robot) (lin ang : ℕ)
    → r.kernel.teensy.lin ≡ lin
    → r.kernel.teensy.ang ≡ ang
    → lin < 2 ^ 32
    → ang < 2 ^ 32
    → decode (send_turn r).1 ≡ some (lin, ang)
unfolding send_turn
send_turn-decode r lin ang a b p q =
    subst (λ n. decode (send_drive n r.kernel.teensy.ang r.device).1 ≡ some (lin, ang)) (sym a)
      (subst (λ n. decode (send_drive lin n r.device).1 ≡ some (lin, ang)) (sym b)
        (send_drive-decode lin ang r.device p q).0)

send_turn-IsStill : (r : Robot) → IsStill r.kernel → IsStill (send_turn r).0.kernel
unfolding send_turn
send_turn-IsStill r s = record { deaf = s.deaf; no_lin = s.no_lin; no_ang = s.no_ang }

frames-AllStop :
    (r : Robot) (input : List Input) (es : List RobotEvent)
    → IsQuietRobot es
    → IsStill r.kernel
    → AllStop (frames r input es) × (length (frames r input es) ≡ sendings es)
unfolding frames
frames-AllStop r input [] q s = (tt, refl)
frames-AllStop r input (handles e ∷ es) q s =
    frames-AllStop (record r { kernel = step r.kernel e }) input es q.1
      (step-IsStill e r.kernel q.0 s)
frames-AllStop r input (sends ∷ es) q s =
    let stop = send_turn-decode r 0 0 s.no_lin s.no_ang (omega arith) (omega arith) in
    let (stops, n) = frames-AllStop (send_turn r).0 input es q (send_turn-IsStill r s) in
    ((stop, stops), ap suc n)
frames-AllStop r input (reads ∷ es) q s =
    frames-AllStop (read_turn r input).0 (read_turn r input).1 es q (read_turn-IsStill r input s)

-- After STOP_EVERYTHING, in any state, and from the start of the kernel on, whatever the memory held:
-- every frame that is written tells the robot to stand still, however requests, drive messages and
-- the two halves of the turns of the port's thread follow each other and whatever the port gives to
-- read, as long as no request starts the acceptance of velocities. There is one frame to each first
-- half of a turn.
pub frames-stop :
    (r : Robot) (p : Ping) (t : Teensy) (input : List Input) (es : List RobotEvent)
    → p.code ≡ stop_everything
    → IsQuietRobot es
    → let stopped = frames r input (handles (pings p) ∷ es) in
      let started = frames (record { kernel = new_kernel t; device = r.device }) input es in
      AllStop stopped
      × (length stopped ≡ sendings es)
      × AllStop started
      × (length started ≡ sendings es)
unfolding frames
frames-stop r p t input es e q =
    let (stops, n) =
      frames-AllStop (record r { kernel = step r.kernel (pings p) }) input es q
        (stop-IsStill r.kernel p e) in
    let (quiet, m) =
      frames-AllStop (record { kernel = new_kernel t; device = r.device }) input es q
        (new_kernel-IsStill t) in
    (stops, n, quiet, m)

abbrev pub drive_message : ℕ → ℕ → Memory → Memory
drive_message lin ang tail =
    let sent = (cmd_vel_to_wire (sent_velocity lin ang)).buff in
    c_str (record { text = sent.bytes; size = sent.byte_length }) tail

drive_message_words :
    (lin ang : ℕ) (tail : Memory)
    → lin < 2 ^ 32
    → ang < 2 ^ 32
    → (load32 (drive_message lin ang tail) (create_cmd_vel.indexes 0) ≡ lin)
      × (load32 (drive_message lin ang tail) (create_cmd_vel.indexes 1) ≡ ang)
unfolding create_cmd_vel cmd_vel_to_wire load32 store32
drive_message_words lin ang tail p q = omega arith

-- The velocities of a drive message come out at the port: where the kernel accepts them, the frame
-- of the next turn carries the two 32-bit values of the message, whatever lies behind the message and
-- whatever the device and the kernel held before; where it does not, the frame carries zeros.
pub drive_message-frame :
    (r : Robot) (lin ang : ℕ) (tail : Memory)
    → lin < 2 ^ 32
    → ang < 2 ^ 32
    → r.kernel.cvel_buffer.indexes ≡ create_cmd_vel.indexes
    → let kernel = drive_message_subscribe_callback (drive_message lin ang tail) r.kernel in
      let frame = (send_turn (record r { kernel = kernel })).1 in
      decode frame ≡ some (if r.kernel.receiving_cvels then (lin, ang) else (0, 0))
drive_message-frame r lin ang tail p q placed =
    let m = drive_message lin ang tail in
    let k' = drive_message_subscribe_callback m r.kernel in
    let (kept, lin_is, ang_is) = drive_message-teensy m r.kernel in
    let (w0, w1) = drive_message_words lin ang tail p q in
    let at0 : load32 m (r.kernel.cvel_buffer.indexes 0) ≡ lin =
      ap (λ f. load32 m (f 0)) placed ∙ w0 in
    let at1 : load32 m (r.kernel.cvel_buffer.indexes 1) ≡ ang =
      ap (λ f. load32 m (f 1)) placed ∙ w1 in
    let after = record r { kernel = k' } in
    elim (Bool-cases r.kernel.receiving_cvels) [
      | inl e ↦
          send_turn-decode after lin ang (lin_is ∙ ground (arith, e, at0))
            (ang_is ∙ ground (arith, e, at1)) p q
          ∙ ground (arith, e)
      | inr e ↦
          send_turn-decode after 0 0 (lin_is ∙ ground (arith, e)) (ang_is ∙ ground (arith, e))
            (omega arith) (omega arith)
          ∙ ground (arith, e)
    ]
