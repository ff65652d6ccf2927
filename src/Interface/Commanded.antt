-- ===== src/Interface/Commanded.antt =====
-- What the robot of src/kernel/KermitNetworkInterface.cpp was last told, read off its history.
use sentinet_cpp.Common.{
  ℕ, ◌^◌, ◌<◌, ◌≡◌, refl, sym, subst, ap, ◌∙◌, ◌==◌, Bool, false, some, Memory, IsBytes, load32,
  load32-lt, arith, if◌then◌else◌,
}
use sentinet_cpp.Messages.Rmt.Velocity.{create_cmd_vel}
use sentinet_cpp.Kernel.{
  Kernel, Teensy, new_kernel, drive_message_subscribe_callback, robot_ping_handler,
  localizer_cmd_get_data, stop_everything,
}
use sentinet_cpp.Kernel.Driving.{
  accepts, robot_ping_handler-receiving, robot_ping_handler-teensy, drive_message-teensy,
}
use sentinet_cpp.Control.RmtClient.{Ping}
use sentinet_cpp.Serial.{TeensyDevice}
use sentinet_cpp.Serial.Frames.{decode, send_drive-decode}
use sentinet_cpp.Sensing.{IsMeasured}
use sentinet_cpp.Interface.{Robot, send_turn, read_turn}
use sentinet_cpp.Interface.Reaching.{
  Reach, begins, requests, drives, sends, reads, publishes, Reach-IsReady,
}

-- The kernel accepts velocities or not, and is told these velocities.
record Obeys (k : Kernel) (on : Bool) (v : ℕ × ℕ) : Type 0 where
  pub receives : k.receiving_cvels ≡ on
  pub lin_is : k.teensy.lin ≡ v.0
  pub ang_is : k.teensy.ang ≡ v.1

requests-Obeys :
    (p : Ping) (k : Kernel) (on : Bool) (v : ℕ × ℕ)
    → Obeys k on v
    → Obeys
        (robot_ping_handler p k).0
        (accepts p.code p.excess on)
        (if p.code == stop_everything then (0, 0) else v)
requests-Obeys p k on v o =
    let t = robot_ping_handler-teensy p k in
    let same_lin = o.lin_is in
    let same_ang = o.ang_is in
    record {
      receives = (robot_ping_handler-receiving p k).0 ∙ ap (accepts p.code p.excess) o.receives;
      lin_is = ap (λ (t : Teensy). t.lin) t ∙ ground (arith, same_lin);
      ang_is = ap (λ (t : Teensy). t.ang) t ∙ ground (arith, same_ang);
    }

drives-Obeys :
    (m : Memory) (k : Kernel) (on : Bool) (v : ℕ × ℕ)
    → k.cvel_buffer.indexes ≡ create_cmd_vel.indexes
    → Obeys k on v
    → Obeys (drive_message_subscribe_callback m k) on (
        if on
        then (load32 m (create_cmd_vel.indexes 0), load32 m (create_cmd_vel.indexes 1))
        else (0, 0))
drives-Obeys m k on v placed o =
    let (same, lin, ang) = drive_message-teensy m k in
    let first = ap (λ (f : ℕ → ℕ). load32 m (f 0)) placed in
    let second = ap (λ (f : ℕ → ℕ). load32 m (f 1)) placed in
    let on_is = o.receives in
    record {
      receives = same ∙ on_is;
      lin_is = lin ∙ ground (arith, on_is, first);
      ang_is = ang ∙ ground (arith, on_is, second);
    }

module _ {t : Teensy} {d : TeensyDevice} where
  -- Whether velocities are accepted, by the requests of a history.
  abbrev pub allowed : {r : Robot} → Reach t d r → Bool
  allowed begins = false
  allowed (requests p h) = accepts p.code p.excess (allowed h)
  allowed (drives m h) = allowed h
  allowed (sends h) = allowed h
  allowed (reads input h) = allowed h
  allowed (publishes h) = allowed h

  -- The velocities of the last drive message of a history, unless they were not accepted or a request to stop
  -- everything followed.
  abbrev pub commanded : {r : Robot} → Reach t d r → ℕ × ℕ
  commanded begins = (0, 0)
  commanded (requests p h) = if p.code == stop_everything then (0, 0) else commanded h
  commanded (drives m h) =
      if allowed h
      then (load32 m (create_cmd_vel.indexes 0), load32 m (create_cmd_vel.indexes 1))
      else (0, 0)
  commanded (sends h) = commanded h
  commanded (reads input h) = commanded h
  commanded (publishes h) = commanded h

  -- The drive messages of a history are bytes.
  abbrev pub AllBytes : {r : Robot} → Reach t d r → Type 0
  AllBytes begins = Unit {0}
  AllBytes (requests p h) = AllBytes h
  AllBytes (drives m h) = IsBytes m × AllBytes h
  AllBytes (sends h) = AllBytes h
  AllBytes (reads input h) = AllBytes h
  AllBytes (publishes h) = AllBytes h

  Reach-Obeys :
      {r : Robot}
      → IsMeasured (new_kernel t)
      → IsBytes d.buffer
      → (h : Reach t d r) → Obeys r.kernel (allowed h) (commanded h)
  unfolding new_kernel send_turn read_turn localizer_cmd_get_data
  Reach-Obeys i b begins = record { receives = refl; lin_is = refl; ang_is = refl }
  Reach-Obeys i b (requests p {r} h) = requests-Obeys p r.kernel _ _ (Reach-Obeys i b h)
  Reach-Obeys i b (drives m {r} h) =
      drives-Obeys m r.kernel _ _ (Reach-IsReady i b h).placed (Reach-Obeys i b h)
  Reach-Obeys i b (sends h) = Reach-Obeys i b h
  Reach-Obeys i b (reads input h) =
      let o = Reach-Obeys i b h in
      record { receives = o.receives; lin_is = o.lin_is; ang_is = o.ang_is }
  Reach-Obeys i b (publishes h) =
      let o = Reach-Obeys i b h in
      record { receives = o.receives; lin_is = o.lin_is; ang_is = o.ang_is }

  commanded-lt :
      {r : Robot} (h : Reach t d r)
      → AllBytes h
      → ((commanded h).0 < 2 ^ 32) × ((commanded h).1 < 2 ^ 32)
  commanded-lt begins b = (omega arith, omega arith)
  commanded-lt (requests p h) b = let c = commanded-lt h b in (ground (arith, c), ground (arith, c))
  commanded-lt (drives m h) (b, bs) =
      let p = load32-lt m (create_cmd_vel.indexes 0) b in
      let q = load32-lt m (create_cmd_vel.indexes 1) b in (ground (arith, p), ground (arith, q))
  commanded-lt (sends h) b = commanded-lt h b
  commanded-lt (reads input h) b = commanded-lt h b
  commanded-lt (publishes h) b = commanded-lt h b

  -- In every state that the robot reaches, however the threads that share it take turns, whatever they receive
  -- and whatever the port gives to read: velocities are accepted exactly as the requests so far say,
  -- and the frame of the next turn carries the velocities of the last drive message, or zeros where it
  -- came while they were not accepted, where a request to stop everything followed, or where there was
  -- none. The memory of the robot holds 32-bit values and bytes at the start, and the messages bytes.
  pub Reach-commanded :
      {r : Robot} (h : Reach t d r)
      → IsMeasured (new_kernel t)
      → IsBytes d.buffer
      → AllBytes h
      → (r.kernel.receiving_cvels ≡ allowed h) × (decode (send_turn r).1 ≡ some (commanded h))
  unfolding send_turn
  Reach-commanded {r} h i b bs =
      let o = Reach-Obeys i b h in
      let (p, q) = commanded-lt h bs in
      let t = r.kernel.teensy in
      let small_lin = subst (λ x. x < 2 ^ 32) (sym o.lin_is) p in
      let small_ang = subst (λ x. x < 2 ^ 32) (sym o.ang_is) q in
      (
        o.receives,
        (send_drive-decode t.lin t.ang r.device small_lin small_ang).0
            ∙ (ap (λ x. some (x, t.ang)) o.lin_is ∙ ap (λ x. some ((commanded h).0, x)) o.ang_is),
      )
