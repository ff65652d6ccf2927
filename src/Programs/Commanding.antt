-- ===== src/Programs/Commanding.antt =====
-- From a controller over the proxy of src/impl/kermit_proxy.cpp to the port of the robot: what becomes of
-- drive messages under way.
use sentinet_cpp.Common.{
  ℕ, ◌^◌, ◌<◌, ◌≡◌, refl, sym, ap, ◌∙◌, subst, true, Option, none, some, List, [], ◌∷◌, ◌++◌, arith,
  if◌then◌else◌, Memory, IsBytes,
}
use sentinet_cpp.Common.Maps.{String, find}
use sentinet_cpp.Messages.Rmt.Velocity.{create_cmd_vel, cmd_vel_to_wire}
use sentinet_cpp.Messages.Rmt.RoundTrips.{sent_velocity}
use sentinet_cpp.Control.NetworkPatterns.{subscribe_loop, subscription_thread}
use sentinet_cpp.Control.NetworkPatterns.Serving.{found, two_parts}
use sentinet_cpp.Sensing.{IsMeasured}
use sentinet_cpp.Kernel.Driving.{drive_message-teensy}
use sentinet_cpp.Serial.{TeensyDevice}
use sentinet_cpp.Interface.Reaching.{Reach, Reach-IsReady}
use sentinet_cpp.Programs.Addresses.{
  cmd_vel_topic, to_bind_addr, cmd_vel_front_address, cmd_vel_back_address,
}
use sentinet_cpp.Programs.KernelMain.{kernel_addresses}
use sentinet_cpp.Programs.Endpoints.{cmd_vel_proxy}
use sentinet_cpp.Kernel.{Kernel, Teensy, new_kernel, drive_message_subscribe_callback}
use sentinet_cpp.Pipe.{convert_all}
use sentinet_cpp.Pipe.Turns.{
  Turn, stops, transduce, start_proxy, start_proxy-transduce, polls_only, sent_parts,
}
use sentinet_cpp.Pipe.Localizing.{memory_of, string_of, memory_of-string_of}
use sentinet_cpp.Serial.Frames.{decode}
use sentinet_cpp.Interface.{Robot, send_turn}
use sentinet_cpp.Interface.Frames.{drive_message, drive_message-frame}
use sentinet_cpp.Interface.Keeping.{drive_message_indexes}

-- The string of two velocities as a controller sends it.
unfoldable pub drive_string : ℕ × ℕ → String
drive_string (lin, ang) =
    let b = (cmd_vel_to_wire (sent_velocity lin ang)).buff in
    string_of (record { text = b.bytes; size = b.byte_length })

-- The kernel's callback on a string, with the memory behind it.
abbrev pub on_string : Memory → String → Kernel → Kernel
on_string tail message k = drive_message_subscribe_callback (memory_of message tail) k

drive_string-memory :
    (lin ang : ℕ) (tail : Memory)
    → memory_of (drive_string (lin, ang)) tail ≡ drive_message lin ang tail
unfolding drive_string
drive_string-memory lin ang tail =
    let b = (cmd_vel_to_wire (sent_velocity lin ang)).buff in
    memory_of-string_of (record { text = b.bytes; size = b.byte_length }) tail

-- The messages under a topic, and the polls of the kernel that find them.
abbrev pub commands : String → List (ℕ × ℕ) → List (String × String)
commands topic [] = []
commands topic (v ∷ vs) = (topic, drive_string v) ∷ commands topic vs

abbrev pub finding : List (String × String) → List (Option (String × String))
finding [] = []
finding (m ∷ ms) = some m ∷ finding ms

abbrev pub last : ℕ × ℕ → List (ℕ × ℕ) → ℕ × ℕ
last v [] = v
last v (w ∷ vs) = last w vs

abbrev pub AllWords : List (ℕ × ℕ) → Type 0
AllWords [] = Unit {0}
AllWords (v ∷ vs) = (v.0 < 2 ^ 32) × (v.1 < 2 ^ 32) × AllWords vs

module _ {F : Type 0} (apply : F → String → F × String) where
  transduce_nil : (ms : List (String × String)) → transduce apply [] ms ≡ ms
  unfolding transduce convert_all
  transduce_nil [] = refl
  transduce_nil ((topic, m) ∷ ms) = ap (λ r. (topic, m) ∷ r) (transduce_nil ms)

pub two_parts-injective : (ms ns : List (String × String)) → two_parts ms ≡ two_parts ns → ms ≡ ns
two_parts-injective [] [] e = refl
two_parts-injective [] (n ∷ ns) e = cc
two_parts-injective (m ∷ ms) [] e = cc
two_parts-injective ((t, m) ∷ ms) ((u, n) ∷ ns) e = let r = two_parts-injective ms ns (cc) in cc

subscribe_loop-frame :
    (tail : Memory) (topic : String) (v : ℕ × ℕ) (vs : List (ℕ × ℕ)) (r : Robot)
    → AllWords (v ∷ vs)
    → r.kernel.cvel_buffer.indexes ≡ create_cmd_vel.indexes
    → r.kernel.receiving_cvels ≡ true
    → let k = (subscribe_loop (on_string tail) (finding (commands topic (v ∷ vs))) r.kernel).0 in
      decode (send_turn (record r { kernel = k })).1 ≡ some (last v vs)
unfolding subscribe_loop
subscribe_loop-frame tail topic (lin, ang) [] r h placed on =
    let m = drive_string-memory lin ang tail in
    let frame = drive_message-frame r lin ang tail h.0 h.1 placed in
    subst
      (λ (m : Memory).
        decode (send_turn (record r { kernel = drive_message_subscribe_callback m r.kernel })).1
        ≡ (if r.kernel.receiving_cvels then some (lin, ang) else some (0, 0)))
      (sym m) (frame ∙ ground arith)
    ∙ ground (arith, on)
subscribe_loop-frame tail topic (lin, ang) (w ∷ vs) r h placed on =
    let k = on_string tail (drive_string (lin, ang)) r.kernel in
    let m = memory_of (drive_string (lin, ang)) tail in
    subscribe_loop-frame tail topic w vs (record r { kernel = k }) h.2
      ((drive_message_indexes m r.kernel).0 ∙ placed) ((drive_message-teensy m r.kernel).0 ∙ on)

subscribe_loop-found :
    {S : Type 0} (callback : String → S → S) (polls : List (Option (String × String))) (s : S)
    → (subscribe_loop callback (finding (found polls)) s).0 ≡ (subscribe_loop callback polls s).0
unfolding subscribe_loop
subscribe_loop-found callback [] s = refl
subscribe_loop-found callback (none ∷ polls) s = subscribe_loop-found callback polls s
subscribe_loop-found callback (some (topic, message) ∷ polls) s =
    subscribe_loop-found callback polls (callback message s)

-- A robot in any state that it reaches in which it accepts velocities, and the proxy for velocities as
-- the program of the proxies makes it. Where the drive messages of some pairs of 32-bit velocities,
-- at least one, go through the proxy until it is stopped, and the thread of the kernel finds what the
-- proxy sends on, the next frame at the port carries the last pair, whatever happens to the proxy
-- later, however often the polls find nothing, and whatever lies behind the messages in memory. The
-- memory of the robot holds 32-bit values and bytes at the start.
pub subscription_thread-frame :
    {F : Type 0} (apply : F → String → F × String) {t : Teensy} {d : TeensyDevice} {r : Robot}
    (tail : Memory) (v : ℕ × ℕ) (vs : List (ℕ × ℕ))
    (polls kernel_polls : List (Option (String × String))) (later : List (Turn F))
    → IsMeasured (new_kernel t)
    → IsBytes d.buffer
    → Reach t d r
    → r.kernel.receiving_cvels ≡ true
    → AllWords (v ∷ vs)
    → found polls ≡ commands cmd_vel_topic (v ∷ vs)
    → two_parts (found kernel_polls)
      ≡ sent_parts (start_proxy apply (polls_only polls ++ (stops ∷ later)) cmd_vel_proxy).1
    → let k =
        (subscription_thread kernel_addresses.cmd_vel cmd_vel_topic
          (on_string tail)
          kernel_polls
          r.kernel).0 in
      decode (send_turn (record r { kernel = k })).1 ≡ some (last v vs)
unfolding subscription_thread find
subscription_thread-frame apply {r} tail v vs polls kernel_polls later m b h on words sends gets =
    let (made, got, gave) =
      start_proxy-transduce apply cmd_vel_topic (to_bind_addr cmd_vel_front_address)
        (to_bind_addr cmd_vel_back_address) [] [] polls later refl in
    let same_messages =
      two_parts-injective (found kernel_polls) (found polls)
        (gets ∙ (gave ∙ ap two_parts (transduce_nil apply (found polls))))
      ∙ sends in
    let k_is : (subscribe_loop (on_string tail) (finding (commands cmd_vel_topic (v ∷ vs)))
          r.kernel).0
        ≡ (subscribe_loop (on_string tail) kernel_polls r.kernel).0 =
      ap (λ ms. (subscribe_loop (on_string tail) (finding ms) r.kernel).0) (sym same_messages)
      ∙ subscribe_loop-found (on_string tail) kernel_polls r.kernel in
    subst (λ (k : Kernel). decode (send_turn (record r { kernel = k })).1 ≡ some (last v vs)) k_is
      (subscribe_loop-frame tail cmd_vel_topic v vs r words (Reach-IsReady m b h).placed on)
