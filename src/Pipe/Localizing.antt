-- ===== src/Pipe/Localizing.antt =====
-- A proxy of src/messages/pipe/ProxyInterface.cpp with the filter of src/messages/pipe/Simple_Localizer.cpp,
-- as src/impl/kermit_proxy.cpp sets it up: strings of bytes go in and out.
pub mod Following
use sentinet_cpp.Common.{
  ℕ, zero, suc, ◌+◌, ◌≡◌, refl, ap, ◌∙◌, sym, subst, arith, ltb, if◌then◌else◌, Option, none, some,
  List, [], ◌∷◌, ◌++◌, Memory, Message, slice, c_str, load32, store32,
}
use sentinet_cpp.Common.Maps.{String, find}
use sentinet_cpp.Messages.Rmt.PathState.{
  create_path_state, path_state_from_wire, path_state_to_wire,
}
use sentinet_cpp.Messages.Rmt.Sensor.{
  create_teensy_sensor_array, create_camera_msg, teensy_sensor_array_to_wire, camera_msg_to_wire,
}
use sentinet_cpp.Messages.Rmt.RoundTrips.{sent_teensy, sent_camera}
use sentinet_cpp.Localizer.{
  State, new_localizer, SimpleLocalizer, receive, convert, update_outgoing,
}
use sentinet_cpp.Localizer.Readings.{
  Reading, teensy, camera, InRange, IsPlaced, IsState, update, update-IsState, state_of,
}
use sentinet_cpp.Localizer.Latest.{
  convert-IsPlaced, receive-IsPlaced, no_state, new_localizer-IsPlaced,
}
use sentinet_cpp.Sensing.{array_at, receive_teensy}
use sentinet_cpp.Position.Published.{pose_at, receive_pose}
use sentinet_cpp.Control.NetworkPatterns.Serving.{found, two_parts}
use sentinet_cpp.Pipe.{Pipe, set_filter, create_pub_sub_endpoint}
use sentinet_cpp.Pipe.Turns.{
  Turn, stops, transduce, start_proxy, start_proxy-transduce, with_filters, polls_only, sent_parts,
}

-- The memory that a reader of a string of bytes sees.
abbrev pub memory_of : String → Memory → Memory
memory_of [] tail j = tail j
memory_of (b ∷ s) tail zero = b
memory_of (b ∷ s) tail (suc j) = memory_of s (λ i. tail (suc i)) j

abbrev pub string_of : Message → String
string_of m = slice m.text 0 m.size

-- The filter on strings.
unfoldable pub localize : Memory → SimpleLocalizer → String → SimpleLocalizer × String
localize tail l message =
    let ((l', sent), ret) = convert l (memory_of message tail) in (l', string_of sent)

memory_of-slice :
    (m tail : Memory) (a n j : ℕ)
    → memory_of (slice m a n) tail j ≡ (if ltb j n then m (a + j) else tail j)
memory_of-slice m tail a zero j = ground arith
memory_of-slice m tail a (suc n) zero = ground arith
memory_of-slice m tail a (suc n) (suc j) =
    let rest = memory_of-slice m (λ i. tail (suc i)) (a + 1) n j in
    let at : m (a + 1 + j) ≡ m (a + suc j) = ap m (omega arith) in ground (arith, rest, at)

string_of_at :
    (m : Message) (tail : Memory) (j : ℕ) → memory_of (string_of m) tail j ≡ c_str m tail j
string_of_at m tail j =
    let at : m.text (0 + j) ≡ m.text j = ap m.text (omega arith) in
    memory_of-slice m.text tail 0 m.size j ∙ ground (arith, at)

pub memory_of-string_of :
    (m : Message) (tail : Memory) → memory_of (string_of m) tail ≡ c_str m tail
memory_of-string_of m tail = λ i j. string_of_at m tail j i

-- The string of a reading as a sensor sends it.
unfoldable pub sent : Reading → String
sent (teensy v w dt) =
    let b = (teensy_sensor_array_to_wire (sent_teensy v w dt)).msg.buff in
    string_of (record { text = b.bytes; size = b.byte_length })
sent (camera x y theta dt) =
    let b = (camera_msg_to_wire (sent_camera x y theta dt)).msg.buff in
    string_of (record { text = b.bytes; size = b.byte_length })

pub receive-sent :
    (r : Reading) (l : SimpleLocalizer) (tail : Memory)
    → InRange r
    → IsPlaced l
    → (receive l (memory_of (sent r) tail)).0.state ≡ update r l.state
unfolding sent update teensy_sensor_array_to_wire camera_msg_to_wire create_teensy_sensor_array
    create_camera_msg
receive-sent (teensy v w dt) l tail i p =
    let b = (teensy_sensor_array_to_wire (sent_teensy v w dt)).msg.buff in
    let (head, v_is, w_is) =
      array_at create_teensy_sensor_array.msg.buff.bytes tail v w dt i.0 i.1 i.2 in
    let m : Message = record { text = b.bytes; size = b.byte_length } in
    subst (λ m. (receive l m).0.state ≡ record l.state { v = v; w = w })
      (sym (memory_of-string_of m tail)) (receive_teensy l (c_str m tail) v w p head v_is w_is).1
receive-sent (camera x y theta dt) l tail i p =
    let b = (camera_msg_to_wire (sent_camera x y theta dt)).msg.buff in
    let (head, x_is, y_is, theta_is) =
      pose_at create_camera_msg.msg.buff.bytes tail x y theta dt i.0 i.1 i.2 in
    let m : Message = record { text = b.bytes; size = b.byte_length } in
    subst (λ m. (receive l m).0.state ≡ record l.state { x = x; y = y; theta = theta })
      (sym (memory_of-string_of m tail))
      (receive_pose l (c_str m tail) x y theta p head x_is y_is theta_is).1
