-- ===== src/Control/RmtClient.antt =====
-- src/control/RMTControlClient.cpp: a node that sends pings and answers them. The handlers of a
-- derived class work on that class's state, `S`.
pub mod Answers
use sentinet_cpp.Common.{
  ℕ, ◌==◌, if◌then◌else◌, Bool, true, false, Option, none, some, List, [], ◌∷◌, Memory, Message,
  c_str,
}
use sentinet_cpp.Messages.Ping.{
  PingBuffer, create_buffer_ping, to_wire_ping, serialize_from_ping, ping_header_size, ack,
}

pub record Ping : Type 0 where
  pub type : ℕ  -- uint8_t
  pub code : ℕ  -- uint16_t
  pub excess : ℕ  -- uint64_t

-- A callback, with the state that it captures.
abbrev pub Handler : Type 0 → Type 0
Handler S = Ping → S → S × Ping

pub record RmtClient (S : Type 0) : Type 0 where
  pub ping_callbacks : List (ℕ × Handler S)
  pub incomming : PingBuffer
  pub outgoing : PingBuffer
  pub request : PingBuffer
  pub reply : PingBuffer

-- The constructor's part that concerns pings. `initialize_client` and `bind_server` are calls of the
-- control client.
unfoldable pub new_client : (S : Type 0) → RmtClient S
new_client S = record {
  ping_callbacks = [];
  incomming = create_buffer_ping;
  outgoing = create_buffer_ping;
  request = create_buffer_ping;
  reply = create_buffer_ping;
}

unfoldable pub process_control_command_default : Ping → Ping
process_control_command_default p = record { type = ack; code = 0; excess = 0 }

module _ {S : Type 0} where
  -- `unordered_map::find` on an association list without repeated keys.
  unfoldable pub find_callback : ℕ → List (ℕ × Handler S) → Option (Handler S)
  find_callback type [] = none
  find_callback type ((t, f) ∷ rest) = if t == type then some f else find_callback type rest

  unfoldable pub register_ping_func : ℕ → Handler S → RmtClient S → RmtClient S × Bool
  register_ping_func type callback c = elim (find_callback type c.ping_callbacks) [
    | none ↦ (record c { ping_callbacks = (type, callback) ∷ c.ping_callbacks }, true)
    | some f ↦ (c, false)
  ]

  -- The callback for the type of a ping, or the default.
  unfoldable pub answer : RmtClient S → Ping → S → S × Ping
  answer c p s = elim (find_callback p.type c.ping_callbacks) [
    | none ↦ (s, process_control_command_default p)
    | some f ↦ f p s
  ]

  -- The answer to the message `m`; `serialize_from_ping` returns 0 for every pointer that is not
  -- null, so the branch for an invalid request is not reached.
  unfoldable pub ping_server_callback : RmtClient S → S → Memory → (RmtClient S × S) × Message
  ping_server_callback c s m =
      let incomming = serialize_from_ping c.incomming m in
      let resp : Ping = record {
        type = incomming.type;
        code = incomming.code;
        excess = incomming.excess;
      } in
      let (s', ret) = answer c resp s in
      let outgoing =
        to_wire_ping
          (record c.outgoing { type = ret.type; code = ret.code; excess = ret.excess }) in
      (
        (record c { incomming = incomming; outgoing = outgoing }, s'),
        record { text = outgoing.bytes; size = ping_header_size },
      )

  -- The message that `ping_endpoint` sends, and the client after that.
  unfoldable pub ping_request : RmtClient S → Ping → RmtClient S × Message
  ping_request c p =
      let request =
        to_wire_ping (record c.request { type = p.type; code = p.code; excess = p.excess }) in
      (record c { request = request }, record { text = request.bytes; size = ping_header_size })

  -- What `ping_endpoint` makes of the response `m`.
  unfoldable pub ping_response : RmtClient S → Memory → RmtClient S × Ping
  ping_response c m =
      let reply = serialize_from_ping c.reply m in
      (
        record c { reply = reply },
        record { type = reply.type; code = reply.code; excess = reply.excess },
      )

  -- `ping_endpoint` over a network that answers the message sent with the memory of a response.
  unfoldable pub ping_endpoint : (Message → Memory) → RmtClient S → Ping → RmtClient S × Ping
  unfolding ping_request ping_response
  ping_endpoint network c p = let (c', sent) = ping_request c p in ping_response c' (network sent)
