-- ===== src/Control/RmtClient/Answers.antt =====
-- What a ping becomes on its way to a server's handler, and the handler's reply on its way back.
use sentinet_cpp.Common.{
  ℕ, ◌+◌, ◌*◌, ◌%◌, ◌^◌, ◌<◌, ◌≡◌, refl, ap, arith, leb, if◌then◌else◌, ◌==◌, Memory, c_str, load32,
  none, some, true, false, Option-cases, inl, inr,
}
use sentinet_cpp.Messages.Ping.{
  PingBuffer, create_buffer_ping, to_wire_ping, serialize_from_ping, max_ping_type,
  ping_header_size,
}
use sentinet_cpp.Messages.Ping.Wire.{InRange, serialize_from_ping-truncated}
use sentinet_cpp.Control.RmtClient.{
  Ping, Handler, RmtClient, new_client, find_callback, register_ping_func, answer,
  ping_server_callback, ping_request, ping_response,
}

-- The fields lie in the ranges of their types.
pub record IsPing (p : Ping) : Type 0 where
  pub type_range : p.type < 2 ^ 8
  pub code_range : p.code < 2 ^ 16
  pub excess_range : p.excess < 2 ^ 64

-- A buffer that is written to the wire has the protocol version and fields in range.
pub record IsOutgoing (b : PingBuffer) : Type 0 where
  pub version : b.prot ≡ 1
  pub op_range : b.op < 2 ^ 8
  pub check_range : b.check < 2 ^ 16

pub record IsReady {S : Type 0} (c : RmtClient S) : Type 0 where
  pub requests : IsOutgoing c.request
  pub answers : IsOutgoing c.outgoing

-- A ping as the other side has it, `tail` lying behind the string that it came in.
abbrev pub delivered : Ping → Memory → Ping
delivered p tail = record {
  type = if leb p.type max_ping_type then p.type else 0;
  code = p.code;
  excess = p.excess % 2 ^ 32 + 2 ^ 32 * load32 tail ping_header_size;
}

filled : PingBuffer → Ping → PingBuffer
filled b p = record b { type = p.type; code = p.code; excess = p.excess }

filled-InRange : (b : PingBuffer) (p : Ping) → IsOutgoing b → IsPing p → InRange (filled b p)
unfolding filled
filled-InRange b p o i = ground arith

-- A ping written to one buffer and read into another.
read_ping :
    (b d : PingBuffer) (p : Ping) (tail : Memory)
    → IsOutgoing b
    → IsPing p
    → let r = serialize_from_ping d (
        c_str
          (record { text = (to_wire_ping (filled b p)).bytes; size = ping_header_size })
          tail) in
      ◌≡◌ {A = Ping} (record { type = r.type; code = r.code; excess = r.excess }) (delivered p tail)
unfolding filled
read_ping b d p tail o i =
    let r = serialize_from_ping-truncated (filled b p) d tail (filled-InRange b p o i) o.version in
    ground (arith, r)

module _ {S : Type 0} where
  -- A server that is sent the message of a ping runs the handler for the ping's type on that ping, as
  -- it is delivered: a type above STATE_REQUEST reads as 0 and only the low half of the excess
  -- arrives. The sender reads the handler's reply, delivered in the same way.
  pub ping_server_callback-ping_request :
      (c d : RmtClient S) (s : S) (p : Ping) (t u : Memory)
      → IsReady c
      → IsReady d
      → IsPing p
      → IsPing (answer d (delivered p t) s).1
      → let r = ping_server_callback d s (c_str (ping_request c p).1 t) in
        (r.0.1 ≡ (answer d (delivered p t) s).0)
        × ((ping_response c (c_str r.1 u)).1 ≡ delivered (answer d (delivered p t) s).1 u)
  unfolding ping_server_callback ping_request ping_response
  ping_server_callback-ping_request c d s p t u sender receiver sent reply =
      let arriving = c_str (ping_request c p).1 t in
      let arrives : ◌≡◌ {A = Ping}
          (record {
            type = (serialize_from_ping d.incomming arriving).type;
            code = (serialize_from_ping d.incomming arriving).code;
            excess = (serialize_from_ping d.incomming arriving).excess;
          })
          (delivered p t) =
        unfold filled in read_ping c.request d.incomming p t sender.requests sent in
      (
        ap (λ (q : Ping). (answer d q s).0) arrives,
        rw arrives (
            unfold filled in
            read_ping d.outgoing c.reply (answer d (delivered p t) s).1 u receiver.answers reply),
      )

new_buffer-IsOutgoing : IsOutgoing create_buffer_ping
unfolding create_buffer_ping
new_buffer-IsOutgoing = record { version = refl; op_range = omega arith; check_range = omega arith }

pub new_client-IsReady : (S : Type 0) → IsReady (new_client S)
unfolding new_client
new_client-IsReady S = record { requests = new_buffer-IsOutgoing; answers = new_buffer-IsOutgoing }

module _ {S : Type 0} where
  pub register_ping_func-IsReady :
      (type : ℕ) (f : Handler S) (c : RmtClient S)
      → IsReady c
      → IsReady (register_ping_func type f c).0
  unfolding register_ping_func
  register_ping_func-IsReady type f c h =
      elim (Option-cases (find_callback type c.ping_callbacks)) [
        | inl e ↦ rw (e, register_ping_func) (record { requests = h.requests; answers = h.answers })
        | inr (g, e) ↦ rw (e, register_ping_func) h
      ]

  -- After `register_ping_func` the callback of a type that had none is the new one, every other type
  -- and a type that had one keep what they had, and the result says which of the two it was.
  pub find_callback-register_ping_func :
      (type other : ℕ) (f : Handler S) (c : RmtClient S)
      → let r = register_ping_func type f c in
        let old = find_callback other c.ping_callbacks in
        (find_callback other r.0.ping_callbacks
          ≡ (if type == other then elim old [ none ↦ some f | some g ↦ some g ] else old))
        × (r.1 ≡ elim (find_callback type c.ping_callbacks) [ none ↦ true | some g ↦ false ])
  unfolding register_ping_func find_callback
  find_callback-register_ping_func type other f c = (ground arith, ground arith)

  -- Whatever message a server answers, it stays ready to send and to answer.
  pub ping_server_callback-IsReady :
      (c : RmtClient S) (s : S) (m : Memory) → IsReady c → IsReady (ping_server_callback c s m).0.0
  unfolding ping_server_callback to_wire_ping
  ping_server_callback-IsReady c s m h = record {
    requests = h.requests;
    answers = record {
      version = h.answers.version;
      op_range = h.answers.op_range;
      check_range = h.answers.check_range;
    };
  }
