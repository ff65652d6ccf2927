-- ===== src/Control/ZmqSockets.antt =====
-- src/control/ZMQControlClient.cpp: the two sockets that a node uses on its own thread, one that
-- publishes and one that requests. The messages put on a socket are returned as a list.
pub mod Requests
use sentinet_cpp.Common.{ℕ, zero, suc, ◌+◌, Bool, true, false, Option, none, some, List, [], ◌∷◌}
use sentinet_cpp.Common.Maps.{String}

-- The address that a socket is connected to, where it is.
pub record Sockets : Type 0 where
  pub this_publisher : Option String
  pub this_client : Bool

unfoldable pub no_sockets : Sockets
no_sockets = record { this_publisher = none; this_client = false }

unfoldable pub initialize_publisher : String → Sockets → Sockets × Bool
initialize_publisher address s = elim s.this_publisher [
  | some old ↦ (s, false)
  | none ↦ (record s { this_publisher = some address }, true)
]

unfoldable pub initialize_client : Sockets → Sockets × Bool
initialize_client s = elim s.this_client [
  | true ↦ (s, false)
  | false ↦ (record s { this_client = true }, true)
]

-- What was sent: the address, the topic and the message.
pub record Published : Type 0 where
  pub address : String
  pub topic : String
  pub message : String

-- `concurrent_publish` takes the socket over, which is closed at its end.
unfoldable pub publish : String → String → Sockets → (Sockets × Bool) × List Published
publish topic message s = elim s.this_publisher [
  | none ↦ ((s, false), [])
  | some address ↦ (
    (record s { this_publisher = none }, true),
    record { address = address; topic = topic; message = message } ∷ [],
  )
]

-- "No response"
abbrev pub no_response : String
no_response = 78 ∷ 111 ∷ 32 ∷ 114 ∷ 101 ∷ 115 ∷ 112 ∷ 111 ∷ 110 ∷ 115 ∷ 101 ∷ []

abbrev pub request_retries : ℕ
request_retries = 3

-- The loop of `concurrent_request` behind its first send, with `retries_left` and the number of polls
-- so far: the reply and the messages sent again. `polls i` is the reply that poll number `i` finds,
-- `none` after 100 milliseconds without one. The counter goes down before every other poll, so
-- that both loops end with it.
unfoldable pub await_reply : ℕ → ℕ → (ℕ → Option String) → String → String × List String
await_reply zero i polls message = (no_response, [])
await_reply (suc retries_left) i polls message =
    let again = await_reply retries_left (i + 1) polls message in
    elim (polls i) [
      | some reply ↦ (reply, [])
      | none ↦ elim retries_left [
        | zero ↦ (no_response, [])
        | suc more ↦ (again.0, message ∷ again.1)
      ]
    ]

-- The client socket is taken over and a new one is made at the end.
unfoldable pub concurrent_request :
    (ℕ → Option String) → String → Sockets → (Sockets × String) × List String
unfolding await_reply initialize_client
concurrent_request polls message s =
    let (reply, sent) = await_reply request_retries 0 polls message in
    (((initialize_client s).0, reply), message ∷ sent)

unfoldable pub request : (ℕ → Option String) → String → Sockets → (Sockets × String) × List String
unfolding concurrent_request
request polls message s = elim s.this_client [
  | false ↦ ((s, []), [])
  | true ↦ concurrent_request polls message (record s { this_client = false })
]
