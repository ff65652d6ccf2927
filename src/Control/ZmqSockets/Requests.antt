-- ===== src/Control/ZmqSockets/Requests.antt =====
-- `request` and `publish` of src/control/ZMQControlClient.cpp on the node's own thread.
use sentinet_cpp.Common.{
  ℕ, zero, suc, ◌+◌, ◌<◌, ◌≡◌, refl, Bool, true, false, Option, none, some, List, [], ◌∷◌, arith,
  if◌then◌else◌,
}
use sentinet_cpp.Common.Maps.{String}
use sentinet_cpp.Control.ZmqSockets.{
  Sockets, initialize_publisher, initialize_client, publish, no_response, await_reply,
  concurrent_request, request,
}

-- The polls that come to nothing before the first reply, and that reply.
pub data Answers (polls : ℕ → Option String) : ℕ → ℕ → String → Type 0 where
  at_once : {i : ℕ} {reply : String} → polls i ≡ some reply → Answers polls i 0 reply
  later :
      {i n : ℕ} {reply : String}
      → polls i ≡ none
      → Answers polls (i + 1) n reply
      → Answers polls i (suc n) reply

abbrev pub copies : ℕ → String → List String
copies zero message = []
copies (suc n) message = message ∷ copies n message

await_reply-Answers :
    (retries i n : ℕ) (polls : ℕ → Option String) (message reply : String)
    → Answers polls i n reply
    → n < retries
    → await_reply retries i polls message ≡ (reply, copies n message)
unfolding await_reply
await_reply-Answers zero i n polls message reply a l = ground arith
await_reply-Answers (suc r) i zero polls message reply (at_once e) l = ground (arith, e)
await_reply-Answers (suc zero) i (suc n) polls message reply (later e a) l = ground arith
await_reply-Answers (suc (suc r)) i (suc n) polls message reply (later e a) l =
    let rest = await_reply-Answers (suc r) (i + 1) n polls message reply a (omega arith) in
    ground (arith, e, rest)

-- A request of a node with a client socket returns the reply of the first poll that finds one,
-- if that is among the first three; the message was sent once for each poll. The node has a client
-- socket again after it.
pub request-Answers :
    (n : ℕ) (polls : ℕ → Option String) (message reply : String) (publisher : Option String)
    → Answers polls 0 n reply
    → n < 3
    → let s : Sockets = record { this_publisher = publisher; this_client = true } in
      let r = request polls message s in
      (r.0.1 ≡ reply) × (r.1 ≡ copies (suc n) message) × (r.0.0 ≡ s)
unfolding request concurrent_request initialize_client
request-Answers n polls message reply publisher a l =
    let awaited = await_reply-Answers 3 0 n polls message reply a l in
    (ground (arith, awaited), ground (arith, awaited), ground (arith, awaited))

-- Without a reply to three polls the request sends the message three times and returns the text "No
-- response"; without a client socket it sends nothing and returns the empty text. Either way the
-- sockets of the node are what they were.
pub request_failed :
    (polls : ℕ → Option String) (message : String) (publisher : Option String) (client : Bool)
    → polls 0 ≡ none
    → polls 1 ≡ none
    → polls 2 ≡ none
    → let s : Sockets = record { this_publisher = publisher; this_client = client } in
      let r = request polls message s in
      (r.0.0 ≡ s)
      × (r.0.1 ≡ (if client then no_response else []))
      × (r.1 ≡ (if client then copies 3 message else []))
unfolding request concurrent_request await_reply initialize_client
request_failed polls message publisher true p q r =
    (ground (arith, p, q, r), ground (arith, p, q, r), ground (arith, p, q, r))
request_failed polls message publisher false p q r = (refl, refl, refl)

-- A publisher that was initialized sends one message. The socket is closed with it: a second call
-- sends nothing and returns false, until the publisher is initialized again.
pub publish-publish :
    (address topic message topic' message' : String) (client : Bool)
    → let s : Sockets = record { this_publisher = none; this_client = client } in
      let s1 = (initialize_publisher address s).0 in
      let r = publish topic message s1 in
      (r.0.1 ≡ true)
      × (r.1 ≡ record { address = address; topic = topic; message = message } ∷ [])
      × (publish topic' message' r.0.0 ≡ ((s, false), []))
      × (initialize_publisher address r.0.0 ≡ (s1, true))
unfolding publish initialize_publisher
publish-publish address topic message topic' message' client = (refl, refl, refl, refl)
