-- ===== src/Control/NetworkPatterns/Serving.antt =====
-- What goes over the sockets of the threads of src/control/NetworkPatterns.cpp.
use sentinet_cpp.Common.{
  ◌≡◌, refl, ap, Bool, true, false, Option, none, some, List, [], ◌∷◌, if◌then◌else◌,
}
use sentinet_cpp.Common.Maps.{String}
use sentinet_cpp.Control.NetworkPatterns.{
  SocketCall, connect, bind, s_recv, s_send, subscribe_loop, subscription_thread, serve_loop,
  server_thread, server_thread_bound, enter_server,
}

-- What the polls found, in order.
abbrev pub found : {A : Type 0} → List (Option A) → List A
found [] = []
found (none ∷ polls) = found polls
found (some a ∷ polls) = a ∷ found polls

-- A receive and a send for each request and its reply, as a REP socket wants them.
abbrev pub in_turn : List (String × String) → List SocketCall
in_turn [] = []
in_turn ((request, reply) ∷ rest) = s_recv request ∷ s_send reply ∷ in_turn rest

abbrev pub received : List SocketCall → List String
received [] = []
received (s_recv m ∷ calls) = m ∷ received calls
received (_ ∷ calls) = received calls

abbrev pub parts : List (String × String) → List String
parts [] = []
parts ((topic, message) ∷ rest) = topic ∷ message ∷ parts rest

-- Messages of two parts each as they are sent, each part with whether another one follows in its message.
abbrev pub two_parts : List (String × String) → List (Bool × String)
two_parts [] = []
two_parts ((topic, message) ∷ rest) = (true, topic) ∷ (false, message) ∷ two_parts rest

module _ {S : Type 0} where
  -- A service as a function of its requests: each request with the reply to it, and the state after
  -- the last one.
  unfoldable pub service : (String → S → S × String) → List String → S → S × List (String × String)
  service callback [] s = (s, [])
  service callback (request ∷ requests) s =
      let (s', reply) = callback request s in
      let (end, replies) = service callback requests s' in (end, (request, reply) ∷ replies)

  serve_loop-service :
      (callback : String → S → S × String) (polls : List (Option String)) (s : S)
      → serve_loop callback polls s
        ≡ ((service callback (found polls) s).0, in_turn (service callback (found polls) s).1)
  unfolding serve_loop service
  serve_loop-service callback [] s = refl
  serve_loop-service callback (none ∷ polls) s = serve_loop-service callback polls s
  serve_loop-service callback (some request ∷ polls) s =
      let (s', reply) = callback request s in
      let rest = serve_loop-service callback polls s' in
      ap (λ r. (r.0, s_recv request ∷ s_send reply ∷ r.1)) rest

  -- A server thread, bound or connected, implements the service of its callback: it receives the
  -- requests that its polls find, each once and in order, sends the reply to each before it
  -- receives the next one, and ends in the state of the service.
  pub enter_server-service :
      (bound : Bool) (address : String) (callback : String → S → S × String)
      (polls : List (Option String)) (s : S)
      → let r = service callback (found polls) s in
        enter_server bound address callback polls s
        ≡ (r.0, (if bound then bind address else connect address) ∷ in_turn r.1)
  unfolding enter_server server_thread server_thread_bound
  enter_server-service true address callback polls s =
      ap (λ r. (r.0, bind address ∷ r.1)) (serve_loop-service callback polls s)
  enter_server-service false address callback polls s =
      ap (λ r. (r.0, connect address ∷ r.1)) (serve_loop-service callback polls s)

  -- A callback run on each message in turn.
  abbrev pub handle_all : (String → S → S) → List (String × String) → S → S
  handle_all callback [] s = s
  handle_all callback ((topic, message) ∷ rest) s = handle_all callback rest (callback message s)

  -- A subscription receives both parts of each message that its polls find, in order, and hands the
  -- second parts, and only those, to its callback.
  pub subscription_thread-handle_all :
      (address topic : String) (callback : String → S → S) (polls : List (Option (String × String)))
      (s : S)
      → let r = subscription_thread address topic callback polls s in
        (r.0 ≡ handle_all callback (found polls) s) × (received r.1 ≡ parts (found polls))
  unfolding subscription_thread subscribe_loop
  subscription_thread-handle_all address topic callback [] s = (refl, refl)
  subscription_thread-handle_all address topic callback (none ∷ polls) s =
      subscription_thread-handle_all address topic callback polls s
  subscription_thread-handle_all address topic callback (some (t, m) ∷ polls) s =
      let (end, calls) =
        subscription_thread-handle_all address topic callback polls (callback m s) in
      (end, ap (λ r. t ∷ m ∷ r) calls)
