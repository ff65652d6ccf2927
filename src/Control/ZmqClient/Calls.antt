-- ===== src/Control/ZmqClient/Calls.antt =====
-- Histories of calls on a node of src/control/ZMQControlClient.cpp.
use sentinet_cpp.Common.{ℕ, ◌≢◌, Bool, true, false, Option, none, some, List, [], ◌∷◌}
use sentinet_cpp.Common.Maps.{String, find}
use sentinet_cpp.Control.ZmqClient.{
  SocketData, SocketThreadSpace, SpaceMap, Outcome, returned, thrown, null_thread, pub_socket,
  sub_socket, req_socket, rep_socket, publisher_context, requester_context, subscriber_context,
  server_context, start_thread, cancel, publish_periodic, request_periodic, subscribe, serve_with,
  serve, bind_server, cancel_subscription, terminate_server, cancel_periodic_publisher,
  cancel_periodic_request, cancel_each, and_then, quit,
}
use sentinet_cpp.Control.ZmqClient.Threads.{
  AllStarted, all_nil, start_thread-IsSound, cancel-IsSound, cancel_each-IsSound,
}

pub data Call (F : Type 0) : Type 0 where
  publishes : (sock_addr topic : String) (get_data : F) (period : ℕ) → Call F
  requests : (destination id : String) (get_data callback : F) (period : ℕ) → Call F
  subscribes : (sock_addr topic : String) (callback : F) → Call F
  serves binds : (address : String) (callback : F) → Call F
  cancels_publisher cancels_request cancels_subscription terminates : (reference : String) → Call F
  quits : Call F

returned-≢ : (b : Bool) → returned b ≢ thrown null_thread
returned-≢ b = λ x. cc

module _ {F : Type 0} where
  unfoldable pub perform : Call F → SocketData F → SocketData F × Outcome
  perform (publishes a t f p) d = publish_periodic a t f p d
  perform (requests a i f g p) d = request_periodic a i f g p d
  perform (subscribes a t f) d = subscribe a t f d
  perform (serves a f) d = serve a f d
  perform (binds a f) d = bind_server a f d
  perform (cancels_publisher r) d = cancel_periodic_publisher r d
  perform (cancels_request r) d = cancel_periodic_request r d
  perform (cancels_subscription r) d = cancel_subscription r d
  perform (terminates r) d = terminate_server r d
  perform quits d = quit d

  -- A caller that goes on after an exception.
  unfoldable pub run : SocketData F → List (Call F) → SocketData F
  unfolding perform
  run d [] = d
  run d (c ∷ cs) = run (perform c d).0 cs

  abbrev pub no_sockets : SocketData F
  no_sockets = record {
    subscribers = [];
    servers = [];
    periodic_clients = [];
    periodic_publishers = [];
  }

  pub record IsConsistent (d : SocketData F) : Type 0 where
    pub subscribers_started : AllStarted d.subscribers
    pub servers_started : AllStarted d.servers
    pub clients_started : AllStarted d.periodic_clients
    pub publishers_started : AllStarted d.periodic_publishers

  abbrev KeepsConsistent : SocketData F × Outcome → Type 0
  KeepsConsistent r = IsConsistent r.0 × (r.1 ≢ thrown null_thread)

  either-KeepsConsistent :
      (o : Option (SocketThreadSpace F)) (x y : SocketData F × Outcome)
      → KeepsConsistent x
      → KeepsConsistent y
      → KeepsConsistent (elim o [ none ↦ x | some v ↦ y ])
  either-KeepsConsistent none x y h k = h
  either-KeepsConsistent (some v) x y h k = k

  and_then-KeepsConsistent :
      (r : SocketData F × Outcome) (next : SocketData F → SocketData F × Outcome)
      → KeepsConsistent r
      → ((d : SocketData F) → IsConsistent d → KeepsConsistent (next d))
      → KeepsConsistent (and_then r next)
  unfolding and_then
  and_then-KeepsConsistent (d, returned b) next h n = n d h.0
  and_then-KeepsConsistent (d, thrown e) next h n = h

  -- One case for each function that starts a thread.
  with_subscribers :
      (d : SocketData F) (r : SpaceMap F × Outcome)
      → IsConsistent d
      → AllStarted r.0 × (r.1 ≢ thrown null_thread)
      → KeepsConsistent (record d { subscribers = r.0 }, r.1)
  with_subscribers d r c s = (
    record {
      subscribers_started = s.0;
      servers_started = c.servers_started;
      clients_started = c.clients_started;
      publishers_started = c.publishers_started;
    },
    s.1,
  )

  with_servers :
      (d : SocketData F) (r : SpaceMap F × Outcome)
      → IsConsistent d
      → AllStarted r.0 × (r.1 ≢ thrown null_thread)
      → KeepsConsistent (record d { servers = r.0 }, r.1)
  with_servers d r c s = (
    record {
      subscribers_started = c.subscribers_started;
      servers_started = s.0;
      clients_started = c.clients_started;
      publishers_started = c.publishers_started;
    },
    s.1,
  )

  with_clients :
      (d : SocketData F) (r : SpaceMap F × Outcome)
      → IsConsistent d
      → AllStarted r.0 × (r.1 ≢ thrown null_thread)
      → KeepsConsistent (record d { periodic_clients = r.0 }, r.1)
  with_clients d r c s = (
    record {
      subscribers_started = c.subscribers_started;
      servers_started = c.servers_started;
      clients_started = s.0;
      publishers_started = c.publishers_started;
    },
    s.1,
  )

  with_publishers :
      (d : SocketData F) (r : SpaceMap F × Outcome)
      → IsConsistent d
      → AllStarted r.0 × (r.1 ≢ thrown null_thread)
      → KeepsConsistent (record d { periodic_publishers = r.0 }, r.1)
  with_publishers d r c s = (
    record {
      subscribers_started = c.subscribers_started;
      servers_started = c.servers_started;
      clients_started = c.clients_started;
      publishers_started = s.0;
    },
    s.1,
  )

  serve_with-KeepsConsistent :
      (b : Bool) (a : String) (f : F) (d : SocketData F)
      → IsConsistent d
      → KeepsConsistent (serve_with b a f d)
  unfolding serve_with
  serve_with-KeepsConsistent b a f d c =
      let r = start_thread rep_socket d.servers a (server_context b a f) in
      either-KeepsConsistent (find a d.servers) (record d { servers = r.0 }, r.1)
        (d, returned false)
        (with_servers d r c
          (start_thread-IsSound rep_socket d.servers a (server_context b a f) c.servers_started))
        (c, λ x. cc)

  quit-KeepsConsistent : (d : SocketData F) → IsConsistent d → KeepsConsistent (quit d)
  unfolding quit
  quit-KeepsConsistent d c =
      let r = cancel_each d.subscribers d.subscribers in
      and_then-KeepsConsistent (record d { subscribers = r.0 }, r.1) _
        (with_subscribers d r c
          (cancel_each-IsSound d.subscribers d.subscribers c.subscribers_started))
        (λ d1 c1.
          let r = cancel_each d1.servers d1.servers in
          and_then-KeepsConsistent (record d1 { servers = r.0 }, r.1) _
            (with_servers d1 r c1 (cancel_each-IsSound d1.servers d1.servers c1.servers_started))
            (λ d2 c2.
              let r = cancel_each d2.periodic_publishers d2.periodic_publishers in
              and_then-KeepsConsistent (record d2 { periodic_publishers = r.0 }, r.1) _
                (with_publishers d2 r c2 (
                  cancel_each-IsSound d2.periodic_publishers d2.periodic_publishers
                    c2.publishers_started))
                (λ d3 c3.
                  let r = cancel_each d3.periodic_clients d3.periodic_clients in
                  and_then-KeepsConsistent (record d3 { periodic_clients = r.0 }, r.1) _
                    (with_clients d3 r c3 (
                      cancel_each-IsSound d3.periodic_clients d3.periodic_clients
                        c3.clients_started))
                    (λ d4 c4. (c4, returned-≢ true)))))

  perform-KeepsConsistent :
      (c : Call F) (d : SocketData F) → IsConsistent d → KeepsConsistent (perform c d)
  unfolding perform publish_periodic request_periodic subscribe serve bind_server
      cancel_periodic_publisher cancel_periodic_request cancel_subscription terminate_server
  perform-KeepsConsistent (publishes a t f p) d c =
      let context = publisher_context a t p f in
      let r = start_thread pub_socket d.periodic_publishers a context in
      either-KeepsConsistent (find a d.periodic_publishers)
        (record d { periodic_publishers = r.0 }, r.1) (d, returned false)
        (with_publishers d r c
          (start_thread-IsSound pub_socket d.periodic_publishers a context c.publishers_started))
        (c, λ x. cc)
  perform-KeepsConsistent (requests a i f g p) d c =
      let context = requester_context a p f g in
      let r = start_thread req_socket d.periodic_clients i context in
      either-KeepsConsistent (find i d.periodic_clients) (record d { periodic_clients = r.0 }, r.1)
        (d, returned false)
        (with_clients d r c
          (start_thread-IsSound req_socket d.periodic_clients i context c.clients_started))
        (c, λ x. cc)
  perform-KeepsConsistent (subscribes a t f) d c =
      let context = subscriber_context a t f in
      let r = start_thread sub_socket d.subscribers a context in
      either-KeepsConsistent (find t d.subscribers) (record d { subscribers = r.0 }, r.1)
        (d, returned false)
        (with_subscribers d r c
          (start_thread-IsSound sub_socket d.subscribers a context c.subscribers_started))
        (c, λ x. cc)
  perform-KeepsConsistent (serves a f) d c = serve_with-KeepsConsistent false a f d c
  perform-KeepsConsistent (binds a f) d c = serve_with-KeepsConsistent true a f d c
  perform-KeepsConsistent (cancels_publisher r) d c =
      with_publishers d (cancel d.periodic_publishers r) c
        (cancel-IsSound d.periodic_publishers r c.publishers_started)
  perform-KeepsConsistent (cancels_request r) d c =
      with_clients d (cancel d.periodic_clients r) c
        (cancel-IsSound d.periodic_clients r c.clients_started)
  perform-KeepsConsistent (cancels_subscription r) d c =
      with_subscribers d (cancel d.subscribers r) c
        (cancel-IsSound d.subscribers r c.subscribers_started)
  perform-KeepsConsistent (terminates r) d c =
      with_servers d (cancel d.servers r) c (cancel-IsSound d.servers r c.servers_started)
  perform-KeepsConsistent quits d c = quit-KeepsConsistent d c

  run-IsConsistent :
      (cs : List (Call F)) (d : SocketData F) → IsConsistent d → IsConsistent (run d cs)
  unfolding run
  run-IsConsistent [] d c = c
  run-IsConsistent (x ∷ cs) d c =
      run-IsConsistent cs (perform x d).0 (perform-KeepsConsistent x d c).0

  -- After every history of calls, also with exceptions in it, each entry of the four maps has a
  -- thread, which is joined exactly if the entry's exit signal is set, and no further call joins
  -- through a null pointer.
  pub run-no_sockets-IsConsistent :
      (cs : List (Call F)) (c : Call F)
      → IsConsistent (run no_sockets cs) × ((perform c (run no_sockets cs)).1 ≢ thrown null_thread)
  run-no_sockets-IsConsistent cs c =
      let consistent = run-IsConsistent cs no_sockets (record {
        subscribers_started = all_nil;
        servers_started = all_nil;
        clients_started = all_nil;
        publishers_started = all_nil;
      }) in
      (consistent, (perform-KeepsConsistent c (run no_sockets cs) consistent).1)
