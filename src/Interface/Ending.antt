-- ===== src/Interface/Ending.antt =====
-- From the constructor to the destructor in src/kernel/KermitNetworkInterface.cpp.
use sentinet_cpp.Common.{◌≡◌, refl, sym, subst, Bool, true, false, [], arith, if◌then◌else◌}
use sentinet_cpp.Common.Maps.{String, find, put, same, find-put, find-put_other}
use sentinet_cpp.Control.ZmqClient.{
  Outcome, SocketData, Context, server_context, subscriber_context, publisher_context, pub_socket,
  sub_socket, rep_socket, returned, thrown, future_already_retrieved, subscribe, publish_periodic,
  bind_server, serve_with,
}
use sentinet_cpp.Control.ZmqClient.Threads.{running_space, start_thread_fresh, start_thread_taken}
use sentinet_cpp.Control.ZmqClient.Quitting.{
  Threads, threads_nil, threads_cons, apart_nil, AllThreads, quit-AllThreads,
}
use sentinet_cpp.Control.ZmqClient.Calls.{no_sockets}
use sentinet_cpp.Interface.{
  Addresses, Interface, new_interface, init_teensy_peripheral, init_comms, kermit_quit, destroy,
}

module _ {F : Type 0} where
  -- The sockets of an interface with its server and its two threads.
  abbrev running_sockets : String → Addresses → F → F → F → SocketData F
  running_sockets address a f g h = record {
    subscribers = put a.cmd_vel (running_space (subscriber_context a.cmd_vel a.cmd_vel_topic g)) [];
    servers = put address (running_space (server_context true address f)) [];
    periodic_clients = [];
    periodic_publishers =
        put a.localizer (running_space (publisher_context a.localizer a.localizer_topic 1000000 h))
          [];
  }

  abbrev pub started : String → Addresses → F → F → F → Bool → Interface F
  started address a f g h debug = record {
    sockets = running_sockets address a f g h;
    running = true;
    debug = debug;
    async_sender = if debug then false else true;
    closes = 0;
  }

  pub init_comms-started :
      (address : String) (a : Addresses) (f g h : F) (debug : Bool)
      → init_comms a g h (init_teensy_peripheral (new_interface address f debug no_sockets))
        ≡ (started address a f g h debug, returned true)
  unfolding init_comms init_teensy_peripheral new_interface subscribe publish_periodic bind_server
      serve_with find
  init_comms-started address a f g h debug =
      let server = start_thread_fresh rep_socket [] address (server_context true address f) refl in
      let sub =
        start_thread_fresh sub_socket [] a.cmd_vel (subscriber_context a.cmd_vel a.cmd_vel_topic g)
          refl in
      let publisher =
        start_thread_fresh pub_socket [] a.localizer
          (publisher_context a.localizer a.localizer_topic 1000000 h) refl in
      elim debug [
        | true ↦ ground (arith, server, sub, publisher)
        | false ↦ ground (arith, server, sub, publisher)
      ]

  single : (k : String) (c : Context F) → let m = put k (running_space c) [] in Threads false m m
  unfolding put
  single k c =
      threads_cons (running_space c) (find-put k (running_space c) [])
        (record { taken = refl; context = c; thread_is = refl }) refl apart_nil threads_nil

  pub kermit_quit-started :
      (address : String) (a : Addresses) (f g h : F) (debug : Bool)
      → let begun = started address a f g h debug in
        let ended = kermit_quit begun in
        (ended.1 ≡ returned true)
        × AllThreads true begun.sockets ended.0.sockets
        × (ended.0.running ≡ false)
        × ((destroy ended.0).closes ≡ (if debug then 1 else 2))
  unfolding kermit_quit destroy
  kermit_quit-started address a f g h debug =
      let threads : AllThreads false (running_sockets address a f g h)
          (running_sockets address a f g h) =
        record {
          of_subscribers = single a.cmd_vel (subscriber_context a.cmd_vel a.cmd_vel_topic g);
          of_servers = single address (server_context true address f);
          of_clients = threads_nil;
          of_publishers =
              single a.localizer (publisher_context a.localizer a.localizer_topic 1000000 h);
        } in
      let (quits, joins) = quit-AllThreads (running_sockets address a f g h) threads in
      (quits, joins, refl, ground arith)

  init_comms_again :
      (address : String) (a : Addresses) (f g h : F) (debug : Bool)
      → same a.cmd_vel a.cmd_vel_topic ≡ false
      → (init_comms a g h (started address a f g h debug)).1 ≡ thrown future_already_retrieved
  unfolding init_comms subscribe find
  init_comms_again address a f g h debug apart =
      let context = subscriber_context a.cmd_vel a.cmd_vel_topic g in
      let no_topic = find-put_other a.cmd_vel a.cmd_vel_topic (running_space context) [] apart in
      let taken =
        start_thread_taken sub_socket (put a.cmd_vel (running_space context) []) a.cmd_vel context
          (running_space context) (find-put a.cmd_vel (running_space context) [])
          (record { taken = refl; context = context; thread_is = refl }) in
      ground (arith, no_topic, taken)

  -- A new interface, with or without the thread of the port, that starts its communication, in a process
  -- without other sockets, and is then destroyed as the kernel's destructors do it: both functions
  -- return true, `quit` joins the threads of the server, the subscriber and the publisher, `running` is
  -- false, and the port is closed twice where the thread was made, once where it was not. To start
  -- the communication again before that is an exception where the topic is not the address.
  pub kermit_quit-AllThreads :
      (address : String) (a : Addresses) (f g h : F) (debug : Bool)
      → same a.cmd_vel a.cmd_vel_topic ≡ false
      → let made = init_teensy_peripheral (new_interface address f debug no_sockets) in
        let begun = init_comms a g h made in
        let ended = kermit_quit begun.0 in
        (begun.1 ≡ returned true)
        × ((init_comms a g h begun.0).1 ≡ thrown future_already_retrieved)
        × (ended.1 ≡ returned true)
        × AllThreads true begun.0.sockets ended.0.sockets
        × (ended.0.running ≡ false)
        × ((destroy ended.0).closes ≡ (if debug then 1 else 2))
  kermit_quit-AllThreads address a f g h debug apart =
      let made = init_teensy_peripheral (new_interface address f debug no_sockets) in
      let holds = λ (begun : Interface F × Outcome).
        let ended = kermit_quit begun.0 in
        (begun.1 ≡ returned true)
        × ((init_comms a g h begun.0).1 ≡ thrown future_already_retrieved)
        × (ended.1 ≡ returned true)
        × AllThreads true begun.0.sockets ended.0.sockets
        × (ended.0.running ≡ false)
        × ((destroy ended.0).closes ≡ (if debug then 1 else 2)) in
      let begun = started address a f g h debug in
      let (quits, joins, stops, closes) = kermit_quit-started address a f g h debug in
      subst holds (sym (init_comms-started address a f g h debug))
        (refl, init_comms_again address a f g h debug apart, quits, joins, stops, closes)
