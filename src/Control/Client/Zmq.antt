-- ===== src/Control/Client/Zmq.antt =====
-- The client of src/control/ZMQControlClient.cpp as the one of
-- include/scpp/core/control/ControlClientInterface.hpp.
use sentinet_cpp.Common.{
  ℕ, ◌≡◌, refl, sym, subst, ap, List, ◌∙◌, true, false, none, some, arith, Option-cases, inl, inr,
  ◌∷◌,
}
use sentinet_cpp.Common.Maps.{String, find, find-put}
use sentinet_cpp.Control.Client.{
  ControlClient, PublishParams, ServeParams, spin_publish, spin_serve, publish_params, serve_params,
  IsClient, spin_all, AllAt, spin_all-first,
}
use sentinet_cpp.Control.ZmqClient.{
  SocketData, SocketThreadSpace, returned, rep_socket, publisher_context, server_context, serve,
  serve_with, publish_periodic, request_periodic, subscribe, cancel_periodic_publisher,
  cancel_periodic_request, cancel_subscription, terminate_server, quit,
}
use sentinet_cpp.Control.ZmqClient.Threads.{running_space, start_thread_fresh}
use sentinet_cpp.Control.ZmqClient.Lifecycle.{cancel-start_thread, publish_periodic-cancel}

module _ (F : Type 0) where
  unfoldable pub zmq_client : ControlClient (SocketData F) F
  zmq_client = record {
    publish = publish_periodic;
    cancel_periodic_publisher = cancel_periodic_publisher;
    request = request_periodic;
    cancel_periodic_request = cancel_periodic_request;
    subscribe = subscribe;
    cancel_subscription = cancel_subscription;
    serve = serve;
    terminate_server = terminate_server;
    quit = quit;
  }

  publish_free :
      (p : PublishParams F) (d : SocketData F)
      → (spin_publish zmq_client p d).1 ≡ returned true
      → find p.sock_addr d.periodic_publishers ≡ none
  unfolding spin_publish publish_params zmq_client publish_periodic
  publish_free p d e = elim (Option-cases (find p.sock_addr d.periodic_publishers)) [
    | inl free ↦ free
    | inr (v, taken) ↦ ground (arith, taken, e)
  ]

  publish_taken :
      (a t : String) (f : F) (n : ℕ) (d : SocketData F) (v : SocketThreadSpace F)
      → find a d.periodic_publishers ≡ some v
      → publish_periodic a t f n d ≡ (d, returned false)
  unfolding publish_periodic
  publish_taken a t f n d v e = ground (arith, e)

  serve_free :
      (p : ServeParams F) (d : SocketData F)
      → (spin_serve zmq_client p d).1 ≡ returned true
      → find p.sock_addr d.servers ≡ none
  unfolding spin_serve serve_params zmq_client serve serve_with
  serve_free p d e = elim (Option-cases (find p.sock_addr d.servers)) [
    | inl free ↦ free
    | inr (v, taken) ↦ ground (arith, taken, e)
  ]

  -- A server that is started, asked for again, and stopped.
  serve-terminate :
      (a : String) (f g : F) (d : SocketData F)
      → find a d.servers ≡ none
      → let d1 = (serve a f d).0 in
        (serve a g d1 ≡ (d1, returned false)) × ((terminate_server a d1).1 ≡ returned true)
  unfolding serve serve_with terminate_server
  serve-terminate a f g d e =
      let context = server_context false a f in
      let start = start_thread_fresh rep_socket d.servers a context e in
      let (started, stopped, gone, again) = cancel-start_thread rep_socket d.servers a context e in
      let there = find-put a (running_space context) d.servers in
      (ground (arith, e, start, there), ground (arith, e, started, stopped))

  -- The client over ZMQ does what a caller of the interface can rely on: a publisher or a server started by its
  -- parameters is not started again under its address, which changes nothing, and is stopped by it.
  pub zmq_client-IsClient : IsClient zmq_client
  unfolding spin_publish publish_params spin_serve serve_params zmq_client
  zmq_client-IsClient = record {
    publish_once = λ p q d same_address e.
        let free = publish_free p d e in
        let lives =
          publish_periodic-cancel p.sock_addr p.topic p.topic p.get_data p.get_data p.period
            p.period d free in
        let d1 = (publish_periodic p.sock_addr p.topic p.get_data p.period d).0 in
        let there = ap (λ a. find a d1.periodic_publishers) same_address ∙ lives.1 in
        publish_taken q.sock_addr q.topic q.get_data q.period d1 _ there;
    publish_stops = λ p d e.
        let free = publish_free p d e in
        (publish_periodic-cancel p.sock_addr p.topic p.topic p.get_data p.get_data p.period p.period
          d free).2;
    serve_once = λ p q d same_address e.
        let d1 = (serve p.sock_addr p.callback d).0 in
        ap (λ a. serve a q.callback d1) same_address
        ∙ (serve-terminate p.sock_addr p.callback q.callback d (serve_free p d e)).0;
    serve_stops =
        λ p d e. (serve-terminate p.sock_addr p.callback p.callback d (serve_free p d e)).1;
  }

  spun :
      (p : PublishParams F) (d : SocketData F)
      → (spin_publish zmq_client p d).0
        ≡ (publish_periodic p.sock_addr p.topic p.get_data p.period d).0
  unfolding spin_publish publish_params zmq_client
  spun p d = refl

  -- Where publishers with one address are started by their parameters over ZMQ, and the first of them can be
  -- started, the client is as after the start of the first one alone: its thread runs with its own topic, callback and period, and
  -- cancelling the address afterwards returns true.
  pub spin_all-cancel :
      (p : PublishParams F) (ps : List (PublishParams F)) (d : SocketData F)
      → AllAt zmq_client p.sock_addr ps
      → (spin_publish zmq_client p d).1 ≡ returned true
      → let d1 = spin_all zmq_client (p ∷ ps) d in
        (d1 ≡ (publish_periodic p.sock_addr p.topic p.get_data p.period d).0)
        × (find p.sock_addr d1.periodic_publishers
            ≡ some (running_space (publisher_context p.sock_addr p.topic p.period p.get_data)))
        × ((cancel_periodic_publisher p.sock_addr d1).1 ≡ returned true)
  spin_all-cancel p ps d at e =
      let free = publish_free p d e in
      let lives =
        publish_periodic-cancel p.sock_addr p.topic p.topic p.get_data p.get_data p.period p.period
          d free in
      subst
        (λ (d1 : SocketData F).
          (d1 ≡ (publish_periodic p.sock_addr p.topic p.get_data p.period d).0)
          × (find p.sock_addr d1.periodic_publishers
              ≡ some (running_space (publisher_context p.sock_addr p.topic p.period p.get_data)))
          × ((cancel_periodic_publisher p.sock_addr d1).1 ≡ returned true))
        (sym (spin_all-first zmq_client zmq_client-IsClient p ps d at e ∙ spun p d))
        (refl, lives.1, lives.2)
