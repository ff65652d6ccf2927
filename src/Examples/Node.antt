-- ===== src/Examples/Node.antt =====
-- The theorems on the sockets and threads of a node, applied to two addresses and two topics.
use sentinet_cpp.Common.{
  ℕ, zero, suc, ◌≡◌, ◌≢◌, refl, true, false, Option, none, some, List, [], ◌∷◌, arith,
}
use sentinet_cpp.Common.Maps.{String, find, put, same}
use sentinet_cpp.Control.ZmqClient.{
  SocketData, start_thread, create_socket, publish_periodic, subscribe, cancel_periodic_publisher,
  cancel_subscription, quit, returned, thrown, null_thread, promise_already_satisfied,
  future_already_retrieved, publisher_context, subscriber_context, server_context,
}
use sentinet_cpp.Control.ZmqClient.Threads.{running_space}
use sentinet_cpp.Control.ZmqClient.Calls.{
  Call, publishes, serves, cancels_publisher, quits, perform, run, no_sockets, IsConsistent,
  run-no_sockets-IsConsistent,
}
use sentinet_cpp.Control.ZmqClient.Lifecycle.{
  joined_space, publish_periodic-cancel, subscribe-subscribe,
}
use sentinet_cpp.Control.ZmqClient.Quitting.{
  AllThreads, threads_nil, threads_cons, apart_nil, quit-AllThreads,
}
use sentinet_cpp.Control.Client.{new_publish_params, spin_publish, publish_params, spin_all}
use sentinet_cpp.Control.Client.Zmq.{zmq_client, spin_all-cancel}
use sentinet_cpp.Control.ZmqSockets.{Sockets, request}
use sentinet_cpp.Control.ZmqSockets.Requests.{at_once, later, request-Answers}
use sentinet_cpp.Control.NetworkPatterns.{bind, enter_server}
use sentinet_cpp.Control.NetworkPatterns.Serving.{found, service, in_turn, enter_server-service}

abbrev localhost : String
localhost = 108 ∷ 104 ∷ []

abbrev drive_topic : String
drive_topic = 100 ∷ []

abbrev sensor_topic : String
sensor_topic = 115 ∷ []

abbrev history : List (Call ℕ)
history =
    publishes localhost drive_topic 7 100
    ∷ cancels_publisher localhost
    ∷ quits
    ∷ serves localhost 8
    ∷ []

run-no_sockets-IsConsistent_example :
    IsConsistent (run no_sockets history)
    × ((perform quits (run no_sockets history)).1 ≢ thrown null_thread)
run-no_sockets-IsConsistent_example = run-no_sockets-IsConsistent history quits

publish_periodic-cancel_example :
    let d1 = (publish_periodic {F = ℕ} localhost drive_topic 7 100 no_sockets).0 in
    let d2 = (cancel_periodic_publisher localhost d1).0 in
    ((publish_periodic {F = ℕ} localhost drive_topic 7 100 no_sockets).1 ≡ returned true)
    × (find localhost d1.periodic_publishers
        ≡ some (running_space (publisher_context localhost drive_topic 100 7)))
    × ((cancel_periodic_publisher localhost d1).1 ≡ returned true)
    × (find localhost d2.periodic_publishers
        ≡ some (joined_space (publisher_context localhost drive_topic 100 7)))
    × (publish_periodic {F = ℕ} localhost sensor_topic 9 50 d2 ≡ (d2, returned false))
    × (cancel_periodic_publisher localhost d2 ≡ (d2, thrown promise_already_satisfied))
unfolding find
publish_periodic-cancel_example =
    publish_periodic-cancel {F = ℕ} localhost drive_topic sensor_topic 7 9 100 50 no_sockets refl

subscribe-subscribe_example :
    let d1 = (subscribe {F = ℕ} localhost drive_topic 7 no_sockets).0 in
    ((subscribe {F = ℕ} localhost drive_topic 7 no_sockets).1 ≡ returned true)
    × (find localhost d1.subscribers
        ≡ some (running_space (subscriber_context localhost drive_topic 7)))
    × (cancel_subscription drive_topic d1 ≡ (d1, returned false))
    × ((subscribe {F = ℕ} localhost sensor_topic 9 d1).1 ≡ thrown future_already_retrieved)
unfolding find same
subscribe-subscribe_example =
    subscribe-subscribe {F = ℕ} localhost drive_topic sensor_topic 7 9 no_sockets refl refl refl
      refl refl

abbrev one_server : SocketData ℕ
one_server = record {
  subscribers = [];
  servers = (localhost, running_space (server_context false localhost 8)) ∷ [];
  periodic_clients = [];
  periodic_publishers = [];
}

one_server-AllThreads : AllThreads false one_server one_server
unfolding find same
one_server-AllThreads = record {
  of_subscribers = threads_nil;
  of_servers =
      threads_cons (running_space (server_context false localhost 8)) refl
        (record { taken = refl; context = server_context false localhost 8; thread_is = refl }) refl
        apart_nil threads_nil;
  of_clients = threads_nil;
  of_publishers = threads_nil;
}

quit-AllThreads_example :
    ((quit one_server).1 ≡ returned true) × AllThreads true one_server (quit one_server).0
quit-AllThreads_example = quit-AllThreads one_server one_server-AllThreads

-- A network that answers the second poll.
abbrev second : ℕ → Option String
second zero = none
second (suc i) = some drive_topic

abbrev silent : ℕ → Option String
silent i = none

request-Answers_example :
    let s : Sockets = record { this_publisher = none; this_client = true } in
    let r = request second sensor_topic s in
    (r.0.1 ≡ drive_topic) × (r.1 ≡ sensor_topic ∷ sensor_topic ∷ []) × (r.0.0 ≡ s)
request-Answers_example =
    request-Answers 1 second sensor_topic drive_topic none (later refl (at_once refl)) (omega arith)

-- A server that counts its requests and sends each one back.
abbrev echo : String → ℕ → ℕ × String
echo request n = (suc n, request)

abbrev polls : List (Option String)
polls = none ∷ some drive_topic ∷ none ∷ some sensor_topic ∷ []

enter_server-service_example :
    enter_server true localhost echo polls 0
    ≡ ((service echo (found polls) 0).0, bind localhost ∷ in_turn (service echo (found polls) 0).1)
enter_server-service_example = enter_server-service true localhost echo polls 0

abbrev count : String → ℕ → ℕ
count message n = suc n

abbrev published : List (Option (String × String))
published = none ∷ some (drive_topic, localhost) ∷ []

spin_all-cancel_example :
    let p = new_publish_params {F = ℕ} 7 (1 ∷ []) (2 ∷ []) in
    let d1 =
      spin_all
        (zmq_client ℕ)
        (p ∷ new_publish_params {F = ℕ} 8 (1 ∷ []) (3 ∷ []) ∷ [])
        no_sockets in
    (d1 ≡ (publish_periodic (1 ∷ []) (2 ∷ []) 7 100 no_sockets).0)
    × (find (1 ∷ []) d1.periodic_publishers
        ≡ some (running_space (publisher_context (1 ∷ []) (2 ∷ []) 100 7)))
    × ((cancel_periodic_publisher (1 ∷ []) d1).1 ≡ returned true)
unfolding new_publish_params spin_publish publish_params zmq_client publish_periodic start_thread
    find put same create_socket
spin_all-cancel_example =
    spin_all-cancel ℕ (new_publish_params 7 (1 ∷ []) (2 ∷ []))
      (new_publish_params 8 (1 ∷ []) (3 ∷ []) ∷ []) no_sockets (refl, tt) refl
