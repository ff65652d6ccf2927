-- ===== src/Control/ZmqClient.antt =====
-- src/control/ZMQControlClient.cpp: the sockets and threads of a node. The callbacks given to a
-- thread are `F`; what a thread does with them is src/control/NetworkPatterns.cpp.
pub mod Threads
pub mod Quitting
pub mod Lifecycle
pub mod Calls
use sentinet_cpp.Common.{
  ℕ, zero, suc, ◌==◌, if◌then◌else◌, Bool, true, false, Option, none, some, List, [], ◌∷◌,
}
use sentinet_cpp.Common.Maps.{String, find, put}

pub data SocketType : Type 0 where
  pub_socket sub_socket req_socket rep_socket : SocketType

-- The contexts of NetworkPatterns that a thread is started with.
pub data Context (F : Type 0) : Type 0 where
  publisher_context : (sock_addr topic : String) (period : ℕ) (get_data : F) → Context F
  requester_context : (server : String) (period : ℕ) (get_data callback : F) → Context F
  subscriber_context : (sock_addr topic : String) (callback : F) → Context F
  server_context : (bind : Bool) (address : String) (callback : F) → Context F

pub data Thread (F : Type 0) : Type 0 where
  running joined : Context F → Thread F

-- The `exit_signal`, a `std::promise<void>`.
pub record Promise : Type 0 where
  pub retrieved : Bool  -- get_future() was called
  pub satisfied : Bool  -- set_value() was called

pub record SocketThreadSpace (F : Type 0) : Type 0 where
  pub thread : Option (Thread F)
  pub exit_signal : Promise
  pub socket : Option SocketType

abbrev pub SpaceMap : Type 0 → Type 0
SpaceMap F = List (String × SocketThreadSpace F)

pub record SocketData (F : Type 0) : Type 0 where
  pub subscribers : SpaceMap F
  pub servers : SpaceMap F
  pub periodic_clients : SpaceMap F
  pub periodic_publishers : SpaceMap F

-- A `std::future_error`, or a `join` through a null pointer.
pub data Failure : Type 0 where
  future_already_retrieved promise_already_satisfied null_thread : Failure

-- What a member function ends with.
pub data Outcome : Type 0 where
  returned : Bool → Outcome
  thrown : Failure → Outcome

module _ {F : Type 0} where
  abbrev pub empty_space : SocketThreadSpace F
  empty_space = record {
    thread = none;
    exit_signal = record { retrieved = false; satisfied = false };
    socket = none;
  }

  -- `emplace` keeps the entry that the key has; its socket is replaced in any case. The result is the
  -- map and the entry referred to.
  unfoldable pub create_socket : SocketType → SpaceMap F → String → SpaceMap F × SocketThreadSpace F
  create_socket type map identifier = elim (find identifier map) [
    | none ↦ let val = record empty_space { socket = some type } in (put identifier val map, val)
    | some old ↦ let val = record old { socket = some type } in (put identifier val map, val)
  ]

  -- The part shared by the functions that start a thread: a socket, its future, and the thread, which
  -- takes the socket over.
  unfoldable pub start_thread : SocketType → SpaceMap F → String → Context F → SpaceMap F × Outcome
  unfolding create_socket
  start_thread type map identifier context =
      let (map', val) = create_socket type map identifier in
      elim val.exit_signal.retrieved [
        | true ↦ (map', thrown future_already_retrieved)
        | false ↦ (
          put identifier
              (record {
                thread = some (running context);
                exit_signal = record { retrieved = true; satisfied = val.exit_signal.satisfied };
                socket = none;
              })
              map',
          returned true,
        )
      ]

  -- `thread->join()`. The loops of NetworkPatterns end at their exit signal, a requester's when its
  -- server has answered.
  unfoldable pub join : Thread F → Thread F
  join (running context) = joined context
  join (joined context) = joined context

  -- `exit_signal.set_value()` and `thread->join()` for an entry that exists.
  unfoldable pub stop_thread : SpaceMap F → String → SocketThreadSpace F → SpaceMap F × Outcome
  unfolding join
  stop_thread map reference val = elim val.exit_signal.satisfied [
    | true ↦ (map, thrown promise_already_satisfied)
    | false ↦
        let set : SocketThreadSpace F = record val {
          exit_signal = record { retrieved = val.exit_signal.retrieved; satisfied = true };
        } in
        elim val.thread [
          | none ↦ (put reference set map, thrown null_thread)
          | some t ↦ (put reference (record set { thread = some (join t) }) map, returned true)
        ]
  ]

  -- The body of the four functions that cancel.
  unfoldable pub cancel : SpaceMap F → String → SpaceMap F × Outcome
  unfolding stop_thread
  cancel map reference = elim (find reference map) [
    | none ↦ (map, returned false)
    | some val ↦ stop_thread map reference val
  ]

  unfoldable pub publish_periodic : String → String → F → ℕ → SocketData F → SocketData F × Outcome
  unfolding start_thread
  publish_periodic sock_addr topic get_data period d = elim (find sock_addr d.periodic_publishers) [
    | some found ↦ (d, returned false)
    | none ↦
        let (map, outcome) =
          start_thread pub_socket d.periodic_publishers sock_addr
            (publisher_context sock_addr topic period get_data) in
        (record d { periodic_publishers = map }, outcome)
  ]

  unfoldable pub request_periodic :
      String → String → F → F → ℕ → SocketData F → SocketData F × Outcome
  unfolding start_thread
  request_periodic destination id get_data callback period d = elim (find id d.periodic_clients) [
    | some found ↦ (d, returned false)
    | none ↦
        let (map, outcome) =
          start_thread req_socket d.periodic_clients id
            (requester_context destination period get_data callback) in
        (record d { periodic_clients = map }, outcome)
  ]

  -- It looks for the topic and creates the socket under the address.
  unfoldable pub subscribe : String → String → F → SocketData F → SocketData F × Outcome
  unfolding start_thread
  subscribe sock_addr topic callback d = elim (find topic d.subscribers) [
    | some found ↦ (d, returned false)
    | none ↦
        let (map, outcome) =
          start_thread sub_socket d.subscribers sock_addr
            (subscriber_context sock_addr topic callback) in
        (record d { subscribers = map }, outcome)
  ]

  unfoldable pub serve_with : Bool → String → F → SocketData F → SocketData F × Outcome
  unfolding start_thread
  serve_with bind address callback d = elim (find address d.servers) [
    | some found ↦ (d, returned false)
    | none ↦
        let (map, outcome) =
          start_thread rep_socket d.servers address (server_context bind address callback) in
        (record d { servers = map }, outcome)
  ]

  unfoldable pub serve : String → F → SocketData F → SocketData F × Outcome
  unfolding serve_with
  serve address callback d = serve_with false address callback d

  unfoldable pub bind_server : String → F → SocketData F → SocketData F × Outcome
  unfolding serve_with
  bind_server address callback d = serve_with true address callback d

  unfoldable pub cancel_subscription : String → SocketData F → SocketData F × Outcome
  unfolding cancel
  cancel_subscription reference d =
      let (map, outcome) = cancel d.subscribers reference in
      (record d { subscribers = map }, outcome)

  unfoldable pub terminate_server : String → SocketData F → SocketData F × Outcome
  unfolding cancel
  terminate_server reference d =
      let (map, outcome) = cancel d.servers reference in (record d { servers = map }, outcome)

  unfoldable pub cancel_periodic_publisher : String → SocketData F → SocketData F × Outcome
  unfolding cancel
  cancel_periodic_publisher reference d =
      let (map, outcome) = cancel d.periodic_publishers reference in
      (record d { periodic_publishers = map }, outcome)

  unfoldable pub cancel_periodic_request : String → SocketData F → SocketData F × Outcome
  unfolding cancel
  cancel_periodic_request reference d =
      let (map, outcome) = cancel d.periodic_clients reference in
      (record d { periodic_clients = map }, outcome)

  -- A loop of `quit`, over the keys of one map: an exception ends it.
  unfoldable pub cancel_each : SpaceMap F → SpaceMap F → SpaceMap F × Outcome
  unfolding cancel
  cancel_each [] map = (map, returned true)
  cancel_each ((reference, old) ∷ rest) map =
      let (map', outcome) = cancel map reference in
      let result = cancel_each rest map' in
      elim outcome [ returned done ↦ result | thrown e ↦ (map', thrown e) ]

  -- The second function where the first one returned.
  unfoldable pub and_then :
      SocketData F × Outcome → (SocketData F → SocketData F × Outcome) → SocketData F × Outcome
  and_then (d, outcome) next = elim outcome [ returned done ↦ next d | thrown e ↦ (d, thrown e) ]

  unfoldable pub quit : SocketData F → SocketData F × Outcome
  unfolding cancel_each and_then
  quit d =
      let (subscribers, outcome) = cancel_each d.subscribers d.subscribers in
      and_then (record d { subscribers = subscribers }, outcome)
        (λ d1.
          let (servers, outcome) = cancel_each d1.servers d1.servers in
          and_then (record d1 { servers = servers }, outcome)
            (λ d2.
              let (publishers, outcome) =
                cancel_each d2.periodic_publishers d2.periodic_publishers in
              and_then (record d2 { periodic_publishers = publishers }, outcome)
                (λ d3.
                  let (clients, outcome) = cancel_each d3.periodic_clients d3.periodic_clients in
                  and_then (record d3 { periodic_clients = clients }, outcome)
                    (λ d4. (d4, returned true)))))
