-- ===== src/Pipe/Server.antt =====
-- `__spin__` of src/messages/pipe/ZMQServerProxy.cpp, which passes messages of several parts between a
-- ROUTER, the frontend, and a DEALER, the backend.
pub mod Queues
use sentinet_cpp.Common.{
  ℕ, zero, suc, ◌≤◌, length, subst, ◌≡◌, refl, ap, ◌∙◌, sym, arith, Bool, true, false, Option, none,
  some, List, [], ◌∷◌, ◌++◌,
}
use sentinet_cpp.Common.Maps.{String}

-- A part received at one socket, and a part sent to one with or without ZMQ_SNDMORE.
pub data Passing : Type 0 where
  recv_frontend recv_backend : String → Passing
  send_frontend send_backend : Bool → String → Passing

-- The queue of a socket: the parts that are there, each with whether it has ZMQ_RCVMORE.
abbrev pub Queue : Type 0
Queue = List (String × Bool)

-- The loop `while (1)` of one direction: the parts left behind a message, and the calls. On a queue that ends
-- within a message the code would wait.
unfoldable pub pass_message :
    (String → Passing) → (Bool → String → Passing) → Queue → Queue × List Passing
pass_message recv send [] = ([], [])
pass_message recv send ((part, more) ∷ queue) =
    let (left, calls) = pass_message recv send queue in
    elim more [
      | true ↦ (left, recv part ∷ send true part ∷ calls)
      | false ↦ (queue, recv part ∷ send false part ∷ [])
    ]

-- The loop where the poll finds something.
unfoldable pub pass_if :
    (String → Passing) → (Bool → String → Passing) → Queue → Queue × List Passing
unfolding pass_message
pass_if recv send [] = ([], [])
pass_if recv send (part ∷ queue) = pass_message recv send (part ∷ queue)

-- A turn of a server proxy that has its sockets, with the queues that its poll finds.
unfoldable pub server_spin : Queue → Queue → (Queue × Queue) × List Passing
unfolding pass_if
server_spin front back =
    let (front', requests) = pass_if recv_frontend send_backend front in
    let (back', replies) = pass_if recv_backend send_frontend back in
    ((front', back'), requests ++ replies)

-- A message of several parts as the queue holds it.
unfoldable pub message_of : String → List String → Queue
message_of part [] = (part, false) ∷ []
message_of part (next ∷ parts) = (part, true) ∷ message_of next parts

-- What one side gets of some calls, as its queue holds it.
abbrev pub to_backend : List Passing → Queue
to_backend [] = []
to_backend (send_backend more part ∷ calls) = (part, more) ∷ to_backend calls
to_backend (_ ∷ calls) = to_backend calls

abbrev pub to_frontend : List Passing → Queue
to_frontend [] = []
to_frontend (send_frontend more part ∷ calls) = (part, more) ∷ to_frontend calls
to_frontend (_ ∷ calls) = to_frontend calls

-- Some turns of the proxy, while nothing new arrives.
unfoldable pub server_turns : ℕ → Queue → Queue → (Queue × Queue) × List Passing
server_turns zero front back = ((front, back), [])
server_turns (suc n) front back =
    let ((front', back'), calls) = server_spin front back in
    let (left, rest) = server_turns n front' back' in (left, calls ++ rest)
