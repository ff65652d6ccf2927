-- ===== src/Pipe/Server/Queues.antt =====
-- What arrives at either side of the proxy of src/messages/pipe/ZMQServerProxy.cpp.
use sentinet_cpp.Common.{
  ℕ, zero, suc, ◌≤◌, length, subst, ◌≡◌, refl, ap, ◌∙◌, sym, arith, Bool, true, List, [], ◌∷◌, ◌++◌,
}
use sentinet_cpp.Common.Maps.{String}
use sentinet_cpp.Pipe.Server.{
  Passing, recv_frontend, recv_backend, send_frontend, send_backend, Queue, pass_message, pass_if,
  server_spin, server_turns, message_of, to_backend, to_frontend,
}

-- Some messages, each its first part and the others.
abbrev pub Messages : Type 0
Messages = List (String × List String)

abbrev pub queue_of : Messages → Queue
queue_of [] = []
queue_of ((part, parts) ∷ ms) = message_of part parts ++ queue_of ms

abbrev first : Messages → Queue
first [] = []
first ((part, parts) ∷ ms) = message_of part parts

abbrev behind : Messages → Messages
behind [] = []
behind (m ∷ ms) = ms

-- The calls that pass a message on.
abbrev passed : (String → Passing) → (Bool → String → Passing) → Queue → List Passing
passed recv send [] = []
passed recv send ((part, more) ∷ queue) = recv part ∷ send more part ∷ passed recv send queue

pass_message-message_of :
    (recv : String → Passing) (send : Bool → String → Passing) (part : String) (parts : List String)
    (rest : Queue)
    → pass_message recv send (message_of part parts ++ rest)
      ≡ (rest, passed recv send (message_of part parts))
unfolding pass_message message_of
pass_message-message_of recv send part [] rest = refl
pass_message-message_of recv send part (next ∷ parts) rest =
    ap (λ r. (r.0, recv part ∷ send true part ∷ r.1))
      (pass_message-message_of recv send next parts rest)

pass_if-queue_of :
    (recv : String → Passing) (send : Bool → String → Passing) (ms : Messages)
    → pass_if recv send (queue_of ms) ≡ (queue_of (behind ms), passed recv send (first ms))
unfolding pass_if message_of
pass_if-queue_of recv send [] = refl
pass_if-queue_of recv send ((part, []) ∷ ms) =
    pass_message-message_of recv send part [] (queue_of ms)
pass_if-queue_of recv send ((part, next ∷ parts) ∷ ms) =
    pass_message-message_of recv send part (next ∷ parts) (queue_of ms)

to_backend-append : (xs ys : List Passing) → to_backend (xs ++ ys) ≡ to_backend xs ++ to_backend ys
to_backend-append [] ys = refl
to_backend-append (recv_frontend p ∷ xs) ys = to_backend-append xs ys
to_backend-append (recv_backend p ∷ xs) ys = to_backend-append xs ys
to_backend-append (send_frontend m p ∷ xs) ys = to_backend-append xs ys
to_backend-append (send_backend m p ∷ xs) ys = ap (λ r. (p, m) ∷ r) (to_backend-append xs ys)

to_frontend-append :
    (xs ys : List Passing) → to_frontend (xs ++ ys) ≡ to_frontend xs ++ to_frontend ys
to_frontend-append [] ys = refl
to_frontend-append (recv_frontend p ∷ xs) ys = to_frontend-append xs ys
to_frontend-append (recv_backend p ∷ xs) ys = to_frontend-append xs ys
to_frontend-append (send_backend m p ∷ xs) ys = to_frontend-append xs ys
to_frontend-append (send_frontend m p ∷ xs) ys = ap (λ r. (p, m) ∷ r) (to_frontend-append xs ys)

-- What the requests of a turn bring to either side, and the replies.
passed_requests :
    (q : Queue)
    → (to_backend (passed recv_frontend send_backend q) ≡ q)
      × (to_frontend (passed recv_frontend send_backend q) ≡ [])
passed_requests [] = (refl, refl)
passed_requests ((part, more) ∷ q) =
    let (b, f) = passed_requests q in (ap (λ r. (part, more) ∷ r) b, f)

passed_replies :
    (q : Queue)
    → (to_backend (passed recv_backend send_frontend q) ≡ [])
      × (to_frontend (passed recv_backend send_frontend q) ≡ q)
passed_replies [] = (refl, refl)
passed_replies ((part, more) ∷ q) =
    let (b, f) = passed_replies q in (b, ap (λ r. (part, more) ∷ r) f)

append_nil : (q : Queue) → q ++ [] ≡ q
append_nil [] = refl
append_nil (x ∷ q) = ap (λ r. x ∷ r) (append_nil q)

abbrev turn_calls : Messages → Messages → List Passing
turn_calls ms ns =
    passed recv_frontend send_backend (first ms) ++ passed recv_backend send_frontend (first ns)

turn_calls_sides :
    (ms ns : Messages)
    → (to_backend (turn_calls ms ns) ≡ first ms) × (to_frontend (turn_calls ms ns) ≡ first ns)
turn_calls_sides ms ns =
    let requests = passed recv_frontend send_backend (first ms) in
    let replies = passed recv_backend send_frontend (first ns) in
    let (qb, qf) = passed_requests (first ms) in
    let (rb, rf) = passed_replies (first ns) in
    (
      to_backend-append requests replies ∙ ((λ i. qb i ++ rb i) ∙ append_nil (first ms)),
      to_frontend-append requests replies ∙ (λ i. qf i ++ rf i),
    )

server_spin-first :
    (ms ns : Messages)
    → server_spin (queue_of ms) (queue_of ns)
      ≡ ((queue_of (behind ms), queue_of (behind ns)), turn_calls ms ns)
unfolding server_spin
server_spin-first ms ns =
    let requests = pass_if-queue_of recv_frontend send_backend ms in
    let replies = pass_if-queue_of recv_backend send_frontend ns in
    λ i. (((requests i).0, (replies i).0), (requests i).1 ++ (replies i).1)

first_behind : (ms : Messages) → first ms ++ queue_of (behind ms) ≡ queue_of ms
first_behind [] = refl
first_behind ((part, parts) ∷ ms) = refl

behind-length : (n : ℕ) (ms : Messages) → length ms ≤ suc n → length (behind ms) ≤ n
behind-length n [] l = omega arith
behind-length n (m ∷ ms) l = omega (arith, l)

-- Requests at the frontend and replies at the backend, each of one or more parts: in as many turns as
-- there are of either, every request arrives at the backend and every reply at the frontend, in
-- order, with its parts in order and each but the last marked as followed by another, and both
-- queues are empty.
pub server_turns-queue_of :
    (n : ℕ) (ms ns : Messages)
    → length ms ≤ n
    → length ns ≤ n
    → let r = server_turns n (queue_of ms) (queue_of ns) in
      (r.0 ≡ ([], [])) × (to_backend r.1 ≡ queue_of ms) × (to_frontend r.1 ≡ queue_of ns)
unfolding server_turns
server_turns-queue_of zero [] [] l k = (refl, refl, refl)
server_turns-queue_of zero (m ∷ ms) ns l k = absurd (omega arith)
server_turns-queue_of zero [] (m ∷ ns) l k = absurd (omega arith)
server_turns-queue_of (suc n) ms ns l k =
    let (left, b, f) =
      server_turns-queue_of n (behind ms) (behind ns) (behind-length n ms l)
        (behind-length n ns k) in
    let rest = server_turns n (queue_of (behind ms)) (queue_of (behind ns)) in
    let (tb, tf) = turn_calls_sides ms ns in
    subst
      (λ (r : (Queue × Queue) × List Passing).
        let (end, more) = server_turns n r.0.0 r.0.1 in
        (end ≡ ([], []))
        × (to_backend (r.1 ++ more) ≡ queue_of ms)
        × (to_frontend (r.1 ++ more) ≡ queue_of ns))
      (sym (server_spin-first ms ns))
      (
        left,
        to_backend-append (turn_calls ms ns) rest.1 ∙ ((λ i. tb i ++ b i) ∙ first_behind ms),
        to_frontend-append (turn_calls ms ns) rest.1 ∙ ((λ i. tf i ++ f i) ∙ first_behind ns),
      )
