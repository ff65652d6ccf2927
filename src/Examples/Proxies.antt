-- ===== src/Examples/Proxies.antt =====
-- The server proxy at concrete queues, and a table of signals.
use sentinet_cpp.Common.{ℕ, ◌%◌, ◌==◌, ◌≡◌, refl, arith, Bool, true, false, [], ◌∷◌}
use sentinet_cpp.Pipe.Signals.{
  registered, answers, terminates, loops, waits, register_all, new_signals, register_signal, signal,
  find_signal, signal-register_all,
}
use sentinet_cpp.Pipe.Server.{server_turns, to_backend, to_frontend}
use sentinet_cpp.Pipe.Server.Queues.{Messages, queue_of, server_turns-queue_of}

abbrev is_even : ℕ → Bool
is_even n = n % 2 == 0

-- Two requests, the first of two parts, and a reply.
abbrev requests : Messages
requests = ((1 ∷ [], (2 ∷ []) ∷ [])) ∷ ((3 ∷ [], [])) ∷ []

abbrev replies : Messages
replies = ((4 ∷ [], [])) ∷ []

server_turns-queue_of_example :
    let r = server_turns 2 (queue_of requests) (queue_of replies) in
    (r.0 ≡ ([], [])) × (to_backend r.1 ≡ queue_of requests) × (to_frontend r.1 ≡ queue_of replies)
server_turns-queue_of_example = server_turns-queue_of 2 requests replies (omega arith) (omega arith)

-- A function registered for 7, beside one for 2, which is in use, and one for 9.
signal-register_all_example :
    let s = register_all {G = ℕ} ((2, 5) ∷ (9, 6) ∷ []) (new_signals true) in
    let (s', done) = register_signal 7 (registered 4) s in
    (signal is_even 0 s ≡ (record s { running = false }, answers false))
    × (signal is_even 1 s ≡ (record s { running = false }, terminates))
    × (signal is_even 2 s ≡ (record s { paused = false }, loops))
    × (signal is_even 3 s ≡ (record s { paused = true }, waits))
    × (done ≡ true)
    × (signal is_even 7 s' ≡ (s', answers true))
    × (register_signal 7 (registered 8) s' ≡ (s', false))
unfolding register_all new_signals register_signal find_signal
signal-register_all_example = signal-register_all is_even ((2, 5) ∷ (9, 6) ∷ []) true 7 4 8 refl
