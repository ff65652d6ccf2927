-- ===== src/Control/NetworkPatterns.antt =====
-- src/control/NetworkPatterns.cpp: the loops of the four kinds of threads. A loop runs once for each
-- entry of a list, or a number of times, until the exit signal is set; the callbacks work on a
-- state `S` and the result is that state with the calls made on the socket. Waiting for the period is
-- left out.
pub mod Serving
use sentinet_cpp.Common.{
  ℕ, zero, suc, Bool, true, false, Option, none, some, List, [], ◌∷◌, if◌then◌else◌,
}
use sentinet_cpp.Common.Maps.{String}

pub data SocketCall : Type 0 where
  connect bind disconnect set_subscribe s_recv s_send s_sendmore : String → SocketCall

module _ {S : Type 0} where
  -- One run for each period: the topic, and behind it the value of `get_data`.
  unfoldable pub publish_loop : String → (S → S × String) → ℕ → S → S × List SocketCall
  publish_loop topic get_data zero s = (s, [])
  publish_loop topic get_data (suc periods) s =
      let (s', message) = get_data s in
      let (end, calls) = publish_loop topic get_data periods s' in
      (end, s_sendmore topic ∷ s_send message ∷ calls)

  unfoldable pub periodic_publish_thread :
      String → String → (S → S × String) → ℕ → S → S × List SocketCall
  unfolding publish_loop
  periodic_publish_thread sock_addr topic get_data periods s =
      let (end, calls) = publish_loop topic get_data periods s in (end, connect sock_addr ∷ calls)

  -- One run for each poll, with the topic and the message that it finds.
  unfoldable pub subscribe_loop :
      (String → S → S) → List (Option (String × String)) → S → S × List SocketCall
  subscribe_loop callback [] s = (s, [])
  subscribe_loop callback (none ∷ polls) s = subscribe_loop callback polls s
  subscribe_loop callback (some (topic, message) ∷ polls) s =
      let (end, calls) = subscribe_loop callback polls (callback message s) in
      (end, s_recv topic ∷ s_recv message ∷ calls)

  unfoldable pub subscription_thread :
      String → String → (String → S → S) → List (Option (String × String)) → S → S × List SocketCall
  unfolding subscribe_loop
  subscription_thread address topic callback polls s =
      let (end, calls) = subscribe_loop callback polls s in
      (end, connect address ∷ set_subscribe topic ∷ calls)

  -- One run for each reply; the thread waits for it.
  unfoldable pub requester_thread :
      String → (S → S × String) → (String → S → S) → List String → S → S × List SocketCall
  requester_thread address get_data callback [] s = (s, [])
  requester_thread address get_data callback (reply ∷ replies) s =
      let (s', message) = get_data s in
      let (end, calls) = requester_thread address get_data callback replies (callback reply s') in
      (end, connect address ∷ s_send message ∷ s_recv reply ∷ disconnect address ∷ calls)

  -- One run for each poll, with the request that it finds.
  unfoldable pub serve_loop :
      (String → S → S × String) → List (Option String) → S → S × List SocketCall
  serve_loop callback [] s = (s, [])
  serve_loop callback (none ∷ polls) s = serve_loop callback polls s
  serve_loop callback (some request ∷ polls) s =
      let (s', reply) = callback request s in
      let (end, calls) = serve_loop callback polls s' in
      (end, s_recv request ∷ s_send reply ∷ calls)

  unfoldable pub server_thread :
      String → (String → S → S × String) → List (Option String) → S → S × List SocketCall
  unfolding serve_loop
  server_thread address callback polls s =
      let (end, calls) = serve_loop callback polls s in (end, connect address ∷ calls)

  unfoldable pub server_thread_bound :
      String → (String → S → S × String) → List (Option String) → S → S × List SocketCall
  unfolding serve_loop
  server_thread_bound address callback polls s =
      let (end, calls) = serve_loop callback polls s in (end, bind address ∷ calls)

  -- `enter_thread` of a Server_Context.
  unfoldable pub enter_server :
      Bool → String → (String → S → S × String) → List (Option String) → S → S × List SocketCall
  unfolding server_thread server_thread_bound
  enter_server bound address callback polls s =
      if bound
      then server_thread_bound address callback polls s
      else server_thread address callback polls s
