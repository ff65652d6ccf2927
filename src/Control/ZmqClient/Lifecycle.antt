-- ===== src/Control/ZmqClient/Lifecycle.antt =====
-- What becomes of one entry of a node in src/control/ZMQControlClient.cpp: started, cancelled, and
-- asked for again.
use sentinet_cpp.Common.{ℕ, ◌≡◌, refl, true, false, none, some, arith, ap, ◌∙◌}
use sentinet_cpp.Common.Maps.{String, find, put, same, find-put, find-put_other, put-put}
use sentinet_cpp.Control.ZmqClient.{
  Context, joined, SocketThreadSpace, SpaceMap, SocketData, returned, thrown, pub_socket,
  sub_socket, publisher_context, subscriber_context, start_thread, cancel, publish_periodic,
  subscribe, cancel_subscription, cancel_periodic_publisher, future_already_retrieved,
  promise_already_satisfied, stop_thread, join,
}
use sentinet_cpp.Control.ZmqClient.Threads.{running_space, start_thread_fresh, start_thread_taken}

module _ {F : Type 0} where
  abbrev pub joined_space : Context F → SocketThreadSpace F
  joined_space context = record {
    thread = some (joined context);
    exit_signal = record { retrieved = true; satisfied = true };
    socket = none;
  }

  -- A key that is not in use gets a running thread; cancelling it joins the thread and leaves the
  -- entry, so that it can neither be cancelled again nor be started again.
  pub cancel-start_thread :
      (type : _) (m : SpaceMap F) (key : String) (context : Context F)
      → find key m ≡ none
      → let m1 = (start_thread type m key context).0 in
        let m2 = put key (joined_space context) m in
        (m1 ≡ put key (running_space context) m)
        × (cancel m1 key ≡ (m2, returned true))
        × (find key m2 ≡ some (joined_space context))
        × (cancel m2 key ≡ (m2, thrown promise_already_satisfied))
  unfolding cancel stop_thread join
  cancel-start_thread type m key context e =
      let started = ap (λ r. r.0) (start_thread_fresh type m key context e) in
      let there = find-put key (running_space context) m in
      let gone = find-put key (joined_space context) m in
      let again = put-put key (running_space context) (joined_space context) m in
      (started, ground (arith, started, there, again), gone, ground (arith, gone))

  -- Under an address that is not in use a periodic publisher starts a thread with its context. Cancelling it
  -- joins that thread and returns true. After that the address can never be used again: publishing
  -- on it returns false and changes nothing, and cancelling it once more is an exception.
  pub publish_periodic-cancel :
      (a t u : String) (f g : F) (p q : ℕ) (d : SocketData F)
      → find a d.periodic_publishers ≡ none
      → let d1 = (publish_periodic a t f p d).0 in
        let d2 = (cancel_periodic_publisher a d1).0 in
        ((publish_periodic a t f p d).1 ≡ returned true)
        × (find a d1.periodic_publishers ≡ some (running_space (publisher_context a t p f)))
        × ((cancel_periodic_publisher a d1).1 ≡ returned true)
        × (find a d2.periodic_publishers ≡ some (joined_space (publisher_context a t p f)))
        × (publish_periodic a u g q d2 ≡ (d2, returned false))
        × (cancel_periodic_publisher a d2 ≡ (d2, thrown promise_already_satisfied))
  unfolding publish_periodic cancel_periodic_publisher
  publish_periodic-cancel a t u f g p q d e =
      let context = publisher_context a t p f in
      let start = start_thread_fresh pub_socket d.periodic_publishers a context e in
      let (started, stopped, gone, again) =
        cancel-start_thread pub_socket d.periodic_publishers a context e in
      let there = find-put a (running_space context) d.periodic_publishers in
      (
        ground (arith, e, start),
        ground (arith, e, start, there),
        ground (arith, e, stopped),
        ground (arith, e, stopped, gone),
        ground (arith, e, stopped, gone),
        ground (arith, e, stopped, again),
      )

  -- Where neither the address nor the two topics are in use and the topics are not the address, a
  -- subscription is kept under its address: cancelling it by its topic returns false and leaves it
  -- running, and subscribing to a second topic at the address is an exception.
  pub subscribe-subscribe :
      (a t u : String) (f g : F) (d : SocketData F)
      → find a d.subscribers ≡ none
      → find t d.subscribers ≡ none
      → find u d.subscribers ≡ none
      → same a t ≡ false
      → same a u ≡ false
      → let d1 = (subscribe a t f d).0 in
        ((subscribe a t f d).1 ≡ returned true)
        × (find a d1.subscribers ≡ some (running_space (subscriber_context a t f)))
        × (cancel_subscription t d1 ≡ (d1, returned false))
        × ((subscribe a u g d1).1 ≡ thrown future_already_retrieved)
  unfolding subscribe cancel_subscription cancel
  subscribe-subscribe a t u f g d e et eu nt nu =
      let context = subscriber_context a t f in
      let start = start_thread_fresh sub_socket d.subscribers a context e in
      let space = running_space context in
      let there = find-put a space d.subscribers in
      let no_t = find-put_other a t space d.subscribers nt ∙ et in
      let no_u = find-put_other a u space d.subscribers nu ∙ eu in
      let taken =
        start_thread_taken sub_socket (put a space d.subscribers) a (subscriber_context a u g) space
          there (record { taken = refl; context = context; thread_is = refl }) in
      (
        ground (arith, et, start),
        ground (arith, et, start, there),
        ground (arith, et, start, no_t),
        ground (arith, et, start, no_u, taken),
      )
