-- ===== src/Control/ZmqClient/Quitting.antt =====
-- `quit` of src/control/ZMQControlClient.cpp: every thread of the node is told to end, and joined.
use sentinet_cpp.Common.{◌≡◌, refl, sym, subst, ap, ◌∙◌, Bool, true, false, some, [], ◌∷◌, arith}
use sentinet_cpp.Common.Maps.{String, find, put, same, same_comm, find-put, find-put_other}
use sentinet_cpp.Control.ZmqClient.{
  SpaceMap, SocketThreadSpace, SocketData, returned, cancel_each, and_then, quit,
}
use sentinet_cpp.Control.ZmqClient.Threads.{IsStarted, cancel_running}

module _ {F : Type 0} where
  -- A key that is none of the keys of a map.
  pub data Apart (k : String) : SpaceMap F → Type 0 where
    apart_nil : Apart k []
    apart_cons :
        {j : String} {v : SocketThreadSpace F} {keys : SpaceMap F}
        → same k j ≡ false
        → Apart k keys
        → Apart k ((j, v) ∷ keys)

  -- The keys of the first map are distinct and each has, in the second one, an entry whose thread is
  -- started and was not told to end, or was.
  pub data Threads (told : Bool) (m : SpaceMap F) : SpaceMap F → Type 0 where
    threads_nil : Threads told m []
    threads_cons :
        {k : String} {v : SocketThreadSpace F} {keys : SpaceMap F} (w : SocketThreadSpace F)
        → find k m ≡ some w
        → IsStarted w
        → w.exit_signal.satisfied ≡ told
        → Apart k keys
        → Threads told m keys
        → Threads told m ((k, v) ∷ keys)

  put-Threads :
      {told : Bool} (k : String) (u : SocketThreadSpace F) (m keys : SpaceMap F)
      → Apart k keys
      → Threads told m keys
      → Threads told (put k u m) keys
  put-Threads k u m [] apart_nil threads_nil = threads_nil
  put-Threads k u m ((j, v) ∷ keys) (apart_cons n a) (threads_cons w e s t b rest) =
      threads_cons w (find-put_other k j u m n ∙ e) s t b (put-Threads k u m keys a rest)

  -- Cancelling other keys leaves an entry as it is.
  cancel_each-find :
      (k : String) (m keys : SpaceMap F)
      → Apart k keys
      → Threads false m keys
      → find k (cancel_each keys m).0 ≡ find k m
  unfolding cancel_each
  cancel_each-find k m [] apart_nil threads_nil = refl
  cancel_each-find k m ((j, v) ∷ keys) (apart_cons n a) (threads_cons w e s t b rest) =
      let (u, s', t', result) = cancel_running m j w e s t in
      let others = cancel_each-find k (put j u m) keys a (put-Threads j u m keys b rest) in
      let unfolded : cancel_each ((j, v) ∷ keys) m ≡ cancel_each keys (put j u m) =
        ground (arith, result) in
      ap (λ r. find k r.0) unfolded ∙ others ∙ find-put_other j k u m (same_comm j k ∙ n)

  cancel_each-Threads :
      (m keys : SpaceMap F)
      → Threads false m keys
      → ((cancel_each keys m).1 ≡ returned true) × Threads true (cancel_each keys m).0 keys
  unfolding cancel_each
  cancel_each-Threads m [] threads_nil = (refl, threads_nil)
  cancel_each-Threads m ((k, v) ∷ keys) (threads_cons w e s t b rest) =
      let (u, s', t', result) = cancel_running m k w e s t in
      let m' = put k u m in
      let pending = put-Threads k u m keys b rest in
      let (done, stopped) = cancel_each-Threads m' keys pending in
      let kept = cancel_each-find k m' keys b pending ∙ find-put k u m in
      let unfolded : cancel_each ((k, v) ∷ keys) m ≡ cancel_each keys m' = ground (arith, result) in
      (
        ap (λ r. r.1) unfolded ∙ done,
        subst (λ r. Threads true r.0 ((k, v) ∷ keys)) (sym unfolded)
            (threads_cons u kept s' t' b stopped),
      )

  -- The four maps of a node, each with distinct keys and threads that were not told to end, or were.
  pub record AllThreads (told : Bool) (d e : SocketData F) : Type 0 where
    pub of_subscribers : Threads told e.subscribers d.subscribers
    pub of_servers : Threads told e.servers d.servers
    pub of_clients : Threads told e.periodic_clients d.periodic_clients
    pub of_publishers : Threads told e.periodic_publishers d.periodic_publishers

  -- Where no thread was told to end yet, `quit` returns true, and after it every entry that the node
  -- had is there, with its exit signal set and its thread joined.
  pub quit-AllThreads :
      (d : SocketData F)
      → AllThreads false d d
      → ((quit d).1 ≡ returned true) × AllThreads true d (quit d).0
  unfolding quit and_then
  quit-AllThreads d a =
      let (s, stopped_s) = cancel_each-Threads d.subscribers d.subscribers a.of_subscribers in
      let (v, stopped_v) = cancel_each-Threads d.servers d.servers a.of_servers in
      let (p, stopped_p) =
        cancel_each-Threads d.periodic_publishers d.periodic_publishers a.of_publishers in
      let (c, stopped_c) = cancel_each-Threads d.periodic_clients d.periodic_clients a.of_clients in
      let result : quit d ≡ (
        record {
          subscribers = (cancel_each d.subscribers d.subscribers).0;
          servers = (cancel_each d.servers d.servers).0;
          periodic_clients = (cancel_each d.periodic_clients d.periodic_clients).0;
          periodic_publishers = (cancel_each d.periodic_publishers d.periodic_publishers).0;
        },
        returned true,
      ) =
        ground (arith, s, v, p, c) in
      (
        ap (λ r. r.1) result,
        subst (λ r. AllThreads true d r.0) (sym result)
            (record {
              of_subscribers = stopped_s;
              of_servers = stopped_v;
              of_clients = stopped_c;
              of_publishers = stopped_p;
            }),
      )
