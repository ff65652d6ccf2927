-- ===== src/Pipe/Turns.antt =====
-- The loop of src/messages/pipe/ProxyInterface.cpp with the turns of src/messages/pipe/ZMQPubSubProxy.cpp: what
-- goes through a proxy while filters are added to it and until it is stopped.
use sentinet_cpp.Common.{
  ◌≡◌, refl, ap, arith, Bool, true, false, Option, none, some, List, [], ◌∷◌, ◌++◌,
}
use sentinet_cpp.Common.Maps.{String, find}
use sentinet_cpp.Control.NetworkPatterns.{
  SocketCall, bind, set_subscribe, s_recv, s_sendmore, s_send,
}
use sentinet_cpp.Control.NetworkPatterns.Serving.{found, parts, received, two_parts}
use sentinet_cpp.Pipe.Filters.{
  created, create_pub_sub_endpoint-created, set_filters, set_filters-find,
}
use sentinet_cpp.Pipe.{
  Proxy, Pipe, create_pub_sub_endpoint, add_filter, stop_proxy, convert_all, spin,
}

-- What happens to a proxy: a turn of its loop, with whether a filter is just being added and what the
-- poll finds, or a call of another thread between two turns.
pub data Turn (F : Type 0) : Type 0 where
  spins : Bool → Option (String × String) → Turn F
  adds : F → Turn F
  stops : Turn F

-- `__spin__`: while a filter is being added the message goes through as it is.
unfoldable pub pub_sub_spin :
    {F : Type 0} (apply : F → String → F × String)
    → Bool
    → Option (String × String)
    → Proxy F
    → Proxy F × List SocketCall
unfolding spin
pub_sub_spin apply false poll p = spin apply poll p
pub_sub_spin apply true none p = (p, [])
pub_sub_spin apply true (some (topic, req)) p =
    (p, s_recv topic ∷ s_recv req ∷ s_sendmore topic ∷ s_send req ∷ [])

module _ {F : Type 0} (apply : F → String → F × String) where
  -- The loop of `start`, while neither `paused` nor the exit signal is set.
  unfoldable pub proxy_loop : List (Turn F) → Proxy F → Proxy F × List SocketCall
  unfolding pub_sub_spin
  proxy_loop [] p = (p, [])
  proxy_loop (adds filter ∷ turns) p = proxy_loop turns (add_filter filter p)
  proxy_loop (stops ∷ turns) p = proxy_loop turns (stop_proxy p)
  proxy_loop (spins adding poll ∷ turns) p =
      let (p', calls) = pub_sub_spin apply adding poll p in
      let (end, rest) = proxy_loop turns p' in
      let idle = proxy_loop turns p in elim p.running [ true ↦ (end, calls ++ rest) | false ↦ idle ]

  -- `start` of a pub-sub proxy, with the sockets of `__start__`; it subscribes to a prefix of length 0.
  unfoldable pub start_proxy : List (Turn F) → Proxy F → Proxy F × List SocketCall
  unfolding proxy_loop
  start_proxy turns p =
      let (end, calls) = proxy_loop turns p in
      (end, bind p.frontend ∷ set_subscribe [] ∷ bind p.backend ∷ calls)

  -- Filters as a machine: the messages that they make of some messages, under their topics.
  unfoldable pub transduce : List F → List (String × String) → List (String × String)
  transduce fs [] = []
  transduce fs ((topic, message) ∷ rest) =
      let (fs', sent) = convert_all apply fs message in (topic, sent) ∷ transduce fs' rest

-- The parts that some calls send, in order, each with whether it is sent with ZMQ_SNDMORE.
abbrev pub sent_parts : List SocketCall → List (Bool × String)
sent_parts [] = []
sent_parts (s_send m ∷ calls) = (false, m) ∷ sent_parts calls
sent_parts (s_sendmore m ∷ calls) = (true, m) ∷ sent_parts calls
sent_parts (_ ∷ calls) = sent_parts calls

abbrev pub polls_only : {F : Type 0} → List (Option (String × String)) → List (Turn F)
polls_only [] = []
polls_only (poll ∷ polls) = spins false poll ∷ polls_only polls

module _ {F : Type 0} (apply : F → String → F × String) where
  -- A proxy as `create_pub_sub_endpoint` makes it, with some filters.
  abbrev pub with_filters : String → String → List F → Proxy F
  with_filters frontend backend fs = record (created frontend backend) { filters = fs }

  proxy_loop_stopped :
      (turns : List (Turn F)) (p : Proxy F) → p.running ≡ false → (proxy_loop apply turns p).1 ≡ []
  unfolding proxy_loop add_filter stop_proxy
  proxy_loop_stopped [] p e = refl
  proxy_loop_stopped (adds f ∷ turns) p e = proxy_loop_stopped turns (add_filter f p) e
  proxy_loop_stopped (stops ∷ turns) p e = proxy_loop_stopped turns (stop_proxy p) refl
  proxy_loop_stopped (spins adding poll ∷ turns) p e =
      let rest = proxy_loop_stopped turns p e in ground (arith, e, rest)

  proxy_loop-transduce :
      (polls : List (Option (String × String))) (later : List (Turn F)) (frontend backend : String)
      (fs : List F)
      → let calls =
          (proxy_loop apply
            (polls_only polls ++ (stops ∷ later))
            (with_filters frontend backend fs)).1 in
        (received calls ≡ parts (found polls))
        × (sent_parts calls ≡ two_parts (transduce apply fs (found polls)))
  unfolding proxy_loop pub_sub_spin spin transduce stop_proxy
  proxy_loop-transduce [] later frontend backend fs =
      let none_sent =
        proxy_loop_stopped later (stop_proxy (with_filters frontend backend fs)) refl in
      (ap received none_sent, ap sent_parts none_sent)
  proxy_loop-transduce (none ∷ polls) later frontend backend fs =
      proxy_loop-transduce polls later frontend backend fs
  proxy_loop-transduce (some (topic, message) ∷ polls) later frontend backend fs =
      let (fs', sent) = convert_all apply fs message in
      let (got, gave) = proxy_loop-transduce polls later frontend backend fs' in
      (ap (λ r. topic ∷ message ∷ r) got, ap (λ r. (true, topic) ∷ (false, sent) ∷ r) gave)

  -- A pub-sub proxy that is made under an id not in use and given some filters, one after the other: until
  -- it is stopped it receives both parts of each message that its polls find, in order, and sends
  -- each on as the second of two parts, behind its topic, changed by all filters in the order in which they were set, which go on
  -- from message to message; once it is stopped, nothing more goes through, whatever happens to it.
  pub start_proxy-transduce :
      (id frontend backend : String) (pipe : Pipe F) (fs : List F)
      (polls : List (Option (String × String))) (later : List (Turn F))
      → find id pipe ≡ none
      → let p = with_filters frontend backend fs in
        let calls = (start_proxy apply (polls_only polls ++ (stops ∷ later)) p).1 in
        (find id (set_filters id fs (create_pub_sub_endpoint id frontend backend pipe).0) ≡ some p)
        × (received calls ≡ parts (found polls))
        × (sent_parts calls ≡ two_parts (transduce apply fs (found polls)))
  unfolding start_proxy
  start_proxy-transduce id frontend backend pipe fs polls later e =
      let (got, gave) = proxy_loop-transduce polls later frontend backend fs in
      let made = create_pub_sub_endpoint-created id frontend backend pipe e in
      (set_filters-find id fs _ (created frontend backend) made, got, gave)
