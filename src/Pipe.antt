-- ===== src/Pipe.antt =====
-- src/messages/pipe/PipeInterface.cpp: the manager of the proxies, with what it uses of
-- src/messages/pipe/ProxyInterface.cpp and src/messages/pipe/ZMQPubSubProxy.cpp. A filter is an `F` on which
-- `apply` works: the filter after a message, and the message that replaces it.
pub mod Filters
pub mod Turns
pub mod Signals
pub mod Server
pub mod Localizing
use sentinet_cpp.Common.{Bool, true, false, Option, none, some, List, [], ◌∷◌, ◌++◌}
use sentinet_cpp.Common.Maps.{String, find, put}
use sentinet_cpp.Control.NetworkPatterns.{SocketCall, s_recv, s_sendmore, s_send}

pub data Endpoint : Type 0 where
  pub_sub req_rep : Endpoint

pub record Proxy (F : Type 0) : Type 0 where
  pub endpoint : Endpoint
  pub frontend : String
  pub backend : String
  pub running : Bool
  pub filters : List F

abbrev pub Pipe : Type 0 → Type 0
Pipe F = List (String × Proxy F)

-- What a function ends with; `null_proxy` is a call through the null pointer of an entry that
-- `proxies[id]` has just made.
pub data Ended : Type 0 where
  returned : Bool → Ended
  null_proxy : Ended

module _ {F : Type 0} where
  -- `add_filter` of a proxy.
  unfoldable pub add_filter : F → Proxy F → Proxy F
  add_filter filter p = record p { filters = p.filters ++ (filter ∷ []) }

  -- `stop` of a proxy; `__stop__` does nothing.
  unfoldable pub stop_proxy : Proxy F → Proxy F
  stop_proxy p = record p { running = false }

  unfoldable create_endpoint : Endpoint → String → String → String → Pipe F → Pipe F × Bool
  create_endpoint endpoint id frontend backend pipe = elim (find id pipe) [
    | some found ↦ (pipe, false)
    | none ↦ (
      put id
          (record {
            endpoint = endpoint;
            frontend = frontend;
            backend = backend;
            running = true;
            filters = [];
          })
          pipe,
      true,
    )
  ]

  unfoldable pub create_pub_sub_endpoint : String → String → String → Pipe F → Pipe F × Bool
  unfolding create_endpoint
  create_pub_sub_endpoint id frontend backend pipe =
      create_endpoint pub_sub id frontend backend pipe

  unfoldable pub create_req_rep_endpoint : String → String → String → Pipe F → Pipe F × Bool
  unfolding create_endpoint
  create_req_rep_endpoint id frontend backend pipe =
      create_endpoint req_rep id frontend backend pipe

  -- `stop()`, of all proxies; the join of their threads is left out.
  unfoldable pub stop_all : Pipe F → Pipe F × Bool
  unfolding stop_proxy
  stop_all [] = ([], true)
  stop_all ((id, p) ∷ rest) = ((id, stop_proxy p) ∷ (stop_all rest).0, true)

  -- The test with which `stop`, `kill`, `signal` and `register_signal` of an id begin, and the call
  -- behind it.
  unfoldable pub call_unless_found : String → Pipe F → Pipe F × Ended
  call_unless_found id pipe = elim (find id pipe) [
    | some found ↦ (pipe, returned false)
    | none ↦ (pipe, null_proxy)
  ]

  unfoldable pub stop : String → Pipe F → Pipe F × Ended
  unfolding call_unless_found
  stop id pipe = call_unless_found id pipe

  unfoldable pub kill : String → Pipe F → Pipe F × Ended
  unfolding call_unless_found
  kill id pipe = call_unless_found id pipe

  unfoldable pub set_filter : String → F → Pipe F → Pipe F × Bool
  unfolding add_filter
  set_filter id filter pipe = elim (find id pipe) [
    | none ↦ (pipe, false)
    | some p ↦ (put id (add_filter filter p) pipe, true)
  ]

module _ {F : Type 0} (apply : F → String → F × String) where
  -- The loop over the filters in `__spin__`.
  unfoldable pub convert_all : List F → String → List F × String
  convert_all [] message = ([], message)
  convert_all (f ∷ fs) message =
      let (f', next) = apply f message in let (fs', last) = convert_all fs next in (f' ∷ fs', last)

  -- `__spin__` of a pub-sub proxy that has its sockets, with the topic and the message that its poll
  -- finds, while no filter is being added.
  unfoldable pub spin : Option (String × String) → Proxy F → Proxy F × List SocketCall
  unfolding convert_all
  spin none p = (p, [])
  spin (some (topic, req)) p =
      let (filters, sent) = convert_all p.filters req in
      (
        record p { filters = filters },
        s_recv topic ∷ s_recv req ∷ s_sendmore topic ∷ s_send sent ∷ [],
      )
