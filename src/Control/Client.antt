-- ===== src/Control/Client.antt =====
-- include/scpp/core/control/ControlClientInterface.hpp: what a control client offers, the parameters that
-- can be passed as one value, and the functions that the interface adds. `D` is the state of a client,
-- and a callback is an `F`.
pub mod Zmq
use sentinet_cpp.Common.{ℕ, ◌≡◌, ◌≢◌, refl, ◌∙◌, ap, Bool, true, false, List, [], ◌∷◌}
use sentinet_cpp.Common.Maps.{String, same}
use sentinet_cpp.Common.Decimal.{chars}
use sentinet_cpp.Control.ZmqClient.{Outcome, returned}

pub record ServeParams (F : Type 0) : Type 0 where
  pub sock_addr : String
  pub callback : F

pub record PublishParams (F : Type 0) : Type 0 where
  pub sock_addr : String
  pub topic : String
  pub get_data : F
  pub period : ℕ

pub record SubscribeParams (F : Type 0) : Type 0 where
  pub sock_addr : String
  pub topic : String
  pub callback : F

-- The functions without a body here, less `start` and those for one message.
pub record ControlClient (D : Type 0) (F : Type 0) : Type 0 where
  pub publish : String → String → F → ℕ → D → D × Outcome
  pub cancel_periodic_publisher : String → D → D × Outcome
  pub request : String → String → F → F → ℕ → D → D × Outcome
  pub cancel_periodic_request : String → D → D × Outcome
  pub subscribe : String → String → F → D → D × Outcome
  pub cancel_subscription : String → D → D × Outcome
  pub serve : String → F → D → D × Outcome
  pub terminate_server : String → D → D × Outcome
  pub quit : D → D × Outcome

-- The functions with a body that a client may override.
unfoldable pub flag : ℕ → ℕ
flag n = n

unfoldable pub initialize_publisher : String → Bool
initialize_publisher sock_addr = same sock_addr (chars "default")

unfoldable pub initialize_client : Bool
initialize_client = false

module _ {F : Type 0} where
  -- The default constructors; their callbacks answer with the request itself, with "No Publisher Data",
  -- and with a line in the log.
  unfoldable pub default_serve_params : F → ServeParams F
  default_serve_params echo = record { sock_addr = chars "null"; callback = echo }

  unfoldable pub default_publish_params : F → PublishParams F
  default_publish_params no_publisher_data = record {
    sock_addr = chars "null";
    topic = [];
    get_data = no_publisher_data;
    period = 100;
  }

  unfoldable pub default_subscribe_params : F → SubscribeParams F
  default_subscribe_params logs = record { sock_addr = chars "null"; topic = []; callback = logs }

  -- The constructors with arguments.
  unfoldable pub new_serve_params : String → F → ServeParams F
  new_serve_params address callback = record { sock_addr = address; callback = callback }

  unfoldable pub new_publish_params : F → String → String → PublishParams F
  new_publish_params no_publisher_data broker topic = record {
    sock_addr = broker;
    topic = topic;
    get_data = no_publisher_data;
    period = 100;
  }

  unfoldable pub new_subscribe_params : F → String → String → SubscribeParams F
  new_subscribe_params logs sock_backend topic = record {
    sock_addr = sock_backend;
    topic = topic;
    callback = logs;
  }

module _ {D F : Type 0} (c : ControlClient D F) where
  unfoldable pub publish_params : PublishParams F → D → D × Outcome
  publish_params p d = c.publish p.sock_addr p.topic p.get_data p.period d

  unfoldable pub subscribe_params : SubscribeParams F → D → D × Outcome
  subscribe_params p d = c.subscribe p.sock_addr p.topic p.callback d

  unfoldable pub serve_params : ServeParams F → D → D × Outcome
  serve_params p d = c.serve p.sock_addr p.callback d

  -- The three functions `spin`.
  unfoldable pub spin_publish : PublishParams F → D → D × Outcome
  unfolding publish_params
  spin_publish p d = publish_params p d

  unfoldable pub spin_subscribe : SubscribeParams F → D → D × Outcome
  unfolding subscribe_params
  spin_subscribe p d = subscribe_params p d

  unfoldable pub spin_serve : ServeParams F → D → D × Outcome
  unfolding serve_params
  spin_serve p d = serve_params p d

  -- What a caller can rely on: what was started under an address is not started again under it, and can
  -- be stopped by it.
  pub record IsClient : Type 0 where
    pub publish_once :
        (p q : PublishParams F) (d : D)
        → q.sock_addr ≡ p.sock_addr
        → (spin_publish p d).1 ≡ returned true
        → spin_publish q (spin_publish p d).0 ≡ ((spin_publish p d).0, returned false)
    pub publish_stops :
        (p : PublishParams F) (d : D)
        → (spin_publish p d).1 ≡ returned true
        → (c.cancel_periodic_publisher p.sock_addr (spin_publish p d).0).1 ≡ returned true
    pub serve_once :
        (p q : ServeParams F) (d : D)
        → q.sock_addr ≡ p.sock_addr
        → (spin_serve p d).1 ≡ returned true
        → spin_serve q (spin_serve p d).0 ≡ ((spin_serve p d).0, returned false)
    pub serve_stops :
        (p : ServeParams F) (d : D)
        → (spin_serve p d).1 ≡ returned true
        → (c.terminate_server p.sock_addr (spin_serve p d).0).1 ≡ returned true

  -- Publishers started one after the other.
  unfoldable pub spin_all : List (PublishParams F) → D → D
  unfolding spin_publish
  spin_all [] d = d
  spin_all (p ∷ ps) d = spin_all ps (spin_publish p d).0

  abbrev pub AllAt : String → List (PublishParams F) → Type 0
  AllAt address [] = Unit {0}
  AllAt address (p ∷ ps) = (p.sock_addr ≡ address) × AllAt address ps

  -- Of some publishers for one address only the first is started.
  pub spin_all-first :
      IsClient
      → (p : PublishParams F) (ps : List (PublishParams F)) (d : D) → AllAt p.sock_addr ps
      → (spin_publish p d).1 ≡ returned true
      → spin_all (p ∷ ps) d ≡ (spin_publish p d).0
  unfolding spin_all
  spin_all-first h p [] d at e = refl
  spin_all-first h p (q ∷ qs) d at e =
      let again = h.publish_once p q d at.0 e in
      ap (spin_all qs) (ap (λ (r : D × Outcome). r.0) again) ∙ spin_all-first h p qs d at.1 e
