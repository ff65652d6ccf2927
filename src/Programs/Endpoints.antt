-- ===== src/Programs/Endpoints.antt =====
-- The proxies that src/impl/kermit_proxy.cpp makes, and the program of the kernel that connects to them.
use sentinet_cpp.Common.{
  ℕ, ◌<◌, ◌&&◌, ◌≡◌, Bool, true, false, Option, none, some, [], ◌∷◌, if◌then◌else◌,
}
use sentinet_cpp.Common.Maps.{String, same}
use sentinet_cpp.Pipe.{Proxy, Pipe, stop_proxy}
use sentinet_cpp.Pipe.Filters.{created}
use sentinet_cpp.Programs.Addresses.{
  to_bind_addr, to_conn_addr, cmd_vel_topic, localizer_topic, cmd_vel_front_address,
  cmd_vel_back_address, localizer_front_address, localizer_back_address,
}
use sentinet_cpp.Programs.ProxyMain.{ProxyOptions}

-- An address to connect to and one that is bound are those of one port.
abbrev pub Meets : String → String → Type 0
Meets conn bind =
    (port : ℕ) × (port < 65536) × (conn ≡ to_conn_addr port) × (bind ≡ to_bind_addr port)

module _ {F : Type 0} where
  abbrev pub cmd_vel_proxy : Proxy F
  cmd_vel_proxy = created (to_bind_addr cmd_vel_front_address) (to_bind_addr cmd_vel_back_address)

  abbrev pub localizer_proxy : F → Proxy F
  localizer_proxy filter =
      record (created (to_bind_addr localizer_front_address)
        (to_bind_addr localizer_back_address)) { filters = filter ∷ [] }

  -- The pipe by its options.
  abbrev made_of : Bool → Bool → F → Pipe F
  made_of false false filter = []
  made_of true false filter = (cmd_vel_topic, cmd_vel_proxy) ∷ []
  made_of false true filter = (localizer_topic, localizer_proxy filter) ∷ []
  made_of true true filter =
      (cmd_vel_topic, cmd_vel_proxy) ∷ (localizer_topic, localizer_proxy filter) ∷ []

  stopped : Option (Proxy F) → Option (Proxy F)
  stopped none = none
  stopped (some p) = some (stop_proxy p)

  -- The proxy under an id, by the options.
  abbrev pub proxy_at : F → ProxyOptions → String → Option (Proxy F)
  proxy_at filter o id =
      if o.cmd_vel && same cmd_vel_topic id
      then some cmd_vel_proxy
      else if o.localizer && same localizer_topic id
      then some (localizer_proxy filter)
      else none
