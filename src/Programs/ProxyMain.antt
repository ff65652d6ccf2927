-- ===== src/Programs/ProxyMain.antt =====
-- src/impl/kermit_proxy.cpp: the program of the proxies. Its text of help is left out.
use sentinet_cpp.Common.{
  ℕ, ◌+◌, ◌-◌, ◌*◌, ◌^◌, ◌%◌, min, leb, u32, ◌==◌, ◌||◌, ◌&&◌, Bool, true, false, not, List, [],
  ◌∷◌, length, if◌then◌else◌,
}
use sentinet_cpp.Common.Maps.{String, same}
use sentinet_cpp.Common.Decimal.{chars}
use sentinet_cpp.Pipe.{Pipe, create_pub_sub_endpoint, set_filter, stop_all}
use sentinet_cpp.Programs.Addresses.{
  to_bind_addr, cmd_vel_topic, localizer_topic, cmd_vel_front_address, cmd_vel_back_address,
  localizer_front_address, localizer_back_address,
}
use sentinet_cpp.Programs.KernelMain.{Parsed, helps, fails, runs, wants_help}

-- `strtol` of the standard library for base 10, as the 64-bit pattern of the result.
skip_spaces : String → String
skip_spaces [] = []
skip_spaces (c ∷ s) = if c == 32 || (leb 9 c && leb c 13) then skip_spaces s else c ∷ s

leading_value : ℕ → String → ℕ
leading_value acc [] = acc
leading_value acc (c ∷ s) =
    let more = leading_value (acc * 10 + (c - 48)) s in if leb 48 c && leb c 57 then more else acc

unfoldable signed_value : String → ℕ
unfolding leading_value
signed_value [] = 0
signed_value (c ∷ s) =
    if c == 45
    then (2 ^ 64 - min (leading_value 0 s) (2 ^ 63)) % 2 ^ 64
    else if c == 43
    then min (leading_value 0 s) (2 ^ 63 - 1)
    else min (leading_value 0 (c ∷ s)) (2 ^ 63 - 1)

unfoldable pub strtol : String → ℕ
unfolding skip_spaces signed_value
strtol s = signed_value (skip_spaces s)

pub record ProxyOptions : Type 0 where
  pub cmd_vel : Bool
  pub localizer : Bool
  pub timer : Bool
  pub time_period : ℕ

unfoldable pub is_time : String → Bool
is_time a = same a (chars "--time") || same a (chars "-t")

-- The first two tests of a turn.
unfoldable pub flags : String → ProxyOptions → ProxyOptions
flags a o =
    let o' : ProxyOptions =
      if same a (chars "--cmd_vel") && not o.cmd_vel then record o { cmd_vel = true } else o in
    if same a (chars "--localizer") && not o'.localizer then record o' { localizer = true } else o'

-- The loop from an argument on: `continue` leaves the value of `--time` as the next argument.
unfoldable pub options_loop : Bool → List String → ProxyOptions → Parsed ProxyOptions
unfolding wants_help flags is_time
options_loop alone [] o = runs o
options_loop alone (a ∷ []) o =
    if wants_help alone a
    then helps
    else if is_time a && not o.timer
    then fails
    else runs (flags a o)
options_loop alone (a ∷ v ∷ rest) o =
    let timed = is_time a && not o.timer in
    let o' : ProxyOptions =
      if timed then record (flags a o) { timer = true; time_period = strtol v } else flags a o in
    let result = options_loop alone (v ∷ rest) o' in
    if wants_help alone a then helps else if timed && (strtol v == 0) then fails else result

unfoldable pub proxy_options : List String → Parsed ProxyOptions
unfolding options_loop
proxy_options argv =
    options_loop (length argv == 1) argv
      (record { cmd_vel = false; localizer = false; timer = false; time_period = 0 })

-- What `main` ends with: a status, the endless loop, or the end of a sleep of some seconds, with the proxies
-- while it lasts, those behind it, and the status.
pub data ProxyEnd (F : Type 0) : Type 0 where
  exits : ℕ → ProxyEnd F
  endless : Pipe F → ProxyEnd F
  slept : ℕ → Pipe F → Pipe F → ℕ → ProxyEnd F

module _ {F : Type 0} where
  -- The endpoints, with the filter of the localizer.
  unfoldable pub make_endpoints : F → ProxyOptions → Pipe F
  make_endpoints filter o =
      let first : Pipe F =
        if o.cmd_vel
        then (create_pub_sub_endpoint cmd_vel_topic (to_bind_addr cmd_vel_front_address)
            (to_bind_addr cmd_vel_back_address) []).0
        else [] in
      if o.localizer
      then (set_filter localizer_topic filter
          (create_pub_sub_endpoint localizer_topic (to_bind_addr localizer_front_address)
            (to_bind_addr localizer_back_address) first).0).0
      else first

  -- `sleep` takes an `unsigned int`.
  unfoldable pub proxy_main : F → List String → ProxyEnd F
  unfolding proxy_options make_endpoints
  proxy_main filter argv = elim (proxy_options argv) [
    | helps ↦ exits 0
    | fails ↦ exits 1
    | runs o ↦
        let made = make_endpoints filter o in
        if o.time_period == 2 ^ 64 - 1
        then endless made
        else slept (u32 o.time_period) made (stop_all made).0 1
  ]
