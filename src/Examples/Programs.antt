-- ===== src/Examples/Programs.antt =====
-- The programs with concrete arguments.
use sentinet_cpp.Common.{ℕ, none, ◌==◌, arith, ◌≡◌, refl, Bool, true, false, some, List, [], ◌∷◌}
use sentinet_cpp.Common.Maps.{String, same}
use sentinet_cpp.Common.Decimal.{chars, to_string}
use sentinet_cpp.Control.ZmqClient.{returned}
use sentinet_cpp.Control.ZmqClient.Calls.{no_sockets}
use sentinet_cpp.Control.ZmqClient.Quitting.{AllThreads}
use sentinet_cpp.Interface.{Interface, Settings}
use sentinet_cpp.Pipe.{Pipe}
use sentinet_cpp.Programs.Addresses.{to_conn_addr}
use sentinet_cpp.Programs.Options.{asked, ends_in, last_after}
use sentinet_cpp.Programs.KernelOptions.{kernel_options-described}
use sentinet_cpp.Programs.KernelMain.{
  runs, wants_help, kernel_options, kernel_main, run_kernel, exits,
}
use sentinet_cpp.Programs.ProxyMain.{ProxyOptions, strtol, proxy_options}
use sentinet_cpp.Programs.ProxyOptions.{proxy_options-parsed}
use sentinet_cpp.Programs.Running.{kernel_main-ends}

minus_twelve : strtol (chars " -12x") ≡ 18446744073709551604
unfolding strtol
minus_twelve = refl

port : to_conn_addr 5452 ≡ chars "tcp://localhost:5452"
unfolding to_conn_addr to_string
port = refl

abbrev kernel_name : String
kernel_name = chars "kermit_kernel"

abbrev kernel_args : List String
kernel_args = chars "--debug" ∷ chars "off" ∷ chars "--verbose" ∷ []

kernel_options-described_example :
    kernel_options (kernel_name ∷ kernel_args) ≡ runs (record { debug = false; verbose = true })
unfolding asked ends_in last_after same
kernel_options-described_example = kernel_options-described kernel_name kernel_args

abbrev settings : Settings
settings = record { s_port = []; s_period = 0; time_alive = 0 }

-- A signal comes in the third turn.
abbrev third : ℕ → Bool
third i = i == 2

kernel_main-ends_example :
    let argv = kernel_name ∷ kernel_args in
    (kernel_main {F = ℕ} 2 third (λ i. i) settings 7 8 9 argv no_sockets ≡ none)
    × (begun ended : Interface ℕ) × (kernel_main {F = ℕ} 9 third
          (λ i. i)
          settings
          7
          8
          9
          argv
          no_sockets
        ≡ some (exits 0 (some ended)))
    × ((run_kernel {F = ℕ} 2
          (λ j. true)
          (λ i. i)
          settings
          7
          8
          9
          (record { debug = false; verbose = true })
          no_sockets).0
        ≡ (begun, returned true))
    × AllThreads true begun.sockets ended.sockets
    × (ended.running ≡ false)
    × (ended.closes ≡ 2)
unfolding kernel_options wants_help same
kernel_main-ends_example =
    kernel_main-ends third (λ i. i) settings 7 8 9 (kernel_name ∷ kernel_args)
      (record { debug = false; verbose = true }) 2 9 refl refl (λ j l. ground arith) (omega arith)

abbrev proxy_name : String
proxy_name = chars "kermit_proxy"

abbrev proxy_args : List String
proxy_args = chars "--localizer" ∷ chars "-t" ∷ chars "5" ∷ chars "--cmd_vel" ∷ []

abbrev both : ProxyOptions
both = record { cmd_vel = true; localizer = true; timer = true; time_period = 5 }

proxy_options-parsed_example :
    (proxy_options (proxy_name ∷ proxy_args) ≡ runs both)
    × (proxy_options (proxy_name ∷ chars "--localizer" ∷ [])
        ≡ runs (record { cmd_vel = false; localizer = true; timer = false; time_period = 0 }))
unfolding asked same strtol
proxy_options-parsed_example =
    proxy_options-parsed proxy_name (chars "--localizer" ∷ []) (chars "-t") (chars "5")
      (chars "--cmd_vel" ∷ []) refl refl
