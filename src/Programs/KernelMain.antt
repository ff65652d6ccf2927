-- ===== src/Programs/KernelMain.antt =====
-- src/impl/kermit_kernel.cpp: the program of the kernel. Its text of help is left out.
use sentinet_cpp.Common.{
  ℕ, zero, suc, ◌+◌, ◌==◌, ◌||◌, Bool, true, false, not, Option, none, some, List, [], ◌∷◌, length,
  if◌then◌else◌,
}
use sentinet_cpp.Common.Maps.{String, same}
use sentinet_cpp.Common.Decimal.{chars}
use sentinet_cpp.Control.ZmqClient.{SocketData, Outcome, returned, thrown}
use sentinet_cpp.Interface.{
  Addresses, Interface, Settings, new_settings, set_serial_attributes, set_alive_time,
  new_interface, start, kermit_quit, destroy,
}
use sentinet_cpp.Programs.Addresses.{
  to_bind_addr, to_conn_addr, kernel_address, kernel_cmd_vel, kernel_localizer, cmd_vel_topic,
  localizer_topic,
}

pub record KernelOptions : Type 0 where
  pub debug : Bool
  pub verbose : Bool

-- What the loop over the arguments ends with: the help, the error, or the options.
pub data Parsed (O : Type 0) : Type 0 where
  helps fails : Parsed O
  runs : O → Parsed O

-- The test for help, with whether `argc` is 1.
unfoldable pub wants_help : Bool → String → Bool
wants_help alone a = same a (chars "-h") || same a (chars "--help") || alone

-- The loop from an argument on: `continue` leaves the value of `--debug` as the next argument.
unfoldable pub kernel_loop : Bool → List String → KernelOptions → Parsed KernelOptions
unfolding wants_help
kernel_loop alone [] o = runs o
kernel_loop alone (a ∷ []) o =
    if wants_help alone a
    then helps
    else if same a (chars "--debug")
    then fails
    else runs (if same a (chars "--verbose") then record o { verbose = true } else o)
kernel_loop alone (a ∷ v ∷ rest) o =
    let o' : KernelOptions =
      if same a (chars "--debug")
      then record o { debug = not (same v (chars "off")) }
      else if same a (chars "--verbose")
      then record o { verbose = true }
      else o in
    let result = kernel_loop alone (v ∷ rest) o' in if wants_help alone a then helps else result

-- The loop over all arguments, the first of which is the name of the program.
unfoldable pub kernel_options : List String → Parsed KernelOptions
unfolding kernel_loop
kernel_options argv = kernel_loop (length argv == 1) argv (record { debug = true; verbose = false })

-- The addresses that `init_comms` of src/kernel/KermitNetworkInterface.cpp takes.
abbrev pub kernel_addresses : Addresses
kernel_addresses = record {
  cmd_vel = to_conn_addr kernel_cmd_vel;
  cmd_vel_topic = cmd_vel_topic;
  localizer = to_conn_addr kernel_localizer;
  localizer_topic = localizer_topic;
}

abbrev serial_port : String
serial_port = chars "/dev/ttyACM0"

-- The first turn from `i` on in which a signal comes.
unfoldable pub first_signal : ℕ → (ℕ → Bool) → ℕ → Option ℕ
first_signal zero signals i = none
first_signal (suc fuel) signals i =
    let later = first_signal fuel signals (i + 1) in if signals i then some i else later

-- How the process ends: with a status, and the kernel where one was made, or by `std::terminate`.
pub data Exit (F : Type 0) : Type 0 where
  exits : ℕ → Option (Interface F) → Exit F
  aborts : Exit F

module _ {F : Type 0} where
  -- The kernel that `main` makes and starts, with the fuel of the loop in `start`.
  unfoldable pub run_kernel :
      ℕ
      → (ℕ → Bool)
      → (ℕ → ℕ)
      → Settings
      → F
      → F
      → F
      → KernelOptions
      → SocketData F
      → (Interface F × Outcome) × Option ℕ
  run_kernel fuel running elapsed s ping_server drive_message localizer_cmd o sockets =
      let made = new_interface (to_bind_addr kernel_address) ping_server o.debug sockets in
      let s1 = new_settings serial_port s in
      let s2 = (set_serial_attributes serial_port 100000 s1).0 in
      let s3 = (set_alive_time 0 s2).0 in
      start fuel running elapsed s3 kernel_addresses drive_message localizer_cmd made

  -- `signalHandler`, and the end of `main`: the kernel is destroyed, and the process ends with status 0. An
  -- exception in a destructor ends it as well.
  unfoldable pub signal_handler : Interface F → Exit F
  unfolding kermit_quit destroy
  signal_handler i =
      let (quit, outcome) = kermit_quit i in
      elim outcome [ returned b ↦ exits 0 (some (destroy quit)) | thrown e ↦ aborts ]

  -- `main` with as much fuel as turns are looked at, from whether a signal comes in a turn of the loop;
  -- `none` where it goes on. Until then `running` is what the constructor made it: only `kermit_quit` sets it.
  unfoldable pub kernel_main :
      ℕ → (ℕ → Bool) → (ℕ → ℕ) → Settings → F → F → F → List String → SocketData F → Option (Exit F)
  unfolding kernel_options run_kernel first_signal signal_handler
  kernel_main fuel signals elapsed s ping_server drive_message localizer_cmd argv sockets =
      elim (kernel_options argv) [
        | helps ↦ some (exits 0 none)
        | fails ↦ some (exits 1 none)
        | runs o ↦
            let signal = first_signal fuel signals 0 in
            let turns : ℕ = elim signal [ none ↦ fuel | some n ↦ n ] in
            let ((i, outcome), ended) =
              run_kernel turns (λ j. true) elapsed s ping_server drive_message localizer_cmd o
                sockets in
            let handled = signal_handler i in
            elim outcome [
              | thrown e ↦ some aborts
              | returned b ↦ elim ended [
                | some n ↦ some handled
                | none ↦ elim signal [ none ↦ none | some n ↦ some handled ]
              ]
            ]
      ]
