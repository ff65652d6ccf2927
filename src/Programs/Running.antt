-- ===== src/Programs/Running.antt =====
-- From the arguments of src/impl/kermit_kernel.cpp to the end of the kernel's threads.
use sentinet_cpp.Common.{
  ℕ, zero, suc, ◌+◌, none, if◌then◌else◌, Bool-cases, inl, inr, ◌==◌, ◌≡◌, refl, ◌∙◌, ◌<◌, ◌≤◌,
  Bool, true, false, List, some, arith, ap,
}
use sentinet_cpp.Common.Maps.{String}
use sentinet_cpp.Control.ZmqClient.{returned}
use sentinet_cpp.Control.ZmqClient.Quitting.{AllThreads}
use sentinet_cpp.Control.ZmqClient.Calls.{no_sockets}
use sentinet_cpp.Interface.{
  Interface, Settings, new_settings, set_serial_attributes, set_alive_time, kermit_quit, destroy,
  start, kermit_start,
}
use sentinet_cpp.Interface.Alive.{kermit_start_endless}
use sentinet_cpp.Interface.Ending.{started, init_comms-started, kermit_quit-started}
use sentinet_cpp.Programs.Addresses.{kernel_address, to_bind_addr}
use sentinet_cpp.Programs.KernelMain.{
  KernelOptions, runs, kernel_options, run_kernel, kernel_main, kernel_addresses, first_signal,
  signal_handler, exits,
}

first_signal-none :
    (fuel : ℕ) (signals : ℕ → Bool) (i : ℕ)
    → ((j : ℕ) → j < i + fuel → signals j ≡ false)
    → first_signal fuel signals i ≡ none
unfolding first_signal
first_signal-none zero signals i off = refl
first_signal-none (suc fuel) signals i off =
    let here = off i (omega arith) in
    let later = first_signal-none fuel signals (i + 1) (λ j l. off j (omega arith)) in
    ground (arith, here, later)

first_signal-some :
    (fuel : ℕ) (signals : ℕ → Bool) (i n : ℕ)
    → i ≤ n
    → n < i + fuel
    → signals n ≡ true
    → ((j : ℕ) → j < n → signals j ≡ false)
    → first_signal fuel signals i ≡ some n
unfolding first_signal
first_signal-some zero signals i n l r comes before = absurd (omega arith)
first_signal-some (suc fuel) signals i n l r comes before = elim (Bool-cases (i == n)) [
  | inl e ↦
      let same : i ≡ n = ground arith in
      let here = ap signals same ∙ comes in ground (arith, here, same)
  | inr e ↦
      let behind : i < n = ground arith in
      let here = before i behind in
      let later =
        first_signal-some fuel signals (i + 1) n (omega arith) (omega arith) comes before in
      ground (arith, here, later)
]

module _ {F : Type 0} where
  run_kernel-started :
      (fuel : ℕ) (running : ℕ → Bool) (elapsed : ℕ → ℕ) (s : Settings) (f g h : F)
      (o : KernelOptions)
      → run_kernel fuel running elapsed s f g h o no_sockets ≡ (
        (started (to_bind_addr kernel_address) kernel_addresses f g h o.debug, returned true),
        kermit_start fuel running elapsed 0,
      )
  unfolding run_kernel start new_settings set_serial_attributes set_alive_time
  run_kernel-started fuel running elapsed s f g h o =
      let begun = init_comms-started (to_bind_addr kernel_address) kernel_addresses f g h o.debug in
      rw begun refl

  kernel_main-signalled :
      (fuel n : ℕ) (signals : ℕ → Bool) (elapsed : ℕ → ℕ) (s : Settings) (f g h : F)
      (argv : List String) (o : KernelOptions)
      → kernel_options argv ≡ runs o
      → first_signal fuel signals 0 ≡ some n
      → kernel_main fuel signals elapsed s f g h argv no_sockets
        ≡ some
            (signal_handler (started (to_bind_addr kernel_address) kernel_addresses f g h o.debug))
  unfolding kernel_main
  kernel_main-signalled fuel n signals elapsed s f g h argv o e first =
      let endless = kermit_start_endless (λ j. true) elapsed n (λ j. refl) in
      let is = run_kernel-started n (λ j. true) elapsed s f g h o in
      ground (arith, e, first, is, endless)

  kernel_main-waits :
      (fuel : ℕ) (signals : ℕ → Bool) (elapsed : ℕ → ℕ) (s : Settings) (f g h : F)
      (argv : List String) (o : KernelOptions)
      → kernel_options argv ≡ runs o
      → first_signal fuel signals 0 ≡ none
      → kernel_main fuel signals elapsed s f g h argv no_sockets ≡ none
  unfolding kernel_main
  kernel_main-waits fuel signals elapsed s f g h argv o e first =
      let endless = kermit_start_endless (λ j. true) elapsed fuel (λ j. refl) in
      let is = run_kernel-started fuel (λ j. true) elapsed s f g h o in
      ground (arith, e, first, is, endless)

  handler_exits :
      (i : Interface F)
      → (kermit_quit i).1 ≡ returned true
      → signal_handler i ≡ exits 0 (some (destroy (kermit_quit i).0))
  unfolding signal_handler
  handler_exits i e = ground (arith, e)

  -- The program of the kernel, in a process without other sockets and with arguments with which it
  -- runs, whatever the clock says: it begins its communication and stays in its loop until the first
  -- signal, with any number of turns before that looked at. The handler then joins the threads of the
  -- server, the subscriber and the publisher, closes the port once in debug mode and twice
  -- otherwise, and ends the process with status 0.
  pub kernel_main-ends :
      (signals : ℕ → Bool) (elapsed : ℕ → ℕ) (s : Settings) (f g h : F) (argv : List String)
      (o : KernelOptions) (n fuel : ℕ)
      → kernel_options argv ≡ runs o
      → signals n ≡ true
      → ((j : ℕ) → j < n → signals j ≡ false)
      → n < fuel
      → (kernel_main n signals elapsed s f g h argv no_sockets ≡ none)
        × (begun ended : Interface F) × (kernel_main fuel signals elapsed s f g h argv no_sockets
            ≡ some (exits 0 (some ended)))
        × ((run_kernel n (λ j. true) elapsed s f g h o no_sockets).0 ≡ (begun, returned true))
        × AllThreads true begun.sockets ended.sockets
        × (ended.running ≡ false)
        × (ended.closes ≡ (if o.debug then 1 else 2))
  unfolding destroy kermit_quit
  kernel_main-ends signals elapsed s f g h argv o n fuel e comes before enough =
      let begun = started (to_bind_addr kernel_address) kernel_addresses f g h o.debug in
      let (quits, joins, stopped, closes) =
        kermit_quit-started (to_bind_addr kernel_address) kernel_addresses f g h o.debug in
      let first = first_signal-some fuel signals 0 n (omega arith) (omega arith) comes before in
      let waits = first_signal-none n signals 0 (λ j l. before j (omega (arith, l))) in
      (
        kernel_main-waits n signals elapsed s f g h argv o e waits,
        begun,
        destroy (kermit_quit begun).0,
        kernel_main-signalled fuel n signals elapsed s f g h argv o e first
            ∙ ap some (handler_exits begun quits),
        ap (λ r. r.0) (run_kernel-started n (λ j. true) elapsed s f g h o),
        joins,
        stopped,
        closes,
      )
