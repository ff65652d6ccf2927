-- ===== src/Interface/Start.antt =====
-- How long `start` of src/kernel/KermitKernel.cpp runs.
use sentinet_cpp.Common.{ℕ, suc, ◌*◌, ◌<◌, ◌≤◌, ◌≡◌, ◌∙◌, arith, Bool, true, false, none, some}
use sentinet_cpp.Common.Maps.{String}
use sentinet_cpp.Control.ZmqClient.Calls.{no_sockets}
use sentinet_cpp.Interface.{
  Addresses, Settings, new_settings, set_alive_time, new_interface, kermit_start, start,
}
use sentinet_cpp.Interface.Alive.{
  IsLast, Sleeps, kermit_start-IsLast, kermit_start_endless, kermit_start_running,
}
use sentinet_cpp.Interface.Ending.{init_comms-started}

module _ {F : Type 0} where
  start_turns :
      (fuel : ℕ) (running : ℕ → Bool) (elapsed : ℕ → ℕ) (s : Settings) (address : String)
      (a : Addresses) (f g h : F) (debug : Bool)
      → (start fuel running elapsed s a g h (new_interface address f debug no_sockets)).1
        ≡ kermit_start fuel running elapsed s.time_alive
  unfolding start
  start_turns fuel running elapsed s address a f g h debug =
      let begun = init_comms-started address a f g h debug in ground (arith, begun)

  -- A kernel with the settings of its constructor that starts in a process without other sockets does
  -- not return from `start`, however often the loop turns, while `running` is true.
  pub start_endless :
      (running : ℕ → Bool) (elapsed : ℕ → ℕ) (port address : String) (s : Settings) (a : Addresses)
      (f g h : F) (debug : Bool) (fuel : ℕ)
      → ((j : ℕ) → running j ≡ true)
      → (start fuel running elapsed
          (new_settings port s)
          a
          g
          h
          (new_interface address f debug no_sockets)).1
        ≡ none
  unfolding new_settings
  start_endless running elapsed port address s a f g h debug fuel always =
      start_turns fuel running elapsed (new_settings port s) address a f g h debug
      ∙ kermit_start_endless running elapsed fuel always

  -- With the settings of the constructor, `start` returns in the first turn in which `running` is false,
  -- for which the fuel of the model is enough where it reaches such a turn.
  pub start_running :
      (running : ℕ → Bool) (elapsed : ℕ → ℕ) (port address : String) (s : Settings) (a : Addresses)
      (f g h : F) (debug : Bool) (limit : ℕ)
      → running limit ≡ false
      → (n : ℕ) × ((start
            (suc limit)
            running
            elapsed
            (new_settings port s)
            a
            g
            h
            (new_interface address f debug no_sockets)).1
          ≡ some n)
        × (running n ≡ false)
        × (n ≤ limit)
        × ((j : ℕ) → j < n → running j ≡ true)
  unfolding new_settings
  start_running running elapsed port address s a f g h debug limit e =
      let (n, is, stops, n≤, before) = kermit_start_running running elapsed limit e in
      (
        n,
        start_turns (suc limit) running elapsed (new_settings port s) address a f g h debug ∙ is,
        stops,
        n≤,
        before,
      )

  -- With a time to be alive set, which is not 0, and sleeps of a microsecond at least, `start` returns,
  -- in the first turn in which `running` is false or the time is over, after at most as many turns as
  -- the time has microseconds.
  pub start-IsLast :
      (running : ℕ → Bool) (elapsed : ℕ → ℕ) (s : Settings) (address : String) (a : Addresses)
      (f g h : F) (debug : Bool) (timer : ℕ)
      → ¬ (timer ≡ 0)
      → Sleeps elapsed
      → (n : ℕ) × ((start
            (suc (timer * 1000000))
            running
            elapsed
            (set_alive_time timer s).0
            a
            g
            h
            (new_interface address f debug no_sockets)).1
          ≡ some n)
        × IsLast running elapsed (timer * 1000000) n
        × (n ≤ timer * 1000000)
  unfolding set_alive_time
  start-IsLast running elapsed s address a f g h debug timer ne sleeps =
      let (n, is, last, n≤) = kermit_start-IsLast running elapsed timer ne sleeps in
      (
        n,
        start_turns (suc (timer * 1000000)) running elapsed (set_alive_time timer s).0 address a f g
              h debug
            ∙ is,
        last,
        n≤,
      )
