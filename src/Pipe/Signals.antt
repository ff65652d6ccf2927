-- ===== src/Pipe/Signals.antt =====
-- The signals of a proxy in src/messages/pipe/ProxyInterface.cpp.
use sentinet_cpp.Common.{
  ℕ, ◌≡◌, ◌≢◌, refl, ap, ◌∙◌, sym, arith, ◌==◌, if◌then◌else◌, Bool, true, false, Bool-cases,
  Option-cases, inl, inr, Option, none, some, List, [], ◌∷◌,
}

-- The functions of the signal table: those of the constructor, and those of `register_signal`.
pub data Action (G : Type 0) : Type 0 where
  cleanly_stop kill_it start_it pause_it : Action G
  registered : G → Action G

-- What `signal` ends with: -1, its result as a truth value, the end of the process, a wait until `paused`
-- or `running` is false, and the loop of `start`.
pub data Answer : Type 0 where
  unknown terminates waits loops : Answer
  answers : Bool → Answer

abbrev pub Table : Type 0 → Type 0
Table G = List (ℕ × Action G)

pub record SignalState (G : Type 0) : Type 0 where
  pub signal_table : Table G
  pub running : Bool
  pub paused : Bool

some-≢ : {A : Type 0} (a : A) → some a ≢ none
some-≢ a = λ x. cc

module _ {G : Type 0} where
  unfoldable pub find_signal : ℕ → Table G → Option (Action G)
  find_signal value [] = none
  find_signal value ((v, a) ∷ rest) = if v == value then some a else find_signal value rest

  unfoldable pub register_signal : ℕ → Action G → SignalState G → SignalState G × Bool
  register_signal value func s = elim (find_signal value s.signal_table) [
    | some found ↦ (s, false)
    | none ↦ (record s { signal_table = (value, func) ∷ s.signal_table }, true)
  ]

  -- The constructor, from what `paused` happens to hold.
  unfoldable pub new_signals : Bool → SignalState G
  unfolding register_signal find_signal
  new_signals paused =
      (register_signal 3 pause_it
        (register_signal 2 start_it
          (register_signal 1 kill_it
            (register_signal 0 cleanly_stop
              (record { signal_table = []; running = true; paused = paused })).0).0).0).0

  -- While the exit signal is not set.
  unfoldable pub pause : SignalState G → SignalState G × Answer
  pause s =
      if s.running
      then (record s { paused = true }, waits)
      else (record s { paused = false }, answers true)

  -- `signal`, with the results of registered functions; the one of CLEAN_STOP is 0.
  unfoldable pub signal : (G → Bool) → ℕ → SignalState G → SignalState G × Answer
  unfolding pause
  signal call value s = elim (find_signal value s.signal_table) [
    | none ↦ (s, unknown)
    | some action ↦ elim action [
      | cleanly_stop ↦ (record s { running = false }, answers false)
      | kill_it ↦ (record s { running = false }, terminates)
      | start_it ↦ (record s { paused = false }, loops)
      | pause_it ↦ pause s
      | registered g ↦ (s, answers (call g))
    ]
  ]

  -- Some functions registered one after the other.
  unfoldable pub register_all : List (ℕ × G) → SignalState G → SignalState G
  register_all [] s = s
  register_all ((value, g) ∷ rest) s = register_all rest (register_signal value (registered g) s).0

  register_signal-find_signal :
      (value other : ℕ) (func found : Action G) (s : SignalState G)
      → find_signal other s.signal_table ≡ some found
      → find_signal other (register_signal value func s).0.signal_table ≡ some found
  unfolding register_signal find_signal
  register_signal-find_signal value other func found s e =
      elim (Option-cases (find_signal value s.signal_table)) [
        | inl missing ↦ elim (Bool-cases (value == other)) [
          | inl same ↦
              let is : value ≡ other = ground (arith, same) in
              let clash = sym e ∙ (ap (λ v. find_signal v s.signal_table) (sym is) ∙ missing) in
              absurd (some-≢ found clash)
          | inr differ ↦ ground (arith, missing, differ, e)
        ]
        | inr (a, there) ↦ ground (arith, there, e)
      ]

  register_all_keeps :
      (rs : List (ℕ × G)) (s : SignalState G)
      → ((register_all rs s).running ≡ s.running)
        × ((value : ℕ) (found : Action G)
            → find_signal value s.signal_table ≡ some found
            → find_signal value (register_all rs s).signal_table ≡ some found)
  unfolding register_all register_signal
  register_all_keeps [] s = (refl, λ value found e. e)
  register_all_keeps ((v, g) ∷ rs) s =
      let next = (register_signal v (registered g) s).0 in
      let (runs, finds) = register_all_keeps rs next in
      (
        runs ∙ ground arith,
        λ value found e.
            finds value found (register_signal-find_signal v value (registered g) found s e),
      )

  -- After any functions are registered at a new proxy, the four signals of the proxy still do what they
  -- are for: 0 stops it, with the result 0, 1 stops it and ends the process, 2 runs the loop and 3 pauses it.
  -- A function registered for a number that is not in use is the one that its signal calls, and the
  -- number cannot be registered again.
  pub signal-register_all :
      (call : G → Bool) (rs : List (ℕ × G)) (paused : Bool) (value : ℕ) (g h : G)
      → find_signal value (register_all rs (new_signals paused)).signal_table ≡ none
      → let s = register_all rs (new_signals paused) in
        let (s', done) = register_signal value (registered g) s in
        (signal call 0 s ≡ (record s { running = false }, answers false))
        × (signal call 1 s ≡ (record s { running = false }, terminates))
        × (signal call 2 s ≡ (record s { paused = false }, loops))
        × (signal call 3 s ≡ (record s { paused = true }, waits))
        × (done ≡ true)
        × (signal call value s' ≡ (s', answers (call g)))
        × (register_signal value (registered h) s' ≡ (s', false))
  unfolding signal new_signals register_signal find_signal
  signal-register_all call rs paused value g h e =
      let (runs, finds) = register_all_keeps rs (new_signals paused) in
      let s = register_all rs (new_signals paused) in
      let zeroth = finds 0 cleanly_stop refl in
      let first = finds 1 kill_it refl in
      let second = finds 2 start_it refl in
      let third = finds 3 pause_it refl in
      (
        ground (arith, zeroth),
        ground (arith, first),
        ground (arith, second),
        ground (arith, third, runs),
        ground (arith, e),
        ground (arith, e),
        ground (arith, e),
      )
