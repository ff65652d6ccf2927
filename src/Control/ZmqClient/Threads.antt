-- ===== src/Control/ZmqClient/Threads.antt =====
-- The threads of a node in src/control/ZMQControlClient.cpp: every entry of its maps has one, which
-- runs until the exit signal of the entry is set.
use sentinet_cpp.Common.{
  ◌≡◌, ◌≢◌, refl, sym, subst, Bool, true, false, none, some, [], ◌∷◌, arith, if◌then◌else◌,
  Option-cases, Bool-cases, inl, inr, ◌⊎◌,
}
use sentinet_cpp.Common.Maps.{String, find, put, same, put-put}
use sentinet_cpp.Control.ZmqClient.{
  SocketType, Context, running, joined, SocketThreadSpace, SpaceMap, Outcome, Failure, returned,
  thrown, null_thread, promise_already_satisfied, create_socket, start_thread, stop_thread, cancel,
  empty_space, future_already_retrieved, cancel_each, join,
}

pub Outcome-cases :
    (o : Outcome) → ((b : Bool) × (o ≡ returned b)) ⊎ ((e : Failure) × (o ≡ thrown e))
Outcome-cases (returned b) = inl (b, refl)
Outcome-cases (thrown e) = inr (e, refl)

module _ {F : Type 0} where
  -- The future was taken by a thread, which was joined exactly if the exit signal was set.
  pub record IsStarted (v : SocketThreadSpace F) : Type 0 where
    pub taken : v.exit_signal.retrieved ≡ true
    pub context : Context F
    pub thread_is :
        v.thread ≡ some (if v.exit_signal.satisfied then joined context else running context)

  abbrev pub running_space : Context F → SocketThreadSpace F
  running_space context = record {
    thread = some (running context);
    exit_signal = record { retrieved = true; satisfied = false };
    socket = none;
  }

  pub data AllStarted : SpaceMap F → Type 0 where
    all_nil : AllStarted []
    all_cons :
        {k : String} {v : SocketThreadSpace F} {m : SpaceMap F}
        → IsStarted v
        → AllStarted m
        → AllStarted ((k, v) ∷ m)

  pub find-IsStarted :
      (key : String) (m : SpaceMap F) (v : SocketThreadSpace F)
      → AllStarted m
      → find key m ≡ some v
      → IsStarted v
  unfolding find
  find-IsStarted key [] v a e = cc
  find-IsStarted key ((k, w) ∷ m) v (all_cons s a) e = elim (Bool-cases (same k key)) [
    | inl h ↦ let same_value : w ≡ v = ground (arith, e, h) in subst IsStarted same_value s
    | inr h ↦ find-IsStarted key m v a (ground (arith, e))
  ]

  put-AllStarted :
      (key : String) (v : SocketThreadSpace F) (m : SpaceMap F)
      → IsStarted v
      → AllStarted m
      → AllStarted (put key v m)
  unfolding put
  put-AllStarted key v [] s a = all_cons s all_nil
  put-AllStarted key v ((k, w) ∷ m) s (all_cons t a) =
      elim (same k key) as (λ b. AllStarted (if b then (k, v) ∷ m else (k, w) ∷ put key v m)) [
        | true ↦ all_cons s a
        | false ↦ all_cons t (put-AllStarted key v m s a)
      ]

  -- A key that is not in use gets a running thread.
  pub start_thread_fresh :
      (type : SocketType) (m : SpaceMap F) (key : String) (context : Context F)
      → find key m ≡ none
      → start_thread type m key context ≡ (put key (running_space context) m, returned true)
  unfolding start_thread create_socket
  start_thread_fresh type m key context e =
      let again =
        put-put key (record empty_space { socket = some type }) (running_space context) m in
      ground (arith, e, again)

  -- The future of an entry can be taken once only.
  pub start_thread_taken :
      (type : SocketType) (m : SpaceMap F) (key : String) (context : Context F)
      (v : SocketThreadSpace F)
      → find key m ≡ some v
      → IsStarted v
      → start_thread type m key context
        ≡ (put key (record v { socket = some type }) m, thrown future_already_retrieved)
  unfolding start_thread create_socket
  start_thread_taken type m key context v e s = ground (arith, e, s.taken)

  pub cancel_running :
      (m : SpaceMap F) (key : String) (v : SocketThreadSpace F)
      → find key m ≡ some v
      → IsStarted v
      → v.exit_signal.satisfied ≡ false
      → (w : SocketThreadSpace F) × IsStarted w
        × (w.exit_signal.satisfied ≡ true)
        × (cancel m key ≡ (put key w m, returned true))
  unfolding cancel stop_thread join
  cancel_running m key v e s r =
      let w : SocketThreadSpace F = record v {
        thread = some (joined s.context);
        exit_signal = record { retrieved = v.exit_signal.retrieved; satisfied = true };
      } in
      (
        w,
        record { taken = s.taken; context = s.context; thread_is = refl },
        refl,
        ground (arith, e, r, s.thread_is),
      )

  pub cancel_joined :
      (m : SpaceMap F) (key : String) (v : SocketThreadSpace F)
      → find key m ≡ some v
      → v.exit_signal.satisfied ≡ true
      → cancel m key ≡ (m, thrown promise_already_satisfied)
  unfolding cancel stop_thread
  cancel_joined m key v e r = ground (arith, e, r)

  -- The map stays consistent and no thread is missing.
  abbrev IsSound : SpaceMap F × Outcome → Type 0
  IsSound r = AllStarted r.0 × (r.1 ≢ thrown null_thread)

  pub start_thread-IsSound :
      (type : SocketType) (m : SpaceMap F) (key : String) (context : Context F)
      → AllStarted m
      → IsSound (start_thread type m key context)
  start_thread-IsSound type m key context a = elim (Option-cases (find key m)) [
    | inl e ↦
        let v : IsStarted (running_space context) = record {
          taken = refl;
          context = context;
          thread_is = refl;
        } in
        subst IsSound (sym (start_thread_fresh type m key context e))
          (put-AllStarted key (running_space context) m v a, λ x. cc)
    | inr (v, e) ↦
        let s = find-IsStarted key m v a e in
        subst IsSound (sym (start_thread_taken type m key context v e s)) (
          put-AllStarted key (record v { socket = some type }) m
              (record { taken = s.taken; context = s.context; thread_is = s.thread_is }) a,
          λ x. cc,
        )
  ]

  pub cancel-IsSound : (m : SpaceMap F) (key : String) → AllStarted m → IsSound (cancel m key)
  unfolding cancel
  cancel-IsSound m key a = elim (Option-cases (find key m)) [
    | inl e ↦
        let result : cancel m key ≡ (m, returned false) = ground (arith, e) in
        subst IsSound (sym result) (a, λ x. cc)
    | inr (v, e) ↦
        let s = find-IsStarted key m v a e in
        elim (Bool-cases v.exit_signal.satisfied) [
          | inl h ↦ subst IsSound (sym (cancel_joined m key v e h)) (a, λ x. cc)
          | inr h ↦
              let (w, t, set, result) = cancel_running m key v e s h in
              subst IsSound (sym result) (put-AllStarted key w m t a, λ x. cc)
        ]
  ]

  pub cancel_each-IsSound : (keys m : SpaceMap F) → AllStarted m → IsSound (cancel_each keys m)
  unfolding cancel_each
  cancel_each-IsSound [] m a = (a, λ x. cc)
  cancel_each-IsSound ((key, v) ∷ keys) m a =
      let s = cancel-IsSound m key a in
      elim (Outcome-cases (cancel m key).1) [
        | inl (b, e) ↦
            let rest : cancel_each ((key, v) ∷ keys) m ≡ cancel_each keys (cancel m key).0 =
              ground (arith, e) in
            subst IsSound (sym rest) (cancel_each-IsSound keys (cancel m key).0 s.0)
        | inr (x, e) ↦
            let rest : cancel_each ((key, v) ∷ keys) m ≡ cancel m key = ground (arith, e) in
            subst IsSound (sym rest) s
      ]
