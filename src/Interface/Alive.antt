-- ===== src/Interface/Alive.antt =====
-- How long the loop of `kermit_start` in src/kernel/KermitNetworkInterface.cpp runs.
use sentinet_cpp.Common.{
  ℕ, zero, suc, ◌+◌, ◌*◌, ◌<◌, ◌≤◌, ◌≡◌, refl, ◌∙◌, ap, sym, subst, arith, Bool, true, false, none,
  some, Bool-cases, inl, inr, ◌==◌, ◌⊎◌,
}
use sentinet_cpp.Interface.{goes_on, alive_loop, kermit_start}

-- Turn `n` is the first one whose test fails, from turn `i` on.
record IsFirst (infinite : Bool) (running : ℕ → Bool) (elapsed : ℕ → ℕ) (alive i n : ℕ)
    : Type 0 where
  pub behind : i ≤ n
  pub fails : goes_on infinite running elapsed alive n ≡ false
  pub before : (j : ℕ) → i ≤ j → j < n → goes_on infinite running elapsed alive j ≡ true

-- Turn `n` is the first one in which the program is told to end or the time is over.
pub record IsLast (running : ℕ → Bool) (elapsed : ℕ → ℕ) (alive n : ℕ) : Type 0 where
  pub ends : (running n ≡ false) ⊎ (alive ≤ elapsed n)
  pub before : (j : ℕ) → j < n → (running j ≡ true) × (elapsed j < alive)

-- `usleep` sleeps for one microsecond at least.
abbrev pub Sleeps : (ℕ → ℕ) → Type 0
Sleeps elapsed = (i : ℕ) → elapsed i + 1 ≤ elapsed (i + 1)

same_or_behind : (i j : ℕ) → i ≤ j → (i ≡ j) ⊎ (i < j)
same_or_behind i j l = elim (Bool-cases (i == j)) [
  | inl e ↦ inl (ground arith)
  | inr e ↦ inr (ground arith)
]

-- The loop on enough fuel ends with the first turn whose test fails.
alive_loop-IsFirst :
    (fuel : ℕ) (infinite : Bool) (running : ℕ → Bool) (elapsed : ℕ → ℕ) (alive i limit : ℕ)
    → goes_on infinite running elapsed alive limit ≡ false
    → i ≤ limit
    → limit < i + fuel
    → (n : ℕ) × (alive_loop fuel infinite running elapsed alive i ≡ some n)
      × IsFirst infinite running elapsed alive i n
      × (n ≤ limit)
unfolding alive_loop
alive_loop-IsFirst zero infinite running elapsed alive i limit e l r = absurd (omega arith)
alive_loop-IsFirst (suc fuel) infinite running elapsed alive i limit e l r =
    let t = goes_on infinite running elapsed alive in
    elim (Bool-cases (t i)) [
      | inl go ↦
          let later : i < limit = ground (arith, ap t) in
          let (n, is, last, n≤) =
            alive_loop-IsFirst fuel infinite running elapsed alive (i + 1) limit e
              (omega (arith, later)) (omega arith) in
          (
            n,
            ground (arith, is, go),
            record {
              behind = omega (arith, last.behind);
              fails = last.fails;
              before = λ j i≤j j<n. elim (same_or_behind i j i≤j) [
                | inl e ↦ subst (λ j. t j ≡ true) e go
                | inr i<j ↦ last.before j (omega (arith, i<j)) j<n
              ];
            },
            n≤,
          )
      | inr stop ↦ (
        i,
        ground (arith, stop),
        record { behind = omega arith; fails = stop; before = λ j i≤j j<i. absurd (omega arith) },
        l,
      )
    ]

suc_is : (i : ℕ) → i + 1 ≡ suc i
suc_is i = omega arith

Sleeps-id : (elapsed : ℕ → ℕ) → Sleeps elapsed → (i : ℕ) → i ≤ elapsed i
Sleeps-id elapsed s zero = omega arith
Sleeps-id elapsed s (suc i) =
    let r = Sleeps-id elapsed s i in
    let q = subst (λ j. elapsed i + 1 ≤ elapsed j) (suc_is i) (s i) in omega (arith, r, q)

goes_on_fails :
    (running : ℕ → Bool) (elapsed : ℕ → ℕ) (alive i : ℕ)
    → goes_on false running elapsed alive i ≡ false
    → (running i ≡ false) ⊎ (alive ≤ elapsed i)
unfolding goes_on
goes_on_fails running elapsed alive i e = elim (Bool-cases (running i)) [
  | inl t ↦ inr (ground (arith, e, t))
  | inr f ↦ inl f
]

goes_on_holds :
    (running : ℕ → Bool) (elapsed : ℕ → ℕ) (alive i : ℕ)
    → goes_on false running elapsed alive i ≡ true
    → (running i ≡ true) × (elapsed i < alive)
unfolding goes_on
goes_on_holds running elapsed alive i e = elim (Bool-cases (running i)) [
  | inl t ↦ (t, ground (arith, e, t))
  | inr f ↦ absurd (ground (arith, e, f))
]

-- With a time to be alive, and a sleep in each turn that takes a microsecond at least, the loop of
-- `kermit_start` ends, in the first turn where `running` is false or the time is over, after at most
-- as many turns as the time has microseconds.
pub kermit_start-IsLast :
    (running : ℕ → Bool) (elapsed : ℕ → ℕ) (time_alive : ℕ)
    → ¬ (time_alive ≡ 0)
    → Sleeps elapsed
    → (n : ℕ) × (kermit_start (suc (time_alive * 1000000)) running elapsed time_alive ≡ some n)
      × IsLast running elapsed (time_alive * 1000000) n
      × (n ≤ time_alive * 1000000)
unfolding kermit_start
kermit_start-IsLast running elapsed time_alive ne s =
    let false_is : (time_alive == 0) ≡ false = ground (arith, ne) in
    let over = Sleeps-id elapsed s (time_alive * 1000000) in
    let stops : goes_on false running elapsed (time_alive * 1000000) (time_alive * 1000000)
        ≡ false =
      ground (arith, over) in
    let (n, is, last, n≤) =
      alive_loop-IsFirst (suc (time_alive * 1000000)) false running elapsed (time_alive * 1000000) 0
        (time_alive * 1000000) stops (omega arith) (omega arith) in
    (
      n,
      ground (arith, is, false_is),
      record {
        ends = goes_on_fails running elapsed (time_alive * 1000000) n last.fails;
        before = λ j j<n.
            goes_on_holds running elapsed (time_alive * 1000000) j
              (last.before j (omega arith) j<n);
      },
      n≤,
    )

goes_on_forever :
    (running : ℕ → Bool) (elapsed : ℕ → ℕ) (alive i : ℕ)
    → goes_on true running elapsed alive i ≡ running i
unfolding goes_on
goes_on_forever running elapsed alive i = elim (Bool-cases (running i)) [
  | inl e ↦ ground (arith, e)
  | inr e ↦ ground (arith, e)
]

alive_loop_forever :
    (running : ℕ → Bool) (elapsed : ℕ → ℕ) (alive fuel i : ℕ)
    → ((j : ℕ) → running j ≡ true)
    → alive_loop fuel true running elapsed alive i ≡ none
unfolding alive_loop
alive_loop_forever running elapsed alive zero i always = refl
alive_loop_forever running elapsed alive (suc fuel) i always =
    let t = goes_on_forever running elapsed alive i ∙ always i in
    ground (arith, t, alive_loop_forever running elapsed alive fuel (i + 1) always)

-- Without one, the loop does not end while `running` is true.
pub kermit_start_endless :
    (running : ℕ → Bool) (elapsed : ℕ → ℕ) (fuel : ℕ)
    → ((j : ℕ) → running j ≡ true)
    → kermit_start fuel running elapsed 0 ≡ none
unfolding kermit_start
kermit_start_endless running elapsed fuel always =
    alive_loop_forever running elapsed 0 fuel 0 always

-- Without one, the loop ends in the first turn where `running` is false.
pub kermit_start_running :
    (running : ℕ → Bool) (elapsed : ℕ → ℕ) (limit : ℕ)
    → running limit ≡ false
    → (n : ℕ) × (kermit_start (suc limit) running elapsed 0 ≡ some n)
      × (running n ≡ false)
      × (n ≤ limit)
      × ((j : ℕ) → j < n → running j ≡ true)
unfolding kermit_start
kermit_start_running running elapsed limit e =
    let go = goes_on_forever running elapsed 0 in
    let (n, is, last, n≤) =
      alive_loop-IsFirst (suc limit) true running elapsed 0 0 limit (go limit ∙ e) (omega arith)
        (omega arith) in
    (n, is, sym (go n) ∙ last.fails, n≤, λ j j<n. sym (go j) ∙ last.before j (omega arith) j<n)
