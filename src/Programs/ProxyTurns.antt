-- ===== src/Programs/ProxyTurns.antt =====
-- The turns of the loop over the arguments in src/impl/kermit_proxy.cpp.
use sentinet_cpp.Common.{
  ◌==◌, ◌||◌, ◌&&◌, ◌≡◌, refl, ap, ◌∙◌, Bool, true, false, not, List, [], ◌∷◌, arith, if◌then◌else◌,
  Bool-cases, inl, inr,
}
use sentinet_cpp.Common.Maps.{String, same, same-≡}
use sentinet_cpp.Common.Decimal.{chars}
use sentinet_cpp.Programs.Options.{asked}
use sentinet_cpp.Programs.KernelMain.{helps, fails, runs, wants_help}
use sentinet_cpp.Programs.ProxyMain.{ProxyOptions, strtol, is_time, flags, options_loop}

abbrev pub asks_help : List String → Bool
asks_help argv = asked (chars "-h") argv || asked (chars "--help") argv

abbrev pub asks_time : List String → Bool
asks_time argv = asked (chars "--time") argv || asked (chars "-t") argv

-- The options with the two flags that some arguments set.
abbrev pub flagged : List String → ProxyOptions → ProxyOptions
flagged argv o = record o {
  cmd_vel = o.cmd_vel || asked (chars "--cmd_vel") argv;
  localizer = o.localizer || asked (chars "--localizer") argv;
}

flags-flagged : (a : String) (o : ProxyOptions) → flags a o ≡ flagged (a ∷ []) o
unfolding flags asked
flags-flagged a o = ground arith

last_help :
    (alone : Bool) (a : String) (o : ProxyOptions)
    → (if wants_help alone a then helps else runs (flagged (a ∷ []) o))
      ≡ (if asks_help (a ∷ []) || alone then helps else runs (flagged (a ∷ []) o))
unfolding wants_help asked
last_help alone a o = ground arith

-- The result of a rest of the arguments behind one that is not a time.
combined :
    (alone : Bool) (a : String) (t : List String) (o : ProxyOptions)
    → (if wants_help alone a
        then helps
        else if asks_help t || alone
        then helps
        else runs (flagged t (flagged (a ∷ []) o)))
      ≡ (if asks_help (a ∷ t) || alone then helps else runs (flagged (a ∷ t) o))
unfolding wants_help asked
combined alone a t o = ground arith

not_timed :
    (a : String) (t : List String) (o : ProxyOptions)
    → (o.timer || not (asks_time (a ∷ t))) ≡ true
    → ((is_time a && not o.timer) ≡ false) × ((o.timer || not (asks_time t)) ≡ true)
unfolding is_time asked
not_timed a t o u = ground arith

-- A turn on an argument that is not a time.
pub turn_untimed :
    (alone : Bool) (a v : String) (rest : List String) (o : ProxyOptions)
    → (is_time a && not o.timer) ≡ false
    → options_loop alone (a ∷ v ∷ rest) o
      ≡ (if wants_help alone a then helps else options_loop alone (v ∷ rest) (flagged (a ∷ []) o))
unfolding options_loop
turn_untimed alone a v rest o e = rw (e, flags-flagged a o) refl

turn_last :
    (alone : Bool) (a : String) (o : ProxyOptions)
    → (is_time a && not o.timer) ≡ false
    → options_loop alone (a ∷ []) o
      ≡ (if wants_help alone a then helps else runs (flagged (a ∷ []) o))
unfolding options_loop
turn_last alone a o e = rw (e, flags-flagged a o) refl

-- Arguments among which no time is looked for.
pub options_loop_untimed :
    (alone : Bool) (a : String) (argv : List String) (o : ProxyOptions)
    → (o.timer || not (asks_time (a ∷ argv))) ≡ true
    → options_loop alone (a ∷ argv) o
      ≡ (if asks_help (a ∷ argv) || alone then helps else runs (flagged (a ∷ argv) o))
options_loop_untimed alone a [] o u =
    turn_last alone a o (not_timed a [] o u).0 ∙ last_help alone a o
options_loop_untimed alone a (v ∷ rest) o u =
    let (e, u') = not_timed a (v ∷ rest) o u in
    let ih = options_loop_untimed alone v rest (flagged (a ∷ []) o) u' in
    turn_untimed alone a v rest o e
    ∙ (ap (λ r. if wants_help alone a then helps else r) ih ∙ combined alone a (v ∷ rest) o)

abbrev pub timed : String → ProxyOptions → ProxyOptions
timed v o = record o { timer = true; time_period = strtol v }

pub turn_timed :
    (a v : String) (rest : List String) (o : ProxyOptions)
    → (is_time a && not o.timer) ≡ true
    → options_loop false (a ∷ v ∷ rest) o ≡ (
        if wants_help false a
        then helps
        else if strtol v == 0
        then fails
        else options_loop false (v ∷ rest) (timed v (flagged (a ∷ []) o)))
unfolding options_loop
turn_timed a v rest o e = rw (e, flags-flagged a o) refl

pub time_no_help : (a : String) → is_time a ≡ true → wants_help false a ≡ false
unfolding is_time wants_help same
time_no_help a e = elim (Bool-cases (same a (chars "--time"))) [
  | inl l ↦ rw (same-≡ a (chars "--time") l) refl
  | inr r ↦
      let t : same a (chars "-t") ≡ true = ground (arith, e, r) in rw (same-≡ a (chars "-t") t) refl
]

pub flagged_cons :
    (a v : String) (t : List String) (o : ProxyOptions)
    → flagged t (timed v (flagged (a ∷ []) o)) ≡ timed v (flagged (a ∷ t) o)
unfolding asked
flagged_cons a v t o = ground arith
