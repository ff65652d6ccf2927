-- ===== src/Programs/ProxyOptions.antt =====
-- What the loop over the arguments in src/impl/kermit_proxy.cpp makes of them.
use sentinet_cpp.Common.{
  ◌==◌, ◌||◌, ◌&&◌, ◌≡◌, refl, ap, ◌∙◌, true, false, not, List, [], ◌∷◌, ◌++◌, arith, length,
  length-append, if◌then◌else◌,
}
use sentinet_cpp.Common.Maps.{String, same}
use sentinet_cpp.Common.Decimal.{chars}
use sentinet_cpp.Programs.Options.{asked}
use sentinet_cpp.Programs.KernelMain.{Parsed, helps, fails, runs, wants_help}
use sentinet_cpp.Programs.ProxyMain.{ProxyOptions, strtol, is_time, options_loop, proxy_options}
use sentinet_cpp.Programs.ProxyTurns.{
  asks_help, asks_time, flagged, timed, options_loop_untimed, turn_untimed, turn_timed,
  time_no_help, flagged_cons,
}

-- The loop from a time that is looked for on.
options_loop-is_time :
    (a v : String) (rest : List String) (o : ProxyOptions)
    → is_time a ≡ true
    → o.timer ≡ false
    → options_loop false (a ∷ v ∷ rest) o ≡ (
        if strtol v == 0
        then fails
        else if asks_help (v ∷ rest)
        then helps
        else runs (timed v (flagged (a ∷ v ∷ rest) o)))
options_loop-is_time a v rest o e free =
    let ih = options_loop_untimed false v rest (timed v (flagged (a ∷ []) o)) refl in
    let b : (is_time a && not o.timer) ≡ true = ground (arith, e, free) in
    let either : (asks_help (v ∷ rest) || false) ≡ asks_help (v ∷ rest) = ground arith in
    turn_timed a v rest o b
    ∙ (ap
          (λ h.
            if h
            then helps
            else if strtol v == 0
            then fails
            else options_loop false (v ∷ rest) (timed v (flagged (a ∷ []) o)))
          (time_no_help a e)
        ∙ (ap (λ r. if strtol v == 0 then fails else r)
            (ih
              ∙ (ap
                    (λ h.
                      if h then helps else runs (flagged (v ∷ rest) (timed v (flagged (a ∷ []) o))))
                    either
                  ∙ ap (λ r. if asks_help (v ∷ rest) then helps else runs r)
                      (flagged_cons a v (v ∷ rest) o)))))

-- What arguments with a time are read as, where no time is before it.
abbrev pub parsed : List String → String → String → List String → ProxyOptions → Parsed ProxyOptions
parsed before a v after o =
    if asks_help before
    then helps
    else if strtol v == 0
    then fails
    else if asks_help (v ∷ after)
    then helps
    else runs (timed v (flagged (before ++ (a ∷ v ∷ after)) o))

parsed_nil :
    (a v : String) (after : List String) (o : ProxyOptions)
    → is_time a ≡ true
    → o.timer ≡ false
    → options_loop false (a ∷ v ∷ after) o ≡ parsed [] a v after o
unfolding asked
parsed_nil a v after o e free = options_loop-is_time a v after o e free

parsed_cons :
    (b : String) (before : List String) (a v : String) (after : List String) (o : ProxyOptions)
    → (if wants_help false b then helps else parsed before a v after (flagged (b ∷ []) o))
      ≡ parsed (b ∷ before) a v after o
unfolding wants_help asked
parsed_cons b before a v after o = ground arith

before_time :
    (b : String) (t : List String) (o : ProxyOptions)
    → asks_time (b ∷ t) ≡ false
    → ((is_time b && not o.timer) ≡ false) × (asks_time t ≡ false)
unfolding asked is_time
before_time b t o e = ground (arith, e)

options_loop_before :
    (before : List String) (a v : String) (after : List String) (o : ProxyOptions)
    → is_time a ≡ true
    → o.timer ≡ false
    → asks_time before ≡ false
    → options_loop false (before ++ (a ∷ v ∷ after)) o ≡ parsed before a v after o
options_loop_before [] a v after o e free q = parsed_nil a v after o e free
options_loop_before (b ∷ []) a v after o e free q =
    turn_untimed false b a (v ∷ after) o (before_time b [] o q).0
    ∙ (ap (λ r. if wants_help false b then helps else r)
          (options_loop_before [] a v after (flagged (b ∷ []) o) e free (before_time b [] o q).1)
        ∙ parsed_cons b [] a v after o)
options_loop_before (b ∷ c ∷ before) a v after o e free q =
    let (untimed, q') = before_time b (c ∷ before) o q in
    turn_untimed false b c (before ++ (a ∷ v ∷ after)) o untimed
    ∙ (ap (λ r. if wants_help false b then helps else r)
          (options_loop_before (c ∷ before) a v after (flagged (b ∷ []) o) e free q')
        ∙ parsed_cons b (c ∷ before) a v after o)

abbrev pub no_options : ProxyOptions
no_options = record { cmd_vel = false; localizer = false; timer = false; time_period = 0 }

many :
    (name : String) (before : List String) (a v : String) (after : List String)
    → (length ((name ∷ before) ++ (a ∷ v ∷ after)) == 1) ≡ false
many name before a v after = ground (arith, length-append before (a ∷ v ∷ after))

-- The program of the proxies with a time, `--time` or `-t`, and a value behind it, where no time is
-- before it: it prints its help where an argument before the time asks for it, whatever the value;
-- else it reports an error where the value reads as 0; else it prints its help where the value or an
-- argument behind it asks for it; else it runs for that time, with the proxies asked for anywhere.
-- Without a time it prints its help where that is asked for or there is no argument, and else runs
-- for 0 seconds.
pub proxy_options-parsed :
    (name : String) (before : List String) (a v : String) (after : List String)
    → (same a (chars "--time") || same a (chars "-t")) ≡ true
    → asks_time (name ∷ before) ≡ false
    → (proxy_options ((name ∷ before) ++ (a ∷ v ∷ after))
        ≡ parsed (name ∷ before) a v after no_options)
      × (proxy_options (name ∷ before) ≡ (
          if asks_help (name ∷ before) || (length (name ∷ before) == 1)
          then helps
          else runs (flagged (name ∷ before) no_options)))
unfolding proxy_options is_time
proxy_options-parsed name before a v after e q = (
  ap (λ b. options_loop b ((name ∷ before) ++ (a ∷ v ∷ after)) no_options)
        (many name before a v after)
      ∙ options_loop_before (name ∷ before) a v after no_options e refl q,
  options_loop_untimed (length (name ∷ before) == 1) name before no_options (ap not q),
)
