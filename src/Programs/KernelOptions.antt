-- ===== src/Programs/KernelOptions.antt =====
-- What the loop over the arguments in src/impl/kermit_kernel.cpp makes of them.
use sentinet_cpp.Common.{
  ◌==◌, ◌||◌, ◌≡◌, sym, ap, ◌∙◌, Bool, true, false, not, Option, none, some, List, [], ◌∷◌, arith,
  length, if◌then◌else◌,
}
use sentinet_cpp.Common.Maps.{String, same, same-≡}
use sentinet_cpp.Common.Decimal.{chars}
use sentinet_cpp.Programs.Options.{asked, ends_in, last_after}
use sentinet_cpp.Programs.KernelMain.{
  KernelOptions, Parsed, helps, fails, runs, wants_help, kernel_loop, kernel_options,
}

abbrev debug_of : Option String → Bool → Bool
debug_of none old = old
debug_of (some v) old = not (same v (chars "off"))

-- What the loop ends with, by whether it is to help or to fail, what follows `--debug`, and whether
-- `--verbose` is there.
abbrev described : Bool → Bool → Option String → Bool → KernelOptions → Parsed KernelOptions
described help fail after verbose o =
    if help
    then helps
    else if fail
    then fails
    else runs (record { debug = debug_of after o.debug; verbose = o.verbose || verbose })

abbrev either : Option String → Option String → Option String
either none old = old
either (some v) old = some v

described_step :
    (a_h a_help a_debug a_verbose t_h t_help t_fail t_verbose alone : Bool)
    (t_after : Option String) (v : String) (o : KernelOptions)
    → (a_debug ≡ true → a_verbose ≡ false)
    → let o' : KernelOptions =
        if a_debug
        then record o { debug = not (same v (chars "off")) }
        else if a_verbose
        then record o { verbose = true }
        else o in
      (if a_h || a_help || alone
        then helps
        else described (t_h || t_help || alone) t_fail t_after t_verbose o')
      ≡ described
          ((a_h || t_h) || (a_help || t_help) || alone)
          t_fail
          (either t_after (if a_debug then some v else none))
          (a_verbose || t_verbose)
          o
described_step a_h a_help a_debug a_verbose t_h t_help t_fail t_verbose alone none v o apart =
    ground arith
described_step a_h a_help a_debug a_verbose t_h t_help t_fail t_verbose alone (some w) v o apart =
    ground arith

debug_not_verbose :
    (a : String) → same a (chars "--debug") ≡ true → same a (chars "--verbose") ≡ false
unfolding same
debug_not_verbose a e = ap (λ s. same s (chars "--verbose")) (same-≡ a (chars "--debug") e)

last_after_cons :
    (a v : String) (rest : List String) (k : String)
    → last_after k (a ∷ v ∷ rest)
      ≡ either (last_after k (v ∷ rest)) (if same a k then some v else none)
unfolding last_after
last_after_cons a v rest k = ground arith

kernel_loop_lem :
    (alone : Bool) (a : String) (argv : List String) (o : KernelOptions)
    → kernel_loop alone (a ∷ argv) o
      ≡ described
          (asked (chars "-h") (a ∷ argv) || asked (chars "--help") (a ∷ argv) || alone)
          (ends_in (chars "--debug") (a ∷ argv))
          (last_after (chars "--debug") (a ∷ argv))
          (asked (chars "--verbose") (a ∷ argv))
          o
unfolding kernel_loop wants_help asked ends_in last_after
kernel_loop_lem alone a [] o = ground (arith, debug_not_verbose a)
kernel_loop_lem alone a (v ∷ rest) o =
    let o' : KernelOptions =
      if same a (chars "--debug")
      then record o { debug = not (same v (chars "off")) }
      else if same a (chars "--verbose")
      then record o { verbose = true }
      else o in
    let ih = kernel_loop_lem alone v rest o' in
    ap (λ r. if wants_help alone a then helps else r) ih
    ∙ (described_step (same a (chars "-h")) (same a (chars "--help")) (same a (chars "--debug"))
          (same a (chars "--verbose")) (asked (chars "-h") (v ∷ rest))
          (asked (chars "--help") (v ∷ rest)) (ends_in (chars "--debug") (v ∷ rest))
          (asked (chars "--verbose") (v ∷ rest)) alone (last_after (chars "--debug") (v ∷ rest)) v o
          (debug_not_verbose a)
        ∙ ap
            (λ l.
              described
                ((same a (chars "-h") || asked (chars "-h") (v ∷ rest))
                  || (same a (chars "--help") || asked (chars "--help") (v ∷ rest))
                  || alone)
                (ends_in (chars "--debug") (v ∷ rest)) l
                (same a (chars "--verbose") || asked (chars "--verbose") (v ∷ rest)) o)
            (sym (last_after_cons a v rest (chars "--debug"))))

-- The kernel's program prints its help where it has no argument or one of them, the name of the
-- program included, asks for it. Else it reports an error exactly where the last one is `--debug`.
-- Else it runs, in debug mode unless `off` follows the last `--debug`, and verbosely exactly where
-- one of them is `--verbose`: the order of the arguments does not matter otherwise, and the value of
-- `--debug` is looked at as an option too.
pub kernel_options-described :
    (name : String) (args : List String)
    → let argv = name ∷ args in
      kernel_options argv
      ≡ described
          (asked (chars "-h") argv || asked (chars "--help") argv || (length args == 0))
          (ends_in (chars "--debug") argv)
          (last_after (chars "--debug") argv)
          (asked (chars "--verbose") argv)
          (record { debug = true; verbose = false })
unfolding kernel_options
kernel_options-described name args =
    let alone : (length (name ∷ args) == 1) ≡ (length args == 0) = ground arith in
    let o : KernelOptions = record { debug = true; verbose = false } in
    ap (λ b. kernel_loop b (name ∷ args) o) alone ∙ kernel_loop_lem (length args == 0) name args o
