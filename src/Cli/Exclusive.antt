-- ===== src/Cli/Exclusive.antt =====
-- What the command line of src/main.rs accepts.
use Prim.Native.String.{String}
use mrtgen.Base.{
  ◌≡◌, refl, [], ◌∷◌, List, false, Option, none, some, arith, Option-cases, inl, inr, is_some, ◌⊎◌,
  Bool-cases, subst,
}
use mrtgen.Manifest.{CorpusProfile, standard, stress, routes}
use mrtgen.Cli.{
  Args, Result, ok, err, ArgError, Switch, Valued, Arm, check_args, parse_loop, parse_args,
  set_value, set_switch, arm_of, default_args, excluded, not_standard,
}

abbrev pub IsConsistent : Args → Type 0
IsConsistent args =
    (args.routes ≡ none)
    ⊎ ((args.no_valid ≡ false)
        × (args.no_skip ≡ false)
        × (args.no_combo ≡ false)
        × (args.no_attr_errors ≡ false)
        × (args.fatal ≡ none)
        × (args.fatal_dir ≡ none)
        × (args.profile ≡ standard))

Result-cases : {A : Type 0} (r : Result A) → ((a : A) × (r ≡ ok a)) ⊎ ((e : ArgError) × (r ≡ err e))
Result-cases (ok a) = inl (a, refl)
Result-cases (err e) = inr (e, refl)

Arm-cases :
    (x : Arm)
    → (x ≡ Arm.help)
      ⊎ ((x ≡ Arm.unknown)
          ⊎ (((s : Switch) × (x ≡ Arm.switch s)) ⊎ ((v : Valued) × (x ≡ Arm.valued v))))
Arm-cases Arm.help = inl refl
Arm-cases Arm.unknown = inr (inl refl)
Arm-cases (Arm.switch s) = inr (inr (inl (s, refl)))
Arm-cases (Arm.valued v) = inr (inr (inr (v, refl)))

none_of : {A : Type 0} (o : Option A) → is_some o ≡ false → o ≡ none
none_of none h = refl
none_of (some a) h = cc

standard_of : (p : CorpusProfile) → not_standard p ≡ false → p ≡ standard
standard_of standard h = refl
standard_of stress h = cc
standard_of routes h = cc

check_args_sound :
    (args accepted : Args)
    → check_args args ≡ ok (some accepted)
    → (args ≡ accepted) × IsConsistent args
unfolding check_args
check_args_sound args accepted h = elim (Option-cases args.routes) [
  | inl e ↦ let same : args ≡ accepted = cc (rw e at h) in (same, inl e)
  | inr (path, e) ↦ elim (Bool-cases (excluded args)) [
    | inl x ↦ absurd (cc (rw (e, x) at h))
    | inr x ↦ elim (Bool-cases (not_standard args.profile)) [
      | inl p ↦ absurd (cc (rw (e, x, p) at h))
      | inr p ↦
          let same : args ≡ accepted = cc (rw (e, x, p) at h) in
          (
            same,
            inr (
              ground arith,
              ground arith,
              ground arith,
              ground arith,
              none_of args.fatal (ground arith),
              none_of args.fatal_dir (ground arith),
              standard_of args.profile p,
            ),
          )
    ]
  ]
]

parse_loop-IsConsistent :
    (argv : List String) (pending : Option Valued) (args accepted : Args)
    → parse_loop argv pending args ≡ ok (some accepted)
    → IsConsistent accepted
unfolding parse_loop
parse_loop-IsConsistent [] none args accepted h =
    let (same, consistent) = check_args_sound args accepted h in subst IsConsistent same consistent
parse_loop-IsConsistent [] (some v) args accepted h = cc
parse_loop-IsConsistent (a ∷ rest) (some v) args accepted h =
    elim (Result-cases (set_value v a args)) [
      | inl (args', e) ↦ parse_loop-IsConsistent rest none args' accepted (rw (e, parse_loop) at h)
      | inr (x, e) ↦ absurd (cc (rw (e, parse_loop) at h))
    ]
parse_loop-IsConsistent (a ∷ rest) none args accepted h = elim (Arm-cases (arm_of a)) [
  | inl e ↦ absurd (cc (rw (e, parse_loop) at h))
  | inr (inl e) ↦ absurd (cc (rw (e, parse_loop) at h))
  | inr (inr (inl (s, e))) ↦
      parse_loop-IsConsistent rest none (set_switch s args) accepted (rw (e, parse_loop) at h)
  | inr (inr (inr (v, e))) ↦
      parse_loop-IsConsistent rest (some v) args accepted (rw (e, parse_loop) at h)
]

-- Where a command line is accepted, a route list comes with none of the --no-* switches, no
-- --fatal, no --fatal-dir, and the standard profile.
pub parse_args-IsConsistent :
    (argv : List String) (accepted : Args)
    → parse_args argv ≡ ok (some accepted)
    → IsConsistent accepted
unfolding parse_args
parse_args-IsConsistent argv accepted h = parse_loop-IsConsistent argv none default_args accepted h
