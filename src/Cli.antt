-- ===== src/Cli.antt =====
-- src/main.rs: the command line. An error message is a constructor with the text that it quotes.
pub mod Exclusive
pub mod Rendering
pub mod Run
pub mod Files
pub mod Written
use Prim.Native.String.{String}
use text.Mathlib.Text.{◌==◌}
use mrtgen.Base.{
  ℕ, [], ◌∷◌, List, Bool, true, false, ◌||◌, Option, none, some, is_some, if◌then◌else◌,
}
use mrtgen.Text.{codes, parse_u32}
use mrtgen.Manifest.{CorpusProfile, standard, stress, routes}
use mrtgen.Generator.{FatalKind, length_overruns_eof, truncated_header, huge_length}
use mrtgen.Routes.Spec.{RouteFormat, table_dump_v2, bgp4mp}

pub record Args : Type 0 where
  pub out : String
  pub manifest : Option String
  pub no_valid : Bool
  pub no_skip : Bool
  pub no_combo : Bool
  pub no_attr_errors : Bool
  pub fatal : Option FatalKind
  pub fatal_dir : Option String
  pub base_timestamp : ℕ
  pub routes : Option String
  pub routes_format : RouteFormat
  pub profile : CorpusProfile

pub data ArgError : Type 0 where
  missing_value unknown_fatal unknown_format unknown_profile unknown_argument : String → ArgError
  bad_timestamp routes_exclusive routes_stress : ArgError

-- `Result<A, String>`
pub data Result (A : Type 0) : Type 0 where
  ok : A → Result A
  err : ArgError → Result A

unfoldable pub parse_fatal : String → Result FatalKind
parse_fatal s =
    if s == "length-overrun"
    then ok length_overruns_eof
    else if s == "truncated-header"
    then ok truncated_header
    else if s == "huge-length"
    then ok huge_length
    else err (unknown_fatal s)

unfoldable pub parse_routes_format : String → Result RouteFormat
parse_routes_format s =
    if s == "table-dump-v2"
    then ok table_dump_v2
    else if s == "bgp4mp"
    then ok bgp4mp
    else err (unknown_format s)

unfoldable pub parse_profile : String → Result CorpusProfile
parse_profile s =
    if s == "standard"
    then ok standard
    else if s == "stress"
    then ok stress
    else err (unknown_profile s)

-- `value("--base-timestamp")?.parse()`; the reason of a failure is not kept.
unfoldable pub parse_timestamp : String → Result ℕ
parse_timestamp s = elim (parse_u32 (codes s)) [ none ↦ err bad_timestamp | some n ↦ ok n ]

abbrev pub default_args : Args
default_args = record {
  out = "corpus.mrt";
  manifest = none;
  no_valid = false;
  no_skip = false;
  no_combo = false;
  no_attr_errors = false;
  fatal = none;
  fatal_dir = none;
  base_timestamp = 1600000000;
  routes = none;
  routes_format = table_dump_v2;
  profile = standard;
}

-- The options without a value, and those with one.
pub data Switch : Type 0 where
  no_valid no_skip no_combo no_attr_errors : Switch

pub data Valued : Type 0 where
  out manifest fatal fatal_dir base_timestamp profile routes_file routes_format : Valued

pub data Arm : Type 0 where
  help unknown : Arm
  switch : Switch → Arm
  valued : Valued → Arm

-- The patterns of `match a.as_str()`, in order.
unfoldable pub arm_of : String → Arm
arm_of a =
    if a == "-h" || a == "--help"
    then Arm.help
    else if a == "-o" || a == "--out"
    then Arm.valued Valued.out
    else if a == "-m" || a == "--manifest"
    then Arm.valued Valued.manifest
    else if a == "--no-valid"
    then Arm.switch Switch.no_valid
    else if a == "--no-skip"
    then Arm.switch Switch.no_skip
    else if a == "--no-combo"
    then Arm.switch Switch.no_combo
    else if a == "--no-attr-errors"
    then Arm.switch Switch.no_attr_errors
    else if a == "--fatal"
    then Arm.valued Valued.fatal
    else if a == "--fatal-dir"
    then Arm.valued Valued.fatal_dir
    else if a == "--base-timestamp"
    then Arm.valued Valued.base_timestamp
    else if a == "--profile"
    then Arm.valued Valued.profile
    else if a == "-r" || a == "--routes"
    then Arm.valued Valued.routes_file
    else if a == "--routes-format"
    then Arm.valued Valued.routes_format
    else Arm.unknown

-- The name in the message of a missing value.
abbrev long_name : Valued → String
long_name Valued.out = "--out"
long_name Valued.manifest = "--manifest"
long_name Valued.fatal = "--fatal"
long_name Valued.fatal_dir = "--fatal-dir"
long_name Valued.base_timestamp = "--base-timestamp"
long_name Valued.profile = "--profile"
long_name Valued.routes_file = "--routes"
long_name Valued.routes_format = "--routes-format"

abbrev pub set_switch : Switch → Args → Args
set_switch Switch.no_valid args = record args { no_valid = true }
set_switch Switch.no_skip args = record args { no_skip = true }
set_switch Switch.no_combo args = record args { no_combo = true }
set_switch Switch.no_attr_errors args = record args { no_attr_errors = true }

infixl 5 ◌>>=◌
abbrev pub ◌>>=◌ : {A B : Type 0} → Result A → (A → Result B) → Result B
ok a >>= f = f a
err e >>= f = err e

unfoldable pub set_value : Valued → String → Args → Result Args
set_value Valued.out s args = ok (record args { out = s })
set_value Valued.manifest s args = ok (record args { manifest = some s })
set_value Valued.fatal s args = do kind ← parse_fatal s; ok (record args { fatal = some kind })
set_value Valued.fatal_dir s args = ok (record args { fatal_dir = some s })
set_value Valued.base_timestamp s args = do
  n ← parse_timestamp s
  ok (record args { base_timestamp = n })
set_value Valued.profile s args = do p ← parse_profile s; ok (record args { profile = p })
set_value Valued.routes_file s args = ok (record args { routes = some s })
set_value Valued.routes_format s args = do
  f ← parse_routes_format s
  ok (record args { routes_format = f })

-- `args.profile != CorpusProfile::Standard`
abbrev pub not_standard : CorpusProfile → Bool
not_standard standard = false
not_standard stress = true
not_standard routes = true

abbrev pub excluded : Args → Bool
excluded args =
    args.no_valid
    || (args.no_skip
        || (args.no_combo
            || (args.no_attr_errors || (is_some args.fatal || is_some args.fatal_dir))))

-- The two tests after the loop.
unfoldable pub check_args : Args → Result (Option Args)
check_args args =
    if is_some args.routes
    then if excluded args
      then err routes_exclusive
      else if not_standard args.profile
      then err routes_stress
      else ok (some args)
    else ok (some args)

-- The loop over the arguments; an option stands in the second place while its value is read.
unfoldable pub parse_loop : List String → Option Valued → Args → Result (Option Args)
parse_loop [] none args = check_args args
parse_loop [] (some v) args = err (missing_value (long_name v))
parse_loop (a ∷ rest) (some v) args = elim (set_value v a args) [
  | ok args' ↦ parse_loop rest none args'
  | err e ↦ err e
]
parse_loop (a ∷ rest) none args = elim (arm_of a) [
  | Arm.help ↦ ok none
  | Arm.unknown ↦ err (unknown_argument a)
  | Arm.switch s ↦ parse_loop rest none (set_switch s args)
  | Arm.valued v ↦ parse_loop rest (some v) args
]

-- `ok none` asks for the usage text.
unfoldable pub parse_args : List String → Result (Option Args)
parse_args argv = parse_loop argv none default_args
