-- ===== src/Tests/Commands.antt =====
-- The command line.
use Prim.Native.String
use Prim.Native.String.{String}
use mrtgen.Base.{ℕ, ◌≡◌, refl, [], ◌∷◌, List, some, none, true, inl, inr, Option, All, map}
use mrtgen.Text.{codes, from_str_radix, digits_value, to_digit, parse_u32}
use mrtgen.Manifest.{stress}
use mrtgen.Generator.{length_overruns_eof, truncated_header, huge_length}
use mrtgen.Routes.Spec.{RouteFormat, bgp4mp, RouteSpec, ParsedRoute}
use mrtgen.Cli
use mrtgen.Cli.{
  Args, default_args, parse_args, parse_loop, arm_of, set_value, check_args, parse_fatal,
  parse_profile, parse_routes_format, parse_timestamp,
}
use mrtgen.Cli.Exclusive.{IsConsistent, parse_args-IsConsistent}
use mrtgen.Cli.Rendering.{render, parse_args-render}
use mrtgen.Cli.Run.{File, Exit, run, main}
use mrtgen.Cli.Files.{run-fatal_dir}
use mrtgen.Cli.Written.{IsListed, path_of, damaged_paths, main-written}
use mrtgen.Generator.Whole.Tails.{Extends}

-- The stress corpus without the combinations, and the damaged files.
abbrev stress_args : Args
stress_args = record default_args {
  out = "big.mrt";
  manifest = some "big.json";
  no_combo = true;
  fatal_dir = some "damaged";
  base_timestamp = 1700000000;
  routes_format = bgp4mp;
  profile = stress;
}

timestamp_text : parse_u32 (codes "1700000000") ≡ some 1700000000
unfolding from_str_radix digits_value to_digit
timestamp_text = refl

parse_args-render_example : parse_args (render "1700000000" stress_args) ≡ Cli.ok (some stress_args)
parse_args-render_example =
    parse_args-render "1700000000" stress_args timestamp_text (inr refl) (inl refl)

abbrev routes_args : Args
routes_args = record default_args { routes = some "routes.json"; routes_format = bgp4mp }

routes_accepted :
    parse_args ("-r" ∷ "routes.json" ∷ "--routes-format" ∷ "bgp4mp" ∷ [])
    ≡ Cli.ok (some routes_args)
unfolding parse_args parse_loop arm_of set_value check_args parse_routes_format
routes_accepted = refl

parse_args-IsConsistent_example : IsConsistent routes_args
parse_args-IsConsistent_example = parse_args-IsConsistent _ routes_args routes_accepted

-- Two options that exclude each other.
routes_with_fatal :
    parse_args ("-r" ∷ "routes.json" ∷ "--fatal" ∷ "huge-length" ∷ [])
    ≡ Cli.err Cli.routes_exclusive
unfolding parse_args parse_loop arm_of set_value check_args parse_fatal
routes_with_fatal = refl

-- A missing value.
no_value : parse_args ("--no-skip" ∷ "--out" ∷ []) ≡ Cli.err (Cli.missing_value "--out")
unfolding parse_args parse_loop arm_of set_value check_args
no_value = refl

abbrev join : String → String → String
join dir name = String.◌++◌ dir (String.◌++◌ "/" name)

abbrev describe : RouteFormat → RouteSpec → ParsedRoute → String
describe format spec route = "route"

abbrev facts : RouteSpec → ParsedRoute → ℕ
facts spec route = 0

abbrev no_file : String → Option (List RouteSpec)
no_file path = none

run-fatal_dir_example :
    (main f₁ f₂ f₃ : File ℕ) × (run (λ kind. 0) "0.1.0" 7 join describe facts 0 no_file stress_args
      ≡ Exit.written (main ∷ f₁ ∷ f₂ ∷ f₃ ∷ []))
    × (main.path ≡ "big.mrt")
    × Extends length_overruns_eof main.corpus f₁.corpus
    × Extends truncated_header main.corpus f₂.corpus
    × Extends huge_length main.corpus f₃.corpus
run-fatal_dir_example =
    run-fatal_dir (λ kind. 0) "0.1.0" 7 join describe facts 0 no_file stress_args "damaged" refl
      refl refl

-- A tail in the main file and in the damaged ones.
abbrev damaged_args : Args
damaged_args = record default_args { fatal = some huge_length; fatal_dir = some "d" }

damaged_accepted :
    parse_args ("--fatal" ∷ "huge-length" ∷ "--fatal-dir" ∷ "d" ∷ []) ≡ Cli.ok (some damaged_args)
unfolding parse_args parse_loop arm_of set_value check_args parse_fatal
damaged_accepted = refl

main-written_example :
    (files : List (File ℕ)) × (main
        (λ kind. 0)
        "0.1.0"
        7
        join
        describe
        facts
        0
        no_file
        ("--fatal" ∷ "huge-length" ∷ "--fatal-dir" ∷ "d" ∷ [])
      ≡ Exit.written files)
    × All IsListed files
    × (map path_of files ≡ "corpus.mrt" ∷ damaged_paths join (some "d"))
main-written_example =
    main-written (λ kind. 0) "0.1.0" 7 join describe facts 0 no_file _ damaged_args damaged_accepted
      refl
