-- ===== src/Cli/Run.antt =====
-- `main` of src/main.rs, up to the writing of the files, which is taken to succeed. The parameters stand
-- for the JSON facts and descriptions, for reading a route list (`none` is an error) and for `Path::join`.
use Prim.Native.String.{String}
use Prim.Native.String
use mrtgen.Base.{[], ◌∷◌, List, not, Option, none, some}
use mrtgen.Wire.{◌>>=◌}
use mrtgen.Outcome.{Outcome}
use mrtgen.Generator.{
  FatalKind, length_overruns_eof, truncated_header, huge_length, Corpus, kind_name,
}
use mrtgen.Generator.Profile.{GeneratorConfig, generate_profile}
use mrtgen.Routes.Spec.{RouteFormat, RouteSpec, ParsedRoute}
use mrtgen.Routes.Generate.{generate_from_routes}
use mrtgen.Cli.{Args, Result, parse_args}

-- One call of `write_corpus`.
pub record File (D : Type 0) : Type 0 where
  pub path : String
  manifest_path : String
  pub corpus : Corpus D

pub data Exit (D : Type 0) : Type 0 where
  usage_shown failure panicked : Exit D
  written : List (File D) → Exit D

-- The configuration that the arguments ask for.
abbrev pub config_of : Args → GeneratorConfig
config_of args = record {
  base_timestamp = args.base_timestamp;
  include_valid = not args.no_valid;
  include_skip = not args.no_skip;
  include_combo = not args.no_combo;
  include_attr_errors = not args.no_attr_errors;
  fatal = args.fatal;
}

-- `args.manifest.clone().unwrap_or_else(..)`
abbrev manifest_path_of : Args → String
manifest_path_of args = elim args.manifest [
  | some path ↦ path
  | none ↦ String.◌++◌ args.out ".manifest.json"
]

-- `FatalKind::ALL`
abbrev pub all_fatal : List FatalKind
all_fatal = length_overruns_eof ∷ truncated_header ∷ huge_length ∷ []

-- Where the main file goes.
abbrev pub main_file : {D : Type 0} → Args → Corpus D → File D
main_file args corpus = record {
  path = args.out;
  manifest_path = manifest_path_of args;
  corpus = corpus;
}

-- Where the file of a kind of damage goes.
abbrev pub damaged_file :
    {D : Type 0} → (String → String → String) → String → FatalKind → Corpus D → File D
damaged_file join dir kind corpus = record {
  path = join dir (String.◌++◌ (kind_name kind) ".mrt");
  manifest_path = join dir (String.◌++◌ (kind_name kind) ".mrt.manifest.json");
  corpus = corpus;
}

abbrev pub written_or : {D : Type 0} → Option (List (File D)) → Exit D
written_or none = Exit.panicked
written_or (some files) = Exit.written files

module _ {D : Type 0} (details : String → D) (version : String) (null : D)
    (join : String → String → String) where
  unfoldable pub fatal_file : Args → String → FatalKind → Option (File D)
  fatal_file args dir kind = do
    corpus ←
        generate_profile details version null args.profile
          (record (config_of args) { fatal = some kind })
    some (damaged_file join dir kind corpus)

  -- The loop over the kinds of damage.
  unfoldable pub fatal_files : Args → String → List FatalKind → Option (List (File D))
  fatal_files args dir [] = some []
  fatal_files args dir (kind ∷ kinds) = do
    file ← fatal_file args dir kind
    files ← fatal_files args dir kinds
    some (file ∷ files)

  abbrev pub dir_files : Args → Option String → Option (List (File D))
  dir_files args none = some []
  dir_files args (some dir) = fatal_files args dir all_fatal

  -- The built-in corpus; `none` is a panic.
  unfoldable pub builtin_files : Args → Option (List (File D))
  builtin_files args = do
    corpus ← generate_profile details version null args.profile (config_of args)
    more ← dir_files args args.fatal_dir
    some (main_file args corpus ∷ more)

module _ {D : Type 0} (details : String → D) (version : String) (null : D)
    (join : String → String → String) (describe : RouteFormat → RouteSpec → ParsedRoute → String)
    (route_details : RouteSpec → ParsedRoute → D) (table_details : D)
    (read_routes : String → Option (List RouteSpec)) where
  -- The corpus of a route list, written as the only file.
  abbrev routes_exit : Args → Outcome (Corpus D) → Exit D
  routes_exit args (Outcome.ok corpus) = Exit.written (main_file args corpus ∷ [])
  routes_exit args (Outcome.err e) = Exit.failure
  routes_exit args Outcome.panic = Exit.panicked

  unfoldable pub run_routes : Args → String → Exit D
  run_routes args path = elim (read_routes path) [
    | none ↦ Exit.failure
    | some specs ↦ routes_exit args (
        generate_from_routes args.base_timestamp describe route_details version table_details specs
          args.routes_format)
  ]

  -- `if let Some(routes_path) = &args.routes`
  unfoldable pub run_from : Option String → Args → Exit D
  run_from (some path) args = run_routes args path
  run_from none args = written_or (builtin_files details version null join args)

  unfoldable pub run : Args → Exit D
  run args = run_from args.routes args

  unfoldable pub main : List String → Exit D
  main argv = elim (parse_args argv) [
    | Result.ok none ↦ Exit.usage_shown
    | Result.ok (some args) ↦ run args
    | Result.err e ↦ Exit.failure
  ]
