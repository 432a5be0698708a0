-- ===== src/Cli/Written.antt =====
-- Every run of `main` of src/main.rs that makes the built-in corpus.
use Prim.Native.String
use Prim.Native.String.{String}
use mrtgen.Base.{ap, ◌∙◌, ◌≡◌, refl, [], ◌∷◌, List, Option, none, some, map, length, All}
use mrtgen.Generator.{FatalKind, kind_name}
use mrtgen.Generator.Layout.{DescribesFile}
use mrtgen.Generator.Whole.Described.{generate_profile-DescribesFile}
use mrtgen.Routes.Spec.{RouteFormat, RouteSpec, ParsedRoute}
use mrtgen.Cli
use mrtgen.Cli.{Args, parse_args}
use mrtgen.Cli.Run.{
  File, Exit, config_of, all_fatal, fatal_file, fatal_files, builtin_files, dir_files, run, main,
  main_file, damaged_file, run_from, written_or,
}

-- The manifest of a file lists what its bytes hold.
abbrev pub IsListed : {D : Type 0} → File D → Type 0
IsListed file = DescribesFile (length file.corpus.manifest.records) file.corpus

abbrev pub path_of : {D : Type 0} → File D → String
path_of file = file.path

abbrev damaged_path : (String → String → String) → String → FatalKind → String
damaged_path join dir kind = join dir (String.◌++◌ (kind_name kind) ".mrt")

-- Where the damaged files go.
abbrev pub damaged_paths : (String → String → String) → Option String → List String
damaged_paths join none = []
damaged_paths join (some dir) = map (damaged_path join dir) all_fatal

module _ {D : Type 0} (details : String → D) (version : String) (null : D)
    (join : String → String → String) where
  fatal_files_written :
      (args : Args) (dir : String) (kinds : List FatalKind)
      → (files : List (File D)) × (fatal_files details version null join args dir kinds
          ≡ some files)
        × All IsListed files
        × (map path_of files ≡ map (damaged_path join dir) kinds)
  unfolding fatal_files fatal_file
  fatal_files_written args dir [] = ([], refl, tt, refl)
  fatal_files_written args dir (kind ∷ kinds) =
      let (corpus, made, listed, profile) =
        generate_profile-DescribesFile details version null args.profile
          (record (config_of args) { fatal = some kind }) in
      let (files, e, rest, paths) = fatal_files_written args dir kinds in
      let file = damaged_file join dir kind corpus in
      (
        file ∷ files,
        rw made (rw e refl),
        (listed, rest),
        ap (λ ps. damaged_path join dir kind ∷ ps) paths,
      )

  dir_files_written :
      (args : Args) (o : Option String)
      → (files : List (File D)) × (dir_files details version null join args o ≡ some files)
        × All IsListed files
        × (map path_of files ≡ damaged_paths join o)
  dir_files_written args none = ([], refl, tt, refl)
  dir_files_written args (some dir) = fatal_files_written args dir all_fatal

  builtin_files_written :
      (args : Args)
      → (files : List (File D)) × (builtin_files details version null join args ≡ some files)
        × All IsListed files
        × (map path_of files ≡ args.out ∷ damaged_paths join args.fatal_dir)
  unfolding builtin_files
  builtin_files_written args =
      let (corpus, made, listed, profile) =
        generate_profile-DescribesFile details version null args.profile (config_of args) in
      let (files, e, rest, paths) = dir_files_written args args.fatal_dir in
      (
        main_file args corpus ∷ files,
        rw made (rw e refl),
        (listed, rest),
        ap (λ ps. args.out ∷ ps) paths,
      )

module _ {D : Type 0} (details : String → D) (version : String) (null : D)
    (join : String → String → String) (describe : RouteFormat → RouteSpec → ParsedRoute → String)
    (route_details : RouteSpec → ParsedRoute → D) (table_details : D)
    (read_routes : String → Option (List RouteSpec)) where
  -- Where a command line is accepted without a route list, whatever its other options, main
  -- never panics and ends with the files that it writes: one at the --out path and, with
  -- --fatal-dir, one for each kind of damage in that directory; and in each the manifest
  -- describes the bytes.
  pub main-written :
      (argv : List String) (args : Args)
      → parse_args argv ≡ Cli.ok (some args)
      → args.routes ≡ none
      → (files : List (File D)) × (main details version null join describe route_details
            table_details read_routes argv
          ≡ Exit.written files)
        × All IsListed files
        × (map path_of files ≡ args.out ∷ damaged_paths join args.fatal_dir)
  unfolding main run run_from
  main-written argv args accepted no_routes =
      let (files, made, listed, paths) = builtin_files_written details version null join args in
      let ran : run_from details version null join describe route_details table_details read_routes
            args.routes args
          ≡ Exit.written files =
        ap
          (λ o.
            run_from details version null join describe route_details table_details read_routes o
              args)
          no_routes
        ∙ ap written_or made in
      (files, rw (accepted, main) ran, listed, paths)
