-- ===== src/Cli/Files.antt =====
-- The files that `main` of src/main.rs writes for the built-in corpus.
use Prim.Native.String.{String}
use mrtgen.Base.{ap, ◌∙◌, ◌≡◌, refl, [], ◌∷◌, List, Option, none, some}
use mrtgen.Generator.{FatalKind, length_overruns_eof, truncated_header, huge_length, Corpus}
use mrtgen.Generator.Profile.{generate_profile}
use mrtgen.Generator.Whole.Described.{generate_profile-DescribesFile}
use mrtgen.Generator.Whole.Tails.{Extends, generate_profile-fatal}
use mrtgen.Routes.Spec.{RouteFormat, RouteSpec, ParsedRoute}
use mrtgen.Cli.{Args}
use mrtgen.Cli.Run.{
  File, Exit, config_of, all_fatal, fatal_file, fatal_files, builtin_files, dir_files, run,
  main_file, damaged_file, run_from, written_or,
}

module _ {D : Type 0} (details : String → D) (version : String) (null : D)
    (join : String → String → String) where
  fatal_file_total :
      (args : Args) (dir : String) (kind : FatalKind) (plain : Corpus D)
      → generate_profile details version null args.profile
          (record (config_of args) { fatal = none })
        ≡ some plain
      → (file : File D) × (fatal_file details version null join args dir kind ≡ some file)
        × Extends kind plain file.corpus
  unfolding fatal_file
  fatal_file_total args dir kind plain h =
      let (tailed, e, extends) =
        generate_profile-fatal details version null args.profile (config_of args) kind plain h in
      (damaged_file join dir kind tailed, rw (e, fatal_file) refl, extends)

  fatal_files_total :
      (args : Args) (dir : String) (plain : Corpus D)
      → generate_profile details version null args.profile
          (record (config_of args) { fatal = none })
        ≡ some plain
      → (f₁ f₂ f₃ : File D) × (fatal_files details version null join args dir all_fatal
          ≡ some (f₁ ∷ f₂ ∷ f₃ ∷ []))
        × Extends length_overruns_eof plain f₁.corpus
        × Extends truncated_header plain f₂.corpus
        × Extends huge_length plain f₃.corpus
  unfolding fatal_files
  fatal_files_total args dir plain h =
      let (f₁, e₁, x₁) = fatal_file_total args dir length_overruns_eof plain h in
      let (f₂, e₂, x₂) = fatal_file_total args dir truncated_header plain h in
      let (f₃, e₃, x₃) = fatal_file_total args dir huge_length plain h in
      (f₁, f₂, f₃, rw (e₁, e₂, e₃) refl, x₁, x₂, x₃)

  dir_files_lem :
      (args : Args) (o : Option String) (dir : String) (files : List (File D))
      → o ≡ some dir
      → fatal_files details version null join args dir all_fatal ≡ some files
      → dir_files details version null join args o ≡ some files
  dir_files_lem args o dir files e h = rw e h

  builtin_files_lem :
      (args : Args) (plain : Corpus D) (files : List (File D))
      → generate_profile details version null args.profile (config_of args) ≡ some plain
      → dir_files details version null join args args.fatal_dir ≡ some files
      → builtin_files details version null join args ≡ some (main_file args plain ∷ files)
  unfolding builtin_files
  builtin_files_lem args plain files made damaged = rw made (rw damaged refl)

module _ {D : Type 0} (details : String → D) (version : String) (null : D)
    (join : String → String → String) (describe : RouteFormat → RouteSpec → ParsedRoute → String)
    (route_details : RouteSpec → ParsedRoute → D) (table_details : D)
    (read_routes : String → Option (List RouteSpec)) where
  -- With --fatal-dir, no --fatal and no route list, main has four files to write, and does not
  -- panic: the corpus at the --out path, and, for each kind of damage, the same bytes and
  -- records with that tail behind them, where a load of the first gets every record and of the
  -- others stops at the tail with the same records.
  pub run-fatal_dir :
      (args : Args) (dir : String)
      → args.routes ≡ none
      → args.fatal ≡ none
      → args.fatal_dir ≡ some dir
      → (main f₁ f₂ f₃ : File D) × (run details version null join describe route_details
            table_details read_routes args
          ≡ Exit.written (main ∷ f₁ ∷ f₂ ∷ f₃ ∷ []))
        × (main.path ≡ args.out)
        × Extends length_overruns_eof main.corpus f₁.corpus
        × Extends truncated_header main.corpus f₂.corpus
        × Extends huge_length main.corpus f₃.corpus
  unfolding run run_from
  run-fatal_dir args dir no_routes no_fatal with_dir =
      let cfg = config_of args in
      let (plain, made, listed, profile) =
        generate_profile-DescribesFile details version null args.profile
          (record cfg { fatal = none }) in
      let (f₁, f₂, f₃, e, x₁, x₂, x₃) =
        fatal_files_total details version null join args dir plain made in
      let same : cfg ≡ record cfg { fatal = none } = ap (λ f. record cfg { fatal = f }) no_fatal in
      let plainly : generate_profile details version null args.profile cfg ≡ some plain =
        rw same made in
      let files =
        builtin_files_lem details version null join args plain (f₁ ∷ f₂ ∷ f₃ ∷ []) plainly
          (dir_files_lem details version null join args args.fatal_dir dir _ with_dir e) in
      (
        main_file args plain,
        f₁,
        f₂,
        f₃,
        ap
              (λ o.
                run_from details version null join describe route_details table_details read_routes
                  o args)
              no_routes
            ∙ ap written_or files,
        refl,
        x₁,
        x₂,
        x₃,
      )
