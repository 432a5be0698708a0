-- ===== src/Cli/Rendering.antt =====
-- A command line for any settings, and what `parse_args` of src/main.rs makes of it.
use Prim.Native.String.{String}
use mrtgen.Base.{
  ℕ, ◌≡◌, refl, [], ◌∷◌, ◌++◌, List, Bool, true, false, Option, none, some, inl, inr, ◌⊎◌, ◌∙◌,
  Option-cases,
}
use mrtgen.Text.{codes, parse_u32}
use mrtgen.Manifest.{CorpusProfile, standard, stress, routes}
use mrtgen.Generator.{FatalKind, length_overruns_eof, truncated_header, huge_length}
use mrtgen.Routes.Spec.{RouteFormat, table_dump_v2, bgp4mp}
use mrtgen.Cli.{
  Args, ok, check_args, parse_loop, parse_args, set_value, arm_of, parse_fatal, parse_profile,
  parse_routes_format, parse_timestamp, default_args,
}
use mrtgen.Cli.Exclusive.{IsConsistent}

abbrev fatal_text : FatalKind → String
fatal_text length_overruns_eof = "length-overrun"
fatal_text truncated_header = "truncated-header"
fatal_text huge_length = "huge-length"

abbrev format_text : RouteFormat → String
format_text table_dump_v2 = "table-dump-v2"
format_text bgp4mp = "bgp4mp"

-- The option is left out for a profile that the command line does not know.
abbrev profile_option : CorpusProfile → List String
profile_option standard = "--profile" ∷ "standard" ∷ []
profile_option stress = "--profile" ∷ "stress" ∷ []
profile_option routes = []

abbrev switch_option : String → Bool → List String
switch_option name true = name ∷ []
switch_option name false = []

abbrev path_option : String → Option String → List String
path_option name none = []
path_option name (some path) = name ∷ path ∷ []

abbrev fatal_option : Option FatalKind → List String
fatal_option none = []
fatal_option (some kind) = "--fatal" ∷ fatal_text kind ∷ []

-- `t` is the text of the base timestamp.
unfoldable pub render : String → Args → List String
render t args =
    ("--out" ∷ args.out ∷ [])
    ++ (path_option "--manifest" args.manifest
        ++ (switch_option "--no-valid" args.no_valid
            ++ (switch_option "--no-skip" args.no_skip
                ++ (switch_option "--no-combo" args.no_combo
                    ++ (switch_option "--no-attr-errors" args.no_attr_errors
                        ++ (fatal_option args.fatal
                            ++ (path_option "--fatal-dir" args.fatal_dir
                                ++ (("--base-timestamp" ∷ t ∷ [])
                                    ++ (path_option "--routes" args.routes
                                        ++ (("--routes-format"
                                              ∷ format_text args.routes_format
                                              ∷ [])
                                            ++ profile_option args.profile))))))))))

parse_timestamp_lem : (t : String) (n : ℕ) → parse_u32 (codes t) ≡ some n → parse_timestamp t ≡ ok n
unfolding parse_timestamp
parse_timestamp_lem t n e = rw (e, parse_timestamp) refl

check_args-IsConsistent : (args : Args) → IsConsistent args → check_args args ≡ ok (some args)
unfolding check_args
check_args-IsConsistent args (inl e) = rw (e, check_args) refl
check_args-IsConsistent args (inr (v, s, c, a, f, d, p)) = elim (Option-cases args.routes) [
  | inl e ↦ rw (e, check_args) refl
  | inr (path, e) ↦ rw (e, v, s, c, a, f, d, p, check_args) refl
]

module _ (rest : List String) (a : Args) where
  read_out :
      (path : String)
      → parse_loop ("--out" ∷ path ∷ rest) none a ≡ parse_loop rest none (record a { out = path })
  unfolding parse_loop arm_of set_value
  read_out path = refl

  read_manifest :
      (o : Option String)
      → parse_loop (path_option "--manifest" o ++ rest) none (record a { manifest = none })
        ≡ parse_loop rest none (record a { manifest = o })
  unfolding parse_loop arm_of set_value
  read_manifest none = refl
  read_manifest (some path) = refl

  read_no_valid :
      (b : Bool)
      → parse_loop (switch_option "--no-valid" b ++ rest) none (record a { no_valid = false })
        ≡ parse_loop rest none (record a { no_valid = b })
  unfolding parse_loop arm_of
  read_no_valid true = refl
  read_no_valid false = refl

  read_no_skip :
      (b : Bool)
      → parse_loop (switch_option "--no-skip" b ++ rest) none (record a { no_skip = false })
        ≡ parse_loop rest none (record a { no_skip = b })
  unfolding parse_loop arm_of
  read_no_skip true = refl
  read_no_skip false = refl

  read_no_combo :
      (b : Bool)
      → parse_loop (switch_option "--no-combo" b ++ rest) none (record a { no_combo = false })
        ≡ parse_loop rest none (record a { no_combo = b })
  unfolding parse_loop arm_of
  read_no_combo true = refl
  read_no_combo false = refl

  read_no_attr_errors :
      (b : Bool)
      → parse_loop
          (switch_option "--no-attr-errors" b ++ rest)
          none
          (record a { no_attr_errors = false })
        ≡ parse_loop rest none (record a { no_attr_errors = b })
  unfolding parse_loop arm_of
  read_no_attr_errors true = refl
  read_no_attr_errors false = refl

  read_fatal :
      (o : Option FatalKind)
      → parse_loop (fatal_option o ++ rest) none (record a { fatal = none })
        ≡ parse_loop rest none (record a { fatal = o })
  unfolding parse_loop arm_of set_value parse_fatal
  read_fatal none = refl
  read_fatal (some length_overruns_eof) = refl
  read_fatal (some truncated_header) = refl
  read_fatal (some huge_length) = refl

  read_fatal_dir :
      (o : Option String)
      → parse_loop (path_option "--fatal-dir" o ++ rest) none (record a { fatal_dir = none })
        ≡ parse_loop rest none (record a { fatal_dir = o })
  unfolding parse_loop arm_of set_value
  read_fatal_dir none = refl
  read_fatal_dir (some path) = refl

  read_base_timestamp :
      (t : String) (n : ℕ)
      → parse_u32 (codes t) ≡ some n
      → parse_loop ("--base-timestamp" ∷ t ∷ rest) none a
        ≡ parse_loop rest none (record a { base_timestamp = n })
  unfolding parse_loop arm_of set_value
  read_base_timestamp t n e =
      let read = parse_timestamp_lem t n e in rw (read, parse_loop, set_value) refl

  read_routes :
      (o : Option String)
      → parse_loop (path_option "--routes" o ++ rest) none (record a { routes = none })
        ≡ parse_loop rest none (record a { routes = o })
  unfolding parse_loop arm_of set_value
  read_routes none = refl
  read_routes (some path) = refl

  read_routes_format :
      (f : RouteFormat)
      → parse_loop ("--routes-format" ∷ format_text f ∷ rest) none a
        ≡ parse_loop rest none (record a { routes_format = f })
  unfolding parse_loop arm_of set_value parse_routes_format
  read_routes_format table_dump_v2 = refl
  read_routes_format bgp4mp = refl

read_profile :
    (a : Args) (p : CorpusProfile)
    → (p ≡ standard) ⊎ (p ≡ stress)
    → parse_loop (profile_option p) none (record a { profile = standard })
      ≡ check_args (record a { profile = p })
unfolding parse_loop arm_of set_value parse_profile
read_profile a standard h = refl
read_profile a stress h = refl
read_profile a routes (inl e) = cc
read_profile a routes (inr e) = cc

-- Settings of the standard or the stress profile that mix a route list with none of the options
-- it excludes, written as a command line with any text that reads as their base timestamp, are
-- parsed back.
pub parse_args-render :
    (t : String) (args : Args)
    → parse_u32 (codes t) ≡ some args.base_timestamp
    → (args.profile ≡ standard) ⊎ (args.profile ≡ stress)
    → IsConsistent args
    → parse_args (render t args) ≡ ok (some args)
unfolding parse_args render
parse_args-render t args stamp known consistent =
    let a₁ = record default_args { out = args.out } in
    let a₂ = record a₁ { manifest = args.manifest } in
    let a₃ = record a₂ { no_valid = args.no_valid } in
    let a₄ = record a₃ { no_skip = args.no_skip } in
    let a₅ = record a₄ { no_combo = args.no_combo } in
    let a₆ = record a₅ { no_attr_errors = args.no_attr_errors } in
    let a₇ = record a₆ { fatal = args.fatal } in
    let a₈ = record a₇ { fatal_dir = args.fatal_dir } in
    let a₉ = record a₈ { base_timestamp = args.base_timestamp } in
    let b = record a₉ { routes = args.routes } in
    let c = record b { routes_format = args.routes_format } in
    read_out _ default_args args.out
    ∙ read_manifest _ a₁ args.manifest
    ∙ read_no_valid _ a₂ args.no_valid
    ∙ read_no_skip _ a₃ args.no_skip
    ∙ read_no_combo _ a₄ args.no_combo
    ∙ read_no_attr_errors _ a₅ args.no_attr_errors
    ∙ read_fatal _ a₆ args.fatal
    ∙ read_fatal_dir _ a₇ args.fatal_dir
    ∙ read_base_timestamp _ a₈ t args.base_timestamp stamp
    ∙ read_routes _ a₉ args.routes
    ∙ read_routes_format _ b args.routes_format
    ∙ read_profile c args.profile known
    ∙ check_args-IsConsistent args consistent
