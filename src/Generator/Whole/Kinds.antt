-- ===== src/Generator/Whole/Kinds.antt =====
-- The kinds in the manifest of `generate_profile` in src/generator.rs.
use Prim.Native.String.{String}
use mathlib.Core.Logic.{∥∥₁_elim}
use mathlib.Core.HLevel.{⊥_prop}
use mathlib.Core.List.{
  Nodup, Nodup-cons, Nodup-nil, Sublist, map-append, nil-sublist, sublist-append_left,
}
use mathlib.Core.List.Sublist
use mathlib.Core.List.Nodup
use mathlib.Core.List.{Memᴰ}
use mathlib.Core.List.Memᴰ
use text.Mathlib.Text
use text.Mathlib.TextPositions.{eq_refl}
use mrtgen.Base.{
  ℕ, ◌≡◌, refl, [], ◌++◌, ◌∷◌, List, Bool, true, false, ◌&&◌, not, Option, none, some, map, arith,
  append-nil, inl, inr,
}
use mrtgen.Manifest.{CorpusProfile, standard, RecordEntry}
use mrtgen.Generator.{
  FatalKind, length_overruns_eof, truncated_header, huge_length, Builder, Corpus, push_raw,
  kind_name,
}
use mrtgen.Generator.Emit.{Emission, decimal, digits_of}
use mrtgen.Generator.ValidMessages.{valid_section}
use mrtgen.Generator.Skip.{skip_section}
use mrtgen.Generator.Combo.{combo_section}
use mrtgen.Generator.AttrErrors.{attr_errors_section}
use mrtgen.Generator.Edge.{edge_valid_section}
use mrtgen.Generator.EdgeSkip.{edge_skip_section}
use mrtgen.Generator.Profile.{
  GeneratorConfig, default_config, built_corpus, generate_profile, generate,
}
use mrtgen.Generator.Plan.{also, standard_plan, plan}
use mrtgen.Generator.Whole.{IsTailed, generate_profile_shape}

abbrev kind_of : Emission → String
kind_of e = e.kind

abbrev pub entry_kind : {D : Type 0} → RecordEntry D → String
entry_kind e = e.kind

-- Whether a name is in no list, and whether a list repeats none.
unfoldable fresh : String → List String → Bool
fresh x [] = true
fresh x (y ∷ ys) = not (Text.◌==◌ x y) && fresh x ys

unfoldable distinct : List String → Bool
distinct [] = true
distinct (x ∷ xs) = fresh x xs && distinct xs

fresh_sound : (x : String) (ys : List String) → fresh x ys ≡ true → Memᴰ x ys → ⊥
unfolding fresh
fresh_sound x [] h m = Memᴰ.not-nil m
fresh_sound x (y ∷ ys) h m = elim (Memᴰ.cases_cons m) [
  | inl e ↦ let same : Text.◌==◌ x y ≡ true = rw e (eq_refl y) in absurd (cc (h, same))
  | inr later ↦ let rest : fresh x ys ≡ true = ground arith in fresh_sound x ys rest later
]

distinct_sound : (xs : List String) → distinct xs ≡ true → Nodup xs
unfolding distinct
distinct_sound [] h = Nodup-nil
distinct_sound (x ∷ xs) h =
    let new : fresh x xs ≡ true = ground arith in
    let rest : distinct xs ≡ true = ground arith in
    Nodup-cons.1 (λ m. ∥∥₁_elim m ⊥_prop (fresh_sound x xs new), distinct_sound xs rest)

-- Every kind there can be, the tails at the end.
every_kind : List String
every_kind =
    map kind_of (standard_plan default_config)
    ++ (kind_name length_overruns_eof ∷ kind_name truncated_header ∷ kind_name huge_length ∷ [])

every_kind-Nodup : Nodup every_kind
unfolding fresh distinct every_kind valid_section skip_section combo_section attr_errors_section
    edge_valid_section edge_skip_section kind_name decimal digits_of
every_kind-Nodup = distinct_sound every_kind refl

abbrev tail_kinds : Option FatalKind → List String
tail_kinds none = []
tail_kinds (some fatal) = kind_name fatal ∷ []

tail_kinds-Sublist :
    (fatal : Option FatalKind)
    → Sublist
        (tail_kinds fatal)
        (kind_name length_overruns_eof ∷ kind_name truncated_header ∷ kind_name huge_length ∷ [])
tail_kinds-Sublist none = nil-sublist _
tail_kinds-Sublist (some length_overruns_eof) = Sublist.cons-cons _ (nil-sublist _)
tail_kinds-Sublist (some truncated_header) = Sublist.cons _ (Sublist.cons-cons _ (nil-sublist _))
tail_kinds-Sublist (some huge_length) = Sublist.cons _ (Sublist.cons _ (Sublist.refl _))

-- Leaving a section out leaves a sublist of the kinds.
also-Sublist :
    (es all : List Emission) (include : Bool) (xs : List Emission)
    → Sublist (map kind_of es) (map kind_of all)
    → Sublist (map kind_of (also es include xs)) (map kind_of (also all true xs))
also-Sublist es all true xs h =
    rw (map-append kind_of es xs)
      (rw (map-append kind_of all xs) (Sublist.append h (Sublist.refl _)))
also-Sublist es all false xs h =
    rw (map-append kind_of all xs) (rw append-nil (Sublist.trans h (sublist-append_left _ _)))

standard_plan-Sublist :
    (cfg : GeneratorConfig)
    → Sublist (map kind_of (standard_plan cfg)) (map kind_of (standard_plan default_config))
standard_plan-Sublist cfg = also-Sublist _ _ cfg.include_skip edge_skip_section (
    also-Sublist _ _ cfg.include_valid edge_valid_section (
      also-Sublist _ _ cfg.include_attr_errors attr_errors_section (
        also-Sublist _ _ cfg.include_combo combo_section (
          also-Sublist _ _ cfg.include_skip skip_section
            (also-Sublist [] [] cfg.include_valid valid_section (Sublist.refl _))))))

standard_kinds-Nodup :
    (cfg : GeneratorConfig) → Nodup (map kind_of (standard_plan cfg) ++ tail_kinds cfg.fatal)
unfolding every_kind
standard_kinds-Nodup cfg =
    Nodup.sublist (Sublist.append (standard_plan-Sublist cfg) (tail_kinds-Sublist cfg.fatal))
      every_kind-Nodup

kinds-IsTailed :
    {D : Type 0} (fatal : Option FatalKind) (null : D) (b b' : Builder D)
    → IsTailed fatal null b b'
    → map entry_kind b'.entries ≡ map entry_kind b.entries ++ tail_kinds fatal
unfolding push_raw
kinds-IsTailed none null b b' t = rw t (rw append-nil)
kinds-IsTailed (some fatal) null b b' (raw, description, e, broken, size) = rw e (rw map-append)

module _ {D : Type 0} (details : String → D) (version : String) (null : D) where
  -- The kinds in the manifest of the built-in corpus, made without a panic for every profile
  -- and configuration, are those of a flat plan of its sections at some timestamp, in order,
  -- with the kind of a tail behind them.
  generate_profile-kinds :
      (profile : CorpusProfile) (cfg : GeneratorConfig)
      → (corpus : Corpus D) × (ts : ℕ) × (generate_profile details version null profile cfg
          ≡ some corpus)
        × (map entry_kind corpus.manifest.records
            ≡ map kind_of (plan profile cfg ts) ++ tail_kinds cfg.fatal)
  generate_profile-kinds profile cfg =
      let (ts, b, b', h, t, e, made) = generate_profile_shape details version null profile cfg in
      (built_corpus version b', ts, made, cc (kinds-IsTailed cfg.fatal null b b' t, h.kinds))

  -- In the standard corpus, made without a panic under every configuration, no two records of
  -- the manifest have the same kind.
  pub generate-Nodup :
      (cfg : GeneratorConfig)
      → (corpus : Corpus D) × (generate details version null cfg ≡ some corpus)
        × Nodup (map entry_kind corpus.manifest.records)
  unfolding generate
  generate-Nodup cfg =
      let (corpus, ts, made, kinds) = generate_profile-kinds standard cfg in
      (corpus, made, rw kinds (standard_kinds-Nodup cfg))
