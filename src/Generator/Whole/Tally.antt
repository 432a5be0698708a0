-- ===== src/Generator/Whole/Tally.antt =====
-- What the emissions of src/generator.rs expect, counted by section.
use mrtgen.Base.{
  ℕ, ◌+◌, ◌≡◌, refl, [], ◌++◌, ◌∷◌, List, Bool, true, false, arith, map, range_from, zero, suc,
  if◌then◌else◌,
}
use mrtgen.Manifest.{
  CorpusProfile, standard, stress, routes, Expect, valid, skip, abort, RecordEntry,
}
use mrtgen.Generator.Layout.{same, number}
use mrtgen.Generator.Emit.{Emission}
use mrtgen.Generator.ValidMessages.{valid_section}
use mrtgen.Generator.Skip.{skip_section}
use mrtgen.Generator.Combo.{combo_section}
use mrtgen.Generator.AttrErrors.{attr_errors_section}
use mrtgen.Generator.Edge.{edge_valid_section}
use mrtgen.Generator.EdgeSkip.{edge_skip_section}
use mrtgen.Generator.Stress.{
  stress_keepalives, stress_limits, stress_skip_section, keepalive_emission,
}
use mrtgen.Generator.Profile.{GeneratorConfig}
use mrtgen.Generator.Plan.{also, standard_plan, stress_plan, plan}

-- How many emissions expect `x`.
abbrev tally : Expect → List Emission → ℕ
tally x [] = 0
tally x (e ∷ es) = same x e.expect + tally x es

abbrev is_valid : Expect → Bool
is_valid valid = true
is_valid skip = false
is_valid abort = false

tally-append : (x : Expect) (es xs : List Emission) → tally x (es ++ xs) ≡ tally x es + tally x xs
tally-append x [] xs = omega arith
tally-append x (e ∷ es) xs = omega (arith, tally-append x es xs)

tally-also :
    (x : Expect) (es : List Emission) (include : Bool) (xs : List Emission)
    → tally x (also es include xs) ≡ tally x es + (if include then tally x xs else 0)
tally-also x es true xs = tally-append x es xs
tally-also x es false xs = tally-append x es []

pub number-tally :
    {D : Type 0} (x : Expect) (entries : List (RecordEntry D)) (es : List Emission)
    → map (λ (e : RecordEntry D). e.expect) entries ≡ map (λ (e : Emission). e.expect) es
    → number x entries ≡ tally x es
number-tally x [] [] h = refl
number-tally x [] (e ∷ es) h = cc
number-tally x (y ∷ entries) [] h = cc
number-tally {D = D} x (y ∷ entries) (e ∷ es) h =
    let head : y.expect ≡ e.expect = cc in
    let rest : map (λ (z : RecordEntry D). z.expect) entries ≡ map (λ (z : Emission). z.expect) es =
      cc in
    cc (number-tally x entries es rest)

-- The sections, by what they expect.
tally_valid :
    (tally valid valid_section ≡ 35)
    × (tally valid skip_section ≡ 0)
    × (tally valid combo_section ≡ 8)
    × (tally valid attr_errors_section ≡ 2)
    × (tally valid edge_valid_section ≡ 42)
    × (tally valid edge_skip_section ≡ 0)
    × (tally valid stress_skip_section ≡ 0)
unfolding valid_section skip_section combo_section attr_errors_section edge_valid_section
    edge_skip_section stress_skip_section
tally_valid = (refl, refl, refl, refl, refl, refl, refl)

tally_skip :
    (tally skip valid_section ≡ 0)
    × (tally skip skip_section ≡ 23)
    × (tally skip combo_section ≡ 8)
    × (tally skip attr_errors_section ≡ 16)
    × (tally skip edge_valid_section ≡ 0)
    × (tally skip edge_skip_section ≡ 19)
    × (tally skip stress_skip_section ≡ 8)
unfolding valid_section skip_section combo_section attr_errors_section edge_valid_section
    edge_skip_section stress_skip_section
tally_skip = (refl, refl, refl, refl, refl, refl, refl)

tally_abort :
    (tally abort valid_section ≡ 0)
    × (tally abort skip_section ≡ 0)
    × (tally abort combo_section ≡ 0)
    × (tally abort attr_errors_section ≡ 0)
    × (tally abort edge_valid_section ≡ 0)
    × (tally abort edge_skip_section ≡ 0)
    × (tally abort stress_skip_section ≡ 0)
unfolding valid_section skip_section combo_section attr_errors_section edge_valid_section
    edge_skip_section stress_skip_section
tally_abort = (refl, refl, refl, refl, refl, refl, refl)

tally-keepalives :
    (x : Expect) (start count : ℕ)
    → tally x (map keepalive_emission (range_from start count)) ≡ (if is_valid x then count else 0)
tally-keepalives valid start zero = refl
tally-keepalives valid start (suc count) = omega (arith, tally-keepalives valid (suc start) count)
tally-keepalives skip start zero = refl
tally-keepalives skip start (suc count) = omega (arith, tally-keepalives skip (suc start) count)
tally-keepalives abort start zero = refl
tally-keepalives abort start (suc count) = omega (arith, tally-keepalives abort (suc start) count)

tally-stress_keepalives :
    (x : Expect) → tally x stress_keepalives ≡ (if is_valid x then 100000 else 0)
unfolding stress_keepalives
tally-stress_keepalives x = tally-keepalives x 0 100000

tally-stress_limits :
    (x : Expect) (ts : ℕ) → tally x (stress_limits ts) ≡ (if is_valid x then 4 else 0)
unfolding stress_limits
tally-stress_limits valid ts = refl
tally-stress_limits skip ts = refl
tally-stress_limits abort ts = refl

tally_stress_stream :
    (x : Expect) (es : List Emission) (include : Bool) (ts : ℕ)
    → tally x (stress_plan es include ts)
      ≡ tally x es + (if include then (if is_valid x then 100004 else 0) else 0)
tally_stress_stream x es false ts = omega arith
tally_stress_stream x es true ts =
    let outer = tally-append x (es ++ stress_keepalives) (stress_limits ts) in
    let inner = tally-append x es stress_keepalives in
    ground (arith, outer, inner, tally-stress_keepalives x, tally-stress_limits x ts)

-- What the stress profile adds.
abbrev if_stress : CorpusProfile → ℕ → ℕ
if_stress stress n = n
if_stress standard n = 0
if_stress routes n = 0

tally_standard :
    (x : Expect) (cfg : GeneratorConfig)
    → tally x (standard_plan cfg)
      ≡ (if cfg.include_valid then tally x valid_section else 0)
        + (if cfg.include_skip then tally x skip_section else 0)
        + (if cfg.include_combo then tally x combo_section else 0)
        + (if cfg.include_attr_errors then tally x attr_errors_section else 0)
        + (if cfg.include_valid then tally x edge_valid_section else 0)
        + (if cfg.include_skip then tally x edge_skip_section else 0)
tally_standard x cfg =
    let v = also [] cfg.include_valid valid_section in
    let s = also v cfg.include_skip skip_section in
    let c = also s cfg.include_combo combo_section in
    let a = also c cfg.include_attr_errors attr_errors_section in
    let e = also a cfg.include_valid edge_valid_section in
    omega (
      arith,
      tally-also x [] cfg.include_valid valid_section,
      tally-also x v cfg.include_skip skip_section,
      tally-also x s cfg.include_combo combo_section,
      tally-also x c cfg.include_attr_errors attr_errors_section,
      tally-also x a cfg.include_valid edge_valid_section,
      tally-also x e cfg.include_skip edge_skip_section,
    )

tally-plan_sections :
    (x : Expect) (profile : CorpusProfile) (cfg : GeneratorConfig) (ts : ℕ)
    → tally x (plan profile cfg ts)
      ≡ tally x (standard_plan cfg)
        + if_stress profile (
            (if cfg.include_valid then (if is_valid x then 100004 else 0) else 0)
            + (if cfg.include_skip then tally x stress_skip_section else 0))
tally-plan_sections x standard cfg ts = omega arith
tally-plan_sections x routes cfg ts = omega arith
tally-plan_sections x stress cfg ts = omega (
  arith,
  tally-also x (stress_plan (standard_plan cfg) cfg.include_valid ts) cfg.include_skip
      stress_skip_section,
  tally_stress_stream x (standard_plan cfg) cfg.include_valid ts,
)

-- The well-formed records, the skip-class records, and the tail.
abbrev pub valid_count : CorpusProfile → GeneratorConfig → ℕ
valid_count profile cfg =
    (if cfg.include_valid then 77 + if_stress profile 100004 else 0)
    + (if cfg.include_combo then 8 else 0)
    + (if cfg.include_attr_errors then 2 else 0)

abbrev pub skip_count : CorpusProfile → GeneratorConfig → ℕ
skip_count profile cfg =
    (if cfg.include_skip then 42 + if_stress profile 8 else 0)
    + (if cfg.include_combo then 8 else 0)
    + (if cfg.include_attr_errors then 16 else 0)

-- What the records in front of the tail expect.
abbrev pub expected : Expect → CorpusProfile → GeneratorConfig → ℕ
expected valid profile cfg = valid_count profile cfg
expected skip profile cfg = skip_count profile cfg
expected abort profile cfg = 0

pub tally-plan :
    (x : Expect) (profile : CorpusProfile) (cfg : GeneratorConfig) (ts : ℕ)
    → tally x (plan profile cfg ts) ≡ expected x profile cfg
tally-plan valid profile cfg ts =
    let (v, s, c, a, e, f, m) = tally_valid in
    rw (tally-plan_sections valid profile cfg ts)
      (rw (tally_standard valid cfg) (rw (v, s, c, a, e, f, m) (ground arith)))
tally-plan skip profile cfg ts =
    let (v, s, c, a, e, f, m) = tally_skip in
    rw (tally-plan_sections skip profile cfg ts)
      (rw (tally_standard skip cfg) (rw (v, s, c, a, e, f, m) (ground arith)))
tally-plan abort profile cfg ts =
    let (v, s, c, a, e, f, m) = tally_abort in
    rw (tally-plan_sections abort profile cfg ts)
      (rw (tally_standard abort cfg) (rw (v, s, c, a, e, f, m) (ground arith)))
