-- ===== src/Generator/Plan.antt =====
-- The records that `generate_profile` of src/generator.rs emits, as one list: which sections a
-- configuration takes, and in which order.
use Prim.Native.String.{String}
use mrtgen.Base.{ℕ, ◌≡◌, refl, [], ◌++◌, List, Bool, true, false, some, if◌then◌else◌}
use mrtgen.Manifest.{CorpusProfile, standard, stress, routes}
use mrtgen.Generator.{Builder, next_timestamp}
use mrtgen.Generator.Emit.{Emission}
use mrtgen.Generator.ValidMessages.{valid_section}
use mrtgen.Generator.Skip.{skip_section}
use mrtgen.Generator.Combo.{combo_section}
use mrtgen.Generator.AttrErrors.{attr_errors_section}
use mrtgen.Generator.Edge.{edge_valid_section}
use mrtgen.Generator.EdgeSkip.{edge_skip_section}
use mrtgen.Generator.Stress.{
  stress_keepalives, stress_limits, stress_skip_section, emit_stress_valid, emit_stress,
}
use mrtgen.Generator.Sections.{
  valid_section-IsSound, skip_section-IsSound, combo_section-IsSound, attr_errors_section-IsSound,
  edge_valid_section-IsSound, edge_skip_section-IsSound, stress_skip_section-IsSound,
}
use mrtgen.Generator.Limits.{stress_keepalives-IsSound, stress_limits-IsSound}
use mrtgen.Generator.Assembly.{
  IsAssembled, new_builder-IsAssembled, emit_all-IsAssembled, emit_if-IsAssembled,
}
use mrtgen.Generator.Profile.{GeneratorConfig, emit_edge_cases, emit_profile, emit_records}

-- `es`, then `xs` if they are included.
abbrev pub also : List Emission → Bool → List Emission → List Emission
also es include xs = es ++ (if include then xs else [])

abbrev pub standard_plan : GeneratorConfig → List Emission
standard_plan cfg =
    let v = also [] cfg.include_valid valid_section in
    let s = also v cfg.include_skip skip_section in
    let c = also s cfg.include_combo combo_section in
    let a = also c cfg.include_attr_errors attr_errors_section in
    also (also a cfg.include_valid edge_valid_section) cfg.include_skip edge_skip_section

-- `ts` is the timestamp that the largest RIB record takes over from the record in front of it.
abbrev pub stress_plan : List Emission → Bool → ℕ → List Emission
stress_plan es true ts = (es ++ stress_keepalives) ++ stress_limits ts
stress_plan es false ts = es

abbrev pub plan : CorpusProfile → GeneratorConfig → ℕ → List Emission
plan stress cfg ts =
    also (stress_plan (standard_plan cfg) cfg.include_valid ts) cfg.include_skip stress_skip_section
plan standard cfg ts = standard_plan cfg
plan routes cfg ts = standard_plan cfg

module _ {D : Type 0} (details : String → D) (base : ℕ) (profile : CorpusProfile) where
  emit_stress_valid-IsAssembled :
      (es : List Emission) (include : Bool) (b : Builder D)
      → IsAssembled details base profile es b
      → (ts : ℕ) × (b' : Builder D) × (emit_stress_valid details include b ≡ some b')
        × IsAssembled details base profile (stress_plan es include ts) b'
  unfolding emit_stress_valid
  emit_stress_valid-IsAssembled es false b h = (0, b, refl, h)
  emit_stress_valid-IsAssembled es true b h =
      let (b₁, e₁, h₁) =
        emit_all-IsAssembled details base profile es stress_keepalives b stress_keepalives-IsSound
          h in
      let ts = next_timestamp b₁ in
      let (b₂, e₂, h₂) =
        emit_all-IsAssembled details base profile (es ++ stress_keepalives) (stress_limits ts) b₁
          (stress_limits-IsSound ts) h₁ in
      (ts, b₂, rw e₁ e₂, h₂)

module _ {D : Type 0} (details : String → D) (cfg : GeneratorConfig) where
  emit_profile-IsAssembled :
      (profile kept : CorpusProfile) (b : Builder D)
      → IsAssembled details cfg.base_timestamp kept (standard_plan cfg) b
      → (ts : ℕ) × (b' : Builder D) × (emit_profile details profile cfg b ≡ some b')
        × IsAssembled details cfg.base_timestamp kept (plan profile cfg ts) b'
  unfolding emit_profile emit_stress
  emit_profile-IsAssembled standard kept b h = (0, b, refl, h)
  emit_profile-IsAssembled routes kept b h = (0, b, refl, h)
  emit_profile-IsAssembled stress kept b h =
      let (ts, b₁, e₁, h₁) =
        emit_stress_valid-IsAssembled details cfg.base_timestamp kept (standard_plan cfg)
          cfg.include_valid b h in
      let (b₂, e₂, h₂) =
        emit_if-IsAssembled details cfg.base_timestamp kept _ stress_skip_section cfg.include_skip
          b₁ stress_skip_section-IsSound h₁ in
      (ts, b₂, rw e₁ e₂, h₂)

  -- Nothing panics, and the builder holds the records of the plan.
  pub emit_records-IsAssembled :
      (profile : CorpusProfile)
      → (ts : ℕ) × (b : Builder D) × (emit_records details profile cfg ≡ some b)
        × IsAssembled details cfg.base_timestamp profile (plan profile cfg ts) b
  unfolding emit_records emit_edge_cases
  emit_records-IsAssembled profile =
      let start = new_builder-IsAssembled details cfg.base_timestamp profile in
      let step = emit_if-IsAssembled details cfg.base_timestamp profile in
      let (b₁, e₁, h₁) = step _ valid_section cfg.include_valid _ valid_section-IsSound start in
      let (b₂, e₂, h₂) = step _ skip_section cfg.include_skip b₁ skip_section-IsSound h₁ in
      let (b₃, e₃, h₃) = step _ combo_section cfg.include_combo b₂ combo_section-IsSound h₂ in
      let (b₄, e₄, h₄) =
        step _ attr_errors_section cfg.include_attr_errors b₃ attr_errors_section-IsSound h₃ in
      let (b₅, e₅, h₅) =
        step _ edge_valid_section cfg.include_valid b₄ edge_valid_section-IsSound h₄ in
      let (b₆, e₆, h₆) =
        step _ edge_skip_section cfg.include_skip b₅ edge_skip_section-IsSound h₅ in
      let (ts, b₇, e₇, h₇) = emit_profile-IsAssembled profile profile b₆ h₆ in
      (ts, b₇, rw e₁ (rw e₂ (rw e₃ (rw e₄ (rw e₅ (rw e₆ e₇))))), h₇)
