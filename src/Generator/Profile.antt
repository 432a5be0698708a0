-- ===== src/Generator/Profile.antt =====
-- `generate_profile` and `generate` of src/generator.rs. `version` is the package version that the build
-- puts in, `details` and `null` the JSON facts.
use Prim.Native.String.{String}
use mrtgen.Base.{ℕ, Bool, true, Option, none, some, length}
use mrtgen.Wire.{◌>>=◌}
use mrtgen.Manifest.{CorpusProfile, standard, stress, routes}
use mrtgen.Generator.{FatalKind, Builder, Corpus, new_builder, emit_fatal}
use mrtgen.Generator.Emit.{emit_if}
use mrtgen.Generator.ValidMessages.{valid_section}
use mrtgen.Generator.Skip.{skip_section}
use mrtgen.Generator.Combo.{combo_section}
use mrtgen.Generator.AttrErrors.{attr_errors_section}
use mrtgen.Generator.Edge.{edge_valid_section}
use mrtgen.Generator.EdgeSkip.{edge_skip_section}
use mrtgen.Generator.Stress.{emit_stress}

pub record GeneratorConfig : Type 0 where
  pub base_timestamp : ℕ
  pub include_valid : Bool
  pub include_skip : Bool
  pub include_combo : Bool
  pub include_attr_errors : Bool
  pub fatal : Option FatalKind

-- `GeneratorConfig::default()`
abbrev pub default_config : GeneratorConfig
default_config = record {
  base_timestamp = 1600000000;
  include_valid = true;
  include_skip = true;
  include_combo = true;
  include_attr_errors = true;
  fatal = none;
}

-- `if let Some(fatal) = cfg.fatal { .. }`
abbrev pub emit_tail : {D : Type 0} → Option FatalKind → D → Builder D → Option (Builder D)
emit_tail none null b = some b
emit_tail (some fatal) null b = emit_fatal fatal null b

-- The manifest and the bytes, at the end of the function.
abbrev pub built_corpus : {D : Type 0} → String → Builder D → Corpus D
built_corpus version b = record {
  bytes = b.bytes;
  manifest = record {
    generator = "mrtgen";
    generator_version = version;
    profile = b.profile;
    file_size = length b.bytes;
    counts = b.counts;
    records = b.entries;
  };
}

module _ {D : Type 0} (details : String → D) where
  unfoldable pub emit_edge_cases : Bool → Bool → Builder D → Option (Builder D)
  emit_edge_cases include_valid include_skip b = do
    b₁ ← emit_if details edge_valid_section include_valid b
    emit_if details edge_skip_section include_skip b₁

  -- `if profile == CorpusProfile::Stress { .. }`
  unfoldable pub emit_profile : CorpusProfile → GeneratorConfig → Builder D → Option (Builder D)
  emit_profile stress cfg b = emit_stress details cfg.include_valid cfg.include_skip b
  emit_profile standard cfg b = some b
  emit_profile routes cfg b = some b

  -- Every record but the abort-class tail.
  unfoldable pub emit_records : CorpusProfile → GeneratorConfig → Option (Builder D)
  emit_records profile cfg = do
    b₁ ← emit_if details valid_section cfg.include_valid (new_builder cfg.base_timestamp profile)
    b₂ ← emit_if details skip_section cfg.include_skip b₁
    b₃ ← emit_if details combo_section cfg.include_combo b₂
    b₄ ← emit_if details attr_errors_section cfg.include_attr_errors b₃
    b₅ ← emit_edge_cases cfg.include_valid cfg.include_skip b₄
    emit_profile profile cfg b₅

  -- `none` is a panic.
  unfoldable pub generate_profile : String → D → CorpusProfile → GeneratorConfig → Option (Corpus D)
  generate_profile version null profile cfg = do
    b ← emit_records profile cfg
    b' ← emit_tail cfg.fatal null b
    some (built_corpus version b')

  unfoldable pub generate : String → D → GeneratorConfig → Option (Corpus D)
  generate version null cfg = generate_profile version null standard cfg
