-- ===== src/Generator/Whole.antt =====
-- `generate_profile` of src/generator.rs as a whole: the records of its plan, then the tail.
pub mod Described
pub mod Tails
pub mod Loading
pub mod Tally
pub mod Counts
pub mod Kinds
use Prim.Native.String.{String}
use mrtgen.Base.{
  ℕ, ◌+◌, ◌<◌, ◌≡◌, refl, [], ◌++◌, ◌∷◌, List, Bool, true, false, Option, none, some, arith, Bytes,
  length, length-append, length-map, map, take, take-append, is_some, if◌then◌else◌, ap, sym,
  as_u32,
}
use mrtgen.Writer.Framing.{Frame, frame_of, loaded, aborted, load, read_record}
use mrtgen.Manifest.{CorpusProfile, valid, skip, abort, RecordEntry}
use mrtgen.Generator.{
  FatalKind, Builder, Corpus, new_builder, push_raw, push_fatal, kind_name, next_timestamp,
}
use mrtgen.Generator.Layout.{IsLayout, IsDescribed, number, push_raw-IsDescribed, emit_fatal_shape}
use mrtgen.Generator.Loading.{entry_header, frame_header, load-Builds, load_tail}
use mrtgen.Generator.Emit.{Emission}
use mrtgen.Generator.Assembly.{IsAssembled, IsStamped, IsStamped-append}
use mrtgen.Generator.Profile.{
  GeneratorConfig, emit_tail, emit_records, built_corpus, generate_profile,
}
use mrtgen.Generator.Plan.{plan, emit_records-IsAssembled}

module _ {D : Type 0} where
  -- What the tail adds: nothing, or some bytes that frame no record.
  abbrev pub IsTailed : Option FatalKind → D → Builder D → Builder D → Type 0
  IsTailed none null b b' = b' ≡ b
  IsTailed (some fatal) null b b' =
      (raw : Bytes) × (description : String) × (b' ≡ push_fatal raw fatal description null b)
      × (read_record raw ≡ none)
      × (0 < length raw)

  emit_tail-IsTailed :
      (fatal : Option FatalKind) (null : D) (b : Builder D)
      → (b' : Builder D) × (emit_tail fatal null b ≡ some b') × IsTailed fatal null b b'
  emit_tail-IsTailed none null b = (b, refl, refl)
  emit_tail-IsTailed (some fatal) null b =
      let (raw, description, e, broken, size) = emit_fatal_shape fatal null b in
      (push_fatal raw fatal description null b, e, (raw, description, refl, broken, size))

module _ {D : Type 0} (details : String → D) (version : String) (null : D) where
  -- The builder behind the corpus: the plan's records, then the tail.
  pub generate_profile_shape :
      (profile : CorpusProfile) (cfg : GeneratorConfig)
      → (ts : ℕ) × (b : Builder D) × (b' : Builder D) × IsAssembled details cfg.base_timestamp
          profile
          (plan profile cfg ts)
          b
        × IsTailed cfg.fatal null b b'
        × (emit_records details profile cfg ≡ some b)
        × (generate_profile details version null profile cfg ≡ some (built_corpus version b'))
  unfolding generate_profile
  generate_profile_shape profile cfg =
      let (ts, b, e, h) = emit_records-IsAssembled details cfg profile in
      let (b', e', t) = emit_tail-IsTailed cfg.fatal null b in (ts, b, b', h, t, e, rw e (rw e'))
