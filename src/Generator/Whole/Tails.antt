-- ===== src/Generator/Whole/Tails.antt =====
-- The files with an abort-class tail against the file without one, both of `generate_profile` in
-- src/generator.rs.
use Prim.Native.String.{String}
use mrtgen.Base.{◌≡◌, refl, [], ◌++◌, ◌∷◌, List, none, some, Bytes, length, map, subst}
use mrtgen.Writer.Framing.{Frame, frame_of, loaded, aborted, load}
use mrtgen.Manifest.{CorpusProfile, standard, stress, routes, abort, RecordEntry}
use mrtgen.Generator.{FatalKind, Builder, Corpus, push_raw, push_fatal, kind_name, next_timestamp}
use mrtgen.Generator.Layout.{emit_fatal_shape}
use mrtgen.Generator.Loading.{load-Builds, load_tail}
use mrtgen.Generator.Profile.{
  GeneratorConfig, built_corpus, emit_records, emit_profile, generate_profile,
}
use mrtgen.Generator.Whole.{generate_profile_shape}

-- The same records and one entry for the tail, at which a loader stops.
abbrev pub Extends : {D : Type 0} → FatalKind → Corpus D → Corpus D → Type 0
Extends {D} fatal plain tailed =
    (raw : Bytes) × (entry : RecordEntry D) × (frames : List Frame) × (tailed.bytes
      ≡ plain.bytes ++ raw)
    × (tailed.manifest.records ≡ plain.manifest.records ++ (entry ∷ []))
    × (entry.kind ≡ kind_name fatal)
    × (entry.expect ≡ abort)
    × (entry.size ≡ length raw)
    × (load plain.bytes ≡ loaded frames)
    × (load tailed.bytes ≡ aborted frames)

-- The records in front of the tail do not depend on it.
emit_records-fatal :
    {D : Type 0} (details : String → D) (profile : CorpusProfile) (cfg : GeneratorConfig)
    (fatal : FatalKind)
    → emit_records details profile (record cfg { fatal = some fatal })
      ≡ emit_records details profile (record cfg { fatal = none })
unfolding emit_records emit_profile
emit_records-fatal details standard cfg fatal = refl
emit_records-fatal details stress cfg fatal = refl
emit_records-fatal details routes cfg fatal = refl

module _ {D : Type 0} (details : String → D) (version : String) (null : D) where
  push_fatal_adds :
      (raw : Bytes) (fatal : FatalKind) (description : String) (b : Builder D)
      → (entry : RecordEntry D) × (entry.kind ≡ kind_name fatal)
        × (entry.expect ≡ abort)
        × (entry.size ≡ length raw)
        × ((push_fatal raw fatal description null b).bytes ≡ b.bytes ++ raw)
        × ((push_fatal raw fatal description null b).entries ≡ b.entries ++ (entry ∷ []))
  unfolding push_raw
  push_fatal_adds raw fatal description b = (_, refl, refl, refl, refl, refl)

  fatal_builder :
      (profile : CorpusProfile) (cfg : GeneratorConfig) (fatal : FatalKind)
      → (plain : Corpus D) × (tailed : Corpus D) × (generate_profile details version null profile
            (record cfg { fatal = none })
          ≡ some plain)
        × (generate_profile details version null profile (record cfg { fatal = some fatal })
            ≡ some tailed)
        × Extends fatal plain tailed
  unfolding generate_profile
  fatal_builder profile cfg fatal =
      let (ts, b, b', h, t, e, made) =
        generate_profile_shape details version null profile (record cfg { fatal = none }) in
      let (raw, description, shape, broken, size) = emit_fatal_shape fatal null b in
      let (entry, kind, expect, entry_size, bytes, entries) =
        push_fatal_adds raw fatal description b in
      (
        built_corpus version b,
        built_corpus version (push_fatal raw fatal description null b),
        rw e refl,
        rw (emit_records-fatal details profile cfg fatal) (rw e (rw shape refl)),
        (
          raw,
          entry,
          map frame_of h.records,
          bytes,
          entries,
          kind,
          expect,
          entry_size,
          (load-Builds cfg.base_timestamp profile h.records b h.builds).0,
          load_tail raw 16 1 (next_timestamp b) (kind_name fatal) description null h.builds broken
              size,
        ),
      )

  -- If the corpus without a tail is made, so is the one with a tail of any kind in the same
  -- profile and configuration: its bytes and its manifest records are those of the former, with
  -- the tail's bytes and one abort entry of the tail's kind and size behind them; the former
  -- loads whole, and the latter stops at the tail with the same records.
  pub generate_profile-fatal :
      (profile : CorpusProfile) (cfg : GeneratorConfig) (fatal : FatalKind) (plain : Corpus D)
      → generate_profile details version null profile (record cfg { fatal = none }) ≡ some plain
      → (tailed : Corpus D) × (generate_profile details version null profile
            (record cfg { fatal = some fatal })
          ≡ some tailed)
        × Extends fatal plain tailed
  generate_profile-fatal profile cfg fatal plain h =
      let (plain', tailed, e, e', extends) = fatal_builder profile cfg fatal in
      let same : plain' ≡ plain = cc in
      (tailed, e', subst (λ p. Extends fatal p tailed) same extends)
