-- ===== src/Generator/Whole/Counts.antt =====
-- The counts in the manifest of `generate_profile` in src/generator.rs, by the sections that the
-- configuration takes.
use Prim.Native.String.{String}
use mrtgen.Base.{◌*◌, ◌+◌, ◌≡◌, Option, none, some, arith}
use mrtgen.Manifest.{CorpusProfile, Expect, valid, skip, abort}
use mrtgen.Generator.{FatalKind, Builder, Corpus, push_raw}
use mrtgen.Generator.Layout.{same, number, number-append}
use mrtgen.Generator.Profile.{GeneratorConfig, built_corpus, generate_profile}
use mrtgen.Generator.Plan.{plan}
use mrtgen.Generator.Whole.Loading.{tail_count}
use mrtgen.Generator.Whole.Described.{IsTailed-IsDescribed}
use mrtgen.Generator.Whole.Tally.{number-tally, valid_count, skip_count, expected, tally-plan}
use mrtgen.Generator.Whole.{IsTailed, generate_profile_shape}

number-IsTailed :
    {D : Type 0} (x : Expect) (fatal : Option FatalKind) (null : D) (b b' : Builder D)
    → IsTailed fatal null b b'
    → number x b'.entries ≡ number x b.entries + same x abort * tail_count fatal
unfolding push_raw
number-IsTailed x none null b b' t = rw t (omega arith)
number-IsTailed x (some fatal) null b b' (raw, description, e, broken, size) =
    rw e (rw (number-append x b.entries _) (omega arith))

module _ {D : Type 0} (details : String → D) (version : String) (null : D) where
  -- The built-in corpus, made without a panic, counts: valid records, 77 of the well-formed
  -- ones (100004 more in the stress profile), 8 combinations and 2 of the attribute errors;
  -- skipped ones, 42 malformed (8 more in the stress profile), 8 combinations and 16 attribute
  -- errors; each if the configuration includes it; and one abort exactly for a tail.
  pub generate_profile-counts :
      (profile : CorpusProfile) (cfg : GeneratorConfig)
      → (corpus : Corpus D) × (generate_profile details version null profile cfg ≡ some corpus)
        × (corpus.manifest.counts.valid ≡ valid_count profile cfg)
        × (corpus.manifest.counts.skip ≡ skip_count profile cfg)
        × (corpus.manifest.counts.abort ≡ tail_count cfg.fatal)
  generate_profile-counts profile cfg =
      let (ts, b, b', h, t, e, made) = generate_profile_shape details version null profile cfg in
      let d = IsTailed-IsDescribed cfg.fatal null b b' t h.described in
      let total : (x : Expect)
          → number x b'.entries ≡ expected x profile cfg + same x abort * tail_count cfg.fatal =
        λ x. cc (
          number-IsTailed x cfg.fatal null b b' t,
          number-tally x b.entries (plan profile cfg ts) h.expects,
          tally-plan x profile cfg ts,
        ) in
      (
        built_corpus version b',
        made,
        omega (arith, d.valid_counted, total valid),
        omega (arith, d.skip_counted, total skip),
        omega (arith, d.abort_counted, total abort),
      )
