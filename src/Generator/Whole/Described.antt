-- ===== src/Generator/Whole/Described.antt =====
-- The manifest of `generate_profile` in src/generator.rs against the bytes, and what a tail adds to both.
use Prim.Native.String.{String}
use mrtgen.Base.{ℕ, ◌≡◌, refl, Option, none, some, arith, Bytes, length}
use mrtgen.Manifest.{CorpusProfile}
use mrtgen.Generator.{FatalKind, Builder, Corpus, push_raw, push_fatal, kind_name, next_timestamp}
use mrtgen.Generator.Layout.{IsDescribed, DescribesFile, push_raw-IsDescribed}
use mrtgen.Generator.Assembly.{IsStamped, IsStamped-append}
use mrtgen.Generator.Profile.{GeneratorConfig, built_corpus, generate_profile}
use mrtgen.Generator.Whole.{IsTailed, generate_profile_shape}

module _ {D : Type 0} where
  push_fatal-IsDescribed :
      (raw : Bytes) (fatal : FatalKind) (description : String) (null : D) (b : Builder D)
      → IsDescribed b
      → IsDescribed (push_fatal raw fatal description null b)
  push_fatal-IsDescribed raw fatal description null b h =
      push_raw-IsDescribed raw 16 1 (next_timestamp b) (kind_name fatal) description null b h

  pub IsTailed-IsDescribed :
      (fatal : Option FatalKind) (null : D) (b b' : Builder D)
      → IsTailed fatal null b b'
      → IsDescribed b
      → IsDescribed b'
  IsTailed-IsDescribed none null b b' t h = rw t h
  IsTailed-IsDescribed (some fatal) null b b' (raw, description, e, broken, size) h =
      rw e (push_fatal-IsDescribed raw fatal description null b h)

  IsTailed-profile :
      (fatal : Option FatalKind) (null : D) (b b' : Builder D)
      → IsTailed fatal null b b'
      → b'.profile ≡ b.profile
  unfolding push_raw
  IsTailed-profile none null b b' t = rw t
  IsTailed-profile (some fatal) null b b' (raw, description, e, broken, size) = rw e refl

  IsTailed-IsStamped :
      (base : ℕ) (fatal : Option FatalKind) (null : D) (b b' : Builder D)
      → IsTailed fatal null b b'
      → b.base_timestamp ≡ base
      → IsStamped base 0 b.entries
      → IsStamped base 0 b'.entries
  unfolding push_raw next_timestamp
  IsTailed-IsStamped base none null b b' t same h = rw t h
  IsTailed-IsStamped base (some fatal) null b b' (raw, description, e, broken, size) same h =
      rw e (IsStamped-append base 0 (length b.entries) b.entries _ h (omega arith) (rw same))

module _ {D : Type 0} (details : String → D) (version : String) (null : D) where
  -- The built-in corpus is made without a panic for every profile and configuration, and its
  -- manifest describes the file: the records tile it from offset 0 to the file size, which is
  -- that of the bytes, with indices in order; the counts are those of the entries, and the
  -- profile is the one asked for.
  pub generate_profile-DescribesFile :
      (profile : CorpusProfile) (cfg : GeneratorConfig)
      → (corpus : Corpus D) × (generate_profile details version null profile cfg ≡ some corpus)
        × DescribesFile (length corpus.manifest.records) corpus
        × (corpus.manifest.profile ≡ profile)
  generate_profile-DescribesFile profile cfg =
      let (ts, b, b', h, t, e, made) = generate_profile_shape details version null profile cfg in
      let d = IsTailed-IsDescribed cfg.fatal null b b' t h.described in
      (
        built_corpus version b',
        made,
        (refl, refl, d.layout, d.valid_counted, d.skip_counted, d.abort_counted),
        cc (IsTailed-profile cfg.fatal null b b' t, h.same_profile),
      )

  -- In the built-in corpus, made without a panic for every profile and configuration, record N
  -- of the manifest, a tail included, has the timestamp base + N as a wrapping u32.
  pub generate_profile-IsStamped :
      (profile : CorpusProfile) (cfg : GeneratorConfig)
      → (corpus : Corpus D) × (generate_profile details version null profile cfg ≡ some corpus)
        × IsStamped cfg.base_timestamp 0 corpus.manifest.records
  generate_profile-IsStamped profile cfg =
      let (ts, b, b', h, t, e, made) = generate_profile_shape details version null profile cfg in
      (
        built_corpus version b',
        made,
        IsTailed-IsStamped cfg.base_timestamp cfg.fatal null b b' t h.same_base h.stamped,
      )
