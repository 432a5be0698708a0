-- ===== src/Tests/Corpus.antt =====
-- The built-in corpus, in both profiles, with and without a tail. The JSON facts are numbers here.
use Prim.Native.String.{String}
use mrtgen.Base.{ℕ, ◌≡◌, refl, ◌+◌, List, some, map, take, length}
use mathlib.Core.List.{Nodup}
use mrtgen.Manifest.{standard, stress}
use mrtgen.Generator.{Corpus, huge_length, truncated_header}
use mrtgen.Generator.Layout.{DescribesFile}
use mrtgen.Generator.Loading.{entry_header, frame_header}
use mrtgen.Generator.Assembly.{IsStamped}
use mrtgen.Generator.Profile.{GeneratorConfig, default_config, generate_profile, generate}
use mrtgen.Generator.Whole.Described.{generate_profile-DescribesFile, generate_profile-IsStamped}
use mrtgen.Generator.Whole.Tails.{Extends, generate_profile-fatal}
use mrtgen.Generator.Whole.Loading.{load-generate_profile}
use mrtgen.Generator.Whole.Counts.{generate_profile-counts}
use mrtgen.Generator.Whole.Tally.{valid_count, skip_count}
use mrtgen.Generator.Whole.Kinds.{entry_kind, generate-Nodup}
use mrtgen.Writer.Framing.{Frame, load, aborted}

abbrev details : String → ℕ
details kind = 0

abbrev cut_config : GeneratorConfig
cut_config = record default_config { fatal = some truncated_header }

load-generate_profile_example :
    (corpus : Corpus ℕ) × (frames : List Frame) × (generate_profile details "0.1.0" 7 standard
        cut_config
      ≡ some corpus)
    × (load corpus.bytes ≡ aborted frames)
    × (take (length frames) (map entry_header corpus.manifest.records) ≡ map frame_header frames)
    × (length corpus.manifest.records ≡ length frames + 1)
load-generate_profile_example = load-generate_profile details "0.1.0" 7 standard cut_config

generate_profile-counts_example :
    (corpus : Corpus ℕ) × (generate_profile details "0.1.0" 7 standard cut_config ≡ some corpus)
    × (corpus.manifest.counts.valid ≡ 87)
    × (corpus.manifest.counts.skip ≡ 66)
    × (corpus.manifest.counts.abort ≡ 1)
generate_profile-counts_example = generate_profile-counts details "0.1.0" 7 standard cut_config

generate-Nodup_example :
    (corpus : Corpus ℕ) × (generate details "0.1.0" 7 cut_config ≡ some corpus)
    × Nodup (map entry_kind corpus.manifest.records)
generate-Nodup_example = generate-Nodup details "0.1.0" 7 cut_config

generate_profile-DescribesFile_example :
    (corpus : Corpus ℕ) × (generate_profile details "0.1.0" 7 stress default_config ≡ some corpus)
    × DescribesFile (length corpus.manifest.records) corpus
    × (corpus.manifest.profile ≡ stress)
generate_profile-DescribesFile_example =
    generate_profile-DescribesFile details "0.1.0" 7 stress default_config

-- A base timestamp at the end of u32.
abbrev late_config : GeneratorConfig
late_config = record default_config { base_timestamp = 4294967295; fatal = some huge_length }

generate_profile-IsStamped_example :
    (corpus : Corpus ℕ) × (generate_profile details "0.1.0" 7 standard late_config ≡ some corpus)
    × IsStamped 4294967295 0 corpus.manifest.records
generate_profile-IsStamped_example =
    generate_profile-IsStamped details "0.1.0" 7 standard late_config

generate_profile-fatal_example :
    let made = generate_profile-DescribesFile details "0.1.0" 7 standard default_config in
    (tailed : Corpus ℕ) × (generate_profile details "0.1.0" 7 standard
        (record default_config { fatal = some huge_length })
      ≡ some tailed)
    × Extends huge_length made.0 tailed
generate_profile-fatal_example =
    let made = generate_profile-DescribesFile details "0.1.0" 7 standard default_config in
    generate_profile-fatal details "0.1.0" 7 standard default_config huge_length made.0 made.1

-- The default run: 153 records.
default_counts :
    (valid_count standard default_config ≡ 87) × (skip_count standard default_config ≡ 66)
default_counts = (refl, refl)
