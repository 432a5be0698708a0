-- ===== src/Generator.antt =====
-- src/generator.rs: the corpus builder and the abort-class tails. `null` stands for
-- `serde_json::Value::Null`.
pub mod Emit
pub mod Valid
pub mod ValidMessages
pub mod Skip
pub mod Combo
pub mod AttrErrors
pub mod Edge
pub mod EdgeSkip
pub mod Stress
pub mod Sound
pub mod Sections
pub mod Assembly
pub mod Limits
pub mod Profile
pub mod Plan
pub mod Whole
pub mod Layout
pub mod Loading
use Prim.Native.String.{String}
use text.Mathlib.Text.{find?, starts_with}
use mrtgen.Base.{
  ℕ, ◌+◌, ◌++◌, [], ◌∷◌, List, Bytes, as_u32, length, ◌==◌, ◌||◌, Option, some, is_some,
  if◌then◌else◌,
}
use mrtgen.Types
use mrtgen.Wire.{◌>>=◌}
use mrtgen.Writer.{MrtRecord, encode_into, encoded_len}
use mrtgen.Manifest.{CorpusProfile, Expect, valid, skip, abort, RecordEntry, Counts, Manifest}
use mrtgen.Invalid.{tail_length_overruns_eof, tail_truncated_header}

pub data FatalKind : Type 0 where
  length_overruns_eof truncated_header huge_length : FatalKind

unfoldable pub kind_name : FatalKind → String
kind_name length_overruns_eof = "fatal_length_overruns_eof"
kind_name truncated_header = "fatal_truncated_header"
kind_name huge_length = "fatal_huge_length"

pub record Builder (D : Type 0) : Type 0 where
  pub bytes : Bytes
  pub entries : List (RecordEntry D)
  pub counts : Counts
  pub base_timestamp : ℕ
  pub profile : CorpusProfile

pub record Corpus (D : Type 0) : Type 0 where
  pub bytes : Bytes
  pub manifest : Manifest D

-- `match expect { Valid => counts.valid += 1, .. }`
abbrev pub count_one : Expect → Counts → Counts
count_one valid c = record c { valid = c.valid + 1 }
count_one skip c = record c { skip = c.skip + 1 }
count_one abort c = record c { abort = c.abort + 1 }

abbrev pub expect_tag : Expect → String
expect_tag valid = "valid"
expect_tag skip = "skip"
expect_tag abort = "abort"

unfoldable pub family_tag : ℕ → String
family_tag t =
    if t == Types.table_dump
    then "table_dump"
    else if t == Types.table_dump_v2
    then "table_dump_v2"
    else if t == Types.bgp4mp || t == Types.bgp4mp_et
    then "bgp4mp"
    else if t == Types.ospfv2 || (t == Types.ospfv3 || t == Types.ospfv3_et)
    then "ospf"
    else if t == Types.isis || t == Types.isis_et
    then "isis"
    else "unknown"

unfoldable pub tags : MrtRecord → String → Expect → List String
tags r kind expect =
    expect_tag expect
    ∷ family_tag r.mrt_type
    ∷ ((if is_some (find? kind "boundary") then "boundary" ∷ [] else [])
        ++ (if starts_with kind "stress_" then "stress" ∷ [] else []))

module _ {D : Type 0} where
  -- The builder that `generate_profile` starts from.
  abbrev pub new_builder : ℕ → CorpusProfile → Builder D
  new_builder base_timestamp profile = record {
    bytes = [];
    entries = [];
    counts = record { valid = 0; skip = 0; abort = 0 };
    base_timestamp = base_timestamp;
    profile = profile;
  }

  -- A sum of `u32`s, which wraps in a release build.
  unfoldable pub next_timestamp : Builder D → ℕ
  next_timestamp b = as_u32 (b.base_timestamp + as_u32 (length b.entries))

  unfoldable pub push : MrtRecord → String → Expect → String → D → Builder D → Builder D
  push r kind expect description details b = record b {
    bytes = encode_into r b.bytes;
    counts = count_one expect b.counts;
    entries =
        b.entries
        ++ (record {
          index = length b.entries;
          offset = length b.bytes;
          size = encoded_len r;
          mrt_type = r.mrt_type;
          subtype = r.subtype;
          timestamp = r.timestamp;
          kind = kind;
          expect = expect;
          description = description;
          tags = tags r kind expect;
          details = details;
        }
            ∷ []);
  }

  unfoldable pub push_raw : Bytes → ℕ → ℕ → ℕ → String → String → D → Builder D → Builder D
  push_raw raw mrt_type subtype timestamp kind description null b = record b {
    bytes = b.bytes ++ raw;
    counts = count_one abort b.counts;
    entries =
        b.entries
        ++ (record {
          index = length b.entries;
          offset = length b.bytes;
          size = length raw;
          mrt_type = mrt_type;
          subtype = subtype;
          timestamp = timestamp;
          kind = kind;
          expect = abort;
          description = description;
          tags = "abort" ∷ "framing" ∷ [];
          details = null;
        }
            ∷ []);
  }

  abbrev pub push_fatal : Bytes → FatalKind → String → D → Builder D → Builder D
  push_fatal raw fatal description null b =
      push_raw raw Types.bgp4mp Types.bgp4mp_message (next_timestamp b) (kind_name fatal)
        description null b

  -- `none` is a panic.
  unfoldable pub emit_fatal : FatalKind → D → Builder D → Option (Builder D)
  emit_fatal length_overruns_eof null b = some (
      push_fatal (tail_length_overruns_eof (next_timestamp b) 1000 16) length_overruns_eof
        "Header Length claims 1000 bytes; only 16 remain before EOF. Loading must abort here." null
        b)
  emit_fatal truncated_header null b = do
    raw ← tail_truncated_header (next_timestamp b) 7
    some (
        push_fatal raw truncated_header
          "File ends after 7 bytes of a 12-byte MRT common header. Loading must abort here." null b)
  emit_fatal huge_length null b = some (
      push_fatal (tail_length_overruns_eof (next_timestamp b) 0xffff_ffff 8) huge_length
        "Header Length is 0xFFFFFFFF. Loading must abort here." null b)
