-- ===== src/Generator/Layout.antt =====
-- The manifest of a src/generator.rs builder against its bytes: indices, offsets, sizes and counts.
use Prim.Native.String.{String}
use mrtgen.Base.{
  ℕ, ◌+◌, ◌≡◌, refl, ◌++◌, [], ◌∷◌, List, none, some, arith, Bytes, length, length-append, ap,
  IsU32, ◌<◌,
}
use mrtgen.Writer.{MrtRecord, encode_into, encoded_len, encode}
use mrtgen.Writer.Framing.{read_record, encode_into-append, length-encode}
use mrtgen.Manifest.{CorpusProfile, Expect, valid, skip, abort, RecordEntry, Counts}
use mrtgen.Invalid.Tails.{
  read_record-truncated_header, read_record-length_overruns_eof, length-tail_length_overruns_eof,
}
use mrtgen.Invalid.{tail_length_overruns_eof}
use mrtgen.Generator.{
  FatalKind, Corpus, length_overruns_eof, truncated_header, huge_length, Builder, count_one,
  new_builder, next_timestamp, push, push_raw, emit_fatal, push_fatal, kind_name,
}

abbrev pub same : Expect → Expect → ℕ
same valid valid = 1
same skip skip = 1
same abort abort = 1
same _ _ = 0

pub length-push_bytes :
    (r : MrtRecord) (out : Bytes) → length (encode_into r out) ≡ length out + encoded_len r
length-push_bytes r out = omega (
  arith,
  ap (length {A = ℕ}) (encode_into-append r out),
  length-append out (encode r),
  length-encode r,
)

pub count_one-same :
    (x : Expect) (c : Counts)
    → ((count_one x c).valid ≡ c.valid + same valid x)
      × ((count_one x c).skip ≡ c.skip + same skip x)
      × ((count_one x c).abort ≡ c.abort + same abort x)
count_one-same valid c = omega arith
count_one-same skip c = omega arith
count_one-same abort c = omega arith

module _ {D : Type 0} where
  -- From index `i` and offset `o` on, up to the end of the file at `total`.
  abbrev pub IsLayout : ℕ → ℕ → List (RecordEntry D) → ℕ → Type 0
  IsLayout i o [] total = o ≡ total
  IsLayout i o (e ∷ es) total =
      (e.index ≡ i) × (e.offset ≡ o) × IsLayout (i + 1) (o + e.size) es total

  abbrev pub number : Expect → List (RecordEntry D) → ℕ
  number x [] = 0
  number x (e ∷ es) = same x e.expect + number x es

  pub record IsDescribed (b : Builder D) : Type 0 where
    pub layout : IsLayout 0 0 b.entries (length b.bytes)
    pub valid_counted : b.counts.valid ≡ number valid b.entries
    pub skip_counted : b.counts.skip ≡ number skip b.entries
    pub abort_counted : b.counts.abort ≡ number abort b.entries

  pub new_builder-IsDescribed :
      (base_timestamp : ℕ) (profile : CorpusProfile)
      → IsDescribed (new_builder base_timestamp profile)
  new_builder-IsDescribed base_timestamp profile = omega arith

  pub IsLayout-append :
      (i o total : ℕ) (es : List (RecordEntry D)) (e : RecordEntry D)
      → IsLayout i o es total
      → e.index ≡ i + length es
      → e.offset ≡ total
      → IsLayout i o (es ++ (e ∷ [])) (total + e.size)
  IsLayout-append i o total [] e h hi ho = omega arith
  IsLayout-append i o total (x ∷ es) e h hi ho =
      (h.0, h.1, IsLayout-append (i + 1) (o + x.size) total es e h.2 (omega arith) ho)

  pub number-append :
      (x : Expect) (es : List (RecordEntry D)) (e : RecordEntry D)
      → number x (es ++ (e ∷ [])) ≡ number x es + same x e.expect
  number-append x [] e = omega arith
  number-append x (y ∷ es) e = omega (arith, number-append x es e)

  pub next_timestamp-IsU32 : (b : Builder D) → IsU32 (next_timestamp b)
  unfolding next_timestamp
  next_timestamp-IsU32 b = omega arith

  -- A push of any record keeps the manifest in step with the bytes: indices count up from 0,
  -- each record starts where the one before it ends, the sizes add up to the file, and the
  -- counts are those of the entries.
  pub push-IsDescribed :
      (r : MrtRecord) (kind : String) (expect : Expect) (description : String) (details : D)
      (b : Builder D)
      → IsDescribed b
      → IsDescribed (push r kind expect description details b)
  unfolding push
  push-IsDescribed r kind expect description details b h = record {
    layout =
        rw (length-push_bytes r b.bytes)
          (IsLayout-append 0 0 (length b.bytes) b.entries _ h.layout (omega arith) refl);
    valid_counted = omega (arith, count_one-same expect b.counts, h.valid_counted, number-append);
    skip_counted = omega (arith, count_one-same expect b.counts, h.skip_counted, number-append);
    abort_counted = omega (arith, count_one-same expect b.counts, h.abort_counted, number-append);
  }

  pub push_raw-IsDescribed :
      (raw : Bytes) (mrt_type subtype timestamp : ℕ) (kind description : String) (null : D)
      (b : Builder D)
      → IsDescribed b
      → IsDescribed (push_raw raw mrt_type subtype timestamp kind description null b)
  unfolding push_raw
  push_raw-IsDescribed raw mrt_type subtype timestamp kind description null b h = record {
    layout =
        rw (length-append b.bytes raw)
          (IsLayout-append 0 0 (length b.bytes) b.entries _ h.layout (omega arith) refl);
    valid_counted = omega (arith, count_one-same abort b.counts, h.valid_counted, number-append);
    skip_counted = omega (arith, count_one-same abort b.counts, h.skip_counted, number-append);
    abort_counted = omega (arith, count_one-same abort b.counts, h.abort_counted, number-append);
  }

  -- Each tail is some bytes that frame no record.
  pub emit_fatal_shape :
      (fatal : FatalKind) (null : D) (b : Builder D)
      → (raw : Bytes) × (description : String) × (emit_fatal fatal null b
          ≡ some (push_fatal raw fatal description null b))
        × (read_record raw ≡ none)
        × (0 < length raw)
  unfolding emit_fatal
  emit_fatal_shape length_overruns_eof null b =
      let ts = next_timestamp b in
      (
        tail_length_overruns_eof ts 1000 16,
        _,
        refl,
        read_record-length_overruns_eof ts 1000 16 (next_timestamp-IsU32 b) (omega arith)
            (omega arith),
        omega (arith, length-tail_length_overruns_eof ts 1000 16),
      )
  emit_fatal_shape huge_length null b =
      let ts = next_timestamp b in
      (
        tail_length_overruns_eof ts 0xffff_ffff 8,
        _,
        refl,
        read_record-length_overruns_eof ts 0xffff_ffff 8 (next_timestamp-IsU32 b) (omega arith)
            (omega arith),
        omega (arith, length-tail_length_overruns_eof ts 0xffff_ffff 8),
      )
  emit_fatal_shape truncated_header null b =
      let (tail, e, size, broken) =
        read_record-truncated_header (next_timestamp b) 7 (omega arith) in
      (
        tail,
        "File ends after 7 bytes of a 12-byte MRT common header. Loading must abort here.",
        rw e,
        broken,
        omega arith,
      )

  push_raw_counts :
      (raw : Bytes) (mrt_type subtype timestamp : ℕ) (kind description : String) (null : D)
      (b : Builder D)
      → ((push_raw raw mrt_type subtype timestamp kind description null b).counts.abort
          ≡ b.counts.abort + 1)
        × (length (push_raw raw mrt_type subtype timestamp kind description null b).entries
            ≡ length b.entries + 1)
  unfolding push_raw
  push_raw_counts raw mrt_type subtype timestamp kind description null b =
      (refl, length-append b.entries _)

  -- An abort-class tail on a builder whose manifest is in step never panics, keeps the manifest
  -- in step, and adds one entry and one abort.
  emit_fatal-IsDescribed :
      (fatal : FatalKind) (null : D) (b : Builder D)
      → IsDescribed b
      → (b' : Builder D) × (emit_fatal fatal null b ≡ some b')
        × IsDescribed b'
        × (b'.counts.abort ≡ b.counts.abort + 1)
        × (length b'.entries ≡ length b.entries + 1)
  emit_fatal-IsDescribed fatal null b h =
      let (raw, description, e, broken, size) = emit_fatal_shape fatal null b in
      let counts =
        push_raw_counts raw 16 1 (next_timestamp b) (kind_name fatal) description null b in
      (
        push_fatal raw fatal description null b,
        e,
        push_raw-IsDescribed raw 16 1 (next_timestamp b) (kind_name fatal) description null b h,
        counts.0,
        counts.1,
      )

-- `n` records tile the file, and the manifest says so.
abbrev pub DescribesFile : {D : Type 0} → ℕ → Corpus D → Type 0
DescribesFile n corpus =
    (length corpus.manifest.records ≡ n)
    × (corpus.manifest.file_size ≡ length corpus.bytes)
    × IsLayout 0 0 corpus.manifest.records corpus.manifest.file_size
    × (corpus.manifest.counts.valid ≡ number valid corpus.manifest.records)
    × (corpus.manifest.counts.skip ≡ number skip corpus.manifest.records)
    × (corpus.manifest.counts.abort ≡ number abort corpus.manifest.records)
