-- ===== src/Generator/Loading.antt =====
-- What a loader gets out of a generated file.
use Prim.Native.String.{String}
use mrtgen.Base.{
  ℕ, ◌+◌, Option, is_some, if◌then◌else◌, be32, ◌<◌, ◌≡◌, refl, ◌++◌, [], ◌∷◌, List, none, some,
  arith, Bytes, All, All-append, length, map, append_assoc, append-nil,
}
use mathlib.Core.List.{map-append}
use mrtgen.Writer.{MrtRecord, encoded_len, encode, extend_microsecond}
use mrtgen.Writer.Framing.{
  Frame, frame_of, payload_of, IsHonest, read_record, loaded, aborted, load, encode_all,
  load-encode_all, load-encode_all_tail, encode_into-append,
}
use mrtgen.Manifest.{CorpusProfile, Expect, RecordEntry}
use mrtgen.Generator.{
  FatalKind, Builder, new_builder, push, push_raw, push_fatal, emit_fatal, next_timestamp,
  kind_name,
}
use mrtgen.Generator.Layout.{emit_fatal_shape}

-- The header fields and the size: what the manifest says, and what a reader of the file sees.
pub record Header : Type 0 where
  pub timestamp : ℕ
  pub mrt_type : ℕ
  pub subtype : ℕ
  pub size : ℕ

abbrev pub frame_header : Frame → Header
frame_header f = record {
  timestamp = f.timestamp;
  mrt_type = f.mrt_type;
  subtype = f.subtype;
  size = 12 + length f.payload;
}

abbrev pub entry_header : {D : Type 0} → RecordEntry D → Header
entry_header e = record {
  timestamp = e.timestamp;
  mrt_type = e.mrt_type;
  subtype = e.subtype;
  size = e.size;
}

-- `Builds b rs c`: from `b`, pushes of the honest records `rs` lead to `c`.
pub data Builds {D : Type 0} (b : Builder D) : List MrtRecord → Builder D → Type 0 where
  here : Builds b [] b
  next :
      {rs : List MrtRecord} {c : Builder D}
      → Builds b rs c
      → (r : MrtRecord) (kind : String) (expect : Expect) (description : String) (details : D)
      → IsHonest r
      → Builds b (rs ++ (r ∷ [])) (push r kind expect description details c)

pub encode_all-append :
    (xs ys : List MrtRecord) → encode_all (xs ++ ys) ≡ encode_all xs ++ encode_all ys
encode_all-append [] ys = refl
encode_all-append (x ∷ xs) ys =
    rw (encode_all-append xs ys) (rw (append_assoc (encode x) (encode_all xs) (encode_all ys)))

pub encoded_len-frame : (r : MrtRecord) → encoded_len r ≡ 12 + length (payload_of r)
unfolding encoded_len be32
encoded_len-frame r = go r.microsecond r.body
  where
    go :
        (us : Option ℕ) (body : Bytes)
        → 12 + (if is_some us then 4 else 0) + length body
          ≡ 12 + length (extend_microsecond us [] ++ body)
    go none body = omega arith
    go (some us) body = omega arith

pub frames :
    (rs : List MrtRecord)
    → map (λ r. frame_header (frame_of r)) rs ≡ map frame_header (map frame_of rs)
frames [] = refl
frames (r ∷ rs) = rw (frames rs)

module _ {D : Type 0} where
  Builds-bytes :
      {b c : Builder D} {rs : List MrtRecord} → Builds b rs c → c.bytes ≡ b.bytes ++ encode_all rs
  unfolding push
  Builds-bytes {b = b} here = rw append-nil
  Builds-bytes {b = b} (next {rs = rs} {c = c} steps r kind expect description details h) =
      rw (encode_into-append r c.bytes) (
        rw (Builds-bytes steps) (
          rw (encode_all-append rs (r ∷ []))
            (rw (append-nil (encode r)) (rw (append_assoc b.bytes (encode_all rs) (encode r))))))

  Builds-IsHonest : {b c : Builder D} {rs : List MrtRecord} → Builds b rs c → All IsHonest rs
  Builds-IsHonest here = tt
  Builds-IsHonest (next {rs = rs} steps r kind expect description details h) =
      All-append IsHonest rs (r ∷ []) (Builds-IsHonest steps) (h, tt)

  Builds-headers :
      {b c : Builder D} {rs : List MrtRecord}
      → Builds b rs c
      → map entry_header c.entries
        ≡ map entry_header b.entries ++ map (λ r. frame_header (frame_of r)) rs
  unfolding push
  Builds-headers here = rw append-nil
  Builds-headers {b = b} (next {rs = rs} {c = c} steps r kind expect description details h) =
      rw (map-append)
        (rw (encoded_len-frame r) (rw (Builds-headers steps) (rw map-append (rw append_assoc))))

  -- A file that the builder made, from an empty one, by pushes of honest records (fields in
  -- their words, no overridden length, a payload below 2^32) loads whole: the loader gets
  -- exactly those records, in order, and the manifest lists the timestamp, type, subtype and
  -- size of each.
  pub load-Builds :
      (base_timestamp : ℕ) (profile : CorpusProfile) (rs : List MrtRecord) (c : Builder D)
      → Builds (new_builder base_timestamp profile) rs c
      → (load c.bytes ≡ loaded (map frame_of rs))
        × (map entry_header c.entries ≡ map frame_header (map frame_of rs))
  load-Builds base_timestamp profile rs c steps = (
    rw (Builds-bytes steps) (load-encode_all rs (Builds-IsHonest steps)),
    rw (Builds-headers steps) (frames rs),
  )

  pub load_tail :
      {base_timestamp : ℕ} {profile : CorpusProfile} {rs : List MrtRecord} {c : Builder D}
      (raw : Bytes) (mrt_type subtype timestamp : ℕ) (kind description : String) (null : D)
      → Builds (new_builder base_timestamp profile) rs c
      → read_record raw ≡ none
      → 0 < length raw
      → load (push_raw raw mrt_type subtype timestamp kind description null c).bytes
        ≡ aborted (map frame_of rs)
  unfolding push_raw
  load_tail {rs = rs} [] mrt_type subtype timestamp kind description null steps broken size =
      absurd (omega arith)
  load_tail {rs = rs} (x ∷ raw) mrt_type subtype timestamp kind description null steps broken size =
      rw (Builds-bytes steps) (load-encode_all_tail rs x raw (Builds-IsHonest steps) broken)

  -- Behind pushes of honest records (fields in their words, no overridden length, a payload
  -- below 2^32) onto an empty builder, each of the three abort-class tails is written without a
  -- panic, and a load of the file stops at the tail, with every record before it.
  pub load-emit_fatal :
      (base_timestamp : ℕ) (profile : CorpusProfile) (rs : List MrtRecord) (c : Builder D)
      (fatal : FatalKind) (null : D)
      → Builds (new_builder base_timestamp profile) rs c
      → (b : Builder D) × (emit_fatal fatal null c ≡ some b)
        × (load b.bytes ≡ aborted (map frame_of rs))
  load-emit_fatal base_timestamp profile rs c fatal null steps =
      let (raw, description, e, broken, size) = emit_fatal_shape fatal null c in
      (
        push_fatal raw fatal description null c,
        e,
        load_tail raw 16 1 (next_timestamp c) (kind_name fatal) description null steps broken size,
      )
