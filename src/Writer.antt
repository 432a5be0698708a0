-- ===== src/Writer.antt =====
-- src/writer.rs: `MrtRecord`, its framing, and the byte buffer of the record builders.
pub mod Buf
pub mod Framing
use mrtgen.Base.{
  ℕ, ◌+◌, ◌++◌, [], Option, none, some, Bytes, as_u32, be16, be32, length, is_some, unwrap_or,
  if◌then◌else◌,
}

pub record MrtRecord : Type 0 where
  pub timestamp : ℕ
  pub mrt_type : ℕ
  pub subtype : ℕ
  -- the extra field of the `_ET` types
  pub microsecond : Option ℕ
  pub body : Bytes
  -- replaces the computed Length, in deliberately broken records
  pub declared_length : Option ℕ

abbrev pub new : ℕ → ℕ → ℕ → Bytes → MrtRecord
new timestamp mrt_type subtype body = record {
  timestamp = timestamp;
  mrt_type = mrt_type;
  subtype = subtype;
  microsecond = none;
  body = body;
  declared_length = none;
}

abbrev pub new_et : ℕ → ℕ → ℕ → ℕ → Bytes → MrtRecord
new_et timestamp microsecond mrt_type subtype body = record {
  timestamp = timestamp;
  mrt_type = mrt_type;
  subtype = subtype;
  microsecond = some microsecond;
  body = body;
  declared_length = none;
}

-- The sum is one of `u32`s, which wraps in a release build.
unfoldable pub wire_length : MrtRecord → ℕ
wire_length r =
    unwrap_or r.declared_length
      (as_u32 (as_u32 (length r.body) + (if is_some r.microsecond then 4 else 0)))

unfoldable pub encoded_len : MrtRecord → ℕ
encoded_len r = 12 + (if is_some r.microsecond then 4 else 0) + length r.body

-- `if let Some(us) = self.microsecond { out.extend(..) }`
abbrev pub extend_microsecond : Option ℕ → Bytes → Bytes
extend_microsecond none out = out
extend_microsecond (some us) out = out ++ be32 us

unfoldable pub encode_into : MrtRecord → Bytes → Bytes
encode_into r out =
    let stamped = out ++ be32 r.timestamp in
    let typed = stamped ++ be16 r.mrt_type in
    let subtyped = typed ++ be16 r.subtype in
    let header = subtyped ++ be32 (wire_length r) in
    extend_microsecond r.microsecond header ++ r.body

unfoldable pub encode : MrtRecord → Bytes
encode r = encode_into r []
