-- ===== src/Writer/Framing.antt =====
-- The framing of RFC 6396 section 2 read back from `MrtRecord::encode`, and a loader that walks a
-- file record by record and stops where a record cannot be framed.
use mrtgen.Base.{
  ℕ, ◌+◌, Option-cases, inl, inr, zero, suc, ◌≤◌, ◌≡◌, refl, ◌++◌, ◌∷◌, [], List, Option, none,
  some, arith, Bytes, All, IsU16, IsU32, length, length-append, map, append_assoc, be16, be32,
  append-nil, sym, ◌∙◌, ap,
}
use mrtgen.Wire.{
  ◌>>=◌, read_u16, read_u32, read_bytes, read_u16-be16, read_u32-be32, read_u32_rest, read_u16_rest,
  read_bytes_rest, read_bytes-length, read_bytes-append,
}
use mrtgen.Writer.{MrtRecord, extend_microsecond, wire_length, encoded_len, encode_into, encode}

-- One framed record as a reader sees it; the microseconds of an `_ET` type are payload.
pub record Frame : Type 0 where
  pub timestamp : ℕ
  pub mrt_type : ℕ
  pub subtype : ℕ
  pub payload : Bytes

unfoldable pub read_record : Bytes → Option (Frame × Bytes)
read_record bs = do
  (timestamp, bs₁) ← read_u32 bs
  (mrt_type, bs₂) ← read_u16 bs₁
  (subtype, bs₃) ← read_u16 bs₂
  (len, bs₄) ← read_u32 bs₃
  (payload, rest) ← read_bytes len bs₄
  some (
    record { timestamp = timestamp; mrt_type = mrt_type; subtype = subtype; payload = payload },
    rest,
  )

abbrev pub payload_of : MrtRecord → Bytes
payload_of r = extend_microsecond r.microsecond [] ++ r.body

abbrev pub frame_of : MrtRecord → Frame
frame_of r = record {
  timestamp = r.timestamp;
  mrt_type = r.mrt_type;
  subtype = r.subtype;
  payload = payload_of r;
}

abbrev IsU32Option : Option ℕ → Type 0
IsU32Option none = Unit
IsU32Option (some v) = IsU32 v

-- The fields fit their types, the Length is the computed one, and the payload fits it.
pub record IsHonest (r : MrtRecord) : Type 0 where
  pub timestamp_fits : IsU32 r.timestamp
  pub type_fits : IsU16 r.mrt_type
  pub subtype_fits : IsU16 r.subtype
  pub computed : r.declared_length ≡ none
  pub payload_fits : IsU32 (length (payload_of r))

wire_length-honest : (r : MrtRecord) → IsHonest r → wire_length r ≡ length (payload_of r)
unfolding wire_length be32
wire_length-honest r h = ground (arith, length-append (extend_microsecond r.microsecond []) r.body)

extend_microsecond-append :
    (us : Option ℕ) (out : Bytes) → extend_microsecond us out ≡ out ++ extend_microsecond us []
extend_microsecond-append none out = sym (append-nil out)
extend_microsecond-append (some us) out = refl

abbrev header_of : MrtRecord → Bytes
header_of r = be32 r.timestamp ++ (be16 r.mrt_type ++ (be16 r.subtype ++ be32 (wire_length r)))

-- What `encode_into` appends: the twelve bytes of the header, then the payload.
encode_into_layout :
    (r : MrtRecord) (out : Bytes) → encode_into r out ≡ out ++ (header_of r ++ payload_of r)
unfolding encode_into
encode_into_layout r out =
    rw
      (extend_microsecond-append r.microsecond
        (out ++ be32 r.timestamp ++ be16 r.mrt_type ++ be16 r.subtype ++ be32 (wire_length r)))
      (simp append_assoc)

-- `encode_into` appends what `encode` returns.
pub encode_into-append : (r : MrtRecord) (out : Bytes) → encode_into r out ≡ out ++ encode r
unfolding encode
encode_into-append r out = rw (encode_into_layout r out, encode_into_layout r [])

pub encode_layout : (r : MrtRecord) → encode r ≡ header_of r ++ payload_of r
unfolding encode
encode_layout r = encode_into_layout r []

-- The encoding of every record, honest or not, has the length that the manifest's size is
-- computed from.
pub length-encode : (r : MrtRecord) → length (encode r) ≡ encoded_len r
unfolding encoded_len be16 be32
length-encode r =
    rw (encode_layout r)
      (ground (arith, length-append (extend_microsecond r.microsecond []) r.body))

-- An honest record (fields in their words, no overridden length, a payload below 2^32), in
-- front of any bytes, is read back with its header fields and its payload, which holds the
-- microseconds of an extended-timestamp record, and those bytes are left.
pub read_record-encode :
    (r : MrtRecord) (rest : Bytes)
    → IsHonest r
    → read_record (encode r ++ rest) ≡ some (frame_of r, rest)
unfolding read_record
read_record-encode r rest h = rw (encode_layout r) (
    simp
      (
        append_assoc,
        wire_length-honest r h,
        h.timestamp_fits,
        h.type_fits,
        h.subtype_fits,
        h.payload_fits,
        read_u32-be32,
        read_u16-be16,
      )
      (rw (← append_assoc (extend_microsecond r.microsecond []) r.body rest)
        (rw (read_bytes-append (payload_of r) rest))))

-- A record takes twelve bytes and its payload.
pub read_record_rest :
    (bs : Bytes) {frame : Frame} {rest : Bytes}
    → read_record bs ≡ some (frame, rest)
    → length bs ≡ 12 + length frame.payload + length rest
unfolding read_record
read_record_rest bs e = elim (Option-cases (read_u32 bs)) [
  | inl short ↦ cc
  | inr ((ts, bs₁), e₁) ↦ elim (Option-cases (read_u16 bs₁)) [
    | inl short ↦ cc
    | inr ((ty, bs₂), e₂) ↦ elim (Option-cases (read_u16 bs₂)) [
      | inl short ↦ cc
      | inr ((sub, bs₃), e₃) ↦ elim (Option-cases (read_u32 bs₃)) [
        | inl short ↦ cc
        | inr ((len, bs₄), e₄) ↦ elim (Option-cases (read_bytes len bs₄)) [
          | inl short ↦ cc
          | inr ((payload, left), e₅) ↦ ground (
            arith,
            read_u32_rest bs e₁,
            read_u16_rest bs₁ e₂,
            read_u16_rest bs₂ e₃,
            read_u32_rest bs₃ e₄,
            read_bytes_rest len bs₄ e₅,
            read_bytes-length len bs₄ e₅,
          )
        ]
      ]
    ]
  ]
]

-- A loader's answer: every record framed, or the records before the point where it had to stop.
-- `out_of_fuel` is no answer of a loader.
pub data Load : Type 0 where
  loaded : List Frame → Load
  aborted : List Frame → Load
  out_of_fuel : Load

load_from : ℕ → Bytes → List Frame → Load
load_from fuel [] acc = loaded acc
load_from zero (b ∷ bs) acc = out_of_fuel
load_from (suc fuel) (b ∷ bs) acc = elim (read_record (b ∷ bs)) [
  | none ↦ aborted acc
  | some (frame, rest) ↦ load_from fuel rest (acc ++ (frame ∷ []))
]

-- A record takes twelve bytes at least, so one round for each byte is enough.
unfoldable pub load : Bytes → Load
unfolding load_from
load bs = load_from (length bs) bs []

abbrev pub encode_all : List MrtRecord → Bytes
encode_all [] = []
encode_all (r ∷ rs) = encode r ++ encode_all rs

encode-pos : (r : MrtRecord) → 12 ≤ length (encode r)
unfolding encoded_len
encode-pos r = ground (arith, length-encode r)

load_from_step :
    (fuel : ℕ) (bs rest : Bytes) (frame : Frame) (acc : List Frame)
    → read_record bs ≡ some (frame, rest)
    → load_from (suc fuel) bs acc ≡ load_from fuel rest (acc ++ (frame ∷ []))
unfolding load_from
load_from_step fuel [] rest frame acc e = unfold read_record read_u32 read_u16 in cc
load_from_step fuel (b ∷ bs) rest frame acc e = rw (e, load_from)

load_from-encode_all :
    (rs : List MrtRecord) (fuel : ℕ) (rest : Bytes) (acc : List Frame)
    → All IsHonest rs
    → length (encode_all rs ++ rest) ≤ fuel
    → (left : ℕ) × (length rest ≤ left)
      × (load_from fuel (encode_all rs ++ rest) acc ≡ load_from left rest (acc ++ map frame_of rs))
load_from-encode_all [] fuel rest acc h enough = (fuel, enough, rw append-nil)
load_from-encode_all (r ∷ rs) zero rest acc h enough = absurd (
    omega (
      arith,
      encode-pos r,
      length-append (encode r ++ encode_all rs) rest,
      length-append (encode r) (encode_all rs),
    ))
load_from-encode_all (r ∷ rs) (suc fuel) rest acc h enough =
    let (left, fits, e) = load_from-encode_all rs fuel rest (acc ++ (frame_of r ∷ [])) h.1 (
      omega (
        arith,
        encode-pos r,
        length-append (encode r) (encode_all rs ++ rest),
        ap (length {A = ℕ}) (append_assoc (encode r) (encode_all rs) rest),
      )) in
    (
      left,
      fits,
      rw (append_assoc (encode r) (encode_all rs) rest) (
          load_from_step fuel _ _ (frame_of r) acc
            (read_record-encode r (encode_all rs ++ rest) h.0)
          ∙ e
          ∙ rw (append_assoc acc (frame_of r ∷ []) (map frame_of rs))),
    )

-- A file of honest records loads completely, as the records that were written, in order.
pub load-encode_all :
    (rs : List MrtRecord) → All IsHonest rs → load (encode_all rs) ≡ loaded (map frame_of rs)
unfolding load load_from
load-encode_all rs h =
    let (left, fits, e) =
      load_from-encode_all rs (length (encode_all rs)) [] [] h (rw append-nil (omega arith)) in
    rw (append-nil (encode_all rs)) at e

load_from_broken :
    (fuel b : ℕ) (tail : Bytes) (acc : List Frame)
    → 1 ≤ fuel
    → read_record (b ∷ tail) ≡ none
    → load_from fuel (b ∷ tail) acc ≡ aborted acc
unfolding load_from
load_from_broken zero b tail acc h e = absurd (omega arith)
load_from_broken (suc fuel) b tail acc h e = rw (e, load_from)

-- Behind any honest records (fields in their words, no overridden length, a payload below
-- 2^32), one or more bytes that frame no record stop the load there, and every record before
-- them is kept.
pub load-encode_all_tail :
    (rs : List MrtRecord) (b : ℕ) (tail : Bytes)
    → All IsHonest rs
    → read_record (b ∷ tail) ≡ none
    → load (encode_all rs ++ (b ∷ tail)) ≡ aborted (map frame_of rs)
unfolding load load_from
load-encode_all_tail rs b tail h broken =
    let bs = encode_all rs ++ (b ∷ tail) in
    let (left, fits, e) = load_from-encode_all rs (length bs) (b ∷ tail) [] h (omega arith) in
    e ∙ load_from_broken left b tail (map frame_of rs) (omega arith) broken
