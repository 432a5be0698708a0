-- ===== src/Invalid/Tails.antt =====
-- The tails of src/invalid.rs, as a reader of records sees them.
use mrtgen.Base.{
  ℕ, ◌<◌, ◌≡◌, [], none, arith, Bytes, IsU32, length, length-replicate, length-take, take, lt→ltb,
  zero, append_assoc, Option-cases, inl, inr, some, ◌+◌, replicate,
}
use mrtgen.Types
use mrtgen.Wire.{read_u16-be16, read_u32-be32, read_bytes_short}
use mrtgen.Writer.{encode, wire_length, new, encoded_len}
use mrtgen.Writer.Framing.{read_record, read_record_rest, encode_layout, length-encode}
use mrtgen.Invalid.{tail_length_overruns_eof, tail_truncated_header}

-- A tail whose header declares more bytes than follow it frames no record, if the timestamp and
-- the declared length are 32-bit words.
pub read_record-length_overruns_eof :
    (timestamp declared actual : ℕ)
    → IsU32 timestamp
    → IsU32 declared
    → actual < declared
    → read_record (tail_length_overruns_eof timestamp declared actual) ≡ none
unfolding tail_length_overruns_eof read_record wire_length
read_record-length_overruns_eof timestamp declared actual ht hd h =
    rw
      (encode_layout
        (record (new timestamp 16 1 (replicate actual 0)) { declared_length = some declared }))
      (simp append_assoc (
        rw (read_u32-be32 timestamp _ ht) (
          rw (read_u16-be16 16 _ (omega arith)) (
            rw (read_u16-be16 1 _ (omega arith)) (
              rw (read_u32-be32 declared _ hd) (
                rw (
                  read_bytes_short declared (replicate actual 0)
                    (omega (arith, length-replicate actual (zero))))))))))

-- Fewer than twelve bytes are no header.
read_record_short : (bs : Bytes) → length bs < 12 → read_record bs ≡ none
read_record_short bs h = elim (Option-cases (read_record bs)) [
  | inl e ↦ e
  | inr ((frame, rest), e) ↦ absurd (omega (arith, read_record_rest bs e))
]

-- A tail cut off below 12 bytes passes the assertion, has the length that it was cut to, and
-- frames no record.
pub read_record-truncated_header :
    (timestamp keep : ℕ)
    → keep < 12
    → (tail : Bytes) × (tail_truncated_header timestamp keep ≡ some tail)
      × (length tail ≡ keep)
      × (read_record tail ≡ none)
unfolding tail_truncated_header encoded_len
read_record-truncated_header timestamp keep h =
    let header = new timestamp Types.bgp4mp Types.bgp4mp_message [] in
    let size : length (take keep (encode header)) ≡ keep =
      omega (arith, length-take keep (encode header), length-encode header) in
    (take keep (encode header), rw (lt→ltb keep 12 h), size, read_record_short _ (omega arith))

pub length-tail_length_overruns_eof :
    (timestamp declared actual : ℕ)
    → length (tail_length_overruns_eof timestamp declared actual) ≡ 12 + actual
unfolding tail_length_overruns_eof encoded_len
length-tail_length_overruns_eof timestamp declared actual = omega (
  arith,
  length-encode
      (record (new timestamp 16 1 (replicate actual 0)) { declared_length = some declared }),
  length-replicate actual (zero),
)
