-- ===== src/FlowSpec/Numeric/Reading.antt =====
-- Operator lists read back: RFC 8955 section 4.2.1, an operator byte with the end-of-list bit, the AND
-- bit, the value's length code and the comparison, then a value of 1, 2, 4 or 8 bytes.
use mrtgen.Base.{
  ℕ, zero, suc, ◌+◌, ◌*◌, ◌/◌, ◌%◌, ◌<◌, ◌≤◌, ◌≡◌, refl, ◌++◌, [], ◌∷◌, List, Bool, true, false,
  ◌&&◌, not, Option, none, some, arith, length-append, Bytes, All, IsU64, as_u8, length, leb, ◌==◌,
  bit_or, if◌then◌else◌, all_below, all_below_sound, append_assoc, append-nil, sym, Bool-cases, inl,
  inr,
}
use native.Mathlib.Nat.{mod-eq_of_lt}
use mrtgen.Wire.{
  ◌>>=◌, read_u8, read_u8-cons, read_u16, read_u32, read_u64, read_u16-be16, read_u32-be32,
  read_u64-be64,
}
use mrtgen.FlowSpec.Numeric.{value_bytes, op_end, push_operator, push_operators}

abbrev read_value : ℕ → Bytes → Option (ℕ × Bytes)
read_value zero bs = read_u8 bs
read_value (suc zero) bs = read_u16 bs
read_value (suc (suc zero)) bs = read_u32 bs
read_value (suc (suc (suc n))) bs = read_u64 bs

-- The comparison and AND bits, the value, and whether the list ends here.
unfoldable pub read_operator : Bytes → Option (Bool × ℕ × ℕ × Bytes)
read_operator bs = do
  (op, bs₁) ← read_u8 bs
  (v, rest) ← read_value (op / 16 % 4) bs₁
  some (op / 128 == 1, op / 64 % 2 * 64 + op % 16, v, rest)

read_list : ℕ → Bytes → Option (List (ℕ × ℕ) × Bytes)
read_list zero bs = none
read_list (suc fuel) bs = elim (read_operator bs) [
  | none ↦ none
  | some (last, bits, v, rest) ↦
      let later = read_list fuel rest >>= (λ (pairs, rest'). some ((bits, v) ∷ pairs, rest')) in
      if last then some ((bits, v) ∷ [], rest) else later
]

-- An operator takes two bytes at least.
unfoldable pub read_operators : Bytes → Option (List (ℕ × ℕ) × Bytes)
unfolding read_list
read_operators bs = read_list (length bs) bs

-- Bits that the format leaves to the comparison and AND; and a 64-bit value.
abbrev IsPair : ℕ × ℕ → Type 0
IsPair (bits, v) = (bits < 128) × (bits / 16 % 4 ≡ 0) × IsU64 v

abbrev op_byte : Bool → ℕ → ℕ → ℕ
op_byte last bits code = bit_or (bit_or (if last then op_end else 0) bits) (code * 16)

byte_ok : Bool → ℕ → ℕ → Bool
byte_ok last code bits =
    if not (bits / 16 % 4 == 0)
    then true
    else (op_byte last bits code / 16 % 4 == code)
      && ((op_byte last bits code / 64 % 2 * 64 + op_byte last bits code % 16 == bits)
          && (op_byte last bits code / 128 == (if last then 1 else 0)))

byte_table : (last : Bool) → all_below 4 (λ code. all_below 128 (byte_ok last code)) ≡ true
unfolding all_below byte_ok
byte_table true = refl
byte_table false = refl

op_byte_fields :
    (last : Bool) (bits code : ℕ)
    → bits < 128
    → bits / 16 % 4 ≡ 0
    → code < 4
    → (op_byte last bits code / 16 % 4 ≡ code)
      × (op_byte last bits code / 64 % 2 * 64 + op_byte last bits code % 16 ≡ bits)
      × ((op_byte last bits code / 128 == 1) ≡ last)
unfolding byte_ok
op_byte_fields last bits code hb hz hc = ground (
  arith,
  all_below_sound 128 (byte_ok last code) bits
      (all_below_sound 4 (λ c. all_below 128 (byte_ok last c)) code (byte_table last) hc) hb,
)

-- The value, at each of the four sizes.
value_code : (v : ℕ) → (value_bytes v).0 < 4
unfolding value_bytes
value_code v = ground arith

as_u8-small : (v : ℕ) → leb v 0xff ≡ true → as_u8 v ≡ v
as_u8-small v h = mod-eq_of_lt (ground arith)

read_value-bytes :
    (v : ℕ) (rest : Bytes)
    → IsU64 v
    → read_value (value_bytes v).0 ((value_bytes v).1 ++ rest) ≡ some (v, rest)
unfolding value_bytes
read_value-bytes v rest h = elim (Bool-cases (leb v 0xff)) [
  | inl small ↦ rw small (rw (as_u8-small v small) (read_u8-cons v rest))
  | inr e₁ ↦ elim (Bool-cases (leb v 0xffff)) [
    | inl two ↦ rw (e₁, two) (read_u16-be16 v rest (ground arith))
    | inr e₂ ↦ elim (Bool-cases (leb v 0xffff_ffff)) [
      | inl four ↦ rw (e₁, e₂, four) (read_u32-be32 v rest (ground arith))
      | inr e₃ ↦ rw (e₁, e₂, e₃) (read_u64-be64 v rest h)
    ]
  ]
]

abbrev operator_bytes : Bool → ℕ × ℕ → Bytes
operator_bytes last (bits, v) =
    (bit_or (bit_or (if last then op_end else 0) bits) ((value_bytes v).0 * 16) ∷ [])
    ++ (value_bytes v).1

read_operator-bytes :
    (last : Bool) (p : ℕ × ℕ) (rest : Bytes)
    → IsPair p
    → read_operator (operator_bytes last p ++ rest) ≡ some (last, p.0, p.1, rest)
unfolding read_operator read_u8
read_operator-bytes last (bits, v) rest (hb, hz, hv) =
    let (code, fields, end) = op_byte_fields last bits (value_bytes v).0 hb hz (value_code v) in
    rw (code, read_value-bytes v rest hv, fields, end)

-- A list of operators, the last one marked.
abbrev operators : List (ℕ × ℕ) → Bytes
operators [] = []
operators (p ∷ []) = operator_bytes true p
operators (p ∷ q ∷ ps) = operator_bytes false p ++ operators (q ∷ ps)

push_operators-operators :
    (ps : List (ℕ × ℕ)) (out : Bytes) → push_operators ps out ≡ out ++ operators ps
unfolding push_operators
push_operators-operators [] out = sym (append-nil out)
push_operators-operators ((b, v) ∷ []) out = simp append_assoc refl
push_operators-operators ((b, v) ∷ q ∷ ps) out =
    rw (push_operators-operators (q ∷ ps) (push_operator false (b, v) out)) (simp append_assoc)

read_list-operators :
    (fuel : ℕ) (p : ℕ × ℕ) (ps : List (ℕ × ℕ)) (rest : Bytes)
    → All IsPair (p ∷ ps)
    → length ps < fuel
    → read_list fuel (operators (p ∷ ps) ++ rest) ≡ some (p ∷ ps, rest)
unfolding read_list
read_list-operators zero p ps rest all h = absurd (omega arith)
read_list-operators (suc fuel) p [] rest (hp, nothing_else) h =
    rw (read_operator-bytes true p rest hp, read_list) refl
read_list-operators (suc fuel) p (q ∷ ps) rest (hp, hs) h = simp append_assoc (
    rw (read_operator-bytes false p (operators (q ∷ ps) ++ rest) hp, read_list)
      (rw (read_list-operators fuel q ps rest hs (omega arith))))

length-operators : (ps : List (ℕ × ℕ)) → length ps ≤ length (operators ps)
length-operators [] = omega arith
length-operators (p ∷ []) = omega arith
length-operators (p ∷ q ∷ ps) =
    omega (arith, length-operators (q ∷ ps), length-append (value_bytes p.1).1 (operators (q ∷ ps)))

-- The operators that encode_numeric appends for a non-empty list of 64-bit values under
-- comparison and AND bits are read back in order up to the end bit, with what follows them
-- left.
pub read_operators-push_operators :
    (p : ℕ × ℕ) (ps : List (ℕ × ℕ)) (rest : Bytes)
    → All IsPair (p ∷ ps)
    → read_operators (push_operators (p ∷ ps) [] ++ rest) ≡ some (p ∷ ps, rest)
unfolding read_operators
read_operators-push_operators p ps rest all = rw (push_operators-operators (p ∷ ps) []) (
    read_list-operators (length (operators (p ∷ ps) ++ rest)) p ps rest all
      (omega (arith, length-operators (p ∷ ps), length-append (operators (p ∷ ps)) rest)))
