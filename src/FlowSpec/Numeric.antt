-- ===== src/FlowSpec/Numeric.antt =====
-- The numeric-operator components of src/flowspec.rs.
pub mod Reading
pub mod Limits
use Prim.Native.String.{String}
use mrtgen.Base.{
  ℕ, ◌+◌, ◌*◌, ◌++◌, [], ◌∷◌, List, Bool, true, false, not, Option, none, some, Bytes, as_u8, be16,
  be32, be64, length, leb, ltb, ◌==◌, bit_or, is_some, if◌then◌else◌,
}
use mrtgen.Outcome.{
  Error, empty_operator, many_operators, value_too_large, Outcome, ok, err, ◌>>=◌, ◌>>◌, refuse_if,
}

-- The six fields of an operator object; `range` is an interval.
pub record NumericOp : Type 0 where
  pub eq : Option ℕ
  pub lt : Option ℕ
  pub le : Option ℕ
  pub gt : Option ℕ
  pub ge : Option ℕ
  pub range : Option (ℕ × ℕ)

pub data NumericMatch : Type 0 where
  value : ℕ → NumericMatch
  op : NumericOp → NumericMatch

abbrev op_eq : ℕ
op_eq = 0x01

abbrev op_gt : ℕ
op_gt = 0x02

abbrev op_lt : ℕ
op_lt = 0x04

abbrev op_and : ℕ
op_and = 0x40

abbrev pub op_end : ℕ
op_end = 0x80

-- The length code and the bytes.
unfoldable pub value_bytes : ℕ → ℕ × Bytes
value_bytes v =
    if leb v 0xff
    then (0, as_u8 v ∷ [])
    else if leb v 0xffff
    then (1, be16 v)
    else if leb v 0xffff_ffff
    then (2, be32 v)
    else (3, be64 v)

-- `if let Some(v) = op.eq { pairs.push((bits, v)); }`
abbrev pair_of : ℕ → Option ℕ → List (ℕ × ℕ)
pair_of bits none = []
pair_of bits (some v) = (bits, v) ∷ []

abbrev range_pairs : Option (ℕ × ℕ) → List (ℕ × ℕ)
range_pairs none = []
range_pairs (some (a, b)) = (bit_or op_gt op_eq, a) ∷ (bit_or (bit_or op_and op_lt) op_eq, b) ∷ []

abbrev op_pairs : NumericOp → List (ℕ × ℕ)
op_pairs o =
    pair_of op_eq o.eq
    ++ (pair_of op_lt o.lt
        ++ (pair_of (bit_or op_lt op_eq) o.le
            ++ (pair_of op_gt o.gt ++ (pair_of (bit_or op_gt op_eq) o.ge ++ range_pairs o.range))))

unfoldable pub numeric_pairs : NumericMatch → String → Outcome (List (ℕ × ℕ))
numeric_pairs (value v) what = ok ((op_eq, v) ∷ [])
numeric_pairs (op o) what =
    let pairs = op_pairs o in
    let expected : ℕ = if is_some o.range then 2 else 1 in
    if length pairs == 0
    then err (empty_operator what)
    else if not (length pairs == expected)
    then err (many_operators what)
    else ok pairs

abbrev pub refuse_over : String → ℕ → List (ℕ × ℕ) → Outcome (Unit {0})
refuse_over what max [] = ok tt
refuse_over what max ((bits, v) ∷ pairs) = do
  refuse_if (ltb max v) (value_too_large what)
  refuse_over what max pairs

unfoldable pub validate_numeric_max : List NumericMatch → String → ℕ → Outcome (Unit {0})
validate_numeric_max [] what max = ok tt
validate_numeric_max (item ∷ items) what max = do
  pairs ← numeric_pairs item what
  refuse_over what max pairs
  validate_numeric_max items what max

-- `for item in items { pairs.extend(numeric_pairs(item, what)?); }`
unfoldable pub all_pairs : List NumericMatch → String → Outcome (List (ℕ × ℕ))
all_pairs [] what = ok []
all_pairs (item ∷ items) what = do
  pairs ← numeric_pairs item what
  more ← all_pairs items what
  ok (pairs ++ more)

-- `end | bits | (len_code << 4)`, then the value.
abbrev pub push_operator : Bool → ℕ × ℕ → Bytes → Bytes
push_operator last (bits, v) out =
    let (len_code, bytes) = value_bytes v in
    (out ++ (bit_or (bit_or (if last then op_end else 0) bits) (len_code * 16) ∷ [])) ++ bytes

-- The last pair carries the end bit.
unfoldable pub push_operators : List (ℕ × ℕ) → Bytes → Bytes
push_operators [] out = out
push_operators (p ∷ []) out = push_operator true p out
push_operators (p ∷ q ∷ ps) out = push_operators (q ∷ ps) (push_operator false p out)

-- Appends the component, or nothing where there is no item.
unfoldable pub encode_numeric : Bytes → ℕ → List NumericMatch → String → Outcome Bytes
encode_numeric out ty [] what = ok out
encode_numeric out ty (item ∷ items) what = do
  pairs ← all_pairs (item ∷ items) what
  ok (push_operators pairs (out ++ (ty ∷ [])))
