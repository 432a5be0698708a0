-- ===== src/FlowSpec/Bitmask.antt =====
-- The bitmask-operator components of src/flowspec.rs.
use Prim.Native.String.{String}
use mrtgen.Base.{
  ℕ, ◌*◌, ◌++◌, [], ◌∷◌, List, Bool, true, false, Bytes, length, ltb, bit_or, if◌then◌else◌,
}
use mrtgen.Text.{text_eq, to_ascii_lowercase, codes}
use mrtgen.Outcome.{unknown_flag, bitmask_too_wide, Outcome, ok, err, ◌>>=◌, ◌>>◌, refuse_if}
use mrtgen.FlowSpec.Numeric.{value_bytes, op_end}

pub data FlagValue : Type 0 where
  num : ℕ → FlagValue
  names : List Bytes → FlagValue

-- `exact` is the field `match`.
pub record BitmaskMatch : Type 0 where
  pub flags : FlagValue
  pub exact : Bool
  pub negate : Bool

abbrev FlagTable : Type 0
FlagTable = List (Bytes × ℕ)

abbrev pub tcp_flag_names : FlagTable
tcp_flag_names =
    (codes "fin", 0x01)
    ∷ (codes "syn", 0x02)
    ∷ (codes "rst", 0x04)
    ∷ (codes "psh", 0x08)
    ∷ (codes "ack", 0x10)
    ∷ (codes "urg", 0x20)
    ∷ (codes "ece", 0x40)
    ∷ (codes "cwr", 0x80)
    ∷ []

abbrev pub fragment_flag_names : FlagTable
fragment_flag_names =
    (codes "dont-fragment", 0x01)
    ∷ (codes "is-fragment", 0x02)
    ∷ (codes "first-fragment", 0x04)
    ∷ (codes "last-fragment", 0x08)
    ∷ []

-- `table.iter().find(..).ok_or_else(..)?.1`
abbrev find_flag : FlagTable → Bytes → String → Outcome ℕ
find_flag [] low what = err (unknown_flag what)
find_flag ((name, bits) ∷ table) low what =
    if text_eq name low then ok bits else find_flag table low what

-- `for n in names { bits |= .. }`
abbrev or_names : FlagTable → List Bytes → ℕ → String → Outcome ℕ
or_names table [] bits what = ok bits
or_names table (n ∷ ns) bits what = do
  flag ← find_flag table (to_ascii_lowercase n) what
  or_names table ns (bit_or bits flag) what

unfoldable pub resolve_flags : FlagValue → FlagTable → String → Outcome ℕ
resolve_flags (num n) table what = ok n
resolve_flags (names ns) table what = or_names table ns 0 what

-- One round of the loop: the operator byte and the value.
abbrev push_bitmask : Bool → BitmaskMatch → FlagTable → String → ℕ → Bytes → Outcome Bytes
push_bitmask last item table what max_len out = do
  bits ← resolve_flags item.flags table what
  let (len_code, bytes) = value_bytes bits
  refuse_if (ltb max_len (length bytes)) (bitmask_too_wide what)
  let m : ℕ = if item.exact then 0x01 else 0
  let negated : ℕ = if item.negate then 0x02 else 0
  let end_bit : ℕ = if last then op_end else 0
  ok ((out ++ (bit_or (bit_or (bit_or end_bit negated) m) (len_code * 16) ∷ [])) ++ bytes)

unfoldable pub push_bitmasks : List BitmaskMatch → FlagTable → String → ℕ → Bytes → Outcome Bytes
push_bitmasks [] table what max_len out = ok out
push_bitmasks (item ∷ []) table what max_len out = push_bitmask true item table what max_len out
push_bitmasks (item ∷ next ∷ items) table what max_len out = do
  out' ← push_bitmask false item table what max_len out
  push_bitmasks (next ∷ items) table what max_len out'

unfoldable pub encode_bitmask :
    Bytes → ℕ → List BitmaskMatch → FlagTable → String → ℕ → Outcome Bytes
encode_bitmask out ty [] table what max_len = ok out
encode_bitmask out ty (item ∷ items) table what max_len =
    push_bitmasks (item ∷ items) table what max_len (out ++ (ty ∷ []))
