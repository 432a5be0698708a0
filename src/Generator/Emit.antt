-- ===== src/Generator/Emit.antt =====
-- How the `emit_` functions of src/generator.rs push: a record is made at the next timestamp and pushed
-- with its kind, its outcome and its description. The JSON facts of a record are the parameter `details`,
-- by the record's kind.
use Prim.Native.String.{String}
use Prim.Native.String
use mrtgen.Base.{
  ℕ, zero, suc, ◌+◌, ◌/◌, ◌%◌, ◌++◌, [], ◌∷◌, List, Bool, true, false, Option, some, Bytes, ltb,
  if◌then◌else◌, replicate,
}
use mrtgen.Wire.{◌>>=◌}
use mrtgen.Writer.{MrtRecord}
use mrtgen.Manifest.{Expect}
use mrtgen.Generator.{Builder, next_timestamp, push}

-- One `b.next_timestamp()` with its `b.push(..)`. `make` builds the record at the timestamp; `none` is a
-- panic.
pub record Emission : Type 0 where
  pub kind : String
  pub expect : Expect
  pub description : String
  pub make : ℕ → Option MrtRecord

abbrev pub emission : String → Expect → String → (ℕ → Option MrtRecord) → Emission
emission kind expect description make = record {
  kind = kind;
  expect = expect;
  description = description;
  make = make;
}

-- A record that cannot panic.
abbrev pub always : (ℕ → MrtRecord) → ℕ → Option MrtRecord
always make ts = some (make ts)

module _ {D : Type 0} (details : String → D) where
  unfoldable pub emit : Emission → Builder D → Option (Builder D)
  emit e b = do
    r ← e.make (next_timestamp b)
    some (push r e.kind e.expect e.description (details e.kind) b)

  -- One after the other.
  unfoldable pub emit_all : List Emission → Builder D → Option (Builder D)
  emit_all [] b = some b
  emit_all (e ∷ es) b = do b' ← emit e b; emit_all es b'

  -- `if include { .. }`
  unfoldable pub emit_if : List Emission → Bool → Builder D → Option (Builder D)
  emit_if es true b = emit_all es b
  emit_if es false b = some b

-- `for (i, case) in cases.iter().enumerate()`, from `i` on
abbrev pub enumerate_from {ℓ} : {A : Type ℓ} → ℕ → List A → List (ℕ × A)
enumerate_from i [] = []
enumerate_from i (x ∷ xs) = (i, x) ∷ enumerate_from (suc i) xs

abbrev pub digit : ℕ → String
digit d = String.slice "0123456789" d (d + 1)

-- The `n` lowest decimal digits.
unfoldable pub digits_of : ℕ → ℕ → String
digits_of zero v = ""
digits_of (suc n) v = String.◌++◌ (digits_of n (v / 10)) (digit (v % 10))

-- `{v}` in a format string, for at most five digits, which is as many as a `u16` has.
unfoldable pub decimal : ℕ → String
decimal v =
    if ltb v 10
    then digits_of 1 v
    else if ltb v 100
    then digits_of 2 v
    else if ltb v 1000
    then digits_of 3 v
    else if ltb v 10000
    then digits_of 4 v
    else digits_of 5 v

-- `v6(last)`: 2001:db8:: with a last octet
abbrev pub v6 : ℕ → Bytes
v6 last = 0x20 ∷ 0x01 ∷ 0x0d ∷ 0xb8 ∷ (replicate 11 0 ++ (last ∷ []))

abbrev pub ip4 : ℕ → ℕ → ℕ → ℕ → Bytes
ip4 a b c d = a ∷ b ∷ c ∷ d ∷ []
