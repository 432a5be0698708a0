-- ===== src/Base/Words.antt =====
-- The unsigned integers of the source: a value is a ℕ, its range is a hypothesis, and a cast is
-- written out as a remainder. A byte string is a list of numbers.
use Prim.Native.Nat.{ℕ, ◌/◌, ◌%◌, ◌<◌}
use mathlib.Core.List.{List, [], ◌∷◌, ◌++◌}

abbrev pub Bytes : Type 0
Bytes = List ℕ

abbrev pub IsU8 : ℕ → Type 0
IsU8 v = v < 256

abbrev pub IsU16 : ℕ → Type 0
IsU16 v = v < 65536

abbrev pub IsU32 : ℕ → Type 0
IsU32 v = v < 4294967296

abbrev pub IsU64 : ℕ → Type 0
IsU64 v = v < 18446744073709551616

-- `v as u8`, `v as u16`, `v as u32`
abbrev pub as_u8 : ℕ → ℕ
as_u8 v = v % 256

abbrev pub as_u16 : ℕ → ℕ
as_u16 v = v % 65536

abbrev pub as_u32 : ℕ → ℕ
as_u32 v = v % 4294967296

-- `to_be_bytes` of the standard library at each width.
unfoldable pub be16 : ℕ → Bytes
be16 v = v / 256 % 256 ∷ v % 256 ∷ []

unfoldable pub be32 : ℕ → Bytes
be32 v = v / 16777216 % 256 ∷ v / 65536 % 256 ∷ v / 256 % 256 ∷ v % 256 ∷ []

unfoldable pub be64 : ℕ → Bytes
be64 v = be32 (v / 4294967296) ++ be32 (v % 4294967296)
