-- ===== src/Wire.antt =====
-- Readers of big-endian fields, as the RFCs describe them: the independent side of the round trips.
-- Each takes a prefix of the bytes and returns what is left, or `none` where the bytes end.
pub mod Many
use mrtgen.Base.{
  ℕ, zero, suc, ◌+◌, ◌<◌, ◌*◌, ◌≡◌, refl, ◌++◌, Option, none, some, [], ◌∷◌, arith, Bytes,
  Option-cases, inl, inr, IsU16, IsU32, IsU64, be16, be32, be64, length, ◌/◌, ◌%◌, append_assoc,
  append-nil,
}

infixl 5 ◌>>=◌ ◌>>◌
abbrev pub ◌>>=◌ {ℓ κ} : {A : Type ℓ} {B : Type κ} → Option A → (A → Option B) → Option B
none >>= f = none
some a >>= f = f a

abbrev pub ◌>>◌ {ℓ} : {B : Type ℓ} → Option (Unit {0}) → Option B → Option B
m >> k = m >>= λ _. k

unfoldable pub read_u8 : Bytes → Option (ℕ × Bytes)
read_u8 [] = none
read_u8 (a ∷ bs) = some (a, bs)

unfoldable pub read_u16 : Bytes → Option (ℕ × Bytes)
read_u16 (a ∷ b ∷ bs) = some (a * 256 + b, bs)
read_u16 (a ∷ []) = none
read_u16 [] = none

unfoldable pub read_u32 : Bytes → Option (ℕ × Bytes)
read_u32 bs = do (hi, bs₁) ← read_u16 bs; (lo, bs₂) ← read_u16 bs₁; some (hi * 65536 + lo, bs₂)

unfoldable pub read_u64 : Bytes → Option (ℕ × Bytes)
read_u64 bs = do (hi, bs₁) ← read_u32 bs; (lo, bs₂) ← read_u32 bs₁; some (hi * 4294967296 + lo, bs₂)

-- Exactly `n` bytes.
unfoldable pub read_bytes : ℕ → Bytes → Option (Bytes × Bytes)
read_bytes zero bs = some ([], bs)
read_bytes (suc n) [] = none
read_bytes (suc n) (b ∷ bs) = do (xs, rest) ← read_bytes n bs; some (b ∷ xs, rest)

pub read_u8-cons : (v : ℕ) (rest : Bytes) → read_u8 (v ∷ rest) ≡ some (v, rest)
unfolding read_u8
read_u8-cons v rest = refl

pub read_u16-be16 : (v : ℕ) (rest : Bytes) → IsU16 v → read_u16 (be16 v ++ rest) ≡ some (v, rest)
unfolding read_u16 be16
read_u16-be16 v rest h = ground arith

pub read_u32-be32 : (v : ℕ) (rest : Bytes) → IsU32 v → read_u32 (be32 v ++ rest) ≡ some (v, rest)
unfolding read_u32 be32 read_u16
read_u32-be32 v rest h = ground arith

pub read_u64-be64 : (v : ℕ) (rest : Bytes) → IsU64 v → read_u64 (be64 v ++ rest) ≡ some (v, rest)
unfolding read_u64 be64
read_u64-be64 v rest h =
    let hi = v / 4294967296 in
    let lo = v % 4294967296 in
    rw append_assoc (
      rw (read_u32-be32 hi (be32 lo ++ rest) (omega arith))
        (rw (read_u32-be32 lo rest (omega arith)) (ground arith)))

pub read_bytes-append : (xs rest : Bytes) → read_bytes (length xs) (xs ++ rest) ≡ some (xs, rest)
unfolding read_bytes
read_bytes-append [] rest = refl
read_bytes-append (x ∷ xs) rest = rw (read_bytes-append xs rest)

-- What is left is shorter by what was read.
pub read_u8_rest :
    (bs : Bytes) {v : ℕ} {rest : Bytes} → read_u8 bs ≡ some (v, rest) → length bs ≡ length rest + 1
unfolding read_u8
read_u8_rest [] e = cc
read_u8_rest (a ∷ bs) e = ground arith

pub read_u16_rest :
    (bs : Bytes) {v : ℕ} {rest : Bytes} → read_u16 bs ≡ some (v, rest) → length bs ≡ length rest + 2
unfolding read_u16
read_u16_rest [] e = cc
read_u16_rest (a ∷ []) e = cc
read_u16_rest (a ∷ b ∷ bs) e = ground arith

pub read_bytes_rest :
    (n : ℕ) (bs : Bytes) {xs rest : Bytes}
    → read_bytes n bs ≡ some (xs, rest)
    → length bs ≡ length rest + n
unfolding read_bytes
read_bytes_rest zero bs e = ground arith
read_bytes_rest (suc n) [] e = cc
read_bytes_rest (suc n) (b ∷ bs) e = elim (Option-cases (read_bytes n bs)) [
  | inl short ↦ cc
  | inr ((ys, left), found) ↦ ground (arith, read_bytes_rest n bs found)
]

pub read_bytes_short : (n : ℕ) (bs : Bytes) → length bs < n → read_bytes n bs ≡ none
unfolding read_bytes
read_bytes_short zero bs h = absurd (omega arith)
read_bytes_short (suc n) [] h = refl
read_bytes_short (suc n) (b ∷ bs) h = rw (read_bytes_short n bs (omega arith))

-- The same with nothing behind the field.
pub read_u32_end : (v : ℕ) → IsU32 v → read_u32 (be32 v) ≡ some (v, [])
read_u32_end v h = simp append-nil at (read_u32-be32 v [] h)

pub read_bytes_end : (n : ℕ) (xs : Bytes) → length xs ≡ n → read_bytes n xs ≡ some (xs, [])
read_bytes_end n xs h = rw (← h) (simp append-nil at (read_bytes-append xs []))

pub read_bytes_exact :
    (n : ℕ) (xs rest : Bytes) → length xs ≡ n → read_bytes n (xs ++ rest) ≡ some (xs, rest)
read_bytes_exact n xs rest h = rw (← h) (read_bytes-append xs rest)

pub read_u32_rest :
    (bs : Bytes) {v : ℕ} {rest : Bytes} → read_u32 bs ≡ some (v, rest) → length bs ≡ length rest + 4
unfolding read_u32
read_u32_rest bs e = elim (Option-cases (read_u16 bs)) [
  | inl short ↦ cc
  | inr ((hi, bs₁), e₁) ↦ elim (Option-cases (read_u16 bs₁)) [
    | inl short ↦ cc
    | inr ((lo, bs₂), e₂) ↦ ground (arith, read_u16_rest bs e₁, read_u16_rest bs₁ e₂)
  ]
]

pub read_bytes-length :
    (n : ℕ) (bs : Bytes) {xs rest : Bytes} → read_bytes n bs ≡ some (xs, rest) → length xs ≡ n
unfolding read_bytes
read_bytes-length zero bs e = ground arith
read_bytes-length (suc n) [] e = cc
read_bytes-length (suc n) (b ∷ bs) e = elim (Option-cases (read_bytes n bs)) [
  | inl short ↦ cc
  | inr ((ys, left), found) ↦ ground (arith, read_bytes-length n bs found)
]

module _ {ℓ κ} {A : Type ℓ} {B : Type κ} where
  -- A read chain that succeeds, taken apart.
  pub >>=-some :
      (read : Option A) (next : A → Option B) {made : B}
      → read >>= next ≡ some made
      → (x : A) × (read ≡ some x) × (next x ≡ some made)
  >>=-some (some x) next h = (x, refl, h)
  >>=-some none next h = cc
