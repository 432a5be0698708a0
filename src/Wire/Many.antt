-- ===== src/Wire/Many.antt =====
-- A counted sequence of fields, and the loop `for x in xs { b.write(x) }` that writes one.
use mrtgen.Base.{
  ℕ, zero, suc, ◌<◌, none, ◌≡◌, ◌*◌, arith, length-append, refl, ◌++◌, ◌∷◌, [], List, Option, some,
  Bytes, All, length, append_assoc,
}
use mrtgen.Wire.{◌>>=◌}

module _ {ℓ} {A : Type ℓ} where
  unfoldable pub read_many : (Bytes → Option (A × Bytes)) → ℕ → Bytes → Option (List A × Bytes)
  read_many read zero bs = some ([], bs)
  read_many read (suc n) bs = do
    (x, bs₁) ← read bs
    (xs, rest) ← read_many read n bs₁
    some (x ∷ xs, rest)

  -- The encodings one after the other.
  abbrev pub flat : (A → Bytes) → List A → Bytes
  flat write [] = []
  flat write (x ∷ xs) = write x ++ flat write xs

module _ {ℓ κ} {A : Type ℓ} (read : Bytes → Option (A × Bytes)) (write : A → Bytes) (P : A → Type κ)
    (inverse : (x : A) (rest : Bytes) → P x → read (write x ++ rest) ≡ some (x, rest)) where
  pub read_many-flat :
      (xs : List A) (rest : Bytes)
      → All P xs
      → read_many read (length xs) (flat write xs ++ rest) ≡ some (xs, rest)
  unfolding read_many
  read_many-flat [] rest h = refl
  read_many-flat (x ∷ xs) rest h =
      rw (append_assoc (write x) (flat write xs) rest)
        (rw (inverse x (flat write xs ++ rest) h.0) (rw (read_many-flat xs rest h.1)))

module _ {ℓ κ} {A : Type ℓ} (write : A → Bytes) (k : ℕ) (P : A → Type κ)
    (sized : (x : A) → P x → length (write x) ≡ k) where
  pub length-flat : (xs : List A) → All P xs → length (flat write xs) ≡ length xs * k
  length-flat [] h = omega arith
  length-flat (x ∷ xs) h =
      omega (arith, length-append (write x) (flat write xs), sized x h.0, length-flat xs h.1)

module _ {ℓ κ} {A : Type ℓ} {X : Type κ} (read : Bytes → Option (A × Bytes)) (write : X → Bytes)
    (value : X → A) (reads : (x : X) (rest : Bytes) → read (write x ++ rest) ≡ some (value x, rest))
    (at_end : read [] ≡ none) where
  -- More elements asked for than there are.
  pub read_many_short :
      (xs : List X) (n : ℕ) → length xs < n → read_many read n (flat write xs) ≡ none
  unfolding read_many
  read_many_short xs zero h = absurd (omega arith)
  read_many_short [] (suc n) h = rw at_end
  read_many_short (x ∷ xs) (suc n) h =
      rw (reads x (flat write xs)) (rw (read_many_short xs n (omega arith)))
