-- ===== src/FlowSpec/Numeric/Limits.antt =====
-- `validate_numeric_max` of src/flowspec.rs against the encoder that runs after it.
use Prim.Native.String.{String}
use mrtgen.Base.{
  ℕ, ◌≤◌, ◌≡◌, refl, ◌++◌, [], ◌∷◌, List, All, All-append, ltb, le-of-ltb-false, Bool-cases, inl,
  inr,
}
use mrtgen.Outcome.{ok, Outcome-cases}
use mrtgen.FlowSpec.Numeric.{
  NumericMatch, numeric_pairs, refuse_over, validate_numeric_max, all_pairs,
}

abbrev pub IsWithin : ℕ → ℕ × ℕ → Type 0
IsWithin max (bits, v) = v ≤ max

refuse_over_sound :
    (what : String) (max : ℕ) (pairs : List (ℕ × ℕ)) {done : Unit {0}}
    → refuse_over what max pairs ≡ ok done
    → All (IsWithin max) pairs
refuse_over_sound what max [] e = tt
refuse_over_sound what max ((bits, v) ∷ pairs) e = elim (Bool-cases (ltb max v)) [
  | inl over ↦ cc
  | inr fits ↦ (le-of-ltb-false max v fits, refuse_over_sound what max pairs (rw fits at e))
]

-- If validate_numeric_max accepts a component, its items give operators, all of whose values
-- are at most the bound: the encoder cannot fail on them, and writes no value outside the
-- domain.
pub validate_numeric_max_sound :
    (items : List NumericMatch) (what : String) (max : ℕ) {done : Unit {0}}
    → validate_numeric_max items what max ≡ ok done
    → (pairs : List (ℕ × ℕ)) × (all_pairs items what ≡ ok pairs) × All (IsWithin max) pairs
unfolding validate_numeric_max all_pairs
validate_numeric_max_sound [] what max e = ([], refl, tt)
validate_numeric_max_sound (item ∷ items) what max e =
    elim (Outcome-cases (numeric_pairs item what)) [
      | inl (pairs, e₁) ↦ elim (Outcome-cases (refuse_over what max pairs)) [
        | inl (done₁, e₂) ↦
            let (more, e₃, within) = validate_numeric_max_sound items what max (rw (e₁, e₂) at e) in
            (
              pairs ++ more,
              rw (e₁, e₃) refl,
              All-append (IsWithin max) pairs more (refuse_over_sound what max pairs e₂) within,
            )
        | inr (inl (x, refused)) ↦ cc
        | inr (inr panicked) ↦ cc
      ]
      | inr (inl (x, refused)) ↦ cc
      | inr (inr panicked) ↦ cc
    ]
