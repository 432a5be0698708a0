-- ===== src/Routes/Generate/Refusals.antt =====
-- The flow specifications that a table dump refuses, in `generate_from_routes` of src/routes.rs.
use mrtgen.Base.{
  ℕ, suc, ◌∙◌, ◌+◌, ◌<◌, ◌≤◌, ◌≡◌, refl, [], ◌∷◌, List, false, Option, none, some, arith, is_some,
  length, Bool-cases, inl, inr, ◌⊎◌,
}
use mrtgen.Routes.Spec.{RouteSpec, ParsedRoute}
use mrtgen.Routes.Generate.{refuse_flowspec}
use mrtgen.Routes.Generate.Frames.{AreRoutes}
use mrtgen.Outcome.{Error, in_route, flowspec_in_table_dump, Outcome, ok, err, ◌>>=◌}

-- A good route that is no flow specification.
abbrev pub IsUnicast : (RouteSpec → ParsedRoute → Type 0) → RouteSpec → ParsedRoute → Type 0
IsUnicast Good spec p = Good spec p × (p.flow_nlri ≡ none)

-- The error names one of the `count` routes from `first` on, and why.
abbrev pub IsRefused {ℓ} : {A : Type ℓ} → (Error → Type 0) → ℕ → ℕ → Outcome A → Type ℓ
IsRefused Reason first count r =
    (n : ℕ) × (e : Error) × (first ≤ n) × (n < first + count) × Reason e × (r ≡ err (in_route n e))

pub later-IsRefused {ℓ} :
    {A : Type ℓ} (Reason : Error → Type 0) (first count : ℕ) (r r' : Outcome A)
    → r' ≡ r
    → IsRefused Reason (first + 1) count r
    → IsRefused Reason first (suc count) r'
later-IsRefused Reason first count r r' same (n, e, low, high, reason, h) =
    (n, e, omega arith, omega arith, reason, same ∙ h)

>>=-IsRefused {ℓ κ} :
    {A : Type ℓ} {B : Type κ} (Reason : Error → Type 0) (first count : ℕ) (r : Outcome A)
    (next : A → Outcome B)
    → IsRefused Reason first count r
    → IsRefused Reason first count (r >>= next)
>>=-IsRefused Reason first count r next (n, e, low, high, reason, h) =
    (n, e, low, high, reason, rw h)

no_flow : {A : Type 0} (o : Option A) → is_some o ≡ false → o ≡ none
no_flow none h = refl
no_flow (some x) h = absurd (cc)

module _ (Good : RouteSpec → ParsedRoute → Type 0) where
  pub refuse_flowspec-AreRoutes :
      (i : ℕ) (specs : List RouteSpec) (ps : List ParsedRoute)
      → AreRoutes Good specs ps
      → refuse_flowspec i ps ≡ ok tt
      → AreRoutes (IsUnicast Good) specs ps
  unfolding refuse_flowspec
  refuse_flowspec-AreRoutes i [] [] good h = tt
  refuse_flowspec-AreRoutes i [] (p ∷ ps) good h = absurd good
  refuse_flowspec-AreRoutes i (spec ∷ specs) [] good h = absurd good
  refuse_flowspec-AreRoutes i (spec ∷ specs) (p ∷ ps) good h =
      elim (Bool-cases (is_some p.flow_nlri)) [
        | inl refused ↦ absurd (cc (rw refused at h))
        | inr clear ↦ (
          (good.0, no_flow p.flow_nlri clear),
          refuse_flowspec-AreRoutes (i + 1) specs ps good.1 (rw clear at h),
        )
      ]

  pub refuse_flowspec-cases :
      (i : ℕ) (specs : List RouteSpec) (ps : List ParsedRoute)
      → AreRoutes Good specs ps
      → (refuse_flowspec i ps ≡ ok tt)
        ⊎ IsRefused (λ e. e ≡ flowspec_in_table_dump) i (length specs) (refuse_flowspec i ps)
  unfolding refuse_flowspec
  refuse_flowspec-cases i [] [] good = inl refl
  refuse_flowspec-cases i [] (p ∷ ps) good = absurd good
  refuse_flowspec-cases i (spec ∷ specs) [] good = absurd good
  refuse_flowspec-cases i (spec ∷ specs) (p ∷ ps) good = elim (Bool-cases (is_some p.flow_nlri)) [
    | inl flow ↦ inr (i, flowspec_in_table_dump, omega arith, omega arith, refl, rw flow)
    | inr clear ↦ elim (refuse_flowspec-cases (i + 1) specs ps good.1) [
      | inl through ↦ inl (rw (clear, through))
      | inr refused ↦ inr (
          later-IsRefused (λ e. e ≡ flowspec_in_table_dump) i (length specs)
            (refuse_flowspec (i + 1) ps) (refuse_flowspec i (p ∷ ps)) (rw clear) refused)
    ]
  ]
