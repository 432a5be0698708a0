-- ===== src/Outcome.antt =====
-- What a fallible function of src/flowspec.rs and src/routes.rs returns: a value, one of its error
-- messages, or a panic. An error carries the field that its message names, where that varies.
use Prim.Native.String.{String}
use mrtgen.Base.{
  ℕ, Option, none, some, Bool, true, false, List, [], ◌∷◌, ◌≡◌, refl, ◌⊎◌, inl, inr, All, subst,
}

pub data Error : Type 0 where
  -- prefixes
  expected_address_length bad_prefix_length prefix_too_long bad_address : Error
  -- flow specifications
  unknown_flag empty_operator many_operators value_too_large : String → Error
  odd_hex invalid_hex host_bits bitmask_too_wide families_differ : String → Error
  bad_afi flow_label_ipv4 no_component nlri_too_long : Error
  -- routes
  abort_expected bad_nexthop bad_origin bad_community bad_ext_community : Error
  bad_ipv6_ext_community bad_rd bad_aggregator bad_large_community bad_redirect : Error
  bad_router_id bad_rate : String → Error
  bad_dscp bad_flags bad_value_hex : Error
  prefix_and_flowspec no_prefix prefix_host_bits raw_components actions_without_flowspec : Error
  rd_with_flowspec label_without_rd label_too_large no_nexthop as_path_too_long : Error
  flowspec_in_table_dump attributes_too_long update_too_long : Error
  -- `format!("route {i}: {e}")`
  in_route : ℕ → Error → Error

pub data Outcome {ℓ} (A : Type ℓ) : Type ℓ where
  ok : A → Outcome A
  err : Error → Outcome A
  panic : Outcome A

infixl 5 ◌>>=◌ ◌>>◌
abbrev pub ◌>>=◌ {ℓ κ} : {A : Type ℓ} {B : Type κ} → Outcome A → (A → Outcome B) → Outcome B
ok a >>= f = f a
err e >>= f = err e
panic >>= f = panic

abbrev pub ◌>>◌ {ℓ} : {B : Type ℓ} → Outcome (Unit {0}) → Outcome B → Outcome B
m >> k = m >>= λ _. k

-- `.ok_or(e)`, `.map_err(|_| e)` on an `Option`
abbrev pub ok_or {ℓ} : {A : Type ℓ} → Option A → Error → Outcome A
ok_or none e = err e
ok_or (some a) e = ok a

-- What an indexing or slicing gives.
abbrev pub or_panic {ℓ} : {A : Type ℓ} → Option A → Outcome A
or_panic none = panic
or_panic (some a) = ok a

-- `if b { return Err(e) }`
abbrev pub refuse_if : Bool → Error → Outcome (Unit {0})
refuse_if true e = err e
refuse_if false e = ok tt

-- `.map_err(f)`
abbrev pub map_err {ℓ} : {A : Type ℓ} → (Error → Error) → Outcome A → Outcome A
map_err f (ok a) = ok a
map_err f (err e) = err (f e)
map_err f panic = panic

-- `iter().map(f).collect::<Result<_, _>>()`: the first failure wins.
abbrev pub collect {ℓ κ} : {A : Type ℓ} {B : Type κ} → (A → Outcome B) → List A → Outcome (List B)
collect f [] = ok []
collect f (x ∷ xs) = do y ← f x; ys ← collect f xs; ok (y ∷ ys)

-- `opt.map(f).transpose()`
abbrev pub transpose {ℓ κ} :
    {A : Type ℓ} {B : Type κ} → (A → Outcome B) → Option A → Outcome (Option B)
transpose f none = ok none
transpose f (some a) = do b ← f a; ok (some b)

-- A value comes out.
abbrev pub IsMade {ℓ} : {A : Type ℓ} → Outcome A → Type ℓ
IsMade {A = A} r = (a : A) × (r ≡ ok a)

pub Outcome-cases {ℓ} :
    {A : Type ℓ} (r : Outcome A)
    → ((a : A) × (r ≡ ok a)) ⊎ ((e : Error) × (r ≡ err e)) ⊎ (r ≡ panic)
Outcome-cases (ok a) = inl (a, refl)
Outcome-cases (err e) = inr (inl (e, refl))
Outcome-cases panic = inr (inr refl)

pub ok-injective {ℓ} : {A : Type ℓ} {a b : A} → ok a ≡ ok b → a ≡ b
ok-injective e = cc

-- A chain that succeeds: the proof goes on from the first value.
pub >>=-elim {ℓ κ μ} :
    {A : Type ℓ} {B : Type κ} {C : Type μ} (m : Outcome A) {f : A → Outcome B} {b : B}
    → (m >>= f) ≡ ok b
    → ((a : A) → m ≡ ok a → f a ≡ ok b → C)
    → C
>>=-elim (ok a) h k = k a refl h
>>=-elim (err e) h k = absurd (cc)
>>=-elim panic h k = absurd (cc)

module _ {ℓ κ} {A : Type ℓ} {B : Type κ} where
  -- The same, taken apart.
  pub >>=-ok :
      (r : Outcome A) (next : A → Outcome B) {made : B}
      → r >>= next ≡ ok made
      → (x : A) × (r ≡ ok x) × (next x ≡ ok made)
  >>=-ok r next h = >>=-elim r h λ x first rest. (x, first, rest)

module _ {ℓ κ} {A : Type ℓ} {B : Type κ} where
  -- What holds of every success holds of all that are collected.
  pub collect-All {μ} :
      (P : B → Type μ) (f : A → Outcome B)
      → ((a : A) (b : B) → f a ≡ ok b → P b)
      → (as' : List A) {bs : List B} → collect f as' ≡ ok bs
      → All P bs
  collect-All P f sound [] h = subst (All P) (ok-injective h) tt
  collect-All P f sound (a ∷ as') h =
      let (b, one, rest) = >>=-ok (f a) _ h in
      let (bs, others, made) = >>=-ok (collect f as') _ rest in
      subst (All P) (ok-injective made) (sound a b one, collect-All P f sound as' others)

  pub transpose-ok {μ} :
      (P : B → Type μ) (f : A → Outcome B)
      → ((a : A) (b : B) → f a ≡ ok b → P b)
      → (o : Option A) {o' : Option B} → transpose f o ≡ ok o'
      → (b : B) → o' ≡ some b
      → P b
  transpose-ok P f sound none h b e = cc
  transpose-ok P f sound (some a) h b e =
      let (b', one, made) = >>=-ok (f a) _ h in
      let same : b' ≡ b = cc in sound a b (subst (λ (x : B). f a ≡ ok x) same one)

pub ok_or-ok {ℓ} : {A : Type ℓ} (o : Option A) (e : Error) {a : A} → ok_or o e ≡ ok a → o ≡ some a
ok_or-ok none e h = cc
ok_or-ok (some a) e h = cc

pub or_panic-ok {ℓ} : {A : Type ℓ} (o : Option A) {a : A} → or_panic o ≡ ok a → o ≡ some a
or_panic-ok none h = cc
or_panic-ok (some a) h = cc

pub refuse_if-ok : (b : Bool) (e : Error) {u : Unit {0}} → refuse_if b e ≡ ok u → b ≡ false
refuse_if-ok true e h = cc
refuse_if-ok false e h = refl

pub map_err-ok {ℓ} :
    {A : Type ℓ} (f : Error → Error) (r : Outcome A) {a : A} → map_err f r ≡ ok a → r ≡ ok a
map_err-ok f (ok a) h = h
map_err-ok f (err e) h = cc
map_err-ok f panic h = cc
