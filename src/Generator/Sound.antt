-- ===== src/Generator/Sound.antt =====
-- The records that the sections of src/generator.rs list: whether each is made without a panic, at its
-- timestamp, with honest framing. The test evaluates at any timestamp.
use mrtgen.Base.{
  ℕ, ◌≡◌, refl, [], ◌∷◌, List, Bool, true, false, ◌&&◌, not, Option, none, some, arith, All, IsU32,
  length, ltb, is_some, if◌then◌else◌, map, Bool-cases, inl, inr,
}
use mrtgen.Writer.{MrtRecord}
use mrtgen.Writer.Framing.{IsHonest, payload_of}
use mrtgen.Generator.Emit.{Emission}

-- At every 32-bit timestamp there is a record of that timestamp, and it is honest.
abbrev pub IsSound : Emission → Type 0
IsSound e =
    (ts : ℕ) → IsU32 ts → (r : MrtRecord) × (e.make ts ≡ some r) × IsHonest r × (r.timestamp ≡ ts)

-- Everything that honesty asks but the range of the timestamp.
unfoldable pub fields_fit : MrtRecord → Bool
fields_fit r =
    (ltb r.mrt_type 65536 && ltb r.subtype 65536)
    && (not (is_some r.declared_length) && ltb (length (payload_of r)) 4294967296)

unfoldable pub checked : Option MrtRecord → Option ℕ
checked none = none
checked (some r) = if fields_fit r then some r.timestamp else none

fields_fit_sound : (r : MrtRecord) → IsU32 r.timestamp → fields_fit r ≡ true → IsHonest r
unfolding fields_fit
fields_fit_sound r h fits = record {
  timestamp_fits = h;
  type_fits = ground arith;
  subtype_fits = ground arith;
  computed = undeclared r.declared_length (ground arith);
  payload_fits = ground arith;
}
  where
    undeclared : (o : Option ℕ) → is_some o ≡ false → o ≡ none
    undeclared none e = refl
    undeclared (some v) e = cc

checked_sound :
    (o : Option MrtRecord) (ts : ℕ)
    → IsU32 ts
    → checked o ≡ some ts
    → (r : MrtRecord) × (o ≡ some r) × IsHonest r × (r.timestamp ≡ ts)
unfolding checked
checked_sound none ts h e = cc
checked_sound (some r) ts h e = elim (Bool-cases (fields_fit r)) [
  | inl fits ↦
      let same : r.timestamp ≡ ts = cc in (r, refl, fields_fit_sound r (rw same h) fits, same)
  | inr fails ↦ cc
]

-- A record whose test passes at every timestamp.
pub made-IsSound : (e : Emission) → ((ts : ℕ) → checked (e.make ts) ≡ some ts) → IsSound e
made-IsSound e h ts small = checked_sound (e.make ts) ts small (h ts)

pub checked-IsSound :
    (es : List Emission)
    → ((ts : ℕ) → map (λ e. checked (e.make ts)) es ≡ map (λ e. some ts) es)
    → All IsSound es
checked-IsSound [] h = tt
checked-IsSound (e ∷ es) h = (
  λ ts small.
      let made : checked (e.make ts) ≡ some ts = cc (h ts) in
      checked_sound (e.make ts) ts small made,
  checked-IsSound es (λ ts.
      let rest : map (λ x. checked (x.make ts)) es ≡ map (λ x. some ts) es = cc (h ts) in rest),
)
