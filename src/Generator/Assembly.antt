-- ===== src/Generator/Assembly.antt =====
-- What the `emit_` functions of src/generator.rs lead to: a builder that holds the records of a list of
-- emissions, in order.
use Prim.Native.String.{String}
use mrtgen.Base.{
  ℕ, ◌+◌, ◌≡◌, refl, [], ◌∷◌, ◌++◌, List, Bool, true, false, some, arith, All, as_u32, length, map,
  append_assoc, append-nil, subst, if◌then◌else◌,
}
use mathlib.Core.List.{map-append}
use mrtgen.Writer.{MrtRecord}
use mrtgen.Writer.Framing.{IsHonest}
use mrtgen.Manifest.{CorpusProfile, RecordEntry}
use mrtgen.Generator.{Builder, new_builder, next_timestamp, push}
use mrtgen.Generator.Layout.{
  IsDescribed, new_builder-IsDescribed, push-IsDescribed, next_timestamp-IsU32,
}
use mrtgen.Generator.Loading.{Builds, here, next}
use mrtgen.Generator.Emit.{Emission, emit, emit_all, emit_if}
use mrtgen.Generator.Sound.{IsSound}

-- The entry at position `i` is stamped with the base timestamp plus `i`, as a `u32`.
abbrev pub IsStamped : {D : Type 0} → ℕ → ℕ → List (RecordEntry D) → Type 0
IsStamped base i [] = Unit
IsStamped base i (e ∷ es) = (e.timestamp ≡ as_u32 (base + as_u32 i)) × IsStamped base (i + 1) es

pub IsStamped-append :
    {D : Type 0} (base i n : ℕ) (es : List (RecordEntry D)) (e : RecordEntry D)
    → IsStamped base i es
    → n ≡ i + length es
    → e.timestamp ≡ as_u32 (base + as_u32 n)
    → IsStamped base i (es ++ (e ∷ []))
IsStamped-append base i n [] e h at_n k = let same : n ≡ i = omega arith in (rw same at k, tt)
IsStamped-append base i n (x ∷ es) e h at_n k =
    (h.0, IsStamped-append base (i + 1) n es e h.1 (omega arith) k)

module _ {D : Type 0} (details : String → D) (base : ℕ) (profile : CorpusProfile) where
  -- The builder after the emissions `es`, and nothing else.
  pub record IsAssembled (es : List Emission) (b : Builder D) : Type 0 where
    pub records : List MrtRecord
    pub builds : Builds (new_builder base profile) records b
    pub described : IsDescribed b
    pub stamped : IsStamped base 0 b.entries
    pub kinds : map (λ (e : RecordEntry D). e.kind) b.entries ≡ map (λ (e : Emission). e.kind) es
    pub expects :
        map (λ (e : RecordEntry D). e.expect) b.entries ≡ map (λ (e : Emission). e.expect) es
    pub same_base : b.base_timestamp ≡ base
    pub same_profile : b.profile ≡ profile

  pub new_builder-IsAssembled : IsAssembled [] (new_builder base profile)
  new_builder-IsAssembled = record {
    records = [];
    builds = here;
    described = new_builder-IsDescribed base profile;
    stamped = tt;
    kinds = refl;
    expects = refl;
    same_base = refl;
    same_profile = refl;
  }

  push-IsAssembled :
      (es : List Emission) (e : Emission) (b : Builder D) (r : MrtRecord)
      → IsAssembled es b
      → IsHonest r
      → r.timestamp ≡ next_timestamp b
      → IsAssembled (es ++ (e ∷ [])) (push r e.kind e.expect e.description (details e.kind) b)
  unfolding push next_timestamp
  push-IsAssembled es e b r h honest stamp = record {
    records = h.records ++ (r ∷ []);
    builds = next h.builds r e.kind e.expect e.description (details e.kind) honest;
    described = push-IsDescribed r e.kind e.expect e.description (details e.kind) b h.described;
    stamped =
        IsStamped-append base 0 (length b.entries) b.entries _ h.stamped (omega arith)
          (rw h.same_base at stamp);
    kinds = rw map-append (rw map-append (rw h.kinds));
    expects = rw map-append (rw map-append (rw h.expects));
    same_base = h.same_base;
    same_profile = h.same_profile;
  }

  -- A sound emission does not panic.
  emit-IsAssembled :
      (es : List Emission) (e : Emission) (b : Builder D)
      → IsSound e
      → IsAssembled es b
      → (b' : Builder D) × (emit details e b ≡ some b') × IsAssembled (es ++ (e ∷ [])) b'
  unfolding emit
  emit-IsAssembled es e b sound h =
      let (r, made, honest, stamp) = sound (next_timestamp b) (next_timestamp-IsU32 b) in
      (
        push r e.kind e.expect e.description (details e.kind) b,
        rw made,
        push-IsAssembled es e b r h honest stamp,
      )

  pub emit_all-IsAssembled :
      (es xs : List Emission) (b : Builder D)
      → All IsSound xs
      → IsAssembled es b
      → (b' : Builder D) × (emit_all details xs b ≡ some b') × IsAssembled (es ++ xs) b'
  unfolding emit_all
  emit_all-IsAssembled es [] b sound h = (b, refl, rw append-nil h)
  emit_all-IsAssembled es (x ∷ xs) b sound h =
      let (b₁, e₁, h₁) = emit-IsAssembled es x b sound.0 h in
      let (b₂, e₂, h₂) = emit_all-IsAssembled (es ++ (x ∷ [])) xs b₁ sound.1 h₁ in
      (b₂, rw e₁ e₂, subst (λ l. IsAssembled l b₂) (append_assoc es (x ∷ []) xs) h₂)

  pub emit_if-IsAssembled :
      (es xs : List Emission) (include : Bool) (b : Builder D)
      → All IsSound xs
      → IsAssembled es b
      → (b' : Builder D) × (emit_if details xs include b ≡ some b')
        × IsAssembled (es ++ (if include then xs else [])) b'
  unfolding emit_if
  emit_if-IsAssembled es xs true b sound h = emit_all-IsAssembled es xs b sound h
  emit_if-IsAssembled es xs false b sound h = (b, refl, rw append-nil h)
