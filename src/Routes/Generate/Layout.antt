-- ===== src/Routes/Generate/Layout.antt =====
-- The manifest of `generate_from_routes` in src/routes.rs against the bytes: offsets, sizes and counts.
use Prim.Native.String.{String}
use mrtgen.Base.{
  ℕ, ◌+◌, ◌≡◌, refl, ap, [], ◌∷◌, List, arith, length, length-append, subst, inl, inr,
}
use mrtgen.Writer.{MrtRecord}
use mrtgen.Manifest.{Expect, valid, skip, abort}
use mrtgen.Generator.{Corpus}
use mrtgen.Generator.Layout.{
  DescribesFile, IsLayout, number, IsLayout-append, number-append, length-push_bytes,
  count_one-same,
}
use mrtgen.Routes.Spec.{RouteFormat, table_dump_v2, bgp4mp, RouteSpec, ParsedRoute}
use mrtgen.Routes.Generate.{
  Output, parse_routes, refuse_flowspec, push_record, no_output, stamp_of, route_record,
  emit_routes, start, corpus_of, generate_from_routes,
}
use mrtgen.Routes.Parse.{parse_route}
use mrtgen.Outcome.{ok, Outcome-cases, ok-injective}

module _ {D : Type 0} where
  pub record IsOutput (out : Output D) : Type 0 where
    pub layout : IsLayout 0 0 out.entries (length out.bytes)
    pub valid_counted : out.counts.valid ≡ number valid out.entries
    pub skip_counted : out.counts.skip ≡ number skip out.entries
    pub abort_counted : out.counts.abort ≡ number abort out.entries

  no_output-IsOutput : IsOutput no_output
  no_output-IsOutput = record {
    layout = refl;
    valid_counted = refl;
    skip_counted = refl;
    abort_counted = refl;
  }

  push_record-IsOutput :
      (rec : MrtRecord) (kind : String) (expect : Expect) (description : String) (details : D)
      (out : Output D)
      → IsOutput out
      → IsOutput (push_record rec kind expect description details out)
  unfolding push_record
  push_record-IsOutput rec kind expect description details out h = record {
    layout =
        rw (length-push_bytes rec out.bytes)
          (IsLayout-append 0 0 (length out.bytes) out.entries _ h.layout (omega arith) refl);
    valid_counted = omega (arith, count_one-same expect out.counts, h.valid_counted, number-append);
    skip_counted = omega (arith, count_one-same expect out.counts, h.skip_counted, number-append);
    abort_counted = omega (arith, count_one-same expect out.counts, h.abort_counted, number-append);
  }

module _ {D : Type 0} (base_timestamp : ℕ)
    (describe : RouteFormat → RouteSpec → ParsedRoute → String)
    (details : RouteSpec → ParsedRoute → D) where
  emit_routes-IsOutput :
      (format : RouteFormat) (i : ℕ) (specs : List RouteSpec) (ps : List ParsedRoute)
      (out out' : Output D)
      → emit_routes base_timestamp describe details format i specs ps out ≡ ok out'
      → IsOutput out
      → IsOutput out'
  unfolding emit_routes
  emit_routes-IsOutput format i [] ps out out' e h = subst IsOutput (ok-injective e) h
  emit_routes-IsOutput format i (spec ∷ specs) [] out out' e h = subst IsOutput (ok-injective e) h
  emit_routes-IsOutput format i (spec ∷ specs) (p ∷ ps) out out' e h =
      elim (Outcome-cases (
        route_record base_timestamp describe details format (stamp_of base_timestamp out) i spec
          p)) [
            | inl ((rec, kind), found) ↦
                emit_routes-IsOutput format (i + 1) specs ps _ out' (rw found at e) (
                  push_record-IsOutput rec kind p.expect (describe format spec p) (details spec p)
                    out h)
            | inr (inl (x, refused)) ↦ cc
            | inr (inr panicked) ↦ cc
          ]

  length-emit_routes :
      (format : RouteFormat) (i : ℕ) (specs : List RouteSpec) (ps : List ParsedRoute)
      (out out' : Output D)
      → emit_routes base_timestamp describe details format i specs ps out ≡ ok out'
      → length specs ≡ length ps
      → length out'.entries ≡ length out.entries + length ps
  unfolding emit_routes push_record
  length-emit_routes format i [] [] out out' e h =
      omega (arith, ap (λ (x : Output D). length x.entries) (ok-injective e))
  length-emit_routes format i [] (p ∷ ps) out out' e h = absurd (omega arith)
  length-emit_routes format i (spec ∷ specs) [] out out' e h = absurd (omega arith)
  length-emit_routes format i (spec ∷ specs) (p ∷ ps) out out' e h =
      elim (Outcome-cases (
        route_record base_timestamp describe details format (stamp_of base_timestamp out) i spec
          p)) [
            | inl ((rec, kind), found) ↦
                let pushed =
                  push_record rec kind p.expect (describe format spec p) (details spec p) out in
                let later =
                  length-emit_routes format (i + 1) specs ps pushed out' (rw found at e)
                    (omega arith) in
                omega (arith, later, length-append out.entries)
            | inr (inl (x, refused)) ↦ cc
            | inr (inr panicked) ↦ cc
          ]

length-parse_routes :
    (i : ℕ) (specs : List RouteSpec) (ps : List ParsedRoute)
    → parse_routes i specs ≡ ok ps
    → length specs ≡ length ps
unfolding parse_routes
length-parse_routes i [] ps e = omega (arith, ap (length {A = ParsedRoute}) (ok-injective e))
length-parse_routes i (spec ∷ specs) ps e = elim (Outcome-cases (parse_route i spec)) [
  | inl (p, found) ↦ elim (Outcome-cases (parse_routes (i + 1) specs)) [
    | inl (qs, more) ↦
        let all : p ∷ qs ≡ ps = cc in
        omega (arith, ap (length {A = ParsedRoute}) all, length-parse_routes (i + 1) specs qs more)
    | inr (inl (x, refused)) ↦ cc
    | inr (inr panicked) ↦ cc
  ]
  | inr (inl (x, refused)) ↦ cc
  | inr (inr panicked) ↦ cc
]

-- The records in front of those of the routes.
abbrev heading : RouteFormat → ℕ
heading table_dump_v2 = 1
heading bgp4mp = 0

module _ {D : Type 0} (base_timestamp : ℕ)
    (describe : RouteFormat → RouteSpec → ParsedRoute → String)
    (details : RouteSpec → ParsedRoute → D) where
  start-IsOutput :
      (format : RouteFormat) (table_details : D) (parsed : List ParsedRoute) (out : Output D)
      → start base_timestamp describe details format table_details parsed ≡ ok out
      → IsOutput out × (length out.entries ≡ heading format)
  unfolding start push_record
  start-IsOutput bgp4mp table_details parsed out e =
      subst (λ (x : Output D). IsOutput x × (length x.entries ≡ 0)) (ok-injective e)
        (no_output-IsOutput, refl)
  start-IsOutput table_dump_v2 table_details parsed out e =
      elim (Outcome-cases (refuse_flowspec 0 parsed)) [
        | inl (done, found) ↦
            subst (λ (x : Output D). IsOutput x × (length x.entries ≡ 1))
              (ok-injective (rw found at e))
              (push_record-IsOutput _ _ valid _ table_details no_output no_output-IsOutput, refl)
        | inr (inl (x, refused)) ↦ cc
        | inr (inr panicked) ↦ cc
      ]

  emitted-IsDescribed :
      (version : String) (n : ℕ) (out : Output D)
      → IsOutput out
      → length out.entries ≡ n
      → DescribesFile n (corpus_of version out)
  emitted-IsDescribed version n out h k =
      (k, refl, h.layout, h.valid_counted, h.skip_counted, h.abort_counted)

  loop-IsDescribed :
      (version : String) (table_details : D) (specs : List RouteSpec) (format : RouteFormat)
      (parsed : List ParsedRoute) (begun out : Output D)
      → parse_routes 0 specs ≡ ok parsed
      → start base_timestamp describe details format table_details parsed ≡ ok begun
      → emit_routes base_timestamp describe details format 0 specs parsed begun ≡ ok out
      → DescribesFile (heading format + length specs) (corpus_of version out)
  loop-IsDescribed version table_details specs format parsed begun out e₁ e₂ e₃ =
      let (good, size) = start-IsOutput format table_details parsed begun e₂ in
      let same = length-parse_routes 0 specs parsed e₁ in
      emitted-IsDescribed version _ out
        (emit_routes-IsOutput base_timestamp describe details format 0 specs parsed begun out e₃
          good)
        (omega (
          arith,
          length-emit_routes base_timestamp describe details format 0 specs parsed begun out e₃
              same,
        ))

  -- Where a route list gives a corpus, in either format, the manifest lists one record for each
  -- route, behind the peer table of a table dump; the records tile the file from offset 0 to
  -- the file size, which is that of the bytes, with indices in order; and the counts are those
  -- of the entries.
  pub generate_from_routes-IsDescribed :
      (version : String) (table_details : D) (specs : List RouteSpec) (format : RouteFormat)
      (corpus : Corpus D)
      → generate_from_routes base_timestamp describe details version table_details specs format
        ≡ ok corpus
      → DescribesFile (heading format + length specs) corpus
  unfolding generate_from_routes
  generate_from_routes-IsDescribed version table_details specs format corpus e =
      elim (Outcome-cases (parse_routes 0 specs)) [
        | inl (parsed, e₁) ↦
            elim (Outcome-cases
              (start base_timestamp describe details format table_details parsed)) [
                | inl (begun, e₂) ↦
                    elim (Outcome-cases
                      (emit_routes base_timestamp describe details format 0 specs parsed begun)) [
                        | inl (out, e₃) ↦
                            subst (DescribesFile (heading format + length specs))
                              (ok-injective (rw (e₁, e₂, e₃) at e))
                              (loop-IsDescribed version table_details specs format parsed begun out
                                e₁ e₂ e₃)
                        | inr (inl (x, refused)) ↦ cc
                        | inr (inr panicked) ↦ cc
                      ]
                | inr (inl (x, refused)) ↦ cc
                | inr (inr panicked) ↦ cc
              ]
        | inr (inl (x, refused)) ↦ cc
        | inr (inr panicked) ↦ cc
      ]
