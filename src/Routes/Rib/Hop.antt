-- ===== src/Routes/Rib/Hop.antt =====
-- The next-hop attribute of a RIB entry that src/routes.rs makes, as a reader finds it.
use mrtgen.Base.{
  ◌≡◌, refl, ◌++◌, [], ◌∷◌, List, Bool, true, false, Option, none, some, arith, Bytes, ◌==◌, length,
  replicate, subst, ◌⊎◌, inl, inr,
}
use mrtgen.Bgp.Attr.{attr_mp_reach_td2, attr_next_hop}
use mrtgen.Bgp.Attr.Values.{Context, Meaning}
use mrtgen.Bgp.Attr.Meanings.{Encodes}
use mrtgen.Bgp.Attr.Meanings.Scalars.{attr_next_hop-Encodes, attr_mp_reach_td2-Encodes}
use mrtgen.Bgp.Nlri.{vpn_next_hop}
use mrtgen.Routes.Spec.{ParsedRoute}
use mrtgen.Routes.Prefix.Sound.{width_of}
use mrtgen.Routes.Attrs.Meanings.{head_meanings}
use mrtgen.Routes.Announced.{hop_of, width_le}
use mrtgen.Routes.Rib.{exactly, rib_next_hop}
use mrtgen.Routes.Rib.Read.{take_hop}
use mrtgen.Outcome.{Outcome, ok, ◌>>=◌, ok-injective}

-- A next-hop attribute of a RIB entry.
abbrev IsHop : Meaning → Bytes → Type 0
IsHop m hop = (m ≡ Meaning.mp_next_hop hop) ⊎ (m ≡ Meaning.next_hop hop)

pub take_hop-behind :
    (m : Meaning) (hop : Bytes) (p : ParsedRoute) (behind : List Meaning)
    → IsHop m hop
    → take_hop ((head_meanings p ++ (m ∷ [])) ++ behind) ≡ some (hop, head_meanings p ++ behind)
unfolding take_hop
take_hop-behind m hop p behind (inl e) = rw e
take_hop-behind m hop p behind (inr e) = rw e

abbrev CarriesHop : Bytes → Bytes → Type 0
CarriesHop carrier hop = (m : Meaning) × Encodes Context.rib carrier (m ∷ []) × IsHop m hop

unfoldable pub hop_parts : Bool → Bytes → Option Bytes → Outcome Bytes
hop_parts v6 hop (some rd) = ok (attr_mp_reach_td2 (vpn_next_hop hop))
hop_parts true hop none = ok (attr_mp_reach_td2 hop)
hop_parts false hop none = do nh ← exactly 4 hop; ok (attr_next_hop nh)

pub hop_by_parts : (p : ParsedRoute) → rib_next_hop p ≡ hop_parts p.v6 p.nexthop p.rd
unfolding hop_parts
hop_by_parts p = ground arith

pub hop_parts-CarriesHop :
    (v6 : Bool) (hop : Bytes) (rd : Option Bytes) (carrier : Bytes)
    → length hop ≡ width_of v6
    → hop_parts v6 hop rd ≡ ok carrier
    → CarriesHop carrier (hop_of none rd hop)
unfolding hop_parts vpn_next_hop
hop_parts-CarriesHop v6 hop (some rd) carrier size h =
    subst (λ (c : Bytes). CarriesHop c (replicate 8 0 ++ hop)) (ok-injective h)
      (
        Meaning.mp_next_hop (replicate 8 0 ++ hop),
        attr_mp_reach_td2-Encodes (replicate 8 0 ++ hop) (omega (arith, width_le v6 hop size)),
        inl refl,
      )
hop_parts-CarriesHop true hop none carrier size h =
    subst (λ (c : Bytes). CarriesHop c hop) (ok-injective h)
      (Meaning.mp_next_hop hop, attr_mp_reach_td2-Encodes hop (omega arith), inl refl)
hop_parts-CarriesHop false hop none carrier size h =
    let sized : (length hop == 4) ≡ true = ground arith in
    subst (λ (c : Bytes). CarriesHop c hop) (ok-injective (rw sized at h))
      (Meaning.next_hop hop, attr_next_hop-Encodes Context.rib hop size, inr refl)
