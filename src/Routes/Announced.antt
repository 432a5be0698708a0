-- ===== src/Routes/Announced.antt =====
-- What a route announces, and the parts of it that src/routes.rs writes in every format.
use mrtgen.Base.{
  ℕ, ◌≤◌, ◌≡◌, refl, ◌++◌, Bool, true, false, Option, none, some, arith, Bytes, IsU32, length,
  replicate, is_some, if◌then◌else◌, inl, inr,
}
use mrtgen.Bgp.Nlri.Vpn.{VpnRoute}
use mrtgen.Records.TableDump.Rib.{id_bytes, IsPathId}
use mrtgen.Routes.Spec.{RouteSpec, ParsedRoute}
use mrtgen.Routes.Prefix.Sound.{width_of}
use mrtgen.Routes.Parse.Targets.{IsNexthop}
use mrtgen.Routes.Attrs.{with_path_id}

-- A prefix, a VPN route, or the bytes of a flow specification.
pub data Nlri : Type 0 where
  prefix : ℕ → Bytes → Nlri
  vpn : VpnRoute → Nlri
  flow : Bytes → Nlri

pub record Announcement : Type 0 where
  pub afi : ℕ
  pub safi : ℕ
  pub next_hop : Bytes
  pub path_id : Option ℕ
  pub nlri : Nlri

-- AFI, SAFI and NLRI of a route, by what it announces: RFC 4760, RFC 4364 and RFC 8955.
abbrev family_of : Bool → ℕ
family_of v6 = if v6 then 2 else 1

abbrev safi_of : Option Bytes → Option Bytes → ℕ
safi_of (some rule) rd = 133
safi_of none (some rd) = 128
safi_of none none = 1

abbrev pub hop_of : Option Bytes → Option Bytes → Bytes → Bytes
hop_of (some rule) rd hop = hop
hop_of none (some rd) hop = replicate 8 0 ++ hop
hop_of none none hop = hop

abbrev nlri_of : Option Bytes → Option Bytes → ℕ → ℕ → Bytes → Nlri
nlri_of (some rule) rd label bits addr = Nlri.flow rule
nlri_of none (some rd) label bits addr =
    Nlri.vpn (record { label = label; rd = rd; bits = bits; prefix = addr })
nlri_of none none label bits addr = Nlri.prefix bits addr

-- What a route announces.
abbrev pub announcement_of : RouteSpec → ParsedRoute → Announcement
announcement_of spec p = record {
  afi = family_of p.v6;
  safi = safi_of p.flow_nlri p.rd;
  next_hop = hop_of p.flow_nlri p.rd p.nexthop;
  path_id = spec.path_id;
  nlri = nlri_of p.flow_nlri p.rd p.label p.bits p.prefix;
}

abbrev pub announced_parts :
    Option ℕ → Bool → Bytes → ℕ → Bytes → ℕ → Option Bytes → Option Bytes → Announcement
announced_parts id v6 addr bits hop label rule rd = record {
  afi = family_of v6;
  safi = safi_of rule rd;
  next_hop = hop_of rule rd hop;
  path_id = id;
  nlri = nlri_of rule rd label bits addr;
}

-- A Path Identifier is a word.
abbrev pub IsWordOption : Option ℕ → Type 0
IsWordOption o = (v : ℕ) → o ≡ some v → IsU32 v

pub word-IsPathId : (o : Option ℕ) → IsWordOption o → IsPathId (is_some o) o
word-IsPathId none h = tt
word-IsPathId (some id) h = h id refl

pub with_path_id-id_bytes : (o : Option ℕ) (bs : Bytes) → with_path_id o bs ≡ id_bytes o ++ bs
unfolding with_path_id
with_path_id-id_bytes none bs = refl
with_path_id-id_bytes (some id) bs = refl

pub width_le : (v6 : Bool) (addr : Bytes) → length addr ≡ width_of v6 → length addr ≤ 16
width_le true addr h = omega arith
width_le false addr h = omega arith

-- A next hop has sixteen octets at most.
pub nexthop_le :
    (v6 : Bool) (rule : Option Bytes) (hop : Bytes) → IsNexthop v6 rule hop → length hop ≤ 16
nexthop_le true none hop h = omega arith
nexthop_le false none hop h = omega arith
nexthop_le true (some rule) hop (inl h) = omega arith
nexthop_le false (some rule) hop (inl h) = omega arith
nexthop_le v6 (some rule) hop (inr h) = rw h (omega arith)
