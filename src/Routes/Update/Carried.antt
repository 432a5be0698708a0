-- ===== src/Routes/Update/Carried.antt =====
-- Path attributes and NLRI that announce one route, as a reader sees them.
use mrtgen.Base.{
  ℕ, ◌+◌, ◌*◌, ◌<◌, ◌≤◌, ◌≡◌, refl, ◌++◌, [], ◌∷◌, List, Bool, true, false, Option, none, some,
  arith, Bytes, IsU16, IsU8, IsU32, ◌==◌, ◌&&◌, length, length-append, length-replicate, replicate,
  is_some, if◌then◌else◌, subst, inl, inr, append-nil, Bool-cases, ◌∙◌, ◌⊎◌, sym, be16, as_u8,
}
use mrtgen.Types
use mrtgen.Bgp.Attr.{attr_mp_reach}
use mrtgen.Bgp.Attr.Values.{update, Meaning}
use mrtgen.Bgp.Attr.Meanings.{Encodes}
use mrtgen.Bgp.Attr.Meanings.Scalars.{attr_mp_reach-Encodes}
use mrtgen.Bgp.Nlri.Reading.{IsCanonical, encoded_prefix, read_prefix-encoded}
use mrtgen.Bgp.Nlri.Vpn.{encoded_vpn, read_vpn-encoded}
use mrtgen.Records.TableDump.Rib.{read_path_id-bytes}
use mrtgen.Routes.Prefix.Sound.{IsPrefix, width_of}
use mrtgen.Routes.Attrs.{with_path_id}
use mrtgen.Routes.Attrs.Wire.{length-attribute_ge}
use mrtgen.Routes.Rib.{afi_of}
use mrtgen.Routes.Update.Announced.{read_announced, announced_by}
use mrtgen.Routes.Announced.{
  Nlri, Announcement, IsWordOption, word-IsPathId, with_path_id-id_bytes, width_le,
}

-- A flow specification, a VPN route and a prefix, each behind its Path Identifier.
module _ (id : Option ℕ) (word : IsWordOption id) (v6 : Bool) (hop : Bytes) where
  pub flow_announced :
      (flow : Bytes)
      → read_announced (is_some id) (afi_of v6) 133 hop (with_path_id id flow)
        ≡ some (record {
          afi = afi_of v6;
          safi = 133;
          next_hop = hop;
          path_id = id;
          nlri = Nlri.flow flow;
        })
  unfolding read_announced
  flow_announced flow =
      rw (with_path_id-id_bytes id flow)
        (rw (read_path_id-bytes (is_some id) id flow (word-IsPathId id word)))

  afi_width : (if afi_of v6 == 2 then 16 else 4) ≡ width_of v6
  afi_width = elim (Bool-cases v6) [ inl e ↦ rw e refl | inr e ↦ rw e refl ]

  pub prefix_announced :
      (addr : Bytes) (bits : ℕ)
      → IsPrefix v6 addr bits
      → IsCanonical addr bits
      → read_announced (is_some id) (afi_of v6) 1 hop (with_path_id id (encoded_prefix addr bits))
        ≡ some (record {
          afi = afi_of v6;
          safi = 1;
          next_hop = hop;
          path_id = id;
          nlri = Nlri.prefix bits addr;
        })
  unfolding read_announced
  prefix_announced addr bits p canonical =
      rw (with_path_id-id_bytes id (encoded_prefix addr bits)) (
        rw (read_path_id-bytes (is_some id) id (encoded_prefix addr bits) (word-IsPathId id word)) (
          rw afi_width (
            rw (← p.sized)
              (rw (simp append-nil at (read_prefix-encoded addr bits p.in_width canonical []))))))

  pub vpn_announced :
      (label : ℕ) (rd addr : Bytes) (bits : ℕ)
      → label < 1048576
      → length rd ≡ 8
      → IsPrefix v6 addr bits
      → IsCanonical addr bits
      → read_announced
          (is_some id)
          (afi_of v6)
          128
          hop
          (with_path_id id (encoded_vpn label rd addr bits))
        ≡ some (record {
          afi = afi_of v6;
          safi = 128;
          next_hop = hop;
          path_id = id;
          nlri = Nlri.vpn (record { label = label; rd = rd; bits = bits; prefix = addr });
        })
  unfolding read_announced
  vpn_announced label rd addr bits small octets p canonical =
      let whole =
        read_vpn-encoded label rd addr bits small octets (width_le v6 addr p.sized) p.in_width
          canonical [] in
      rw (with_path_id-id_bytes id (encoded_vpn label rd addr bits)) (
        rw
          (read_path_id-bytes (is_some id) id (encoded_vpn label rd addr bits)
            (word-IsPathId id word))
          (rw afi_width (rw (← p.sized) (rw (simp append-nil at whole)))))

-- The value of the attribute fits, since the attribute does.
mp_reach_fits :
    (afi safi : ℕ) (hop nlri : Bytes)
    → length (attr_mp_reach afi safi hop nlri) ≤ 65535
    → IsU16 (5 + length hop + length nlri)
unfolding attr_mp_reach mrtgen.Base.be16
mp_reach_fits afi safi hop nlri h =
    let value = be16 afi ++ (safi ∷ as_u8 (length hop) ∷ []) ++ hop ++ (0 ∷ []) ++ nlri in
    let small = length-attribute_ge Types.flag_optional Types.attr_mp_reach_nlri value in
    let size : length value ≡ 5 + length hop + length nlri = simp length-append (omega arith) in
    omega (arith, small, size, h)

-- The next-hop attribute and the UPDATE's own NLRI make a reader see this announcement.
abbrev pub Carries : Option ℕ → Bytes × Bytes → Announcement → Type 0
Carries id (carrier, nlri) a =
    (m : Meaning) × Encodes update carrier (m ∷ []) × (announced_by (is_some id) m nlri ≡ some a)

module _ (id : Option ℕ) (word : IsWordOption id) (v6 : Bool) where
  pub mp_reach-Carries :
      (safi : ℕ) (hop nlri : Bytes) (a : Announcement)
      → IsU8 (length hop)
      → length (attr_mp_reach (afi_of v6) safi hop nlri) ≤ 65535
      → read_announced (is_some id) (afi_of v6) safi hop nlri ≡ some a
      → Carries id (attr_mp_reach (afi_of v6) safi hop nlri, []) a
  unfolding announced_by
  mp_reach-Carries safi hop nlri a small fits reads = (
    Meaning.mp_reach (afi_of v6) safi hop nlri,
    attr_mp_reach-Encodes (afi_of v6) safi hop nlri afi_fits small
        (mp_reach_fits (afi_of v6) safi hop nlri fits),
    reads,
  )
    where
      afi_fits : IsU16 (afi_of v6)
      afi_fits = ground arith
