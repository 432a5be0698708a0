-- ===== src/Records/Attrs.antt =====
-- The representative attribute sets of src/records.rs. The sums are of `u32`s and wrap in a release
-- build.
use mrtgen.Base.{ℕ, ◌+◌, ◌++◌, [], ◌∷◌, Bytes, as_u8, as_u32, bit_or, replicate}
use mrtgen.Bgp.Attr.{
  attr_origin, attr_as_path_4b, attr_next_hop, attr_med, attr_local_pref, attr_atomic_aggregate,
  attr_aggregator_4b, attr_communities, attr_mp_reach_td2,
}

unfoldable pub standard_attrs_v4 : ℕ → Bytes
standard_attrs_v4 salt =
    attr_origin 0
    ++ (attr_as_path_4b
          (as_u32 (64500 + salt) ∷ as_u32 (65000 + salt) ∷ as_u32 (4200000000 + salt) ∷ [])
        ++ (attr_next_hop (192 ∷ 0 ∷ 2 ∷ as_u8 (as_u32 (1 + salt)) ∷ [])
            ++ (attr_med (as_u32 (100 + salt))
                ++ (attr_local_pref (as_u32 (200 + salt))
                    ++ (attr_atomic_aggregate
                        ++ (attr_aggregator_4b (as_u32 (64500 + salt)) (192 ∷ 0 ∷ 2 ∷ 254 ∷ [])
                            ++ attr_communities
                                (bit_or 4227072000 (as_u32 (10 + salt)) ∷ 0xffffff01 ∷ [])))))))

abbrev standard_next_hop_v6 : ℕ → Bytes
standard_next_hop_v6 salt =
    0x20 ∷ 0x01 ∷ 0x0d ∷ 0xb8 ∷ (replicate 11 0 ++ (as_u8 (as_u32 (1 + salt)) ∷ []))

unfoldable pub standard_attrs_v6 : ℕ → Bytes
standard_attrs_v6 salt =
    attr_origin 1
    ++ (attr_as_path_4b (as_u32 (64500 + salt) ∷ as_u32 (4200000000 + salt) ∷ [])
        ++ (attr_mp_reach_td2 (standard_next_hop_v6 salt) ++ attr_local_pref (as_u32 (300 + salt))))
