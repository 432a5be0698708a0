-- ===== src/Tests/Attributes.antt =====
-- Path attributes, NLRI and messages.
use mrtgen.Base.{
  ◌≡◌, refl, ◌++◌, [], ◌∷◌, List, Bytes, some, length, ◌≤◌, be16, arith, map, replicate,
}
use mrtgen.Types
use mrtgen.Wire.{◌>>=◌}
use mrtgen.Wire.Many.{flat}
use mrtgen.Bgp.Attr.Walk.{RawAttr, encode_attr, decoded, read_attrs, read_attrs-flat}
use mrtgen.Bgp.Nlri.{nlri_v4, nlri_v6, nlri_vpn}
use mrtgen.Bgp.Nlri.Reading.{read_prefix, read_prefix-nlri}
use mrtgen.Bgp.Nlri.Vpn.{read_vpn, read_vpn-nlri_vpn}
use mrtgen.Bgp.Message.{bgp_message_raw, bgp_message, bgp_update, update_payload}
use mrtgen.Bgp.Message.Reading.{read_message, read_update, read_message-bgp_update}

-- A short attribute and one that needs the extended length.
abbrev two_attrs : List RawAttr
two_attrs = (0x40, 1, 0 ∷ []) ∷ (0xd0, 99, replicate 300 0xab) ∷ []

read_attrs-flat_example : read_attrs (flat encode_attr two_attrs) ≡ some (map decoded two_attrs)
read_attrs-flat_example =
    read_attrs-flat two_attrs ((omega arith, omega arith), ((omega arith, omega arith), tt))

abbrev prefix_10 : Bytes
prefix_10 = 10 ∷ 1 ∷ 0 ∷ 0 ∷ []

read_prefix-nlri_example :
    ((nlri_v4 prefix_10 16 >>= λ nlri. read_prefix 4 (nlri ++ (9 ∷ [])))
      ≡ some (16, prefix_10, 9 ∷ []))
    × ((nlri_v6 prefix_10 16 >>= λ nlri. read_prefix 4 (nlri ++ (9 ∷ [])))
        ≡ some (16, prefix_10, 9 ∷ []))
read_prefix-nlri_example = read_prefix-nlri prefix_10 16 (omega arith) (refl, (refl, tt)) (9 ∷ [])

abbrev rd_1_2 : Bytes
rd_1_2 = 0 ∷ 0 ∷ 0 ∷ 1 ∷ 0 ∷ 0 ∷ 0 ∷ 2 ∷ []

read_vpn-nlri_vpn_example :
    (nlri_vpn 1000 rd_1_2 prefix_10 16 >>= λ nlri. read_vpn 4 (nlri ++ (9 ∷ [])))
    ≡ some (record { label = 1000; rd = rd_1_2; bits = 16; prefix = prefix_10 }, 9 ∷ [])
read_vpn-nlri_vpn_example =
    read_vpn-nlri_vpn 1000 rd_1_2 prefix_10 16 (omega arith) refl (omega arith) (omega arith)
      (refl, (refl, tt)) (9 ∷ [])

small_update : length (bgp_update [] (0x40 ∷ 1 ∷ 1 ∷ 0 ∷ []) (8 ∷ 10 ∷ [])) ≤ 4096
unfolding bgp_update update_payload bgp_message bgp_message_raw be16
small_update = omega arith

read_message-bgp_update_example :
    (read_message (bgp_update [] (0x40 ∷ 1 ∷ 1 ∷ 0 ∷ []) (8 ∷ 10 ∷ []) ++ (7 ∷ []))
      ≡ some (Types.bgp_update, update_payload [] (0x40 ∷ 1 ∷ 1 ∷ 0 ∷ []) (8 ∷ 10 ∷ []), 7 ∷ []))
    × (read_update (update_payload [] (0x40 ∷ 1 ∷ 1 ∷ 0 ∷ []) (8 ∷ 10 ∷ []))
        ≡ some ([], 0x40 ∷ 1 ∷ 1 ∷ 0 ∷ [], 8 ∷ 10 ∷ []))
read_message-bgp_update_example =
    read_message-bgp_update [] (0x40 ∷ 1 ∷ 1 ∷ 0 ∷ []) (8 ∷ 10 ∷ []) (7 ∷ []) small_update
