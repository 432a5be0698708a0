-- ===== src/Bgp/Nlri.antt =====
-- The NLRI and Route Distinguisher encoders of src/bgp.rs. `none` is the panic of a slice that ends
-- behind the address, `&prefix[..n]`.
pub mod Reading
pub mod Vpn
use mrtgen.Base.{
  ℕ, ◌+◌, ◌*◌, ◌/◌, ◌++◌, [], ◌∷◌, Option, none, some, Bytes, as_u8, as_u32, be16, be32, length,
  take, drop, replicate, leb, bit_or, if◌then◌else◌,
}
use mrtgen.Wire.{◌>>=◌}

-- `&bs[..n]`
unfoldable pub slice_to : Bytes → ℕ → Option Bytes
slice_to bs n = if leb n (length bs) then some (take n bs) else none

-- `(bits as usize).div_ceil(8)`
abbrev pub div_ceil8 : ℕ → ℕ
div_ceil8 bits = (bits + 7) / 8

-- `nlri_v4` and `nlri_v6` have one body, over `[u8; 4]` and `[u8; 16]`.
unfoldable pub nlri_v4 : Bytes → ℕ → Option Bytes
nlri_v4 prefix bits = do octets ← slice_to prefix (div_ceil8 bits); some ((bits ∷ []) ++ octets)

unfoldable pub nlri_v6 : Bytes → ℕ → Option Bytes
nlri_v6 prefix bits = do octets ← slice_to prefix (div_ceil8 bits); some ((bits ∷ []) ++ octets)

unfoldable pub nlri_v4_addpath : ℕ → Bytes → ℕ → Option Bytes
nlri_v4_addpath path_id prefix bits = do nlri ← nlri_v4 prefix bits; some (be32 path_id ++ nlri)

unfoldable pub nlri_v6_addpath : ℕ → Bytes → ℕ → Option Bytes
nlri_v6_addpath path_id prefix bits = do nlri ← nlri_v6 prefix bits; some (be32 path_id ++ nlri)

unfoldable pub rd_type0 : ℕ → ℕ → Bytes
rd_type0 asn number = be16 0 ++ (be16 asn ++ be32 number)

unfoldable pub rd_type1 : Bytes → ℕ → Bytes
rd_type1 ip number = be16 1 ++ (ip ++ be16 number)

unfoldable pub rd_type2 : ℕ → ℕ → Bytes
rd_type2 asn number = be16 2 ++ (be32 asn ++ be16 number)

-- `(label << 4) | 0x1` on `u32`
unfoldable pub stack_entry : ℕ → ℕ
stack_entry label = bit_or (as_u32 (label * 16)) 1

-- `24 + 64 + prefix_bits` is a sum of `u8`s, which wraps in a release build.
unfoldable pub nlri_vpn : ℕ → Bytes → Bytes → ℕ → Option Bytes
nlri_vpn label rd prefix prefix_bits = do
  octets ← slice_to prefix (div_ceil8 prefix_bits)
  some (
      (((as_u8 (24 + 64 + prefix_bits) ∷ []) ++ drop 1 (be32 (stack_entry label))) ++ rd) ++ octets)

unfoldable pub vpn_next_hop : Bytes → Bytes
vpn_next_hop ip = replicate 8 0 ++ ip
