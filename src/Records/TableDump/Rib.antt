-- ===== src/Records/TableDump/Rib.antt =====
-- RIB records read back: RFC 6396 sections 4.3.2 to 4.3.4 and RFC 8050 section 4.
use mrtgen.Base.{
  ℕ, ◌≤◌, ◌*◌, ◌≡◌, refl, ◌++◌, [], List, Bool, true, false, Option, none, some, Bytes, All, IsU16,
  IsU32, as_u16, length, append_assoc, append-nil, ap, sym, be16, be32, unwrap_or,
}
use native.Mathlib.Nat.{mod-eq_of_lt}
use mrtgen.Wire.{
  ◌>>=◌, read_u16, read_u32, read_bytes, read_u16-be16, read_u32-be32, read_bytes-append,
}
use mrtgen.Wire.Many.{read_many, flat, read_many-flat}
use mrtgen.Writer.Buf.{Buf, each-flat}
use mrtgen.Bgp.Nlri.Reading.{read_prefix, encoded_prefix, read_prefix-encoded, IsCanonical}
use mrtgen.Records.TableDump.{RibEntry, push_path_id, encode_entry, rib_afi_safi}

-- A Path Identifier is there exactly in the `_ADDPATH` subtypes.
abbrev pub read_path_id : Bool → Bytes → Option (Option ℕ × Bytes)
read_path_id false bs = some (none, bs)
read_path_id true bs = do (id, rest) ← read_u32 bs; some (some id, rest)

unfoldable pub read_entry : Bool → Bytes → Option (RibEntry × Bytes)
read_entry addpath bs = do
  (peer_index, bs₁) ← read_u16 bs
  (originated, bs₂) ← read_u32 bs₁
  (path_id, bs₃) ← read_path_id addpath bs₂
  (len, bs₄) ← read_u16 bs₃
  (attributes, rest) ← read_bytes len bs₄
  some (
    record {
      peer_index = peer_index;
      originated_time = originated;
      path_id = path_id;
      attributes = attributes;
      declared_attr_len = none;
    },
    rest,
  )

abbrev pub IsPathId : Bool → Option ℕ → Type 0
IsPathId false none = Unit
IsPathId true (some id) = IsU32 id
IsPathId false (some id) = ⊥
IsPathId true none = ⊥

pub record IsEntry (addpath : Bool) (e : RibEntry) : Type 0 where
  pub index_fits : IsU16 e.peer_index
  pub time_fits : IsU32 e.originated_time
  pub id_present : IsPathId addpath e.path_id
  pub attrs_fit : IsU16 (length e.attributes)
  pub computed : e.declared_attr_len ≡ none

abbrev pub id_bytes : Option ℕ → Bytes
id_bytes none = []
id_bytes (some id) = be32 id

abbrev pub entry_bytes : RibEntry → Bytes
entry_bytes e =
    be16 e.peer_index
    ++ (be32 e.originated_time
        ++ (id_bytes e.path_id
            ++ (be16 (unwrap_or e.declared_attr_len (as_u16 (length e.attributes)))
                ++ e.attributes)))

push_path_id-append : (id : Option ℕ) (b : Buf) → push_path_id id b ≡ b ++ id_bytes id
push_path_id-append none b = rw append-nil
push_path_id-append (some id) b = refl

pub encode_entry_layout : (e : RibEntry) (b : Buf) → encode_entry e b ≡ b ++ entry_bytes e
unfolding encode_entry
encode_entry_layout e b =
    rw (push_path_id-append e.path_id (b ++ be16 e.peer_index ++ be32 e.originated_time))
      (simp append_assoc)

pub read_path_id-bytes :
    (addpath : Bool) (id : Option ℕ) (rest : Bytes)
    → IsPathId addpath id
    → read_path_id addpath (id_bytes id ++ rest) ≡ some (id, rest)
read_path_id-bytes false none rest h = refl
read_path_id-bytes true (some id) rest h = rw (read_u32-be32 id rest h)
read_path_id-bytes false (some id) rest h = absurd h
read_path_id-bytes true none rest h = absurd h

read_entry-bytes :
    (addpath : Bool) (e : RibEntry) (rest : Bytes)
    → IsEntry addpath e
    → read_entry addpath (entry_bytes e ++ rest) ≡ some (e, rest)
unfolding read_entry
read_entry-bytes addpath e rest h =
    simp (append_assoc, h.computed)
      (rw (mod-eq_of_lt h.attrs_fit) (
        rw (read_u16-be16 e.peer_index _ h.index_fits) (
          rw (read_u32-be32 e.originated_time _ h.time_fits) (
            rw (read_path_id-bytes addpath e.path_id _ h.id_present) (
              rw (read_u16-be16 (length e.attributes) _ h.attrs_fit) (
                rw (read_bytes-append e.attributes rest) (
                  ap {A = Option ℕ} (λ d. some (record e { declared_attr_len = d }, rest))
                    (sym h.computed))))))))

unfoldable pub read_entries : Bool → Bytes → Option (List RibEntry)
read_entries addpath bs = do
  (count, bs₁) ← read_u16 bs
  (entries, rest) ← read_many (read_entry addpath) count bs₁
  some entries

pub read_entries-flat :
    (addpath : Bool) (entries : List RibEntry)
    → IsU16 (length entries)
    → All (IsEntry addpath) entries
    → read_entries addpath (be16 (as_u16 (length entries)) ++ flat entry_bytes entries)
      ≡ some entries
unfolding read_entries
read_entries-flat addpath entries hn h = rw (mod-eq_of_lt hn) (
    rw (read_u16-be16 (length entries) _ hn) (
      rw (
        simp append-nil at (
          read_many-flat (read_entry addpath) entry_bytes (IsEntry addpath)
            (read_entry-bytes addpath) entries [] h))))

pub record RibRecord : Type 0 where
  pub sequence : ℕ
  pub bits : ℕ
  pub prefix : Bytes
  pub entries : List RibEntry

-- Subtypes 2 to 5 and 8 to 11: the prefix's family and the entries' form are the subtype's.
unfoldable pub read_rib : ℕ → Bool → Bytes → Option RibRecord
read_rib width addpath bs = do
  (sequence, bs₁) ← read_u32 bs
  (bits, prefix, bs₂) ← read_prefix width bs₁
  entries ← read_entries addpath bs₂
  some (record { sequence = sequence; bits = bits; prefix = prefix; entries = entries })

-- The body of an AFI/SAFI-specific RIB record gives back the sequence number, the prefix and
-- every entry, with Path Identifiers or without, if the prefix is in range with no octet set
-- behind its own and every entry fits its fields and declares its own length.
pub read_rib-rib_afi_safi :
    (timestamp subtype sequence : ℕ) (prefix : Bytes) (bits : ℕ) (addpath : Bool)
    (entries : List RibEntry)
    → IsU32 sequence
    → bits ≤ 8 * length prefix
    → IsCanonical prefix bits
    → IsU16 (length entries)
    → All (IsEntry addpath) entries
    → read_rib
        (length prefix)
        addpath
        (rib_afi_safi timestamp subtype sequence (encoded_prefix prefix bits) entries).body
      ≡ some (record { sequence = sequence; bits = bits; prefix = prefix; entries = entries })
unfolding read_rib rib_afi_safi
read_rib-rib_afi_safi timestamp subtype sequence prefix bits addpath entries hs hb hc hn h =
    rw
      (each-flat encode_entry entry_bytes encode_entry_layout entries
        (be32 sequence ++ encoded_prefix prefix bits ++ be16 (as_u16 (length entries))))
      (simp append_assoc (
        rw (read_u32-be32 sequence _ hs) (
          rw (read_prefix-encoded prefix bits hb hc _)
            (rw (read_entries-flat addpath entries hn h)))))
