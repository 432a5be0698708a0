-- ===== src/Bgp/Attr/Meanings.antt =====
-- Each encoder of src/bgp.rs against the meaning of what it writes.
pub mod Scalars
pub mod Lists
use mrtgen.Base.{
  ℕ, ◌+◌, ◌*◌, ◌/◌, ◌<◌, ◌≡◌, refl, ◌++◌, ◌∷◌, [], List, Option, none, some, arith, Bytes, IsU16,
  IsU8, length, append_assoc, append-nil, sym, ◌∙◌,
}
use mrtgen.Wire.{◌>>=◌}
use mrtgen.Bgp.Attr.{attribute}
use mrtgen.Bgp.Attr.Tlv.{PathAttr, attr_of}
use mrtgen.Bgp.Attr.Walk.{read_attrs, read_attrs-attribute}
use mrtgen.Bgp.Attr.Values.{Context, Meaning, interpret}

unfoldable pub interpret_all : Context → List PathAttr → Option (List Meaning)
interpret_all context [] = some []
interpret_all context (a ∷ as') = do
  m ← interpret context a
  ms ← interpret_all context as'
  some (m ∷ ms)

-- An attribute section, decoded.
unfoldable pub decode : Context → Bytes → Option (List Meaning)
decode context bs = read_attrs bs >>= interpret_all context

-- In front of any section the bytes `bs` contribute exactly the meanings `ms`.
abbrev pub Encodes : Context → Bytes → List Meaning → Type 0
Encodes context bs ms =
    (more : Bytes)
    → decode context (bs ++ more) ≡ (decode context more >>= λ rest. some (ms ++ rest))

bind_some : {A : Type 0} (o : Option A) → o ≡ (o >>= λ a. some a)
bind_some none = refl
bind_some (some a) = refl

pub nil-Encodes : (c : Context) → Encodes c [] []
nil-Encodes c more = bind_some (decode c more)

pub append-Encodes :
    (c : Context) (xs ys : Bytes) (ms ns : List Meaning)
    → Encodes c xs ms
    → Encodes c ys ns
    → Encodes c (xs ++ ys) (ms ++ ns)
append-Encodes c xs ys ms ns hx hy more =
    rw (append_assoc xs ys more) (rw (hx (ys ++ more)) (rw (hy more) (regroup (decode c more))))
  where
    regroup :
        (o : Option (List Meaning))
        → ((o >>= λ rest. some (ns ++ rest)) >>= λ rest. some (ms ++ rest))
          ≡ (o >>= λ rest. some ((ms ++ ns) ++ rest))
    regroup none = refl
    regroup (some rest) = rw (append_assoc ms ns rest)

decode_nil : (c : Context) → decode c [] ≡ some []
unfolding decode read_attrs interpret_all
decode_nil c = refl

-- The whole section, when nothing follows.
pub decode-Encodes :
    (c : Context) (bs : Bytes) (ms : List Meaning) → Encodes c bs ms → decode c bs ≡ some ms
decode-Encodes c bs ms h = simp (append-nil, decode_nil) at (h [])

pub attribute-Encodes :
    (c : Context) (flags code : ℕ) (value : Bytes) (m : Meaning)
    → IsU8 flags
    → IsU16 (length value)
    → interpret c (attr_of flags code value) ≡ some m
    → Encodes c (attribute flags code value) (m ∷ [])
unfolding decode
attribute-Encodes c flags code value m hf hv e more =
    rw (read_attrs-attribute flags code value more hf hv) (step (read_attrs more))
  where
    step :
        (o : Option (List PathAttr))
        → ((o >>= λ as'. some (attr_of flags code value ∷ as')) >>= interpret_all c)
          ≡ ((o >>= interpret_all c) >>= λ rest. some (m ∷ rest))
    step none = refl
    step (some as') = unfold interpret_all in (rw e)
