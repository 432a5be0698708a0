-- ===== src/Writer/Buf.antt =====
-- `Buf` of src/writer.rs: each method appends to the buffer. `b ▷ u8 1 ▷ bytes v` is the chain
-- `b.u8(1).bytes(v)`.
use mrtgen.Base.{ℕ, ◌≡◌, ◌++◌, ◌∷◌, [], List, Bytes, be16, be32, append_assoc, append-nil}
use mrtgen.Wire.Many.{flat}

abbrev pub Buf : Type 0
Buf = Bytes

abbrev pub new : Buf
new = []

infixl 6 ◌▷◌
abbrev pub ◌▷◌ : Buf → (Buf → Buf) → Buf
b ▷ f = f b

abbrev pub u8 : ℕ → Buf → Buf
u8 v b = b ++ (v ∷ [])

abbrev pub u16 : ℕ → Buf → Buf
u16 v b = b ++ be16 v

abbrev pub u32 : ℕ → Buf → Buf
u32 v b = b ++ be32 v

abbrev pub bytes : Bytes → Buf → Buf
bytes v b = b ++ v

-- `into_vec`
abbrev pub into_vec : Buf → Bytes
into_vec b = b

-- `for x in xs { b.write(x) }`
abbrev pub each {ℓ} : {A : Type ℓ} → (A → Buf → Buf) → List A → Buf → Buf
each write [] b = b
each write (x ∷ xs) b = each write xs (write x b)

-- A loop whose body appends an encoding appends all of them, in order.
pub each-flat {ℓ} :
    {A : Type ℓ} (write : A → Buf → Buf) (encoding : A → Bytes)
    → ((x : A) (b : Buf) → write x b ≡ b ++ encoding x)
    → (xs : List A) (b : Buf) → each write xs b ≡ b ++ flat encoding xs
each-flat write encoding h [] b = rw append-nil
each-flat write encoding h (x ∷ xs) b = rw (h x b) (
    rw (each-flat write encoding h xs (b ++ encoding x))
      (rw (append_assoc b (encoding x) (flat encoding xs))))
