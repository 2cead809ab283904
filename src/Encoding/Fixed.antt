-- ===== src/Encoding/Fixed.antt =====
-- encoding.hpp: the fixed-width integers against the little-endian reading of a list of bytes.
use native.Mathlib.Nat.{mod-eq_of_lt}
use ambar.Prelude.{
  ℕ, zero, suc, ◌+◌, ◌*◌, ◌/◌, ◌%◌, ◌^◌, ◌<◌, bit_or, ◌<<<◌, arith, ◌≡◌, refl, ap, ap₂, ◌∙◌, [],
  ◌∷◌, ◌++◌, Bytes, AreBytes, length, take, ◌≤◌, bit_and_mask, bit_or_fields_right,
}
use ambar.Encoding.{encode_fixed32, encode_fixed64, decode_fixed32, decode_fixed64}

-- The number that the bytes stand for, lowest first.
abbrev pub le_value : Bytes → ℕ
le_value [] = 0
le_value (b ∷ bs) = b + 256 * le_value bs

-- The lowest `n` bytes of a number.
abbrev pub le_bytes : ℕ → ℕ → Bytes
le_bytes zero v = []
le_bytes (suc n) v = (v % 256) ∷ le_bytes n (v / 256)

pub le_bytes-AreBytes : (n v : ℕ) → AreBytes (le_bytes n v)
le_bytes-AreBytes zero v = tt
le_bytes-AreBytes (suc n) v = (omega arith, le_bytes-AreBytes n (v / 256))

pub length-le_bytes : (n v : ℕ) → length (le_bytes n v) ≡ n
length-le_bytes zero v = refl
length-le_bytes (suc n) v = ap suc (length-le_bytes n (v / 256))

-- One `|=` of a decoder: the bits below `k` are taken, those from `k` on are free.
pub or_field :
    (w k q r : ℕ) → r < 2 ^ k → q * 2 ^ k < 2 ^ w → bit_or r ((q <<< k) % 2 ^ w) ≡ r + q * 2 ^ k
or_field w k q r low fits = rw (mod-eq_of_lt fits) (bit_or_fields_right k q r low)

pub decode_fixed32-le_value :
    (p : Bytes) → 4 ≤ length p → AreBytes (take 4 p) → decode_fixed32 p ≡ le_value (take 4 p)
unfolding decode_fixed32
decode_fixed32-le_value (a ∷ b ∷ c ∷ d ∷ rest) n h = ground (
  arith,
  or_field 32 8 b a (omega arith) (omega arith),
  or_field 32 16 c (a + b * 2 ^ 8) (omega arith) (omega arith),
  or_field 32 24 d (a + b * 2 ^ 8 + c * 2 ^ 16) (omega arith) (omega arith),
)
decode_fixed32-le_value p n h = absurd (omega arith)

pub encode_fixed32-le_bytes : (v : ℕ) → encode_fixed32 v ≡ le_bytes 4 v
unfolding encode_fixed32
encode_fixed32-le_bytes v = ground (
  arith,
  bit_and_mask 8 v,
  bit_and_mask 8 (v / 2 ^ 8),
  bit_and_mask 8 (v / 2 ^ 16),
  bit_and_mask 8 (v / 2 ^ 24),
)

pub decode_fixed64-le_value :
    (p : Bytes) → 8 ≤ length p → AreBytes (take 8 p) → decode_fixed64 p ≡ le_value (take 8 p)
unfolding decode_fixed64
decode_fixed64-le_value (a ∷ b ∷ c ∷ d ∷ e ∷ f ∷ g ∷ h ∷ rest) n bytes =
    let s₁ : ℕ = a + b * 2 ^ 8 in
    let s₂ : ℕ = s₁ + c * 2 ^ 16 in
    let s₃ : ℕ = s₂ + d * 2 ^ 24 in
    let s₄ : ℕ = s₃ + e * 2 ^ 32 in
    let s₅ : ℕ = s₄ + f * 2 ^ 40 in
    let s₆ : ℕ = s₅ + g * 2 ^ 48 in
    ground (
      arith,
      or_field 64 0 a 0 (omega arith) (omega arith),
      or_field 64 8 b a (omega arith) (omega arith),
      or_field 64 16 c s₁ (omega arith) (omega arith),
      or_field 64 24 d s₂ (omega arith) (omega arith),
      or_field 64 32 e s₃ (omega arith) (omega arith),
      or_field 64 40 f s₄ (omega arith) (omega arith),
      or_field 64 48 g s₅ (omega arith) (omega arith),
      or_field 64 56 h s₆ (omega arith) (omega arith),
    )
decode_fixed64-le_value p n bytes = absurd (omega arith)

pub encode_fixed64-le_bytes : (v : ℕ) → encode_fixed64 v ≡ le_bytes 8 v
unfolding encode_fixed64
encode_fixed64-le_bytes v = ground (
  arith,
  bit_and_mask 8 (v / 2 ^ 0),
  bit_and_mask 8 (v / 2 ^ 8),
  bit_and_mask 8 (v / 2 ^ 16),
  bit_and_mask 8 (v / 2 ^ 24),
  bit_and_mask 8 (v / 2 ^ 32),
  bit_and_mask 8 (v / 2 ^ 40),
  bit_and_mask 8 (v / 2 ^ 48),
  bit_and_mask 8 (v / 2 ^ 56),
)

pub length-encode_fixed64 : (v : ℕ) → length (encode_fixed64 v) ≡ 8
unfolding encode_fixed64
length-encode_fixed64 v = refl

le_value-le_bytes_four : (v : ℕ) → v < 2 ^ 32 → le_value (le_bytes 4 v) ≡ v
le_value-le_bytes_four v h = omega arith

le_value-le_bytes_eight : (v : ℕ) → v < 2 ^ 64 → le_value (le_bytes 8 v) ≡ v
le_value-le_bytes_eight v h = omega arith

-- A number of 32 bits is read back from its four bytes, whatever follows them.
pub decode-encode_fixed32 :
    (v : ℕ) (rest : Bytes) → v < 2 ^ 32 → decode_fixed32 (encode_fixed32 v ++ rest) ≡ v
decode-encode_fixed32 v rest h = rw encode_fixed32-le_bytes (
    decode_fixed32-le_value (le_bytes 4 v ++ rest) (omega arith) (le_bytes-AreBytes 4 v)
    ∙ le_value-le_bytes_four v h)

-- A number of 64 bits is read back from its eight bytes, whatever follows them.
pub decode-encode_fixed64 :
    (v : ℕ) (rest : Bytes) → v < 2 ^ 64 → decode_fixed64 (encode_fixed64 v ++ rest) ≡ v
decode-encode_fixed64 v rest h = rw encode_fixed64-le_bytes (
    decode_fixed64-le_value (le_bytes 8 v ++ rest) (omega arith) (le_bytes-AreBytes 8 v)
    ∙ le_value-le_bytes_eight v h)

le_bytes-le_value-take :
    (n : ℕ) (p : Bytes)
    → n ≤ length p
    → AreBytes (take n p)
    → le_bytes n (le_value (take n p)) ≡ take n p
le_bytes-le_value-take zero p h bytes = refl
le_bytes-le_value-take (suc n) [] h bytes = absurd (omega arith)
le_bytes-le_value-take (suc n) (b ∷ p) h (hb, bytes) =
    ap₂ ◌∷◌ (omega arith) (ap (le_bytes n) tail ∙ le_bytes-le_value-take n p (omega arith) bytes)
  where
    tail : (b + 256 * le_value (take n p)) / 256 ≡ le_value (take n p)
    tail = omega arith

pub encode-decode_fixed32 :
    (p : Bytes) → 4 ≤ length p → AreBytes (take 4 p) → encode_fixed32 (decode_fixed32 p) ≡ take 4 p
encode-decode_fixed32 p h bytes =
    rw (encode_fixed32-le_bytes, decode_fixed32-le_value p h bytes)
      (le_bytes-le_value-take 4 p h bytes)

pub encode-decode_fixed64 :
    (p : Bytes) → 8 ≤ length p → AreBytes (take 8 p) → encode_fixed64 (decode_fixed64 p) ≡ take 8 p
encode-decode_fixed64 p h bytes =
    rw (encode_fixed64-le_bytes, decode_fixed64-le_value p h bytes)
      (le_bytes-le_value-take 8 p h bytes)

le_value_four-lt : (p : Bytes) → AreBytes (take 4 p) → le_value (take 4 p) < 2 ^ 32
le_value_four-lt (a ∷ b ∷ c ∷ d ∷ rest) h = omega arith
le_value_four-lt p h = omega arith

le_value_eight-lt : (p : Bytes) → AreBytes (take 8 p) → le_value (take 8 p) < 2 ^ 64
le_value_eight-lt (a ∷ b ∷ c ∷ d ∷ e ∷ f ∷ g ∷ i ∷ rest) h = omega arith
le_value_eight-lt p h = omega arith

pub decode_fixed32-lt : (p : Bytes) → 4 ≤ length p → AreBytes (take 4 p) → decode_fixed32 p < 2 ^ 32
decode_fixed32-lt p h bytes = rw (decode_fixed32-le_value p h bytes) (le_value_four-lt p bytes)

pub decode_fixed64-lt : (p : Bytes) → 8 ≤ length p → AreBytes (take 8 p) → decode_fixed64 p < 2 ^ 64
decode_fixed64-lt p h bytes = rw (decode_fixed64-le_value p h bytes) (le_value_eight-lt p bytes)
