-- ===== src/Wal/Reader/Headers.antt =====
-- The header of a physical record, as it was written, under the reader.
use native.Mathlib.Nat.{add_assoc}
use ambar.Prelude.{
  ℕ, zero, suc, ◌+◌, ◌<◌, ◌^◌, false, [], ◌++◌, Bytes, length, length-append, take, drop, arith,
  ◌≡◌, ◌⊎◌, inl, inr, refl, ap, sym, ◌∙◌, take-append, bit_and, ◌∷◌, ◌>>>◌, bit_and_mask, ◌/◌,
  bit_or_fields_right, ◌%◌, drop-drop, drop-append,
}
use ambar.Encoding.{byte_at, put_fixed32, encode_fixed32}
use ambar.Encoding.Fixed.{decode-encode_fixed32}
use ambar.Crc.Extend.{crc32c_extend-lt}
use ambar.Wal.{RecordType, parse_header, record_header, record_crc}
use ambar.Wal.Writer.Encodes.{physical, length-record_header}
use ambar.Wal.Reader.{is_empty}

record_crc-lt : (t : RecordType) (payload : Bytes) → record_crc t payload < 2 ^ 32
unfolding record_crc
record_crc-lt t payload = crc32c_extend-lt _ payload

-- The header that was written is the header that is parsed.
pub parse_header-physical :
    (t : RecordType) (payload rest : Bytes)
    → length payload < 2 ^ 16
    → parse_header (physical t payload ++ rest)
      ≡ record { crc = record_crc t payload; len = length payload; kind = t }
unfolding parse_header record_header put_fixed32 encode_fixed32
parse_header-physical t payload rest h = ground (
  arith,
  decode-encode_fixed32 (record_crc t payload)
      (bit_and (length payload) 0xff ∷ bit_and (length payload >>> 8) 0xff ∷ t ∷ (payload ++ rest))
      (record_crc-lt t payload),
  bit_and_mask 8 (length payload),
  bit_and_mask 8 (length payload / 2 ^ 8),
  bit_or_fields_right 8 (length payload / 2 ^ 8 % 2 ^ 8) (length payload % 2 ^ 8) (omega arith),
)

pub type_byte-physical :
    (t : RecordType) (payload rest : Bytes) → byte_at (physical t payload ++ rest) 6 ≡ t
unfolding record_header put_fixed32 encode_fixed32
type_byte-physical t payload rest = refl

pub payload-physical :
    (t : RecordType) (payload rest : Bytes)
    → take (length payload) (drop 7 (physical t payload ++ rest)) ≡ payload
unfolding record_header put_fixed32 encode_fixed32
payload-physical t payload rest = take-append (length payload) payload rest refl

pub length-physical :
    (t : RecordType) (payload : Bytes) → length (physical t payload) ≡ 7 + length payload
length-physical t payload =
    omega (arith, length-append (record_header t payload) payload, length-record_header t payload)

pub is_empty-take : (n : ℕ) (xs : Bytes) → is_empty (take (suc n) xs) ≡ is_empty xs
is_empty-take n [] = refl
is_empty-take n (x ∷ xs) = refl

pub take_whole :
    (n : ℕ) (xs : Bytes) → (length (take n xs) ≡ n) ⊎ ((length (take n xs) < n) × (drop n xs ≡ []))
take_whole zero xs = inl refl
take_whole (suc n) [] = inr (omega arith, refl)
take_whole (suc n) (x ∷ xs) = elim (take_whole n xs) [
  | inl e ↦ inl (ap suc e)
  | inr (short, e) ↦ inr (omega arith, e)
]

pub is_empty-physical :
    (t : RecordType) (payload rest : Bytes) → is_empty (physical t payload ++ rest) ≡ false
unfolding record_header put_fixed32 encode_fixed32
is_empty-physical t payload rest = refl

pub length-pos : (xs : Bytes) → is_empty xs ≡ false → 0 < length xs
length-pos [] h = cc
length-pos (x ∷ xs) h = omega arith

pub append_cancel : (xs ys zs ws : Bytes) → xs ++ ys ≡ zs ++ ws → length xs ≡ length zs → ys ≡ ws
append_cancel xs ys zs ws e h =
    sym (drop-append (length xs) xs ys refl)
    ∙ ap (drop (length xs)) e
    ∙ drop-append (length xs) zs ws h

pub drop_behind :
    (t : RecordType) (payload m block : Bytes) (offset : ℕ)
    → drop offset block ≡ physical t payload ++ m
    → drop (offset + 7 + length payload) block ≡ m
drop_behind t payload m block offset here =
    ap (λ (n : ℕ). drop n block) (add_assoc offset 7 (length payload))
    ∙ sym (drop-drop offset (7 + length payload) block)
    ∙ ap (drop (7 + length payload)) here
    ∙ drop-append (7 + length payload) (physical t payload) m (sym (length-physical t payload))
