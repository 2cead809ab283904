-- ===== src/InternalKey/Codec.antt =====
-- dbformat.hpp: packing a version and taking it apart again.
use ambar.Prelude.{
  ℕ, ◌+◌, ◌-◌, ◌*◌, ◌/◌, ◌%◌, ◌^◌, ◌≤◌, ◌<◌, true, some, [], ◌++◌, append-nil, Bytes, IsByte,
  AreBytes, All-drop, All-take, take_all, length, length-append, take, drop, length-drop,
  take-append, drop-append, take-append-drop, arith, ◌≡◌, refl, ap, ap₂, ◌∙◌, bit_and_mask,
  bit_or_fields,
}
use ambar.Encoding.{put_fixed64, encode_fixed64}
use ambar.Encoding.Fixed.{
  decode_fixed64-lt, decode-encode_fixed64, encode-decode_fixed64, length-encode_fixed64,
}
use ambar.InternalKey.{
  ValueType, other, type_byte, is_known, max_sequence_number, pack_sequence_and_type,
  ParsedInternalKey, make_internal_key, extract_user_key, trailer, extract_sequence,
  extract_value_type, parse_internal_key,
}

abbrev pub IsKnown : ValueType → Type 0
IsKnown kind = is_known kind ≡ true

pub pack-sum :
    (seq : ℕ) (kind : ValueType)
    → seq ≤ max_sequence_number
    → type_byte kind < 256
    → pack_sequence_and_type seq kind ≡ seq * 256 + type_byte kind
unfolding pack_sequence_and_type
pack-sum seq kind hs hk = ground (arith, bit_or_fields 8 seq (type_byte kind) hk)

module _ (user : Bytes) (seq : ℕ) (kind : ValueType) where
  pub make_internal_key-append :
      make_internal_key user seq kind ≡ user ++ encode_fixed64 (pack_sequence_and_type seq kind)
  unfolding make_internal_key put_fixed64
  make_internal_key-append = refl

  pub length-make_internal_key : length (make_internal_key user seq kind) ≡ length user + 8
  length-make_internal_key =
      rw (make_internal_key-append, length-append, length-encode_fixed64) refl

  pub user_part-make :
      take (length (make_internal_key user seq kind) - 8) (make_internal_key user seq kind) ≡ user
  user_part-make =
      ap (take (length (make_internal_key user seq kind) - 8)) make_internal_key-append
      ∙ take-append (length (make_internal_key user seq kind) - 8) user
          (encode_fixed64 (pack_sequence_and_type seq kind))
          (omega (arith, length-make_internal_key))

  pub extract_user_key-make : extract_user_key (make_internal_key user seq kind) ≡ user
  unfolding extract_user_key
  extract_user_key-make = ground (arith, length-make_internal_key, user_part-make)

  pub trailer_bytes-make :
      drop (length (make_internal_key user seq kind) - 8) (make_internal_key user seq kind)
      ≡ encode_fixed64 (pack_sequence_and_type seq kind)
  trailer_bytes-make =
      ap (drop (length (make_internal_key user seq kind) - 8)) make_internal_key-append
      ∙ drop-append (length (make_internal_key user seq kind) - 8) user
          (encode_fixed64 (pack_sequence_and_type seq kind))
          (omega (arith, length-make_internal_key))

  pub trailer-make :
      seq ≤ max_sequence_number
      → type_byte kind < 256
      → trailer (make_internal_key user seq kind) ≡ seq * 256 + type_byte kind
  unfolding trailer
  trailer-make hs hk =
      rw (trailer_bytes-make, ← append-nil (encode_fixed64 (pack_sequence_and_type seq kind)))
        (decode-encode_fixed64 (pack_sequence_and_type seq kind) []
            (omega (arith, pack-sum seq kind hs hk))
          ∙ pack-sum seq kind hs hk)

-- A key made from a user key, a sequence of 56 bits and a known type is parsed into just these, and
-- each of the three extractions gives its part.
pub parse-make_internal_key :
    (user : Bytes) (seq : ℕ) (kind : ValueType)
    → seq ≤ max_sequence_number
    → IsKnown kind
    → (parse_internal_key (make_internal_key user seq kind)
        ≡ some (record { user_key = user; sequence = seq; kind = kind }))
      × (extract_user_key (make_internal_key user seq kind) ≡ user)
      × (extract_sequence (make_internal_key user seq kind) ≡ seq)
      × (extract_value_type (make_internal_key user seq kind) ≡ kind)
unfolding parse_internal_key extract_sequence extract_value_type
parse-make_internal_key user seq (other n) hs hk = absurd (cc)
parse-make_internal_key user seq kind hs hk = ground (
  arith,
  length-make_internal_key user seq kind,
  user_part-make user seq kind,
  extract_user_key-make user seq kind,
  trailer-make user seq kind hs (omega arith),
  bit_and_mask 8 (seq * 256 + type_byte kind),
)

-- A parse takes the trailer apart: its number, its lowest byte and what stands before.
parse_internal_key_parts :
    (key : Bytes) (p : ParsedInternalKey)
    → parse_internal_key key ≡ some p
    → (8 ≤ length key)
      × (p.user_key ≡ take (length key - 8) key)
      × (p.sequence ≡ trailer key / 256)
      × (type_byte p.kind ≡ trailer key % 256)
      × IsKnown p.kind
unfolding parse_internal_key
parse_internal_key_parts key p e = ground (arith, bit_and_mask 8 (trailer key))

module _ (key : Bytes) (long : 8 ≤ length key) (bytes : AreBytes key) where
  tail_bytes : Bytes
  tail_bytes = drop (length key - 8) key

  length-tail_bytes : length tail_bytes ≡ 8
  unfolding tail_bytes
  length-tail_bytes = omega (arith, length-drop (length key - 8) key)

  AreBytes-tail_bytes : AreBytes (take 8 tail_bytes)
  unfolding tail_bytes
  AreBytes-tail_bytes = All-take IsByte 8 tail_bytes (All-drop IsByte (length key - 8) key bytes)

  pub trailer-lt : trailer key < 2 ^ 64
  unfolding trailer tail_bytes
  trailer-lt = decode_fixed64-lt tail_bytes (omega (arith, length-tail_bytes)) AreBytes-tail_bytes

  pub encode-trailer : encode_fixed64 (trailer key) ≡ drop (length key - 8) key
  unfolding trailer tail_bytes
  encode-trailer =
      encode-decode_fixed64 tail_bytes (omega (arith, length-tail_bytes)) AreBytes-tail_bytes
      ∙ take_all 8 tail_bytes (omega (arith, length-tail_bytes))

-- A string of bytes that is parsed as an internal key has at least eight bytes, a sequence of 56
-- bits and a known type, and is the key that make_internal_key makes of its parts.
pub make-parse_internal_key :
    (key : Bytes) (p : ParsedInternalKey)
    → AreBytes key
    → parse_internal_key key ≡ some p
    → (make_internal_key p.user_key p.sequence p.kind ≡ key)
      × (p.sequence ≤ max_sequence_number)
      × IsKnown p.kind
      × (8 ≤ length key)
make-parse_internal_key key p bytes e =
    let (long, user, seq, code, known) = parse_internal_key_parts key p e in
    let fits = trailer-lt key long bytes in
    let packed : pack_sequence_and_type p.sequence p.kind ≡ trailer key =
      omega (arith, pack-sum p.sequence p.kind (omega arith) (omega arith)) in
    (
      make_internal_key-append p.user_key p.sequence p.kind
          ∙ ap₂ ◌++◌ user (ap encode_fixed64 packed ∙ encode-trailer key long bytes)
          ∙ take-append-drop (length key - 8) key,
      omega arith,
      known,
      long,
    )
