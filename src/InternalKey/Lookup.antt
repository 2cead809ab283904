-- ===== src/InternalKey/Lookup.antt =====
-- dbformat.cpp: the three forms of a lookup key.
use ambar.Prelude.{
  ℕ, ◌+◌, ◌-◌, u32, Bytes, [], length, length-append, take, take-append, drop-append, arith, ◌≡◌,
  refl, ap, sym, ◌∙◌, ◌++◌,
}
use ambar.Encoding.{encode_fixed64, encode_varint32, put_varint32, put_length_prefixed}
use ambar.Encoding.Fixed.{length-encode_fixed64}
use ambar.InternalKey.{
  new_lookup_key, memtable_key, internal_key, user_key_of, make_lookup_key, value_type_for_seek,
  pack_sequence_and_type,
}
use ambar.InternalKey.Codec.{make_internal_key-append}

abbrev tail : Bytes → ℕ → Bytes
tail user snapshot = user ++ encode_fixed64 (pack_sequence_and_type snapshot value_type_for_seek)

tail-make_lookup_key :
    (user : Bytes) (snapshot : ℕ) → tail user snapshot ≡ make_lookup_key user snapshot
unfolding make_lookup_key
tail-make_lookup_key user snapshot =
    sym (make_internal_key-append user snapshot value_type_for_seek)

length-tail : (user : Bytes) (snapshot : ℕ) → length (tail user snapshot) ≡ length user + 8
length-tail user snapshot = rw (length-append, length-encode_fixed64) refl

-- The two writers of a varint32 write the same bytes.
encode_varint32-put_varint32 : (v : ℕ) → encode_varint32 v ≡ put_varint32 [] v
unfolding encode_varint32 put_varint32
encode_varint32-put_varint32 v = refl

module _ (user : Bytes) (snapshot : ℕ) where
  header : Bytes
  header = encode_varint32 (u32 (length user + 8))

  internal_form : internal_key (new_lookup_key user snapshot) ≡ tail user snapshot
  unfolding internal_key new_lookup_key header
  internal_form = drop-append (length header) header (tail user snapshot) refl

  memtable_form :
      memtable_key (new_lookup_key user snapshot) ≡ put_length_prefixed [] (tail user snapshot)
  unfolding memtable_key new_lookup_key put_length_prefixed
  memtable_form =
      rw (length-tail user snapshot, encode_varint32-put_varint32 (u32 (length user + 8))) refl

  user_form : user_key_of (new_lookup_key user snapshot) ≡ user
  unfolding user_key_of new_lookup_key header
  user_form =
      ap (take (length (header ++ tail user snapshot) - length header - 8))
        (drop-append (length header) header (tail user snapshot) refl)
      ∙ take-append (length (header ++ tail user snapshot) - length header - 8) user
          (encode_fixed64 (pack_sequence_and_type snapshot value_type_for_seek))
          (omega (arith, length-append header (tail user snapshot), length-tail user snapshot))

-- The three forms of a lookup key: the internal key is what make_lookup_key makes, the memtable's
-- form is that key as put_length_prefixed writes it, and the user key is the one that was given.
pub new_lookup_key_forms :
    (user : Bytes) (snapshot : ℕ)
    → (internal_key (new_lookup_key user snapshot) ≡ make_lookup_key user snapshot)
      × (memtable_key (new_lookup_key user snapshot)
          ≡ put_length_prefixed [] (make_lookup_key user snapshot))
      × (user_key_of (new_lookup_key user snapshot) ≡ user)
new_lookup_key_forms user snapshot = (
  internal_form user snapshot ∙ tail-make_lookup_key user snapshot,
  memtable_form user snapshot ∙ ap (put_length_prefixed []) (tail-make_lookup_key user snapshot),
  user_form user snapshot,
)
