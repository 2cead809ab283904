-- ===== src/InternalKey/Compare.antt =====
-- dbformat.hpp: the order of internal keys.
use Prim.Native.Nat.{lt, eq, gt}
use ambar.Prelude.{
  ℕ, ◌-◌, ◌≤◌, ◌<◌, Bytes, AreBytes, length, take, take-append-drop, arith, ◌≡◌, ◌↔◌, ap, ap₂, sym,
  ◌∙◌, ◌++◌,
}
use ambar.Order.{
  flip_ordering, compare_bytes_refl, compare_bytes_flip, compare_bytes-eq, compare_bytes_trans,
}
use ambar.Encoding.{encode_fixed64}
use ambar.InternalKey.{
  ValueType, value, other, max_sequence_number, make_internal_key, extract_user_key, trailer,
  compare_trailers, compare_internal_keys, make_lookup_key,
}
use ambar.InternalKey.Codec.{IsKnown, extract_user_key-make, trailer-make, encode-trailer}

-- Two internal keys in turn give the mirrored answer.
pub compare_internal_keys_flip :
    (a b : Bytes) → compare_internal_keys b a ≡ flip_ordering (compare_internal_keys a b)
unfolding compare_internal_keys compare_trailers
compare_internal_keys_flip a b =
    ground (arith, compare_bytes_flip (extract_user_key a) (extract_user_key b))

-- The order of internal keys is transitive: a key before a second that is before a third is before
-- the third.
pub compare_internal_keys_trans :
    (a b c : Bytes)
    → compare_internal_keys a b ≡ lt
    → compare_internal_keys b c ≡ lt
    → compare_internal_keys a c ≡ lt
unfolding compare_internal_keys compare_trailers
compare_internal_keys_trans a b c p q = ground (
  arith,
  compare_bytes_trans (extract_user_key a) (extract_user_key b) (extract_user_key c),
  compare_bytes-eq (extract_user_key a) (extract_user_key b),
  compare_bytes-eq (extract_user_key b) (extract_user_key c),
  compare_bytes_refl (extract_user_key b),
)

user_part : (a : Bytes) → 8 ≤ length a → extract_user_key a ≡ take (length a - 8) a
unfolding extract_user_key
user_part a h = ground arith

pub compare_internal_keys_refl : (a : Bytes) → compare_internal_keys a a ≡ eq
unfolding compare_internal_keys compare_trailers
compare_internal_keys_refl a = ground (arith, compare_bytes_refl (extract_user_key a))

compare_internal_keys_parts :
    (a b : Bytes)
    → compare_internal_keys a b ≡ eq
    → (extract_user_key a ≡ extract_user_key b) × (trailer a ≡ trailer b)
unfolding compare_internal_keys compare_trailers
compare_internal_keys_parts a b e =
    ground (arith, compare_bytes-eq (extract_user_key a) (extract_user_key b))

key_of_parts :
    (a b : Bytes)
    → 8 ≤ length a
    → 8 ≤ length b
    → AreBytes a
    → AreBytes b
    → extract_user_key a ≡ extract_user_key b
    → trailer a ≡ trailer b
    → a ≡ b
key_of_parts a b ha hb bytes_a bytes_b users trailers =
    sym (split a ha bytes_a) ∙ ap₂ ◌++◌ users (ap encode_fixed64 trailers) ∙ split b hb bytes_b
  where
    split :
        (k : Bytes)
        → 8 ≤ length k
        → AreBytes k
        → extract_user_key k ++ encode_fixed64 (trailer k) ≡ k
    split k h bytes =
        ap₂ ◌++◌ (user_part k h) (encode-trailer k h bytes) ∙ take-append-drop (length k - 8) k

-- Two strings of bytes of at least eight bytes each compare equal as internal keys exactly where
-- they are the same.
pub compare_internal_keys-eq :
    (a b : Bytes)
    → 8 ≤ length a
    → 8 ≤ length b
    → AreBytes a
    → AreBytes b
    → (compare_internal_keys a b ≡ eq) ↔ (a ≡ b)
compare_internal_keys-eq a b ha hb bytes_a bytes_b = (
  λ e.
      let (users, trailers) = compare_internal_keys_parts a b e in
      key_of_parts a b ha hb bytes_a bytes_b users trailers,
  λ e. rw (← e) (compare_internal_keys_refl a),
)

-- Of two entries of one user key, with sequences of 56 bits and known types, the one with the
-- higher sequence stands first.
pub newest_first :
    (user : Bytes) (seq seq' : ℕ) (kind kind' : ValueType)
    → seq ≤ max_sequence_number
    → seq' ≤ max_sequence_number
    → IsKnown kind
    → IsKnown kind'
    → seq' < seq
    → compare_internal_keys (make_internal_key user seq kind) (make_internal_key user seq' kind')
      ≡ lt
unfolding compare_internal_keys compare_trailers
newest_first user seq seq' kind kind' hs hs' hk hk' newer = ground (
  arith,
  extract_user_key-make user seq kind,
  extract_user_key-make user seq' kind',
  compare_bytes_refl user,
  trailer-make user seq kind,
  trailer-make user seq' kind',
)

-- A lookup key of a user key and a snapshot stands behind an entry of that user key exactly where
-- the entry is newer than the snapshot; so it stands at or before all entries that the snapshot
-- sees. Sequence numbers have 56 bits, and the entry's type is a known one.
pub lookup_key_position :
    (user : Bytes) (snapshot seq : ℕ) (kind : ValueType)
    → snapshot ≤ max_sequence_number
    → seq ≤ max_sequence_number
    → IsKnown kind
    → (compare_internal_keys (make_lookup_key user snapshot) (make_internal_key user seq kind) ≡ gt)
      ↔ (snapshot < seq)
unfolding compare_internal_keys compare_trailers make_lookup_key
lookup_key_position user snapshot seq (other n) hs hq hk = absurd (cc)
lookup_key_position user snapshot seq kind hs hq hk = ground (
  arith,
  extract_user_key-make user snapshot value,
  extract_user_key-make user seq kind,
  compare_bytes_refl user,
  trailer-make user snapshot value hs (omega arith),
  trailer-make user seq kind hq (omega arith),
)
