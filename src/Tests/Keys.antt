-- ===== src/Tests/Keys.antt =====
-- dbformat and the comparators on concrete keys.
use Prim.Native.Nat.{lt, gt, eq}
use ambar.Prelude.{◌≤◌, ◌<◌, some, [], ◌∷◌, Bytes, length, arith, ◌≡◌, ◌≢◌, refl, ◌↔◌, AreBytes}
use ambar.Order.{compare_bytes}
use ambar.Encoding.{put_length_prefixed, put_fixed64, encode_fixed64, decode_fixed64}
use ambar.InternalKey.{
  value, deletion, max_sequence_number, make_internal_key, parse_internal_key, extract_user_key,
  extract_sequence, extract_value_type, compare_internal_keys, make_lookup_key, new_lookup_key,
  memtable_key, internal_key, user_key_of, pack_sequence_and_type, compare_trailers, trailer,
}
use ambar.InternalKey.Codec.{parse-make_internal_key, make-parse_internal_key, IsKnown}
use ambar.InternalKey.Compare.{
  compare_internal_keys_trans, compare_internal_keys-eq, newest_first, lookup_key_position,
}
use ambar.InternalKey.Lookup.{new_lookup_key_forms}
use ambar.Comparator.{
  bytewise_shortest_separator, internal_shortest_separator, internal_short_successor,
}
use ambar.Comparator.Bytewise.{bytewise_shortest_separator_bounds}
use ambar.Comparator.Internal.{internal_shortest_separator_bounds, internal_short_successor_bounds}

-- Two user keys, and a key of each as it is stored.
abbrev ape : Bytes
ape = 97 ∷ 112 ∷ 101 ∷ []

abbrev bee : Bytes
bee = 99 ∷ 101 ∷ []

abbrev ape_key : Bytes
ape_key = 97 ∷ 112 ∷ 101 ∷ 1 ∷ 7 ∷ 0 ∷ 0 ∷ 0 ∷ 0 ∷ 0 ∷ 0 ∷ []

abbrev ape_older : Bytes
ape_older = 97 ∷ 112 ∷ 101 ∷ 1 ∷ 3 ∷ 0 ∷ 0 ∷ 0 ∷ 0 ∷ 0 ∷ 0 ∷ []

abbrev bee_key : Bytes
bee_key = 99 ∷ 101 ∷ 0 ∷ 4 ∷ 0 ∷ 0 ∷ 0 ∷ 0 ∷ 0 ∷ 0 ∷ []

made : make_internal_key ape 7 value ≡ ape_key
unfolding make_internal_key put_fixed64 encode_fixed64 pack_sequence_and_type
made = refl

separated : bytewise_shortest_separator ape bee ≡ 98 ∷ []
unfolding bytewise_shortest_separator
separated = refl

ape_bytes : AreBytes ape_key
ape_bytes = ground arith

bee_bytes : AreBytes bee_key
bee_bytes = ground arith

parsed : parse_internal_key ape_key ≡ some (record { user_key = ape; sequence = 7; kind = value })
unfolding parse_internal_key trailer decode_fixed64
parsed = refl

parse-make_internal_key_example :
    (parse_internal_key (make_internal_key ape 7 value)
      ≡ some (record { user_key = ape; sequence = 7; kind = value }))
    × (extract_user_key (make_internal_key ape 7 value) ≡ ape)
    × (extract_sequence (make_internal_key ape 7 value) ≡ 7)
    × (extract_value_type (make_internal_key ape 7 value) ≡ value)
parse-make_internal_key_example = parse-make_internal_key ape 7 value (omega arith) refl

make-parse_internal_key_example :
    (make_internal_key ape 7 value ≡ ape_key)
    × (7 ≤ max_sequence_number)
    × IsKnown value
    × (8 ≤ length ape_key)
make-parse_internal_key_example =
    make-parse_internal_key ape_key (record { user_key = ape; sequence = 7; kind = value })
      ape_bytes parsed

in_order : compare_internal_keys ape_key ape_older ≡ lt
unfolding compare_internal_keys compare_bytes extract_user_key compare_trailers trailer
    decode_fixed64
in_order = refl

in_order_users : compare_internal_keys ape_older bee_key ≡ lt
unfolding compare_internal_keys compare_bytes extract_user_key
in_order_users = refl

compare_internal_keys_trans_example : compare_internal_keys ape_key bee_key ≡ lt
compare_internal_keys_trans_example =
    compare_internal_keys_trans ape_key ape_older bee_key in_order in_order_users

compare_internal_keys-eq_example :
    (compare_internal_keys ape_key bee_key ≡ eq) ↔ (ape_key ≡ bee_key)
compare_internal_keys-eq_example =
    compare_internal_keys-eq ape_key bee_key (omega arith) (omega arith) ape_bytes bee_bytes

newest_first_example :
    compare_internal_keys (make_internal_key ape 7 value) (make_internal_key ape 3 deletion) ≡ lt
newest_first_example =
    newest_first ape 7 3 value deletion (omega arith) (omega arith) refl refl (omega arith)

lookup_key_position_example :
    (compare_internal_keys (make_lookup_key ape 5) (make_internal_key ape 7 deletion) ≡ gt)
    ↔ (5 < 7)
lookup_key_position_example = lookup_key_position ape 5 7 deletion (omega arith) (omega arith) refl

new_lookup_key_forms_example :
    (internal_key (new_lookup_key ape 5) ≡ make_lookup_key ape 5)
    × (memtable_key (new_lookup_key ape 5) ≡ put_length_prefixed [] (make_lookup_key ape 5))
    × (user_key_of (new_lookup_key ape 5) ≡ ape)
new_lookup_key_forms_example = new_lookup_key_forms ape 5

users_in_order : compare_bytes ape bee ≡ lt
unfolding compare_bytes
users_in_order = refl

bytewise_shortest_separator_bounds_example :
    (compare_bytes ape (bytewise_shortest_separator ape bee) ≢ gt)
    × (compare_bytes (bytewise_shortest_separator ape bee) bee ≡ lt)
    × (length (bytewise_shortest_separator ape bee) ≤ 3)
bytewise_shortest_separator_bounds_example =
    bytewise_shortest_separator_bounds ape bee users_in_order

internal_shortest_separator_bounds_example :
    (compare_internal_keys ape_older (internal_shortest_separator ape_older bee_key) ≢ gt)
    × (compare_internal_keys (internal_shortest_separator ape_older bee_key) bee_key ≡ lt)
internal_shortest_separator_bounds_example =
    internal_shortest_separator_bounds ape_older bee_key in_order_users

internal_short_successor_bounds_example :
    compare_internal_keys ape_key (internal_short_successor ape_key) ≢ gt
internal_short_successor_bounds_example = internal_short_successor_bounds ape_key
