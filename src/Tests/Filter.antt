-- ===== src/Tests/Filter.antt =====
-- bloom.cpp on a filter of three keys.
use ambar.Hash.{bloom_hash}
use ambar.Prelude.{ℕ, List, [], ◌∷◌, Bytes, true, false, drop, arith, ◌≡◌, refl}
use ambar.Encoding.{decode_fixed64}
use ambar.Bloom.{
  add_keys, add_probes, set_bit, array_size, all_set, bit_is_set, new_policy, create_filter,
  key_may_match,
}
use ambar.Bloom.Finds.{key_may_match-create_filter}

-- The source's product for ten bits per key.
abbrev scaled : ℕ → ℕ
scaled bits_per_key = 6

abbrev keys : List Bytes
keys = (97 ∷ []) ∷ ((98 ∷ 99 ∷ []) ∷ ((1 ∷ 2 ∷ 3 ∷ 4 ∷ 5 ∷ 6 ∷ 7 ∷ 8 ∷ 9 ∷ []) ∷ []))

key_may_match-create_filter_example :
    key_may_match (98 ∷ 99 ∷ []) (drop 2 (create_filter (new_policy scaled 10) keys (7 ∷ 7 ∷ [])))
    ≡ true
key_may_match-create_filter_example =
    key_may_match-create_filter scaled 10 ((97 ∷ []) ∷ [])
      ((1 ∷ 2 ∷ 3 ∷ 4 ∷ 5 ∷ 6 ∷ 7 ∷ 8 ∷ 9 ∷ []) ∷ []) (98 ∷ 99 ∷ []) (7 ∷ 7 ∷ []) (omega arith)

-- A key that is not there is mostly refused.
absent : key_may_match (100 ∷ []) (create_filter (new_policy scaled 10) keys []) ≡ false
unfolding key_may_match create_filter new_policy add_keys add_probes set_bit array_size bloom_hash
    decode_fixed64 all_set bit_is_set
absent = refl
