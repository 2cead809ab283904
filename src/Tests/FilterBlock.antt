-- ===== src/Tests/FilterBlock.antt =====
-- filter_block.cpp and internal_filter_policy.cpp on two data blocks.
use ambar.Prelude.{
  ◌<◌, ◌*◌, ◌/◌, ◌^◌, true, List, [], ◌∷◌, Bytes, replicate, length, drop, map, ◌++◌, arith, ◌≡◌,
  refl,
}
use ambar.Hash.{bloom_hash}
use ambar.Encoding.{put_fixed32, decode_fixed64, encode_fixed32}
use ambar.InternalKey.{extract_user_key, value, deletion, max_sequence_number}
use ambar.Bloom.{new_policy, create_filter, add_probes, set_bit, array_size}
use ambar.FilterPolicy.{FilterPolicy, IsFilter, internal_filter_policy, bloom_filter_policy}
use ambar.FilterPolicy.Internal.{
  StoredKey, version, short, stored_bytes, user_part, internal_filter_policy-IsFilter,
  internal_filter_policy-versions, bloom_filter_policy-IsFilter,
}
use ambar.FilterBlock.{
  put_offsets, add_key, start_block, generate_filters, generate_filter, cut_keys, new_builder,
  finish, new_reader, key_may_match,
}
use ambar.FilterBlock.Blocks.{DataBlock, add_blocks, AllKeys}
use ambar.FilterBlock.Finds.{key_may_match-finish}

abbrev ten_bits : FilterPolicy
ten_bits = bloom_filter_policy (new_policy (λ n. n * 69 / 100) 10)

-- Two blocks, of which the second starts two regions behind the first.
abbrev two_blocks : List DataBlock
two_blocks = (0, replicate 9 5 ∷ (replicate 10 5 ∷ [])) ∷ ((5000, replicate 9 6 ∷ []) ∷ [])

-- Versions of two user keys, and a key too short for a trailer.
abbrev first_version : StoredKey
first_version = version (record { user_key = replicate 3 5; sequence = 1017; kind = value })

abbrev removal : StoredKey
removal = version (record { user_key = replicate 2 6; sequence = 1018; kind = deletion })

abbrev short_key : StoredKey
short_key = short (replicate 4 7) (omega arith)

abbrev looked_up : StoredKey
looked_up =
    version (record { user_key = replicate 3 5; sequence = max_sequence_number; kind = value })

abbrev before : Bytes
before = 1 ∷ []

abbrev two_bytes : Bytes
two_bytes = 0 ∷ (6 ∷ [])

internal_filter_policy-versions_example :
    ((internal_filter_policy ten_bits).create_filter
        (map stored_bytes ((removal ∷ []) ++ (first_version ∷ (short_key ∷ []))))
        before
      ≡ ten_bits.create_filter
          (map user_part ((removal ∷ []) ++ (first_version ∷ (short_key ∷ []))))
          before)
    × ((internal_filter_policy ten_bits).key_may_match (stored_bytes looked_up) two_bytes
        ≡ ten_bits.key_may_match (user_part looked_up) two_bytes)
    × ((internal_filter_policy ten_bits).key_may_match (stored_bytes looked_up) (
          drop (length before) (
            (internal_filter_policy ten_bits).create_filter
              (map stored_bytes ((removal ∷ []) ++ (first_version ∷ (short_key ∷ []))))
              before))
        ≡ true)
internal_filter_policy-versions_example =
    internal_filter_policy-versions ten_bits 1000 (removal ∷ []) (short_key ∷ []) first_version
      looked_up before two_bytes
      (bloom_filter_policy-IsFilter (λ n. n * 69 / 100) 10 1000 (omega arith)) (omega arith) refl

abbrev policy : FilterPolicy
policy = internal_filter_policy ten_bits

policy-IsFilter : IsFilter policy 1000
policy-IsFilter =
    internal_filter_policy-IsFilter ten_bits 1000
      (bloom_filter_policy-IsFilter (λ n. n * 69 / 100) 10 1000 (omega arith))

two_blocks_fit : length (finish policy (add_blocks policy new_builder two_blocks)).result < 2 ^ 32
unfolding finish put_fixed32 put_offsets add_blocks ambar.FilterBlock.Blocks.add_block_keys add_key
    start_block generate_filters generate_filter create_filter ambar.Bloom.add_keys cut_keys
    add_probes new_policy set_bit array_size bloom_hash decode_fixed64 encode_fixed32
    extract_user_key
two_blocks_fit = omega arith

key_may_match-finish_example :
    AllKeys
      (λ offset key.
        key_may_match policy
          (new_reader (finish policy (add_blocks policy new_builder two_blocks)).result)
          offset
          key
        ≡ true)
      two_blocks
key_may_match-finish_example =
    key_may_match-finish policy 1000 two_blocks policy-IsFilter (omega arith, (omega arith, tt))
      (omega arith) two_blocks_fit
