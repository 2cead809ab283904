-- ===== src/FilterPolicy.antt =====
-- filter_policy.hpp and internal_filter_policy.cpp: the interface of the filters, and the policy that
-- gives user keys to another.
pub mod Internal
use Prim.Native.String.{String}
use ambar.Prelude.{
  ℕ, ◌+◌, ◌<◌, Bool, true, List, [], ◌∷◌, ◌++◌, map, Bytes, length, drop, leb, if◌then◌else◌, ◌≡◌,
}
use ambar.InternalKey.{extract_user_key}
use ambar.Bloom.{BloomFilterPolicy}

pub record FilterPolicy : Type 0 where
  pub name : String
  pub create_filter : List Bytes → Bytes → Bytes
  pub key_may_match : Bytes → Bytes → Bool

-- What a policy promises for fewer keys than `limit`: it appends, and a key of a filter may match it.
pub record IsFilter (policy : FilterPolicy) (limit : ℕ) : Type 0 where
  pub appends :
      (keys : List Bytes) (dst : Bytes)
      → (filter : Bytes) × (policy.create_filter keys dst ≡ dst ++ filter)
  pub finds :
      (front back : List Bytes) (key dst : Bytes)
      → length (front ++ (key ∷ back)) < limit
      → policy.key_may_match key
          (drop (length dst) (policy.create_filter (front ++ (key ∷ back)) dst))
        ≡ true

-- `key.size() >= 8 ? extract_user_key(key) : key`
abbrev pub filter_key : Bytes → Bytes
filter_key key = if leb 8 (length key) then extract_user_key key else key

abbrev pub internal_filter_policy : FilterPolicy → FilterPolicy
internal_filter_policy user_policy = record {
  name = user_policy.name;
  create_filter = λ keys dst. user_policy.create_filter (map filter_key keys) dst;
  key_may_match = λ key filter. user_policy.key_may_match (filter_key key) filter;
}

abbrev pub bloom_filter_policy : BloomFilterPolicy → FilterPolicy
bloom_filter_policy policy = record {
  name = "ambar.BuiltinBloomFilter2";
  create_filter = ambar.Bloom.create_filter policy;
  key_may_match = ambar.Bloom.key_may_match;
}
