-- ===== src/FilterPolicy/Internal.antt =====
-- internal_filter_policy.cpp: the filters and the answers of the policy over internal keys.
use native.Mathlib.Nat.{mul-le-mul_right}
use ambar.Prelude.{
  ℕ, suc, ◌+◌, ◌*◌, ◌≤◌, ◌<◌, ◌^◌, List, [], ◌∷◌, ◌++◌, map, Bytes, length, drop, leb, le→leb, true,
  false, ◌≡◌, refl, ap, ap₂, ◌∙◌, arith,
}
use ambar.Bloom.{new_policy, create_filter}
use ambar.Bloom.Finds.{key_may_match-create_filter}
use ambar.InternalKey.{ParsedInternalKey, make_internal_key}
use ambar.InternalKey.Codec.{length-make_internal_key, extract_user_key-make}
use ambar.FilterPolicy.{
  FilterPolicy, IsFilter, filter_key, internal_filter_policy, bloom_filter_policy,
}

map-append_key :
    (front back : List Bytes) (key : Bytes)
    → map filter_key (front ++ (key ∷ back))
      ≡ map filter_key front ++ (filter_key key ∷ map filter_key back)
map-append_key [] back key = refl
map-append_key (k ∷ front) back key = ap (◌∷◌ (filter_key k)) (map-append_key front back key)

length-map_keys : (keys : List Bytes) → length (map filter_key keys) ≡ length keys
length-map_keys [] = refl
length-map_keys (k ∷ keys) = ap suc (length-map_keys keys)

-- The internal policy appends and finds as the policy does that it hands its keys to.
pub internal_filter_policy-IsFilter :
    (user_policy : FilterPolicy) (limit : ℕ)
    → IsFilter user_policy limit
    → IsFilter (internal_filter_policy user_policy) limit
internal_filter_policy-IsFilter user_policy limit user = record {
  appends = λ keys dst. user.appends (map filter_key keys) dst;
  finds = λ front back key dst h.
      let all = front ++ (key ∷ back) in
      let few : length (map filter_key front ++ (filter_key key ∷ map filter_key back)) < limit =
        omega (
          arith,
          h,
          length-map_keys all,
          ap (λ (ks : List Bytes). length ks) (map-append_key front back key),
        ) in
      rw (map-append_key front back key)
        (user.finds (map filter_key front) (map filter_key back) (filter_key key) dst few);
}

-- A key that a filter is made of or asked for: a version of a user key, or one too short for a trailer.
pub data StoredKey : Type 0 where
  version : ParsedInternalKey → StoredKey
  short : (key : Bytes) → length key < 8 → StoredKey

abbrev pub stored_bytes : StoredKey → Bytes
stored_bytes (version p) = make_internal_key p.user_key p.sequence p.kind
stored_bytes (short key h) = key

abbrev pub user_part : StoredKey → Bytes
user_part (version p) = p.user_key
user_part (short key h) = key

filter_key-stored : (k : StoredKey) → filter_key (stored_bytes k) ≡ user_part k
filter_key-stored (version p) =
    let long : leb 8 (length (make_internal_key p.user_key p.sequence p.kind)) ≡ true =
      le→leb _ _ (omega (arith, length-make_internal_key p.user_key p.sequence p.kind)) in
    rw long (extract_user_key-make p.user_key p.sequence p.kind)
filter_key-stored (short key h) =
    let under : leb 8 (length key) ≡ false = ground arith in rw under refl

map-stored : (ks : List StoredKey) → map filter_key (map stored_bytes ks) ≡ map user_part ks
map-stored [] = refl
map-stored (k ∷ ks) = ap₂ (◌∷◌) (filter_key-stored k) (map-stored ks)

map-append_stored :
    (front back : List StoredKey) (k : StoredKey)
    → map user_part (front ++ (k ∷ back))
      ≡ map user_part front ++ (user_part k ∷ map user_part back)
map-append_stored [] back k = refl
map-append_stored (x ∷ front) back k = ap (◌∷◌ (user_part x)) (map-append_stored front back k)

length-map_stored : (ks : List StoredKey) → length (map user_part ks) ≡ length ks
length-map_stored [] = refl
length-map_stored (k ∷ ks) = ap suc (length-map_stored ks)

-- For versions of user keys, and keys too short to have a trailer, the internal policy makes the
-- filter that its policy makes of the user keys, and of the short keys whole; on each of them it
-- answers as its policy does on the user key, or on the short key. So where some version of a user
-- key is among the keys of a filter, every version of that user key may match it, if the policy
-- keeps its promise for that many keys.
pub internal_filter_policy-versions :
    (user_policy : FilterPolicy) (limit : ℕ) (front back : List StoredKey)
    (stored asked : StoredKey) (dst filter : Bytes)
    → IsFilter user_policy limit
    → length (front ++ (stored ∷ back)) < limit
    → user_part asked ≡ user_part stored
    → ((internal_filter_policy user_policy).create_filter
          (map stored_bytes (front ++ (stored ∷ back)))
          dst
        ≡ user_policy.create_filter (map user_part (front ++ (stored ∷ back))) dst)
      × ((internal_filter_policy user_policy).key_may_match (stored_bytes asked) filter
          ≡ user_policy.key_may_match (user_part asked) filter)
      × ((internal_filter_policy user_policy).key_may_match (stored_bytes asked) (
            drop (length dst) (
              (internal_filter_policy user_policy).create_filter
                (map stored_bytes (front ++ (stored ∷ back)))
                dst))
          ≡ true)
internal_filter_policy-versions user_policy limit front back stored asked dst filter user few same =
    let ks = front ++ (stored ∷ back) in
    let split = map-append_stored front back stored in
    let few' : length (map user_part front ++ (user_part stored ∷ map user_part back)) < limit =
      omega (arith, few, length-map_stored ks, ap (λ (xs : List Bytes). length xs) split) in
    let made : user_policy.create_filter (map filter_key (map stored_bytes ks)) dst
        ≡ user_policy.create_filter (map user_part ks) dst =
      ap (λ (xs : List Bytes). user_policy.create_filter xs dst) (map-stored ks) in
    let found = user.finds (map user_part front) (map user_part back) (user_part stored) dst few' in
    (
      made,
      ap (λ (key : Bytes). user_policy.key_may_match key filter) (filter_key-stored asked),
      ap₂ (λ (key filter' : Bytes). user_policy.key_may_match key (drop (length dst) filter'))
            (filter_key-stored asked ∙ same)
            (made ∙ ap (λ (xs : List Bytes). user_policy.create_filter xs dst) split)
          ∙ found,
    )

-- The bloom policy keeps the promise for as many keys as their bits are counted by 64 bits.
pub bloom_filter_policy-IsFilter :
    (scaled : ℕ → ℕ) (per_key limit : ℕ)
    → limit * per_key + 7 < 2 ^ 64
    → IsFilter (bloom_filter_policy (new_policy scaled per_key)) limit
unfolding create_filter
bloom_filter_policy-IsFilter scaled per_key limit h = record {
  appends = λ keys dst. (_, refl);
  finds = λ front back key dst few.
      let at_most : length (front ++ (key ∷ back)) ≤ limit = omega (arith, few) in
      key_may_match-create_filter scaled per_key front back key dst
        (omega (arith, mul-le-mul_right per_key at_most, h));
}
