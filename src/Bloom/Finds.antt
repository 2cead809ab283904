-- ===== src/Bloom/Finds.antt =====
-- bloom.cpp: a filter says of every key it was made of that the key may be there.
use native.Mathlib.Nat.{mod-lt, mod-eq_of_lt}
use ambar.Prelude.{
  ℕ, zero, suc, ◌+◌, ◌-◌, ◌*◌, ◌/◌, ◌%◌, ◌^◌, ◌≤◌, ◌<◌, u8, u32, true, false, List, [], ◌∷◌, ◌++◌,
  Bytes, AreBytes, length, replicate, drop, ltb, arith, ◌≡◌, refl, length-append, length-replicate,
  drop-append, Bool-cases, inl, inr, ◌∙◌, ap, sym,
}
use ambar.Encoding.{byte_at}
use ambar.Hash.{bloom_hash}
use ambar.Bloom.{
  BloomFilterPolicy, new_policy, rotate, set_bit, add_probes, add_keys, array_size, create_filter,
  bit_is_set, all_set, key_may_match,
}
use ambar.Bloom.Bits.{set_bit-AreBytes, length-set_bit, set_bit-sets, set_bit-keeps}

-- A probe's place is in the array.
place : (a : Bytes) (bits h : ℕ) → 0 < bits → bits ≡ length a * 8 → h % bits / 8 < length a
place a bits h some size = let small : h % bits < bits = mod-lt h some in omega arith

module _ (bits : ℕ) (some : 0 < bits) where
  length-add_probes :
      (n : ℕ) (a : Bytes) (h delta : ℕ) → length (add_probes n a bits h delta) ≡ length a
  unfolding add_probes
  length-add_probes zero a h delta = refl
  length-add_probes (suc n) a h delta =
      length-add_probes n (set_bit a (h % bits)) (u32 (h + delta)) delta
      ∙ length-set_bit a (h % bits)

  add_probes-AreBytes :
      (n : ℕ) (a : Bytes) (h delta : ℕ) → AreBytes a → AreBytes (add_probes n a bits h delta)
  unfolding add_probes
  add_probes-AreBytes zero a h delta good = good
  add_probes-AreBytes (suc n) a h delta good =
      add_probes-AreBytes n (set_bit a (h % bits)) (u32 (h + delta)) delta
        (set_bit-AreBytes a (h % bits) good)

  -- No probe takes a bit away.
  add_probes-keeps :
      (n : ℕ) (a : Bytes) (h delta q : ℕ)
      → AreBytes a
      → bits ≡ length a * 8
      → bit_is_set a q ≡ true
      → bit_is_set (add_probes n a bits h delta) q ≡ true
  unfolding add_probes
  add_probes-keeps zero a h delta q good size was = was
  add_probes-keeps (suc n) a h delta q good size was =
      add_probes-keeps n (set_bit a (h % bits)) (u32 (h + delta)) delta q
        (set_bit-AreBytes a (h % bits) good) (rw (length-set_bit a (h % bits)) size)
        (set_bit-keeps a (h % bits) q good (place a bits h some size) was)

  -- The bits of a key's own probes are all set.
  all_set-add_probes :
      (n : ℕ) (a : Bytes) (h delta : ℕ)
      → AreBytes a
      → bits ≡ length a * 8
      → all_set n (add_probes n a bits h delta) bits h delta ≡ true
  unfolding all_set add_probes
  all_set-add_probes zero a h delta good size = refl
  all_set-add_probes (suc n) a h delta good size =
      let p = h % bits in
      let b = set_bit a p in
      let good' = set_bit-AreBytes a p good in
      let size' : bits ≡ length b * 8 = rw (length-set_bit a p) size in
      rw
        (add_probes-keeps n b (u32 (h + delta)) delta p good' size'
          (set_bit-sets a p good (place a bits h some size)))
        (all_set-add_probes n b (u32 (h + delta)) delta good' size')

  -- Other probes leave them.
  all_set-keeps :
      (n m : ℕ) (a : Bytes) (h delta h' delta' : ℕ)
      → AreBytes a
      → bits ≡ length a * 8
      → all_set n a bits h delta ≡ true
      → all_set n (add_probes m a bits h' delta') bits h delta ≡ true
  unfolding all_set
  all_set-keeps zero m a h delta h' delta' good size was = refl
  all_set-keeps (suc n) m a h delta h' delta' good size was =
      elim (Bool-cases (bit_is_set a (h % bits))) [
        | inl e ↦
            rw (add_probes-keeps m a h' delta' (h % bits) good size e)
              (all_set-keeps n m a (u32 (h + delta)) delta h' delta' good size (rw e at was))
        | inr e ↦ absurd (ground (arith, rw e at was))
      ]

  length-add_keys :
      (k : ℕ) (a : Bytes) (keys : List Bytes) → length (add_keys k a bits keys) ≡ length a
  unfolding add_keys
  length-add_keys k a [] = refl
  length-add_keys k a (key ∷ keys) =
      let h = bloom_hash key in
      length-add_keys k (add_probes k a bits h (rotate h)) keys ∙ length-add_probes k a h (rotate h)

  add_keys-keeps :
      (k n : ℕ) (a : Bytes) (keys : List Bytes) (h delta : ℕ)
      → AreBytes a
      → bits ≡ length a * 8
      → all_set n a bits h delta ≡ true
      → all_set n (add_keys k a bits keys) bits h delta ≡ true
  unfolding add_keys
  add_keys-keeps k n a [] h delta good size was = was
  add_keys-keeps k n a (key ∷ keys) h delta good size was =
      let h' = bloom_hash key in
      add_keys-keeps k n (add_probes k a bits h' (rotate h')) keys h delta
        (add_probes-AreBytes k a h' (rotate h') good)
        (rw (length-add_probes k a h' (rotate h')) size)
        (all_set-keeps n k a h delta h' (rotate h') good size was)

  -- A key among those added has all its bits set.
  all_set-add_keys :
      (k : ℕ) (a : Bytes) (front back : List Bytes) (key : Bytes)
      → AreBytes a
      → bits ≡ length a * 8
      → all_set k
          (add_keys k a bits (front ++ (key ∷ back)))
          bits
          (bloom_hash key)
          (rotate (bloom_hash key))
        ≡ true
  unfolding add_keys
  all_set-add_keys k a [] back key good size =
      let h = bloom_hash key in
      add_keys-keeps k k (add_probes k a bits h (rotate h)) back h (rotate h)
        (add_probes-AreBytes k a h (rotate h) good) (rw (length-add_probes k a h (rotate h)) size)
        (all_set-add_probes k a h (rotate h) good size)
  all_set-add_keys k a (other ∷ front) back key good size =
      let h = bloom_hash other in
      all_set-add_keys k (add_probes k a bits h (rotate h)) front back key
        (add_probes-AreBytes k a h (rotate h) good) (rw (length-add_probes k a h (rotate h)) size)

byte_at-append : (xs ys : Bytes) (i : ℕ) → i < length xs → byte_at (xs ++ ys) i ≡ byte_at xs i
byte_at-append [] ys i h = absurd (omega arith)
byte_at-append (x ∷ xs) ys zero h = refl
byte_at-append (x ∷ xs) ys (suc i) h = byte_at-append xs ys i (omega arith)

byte_at-end : (xs : Bytes) (y : ℕ) → byte_at (xs ++ (y ∷ [])) (length xs) ≡ y
byte_at-end [] y = refl
byte_at-end (x ∷ xs) y = byte_at-end xs y

-- What stands behind the array is not probed.
all_set-append :
    (n : ℕ) (a ys : Bytes) (bits h delta : ℕ)
    → 0 < bits
    → bits ≡ length a * 8
    → all_set n (a ++ ys) bits h delta ≡ all_set n a bits h delta
unfolding all_set bit_is_set
all_set-append zero a ys bits h delta some size = refl
all_set-append (suc n) a ys bits h delta some size =
    rw
      (
        byte_at-append a ys (h % bits / 8) (place a bits h some size),
        all_set-append n a ys bits (u32 (h + delta)) delta some size,
      )
      refl

zeros-AreBytes : (n : ℕ) → AreBytes (replicate n 0)
zeros-AreBytes zero = tt
zeros-AreBytes (suc n) = (omega arith, zeros-AreBytes n)

array_size-pos :
    (per_key count : ℕ)
    → count * per_key + 7 < 2 ^ 64
    → (8 ≤ array_size per_key count) × (count * per_key ≤ array_size per_key count * 8)
unfolding array_size
array_size-pos per_key count h = ground arith

-- A policy has one probe at least and thirty at most.
new_policy-bounds :
    (scaled : ℕ → ℕ) (per_key : ℕ)
    → (1 ≤ (new_policy scaled per_key).probes) × ((new_policy scaled per_key).probes ≤ 30)
unfolding new_policy
new_policy-bounds scaled per_key = (ground arith, ground arith)

-- A filter's reader finds the array and the number of probes.
may_match-all_set :
    (key a : Bytes) (k : ℕ)
    → 1 ≤ length a
    → k ≤ 30
    → key_may_match key (a ++ (u8 k ∷ []))
      ≡ all_set k (a ++ (u8 k ∷ [])) (length a * 8) (bloom_hash key) (rotate (bloom_hash key))
unfolding key_may_match
may_match-all_set key a k some few =
    let len : length (a ++ (u8 k ∷ [])) ≡ length a + 1 =
      omega (arith, length-append a (u8 k ∷ [])) in
    let at : length a + 1 - 1 ≡ length a = omega arith in
    let byte : u8 k ≡ k = mod-eq_of_lt (omega arith) in
    let last : byte_at (a ++ (u8 k ∷ [])) (length a) ≡ k = byte_at-end a (u8 k) ∙ byte in
    let long : ltb (length a + 1) 2 ≡ false = ground arith in
    let known : ltb 30 k ≡ false = ground arith in rw (len, at, last, long, known) refl

policy_finds :
    (policy : BloomFilterPolicy) (front back : List Bytes) (key dst : Bytes)
    → policy.probes ≤ 30
    → length (front ++ (key ∷ back)) * policy.bits_per_key + 7 < 2 ^ 64
    → key_may_match key (drop (length dst) (create_filter policy (front ++ (key ∷ back)) dst))
      ≡ true
unfolding create_filter
policy_finds policy front back key dst few h =
    let keys = front ++ (key ∷ back) in
    let k : ℕ = policy.probes in
    let bytes : ℕ = array_size policy.bits_per_key (length keys) in
    let large = (array_size-pos policy.bits_per_key (length keys) h).0 in
    let zeros : Bytes = replicate bytes 0 in
    let some : 0 < bytes * 8 = omega (arith, large) in
    let array : Bytes = add_keys k zeros (bytes * 8) keys in
    let size : length zeros ≡ bytes = length-replicate bytes 0 in
    let size' : length array ≡ bytes = length-add_keys (bytes * 8) some k zeros keys ∙ size in
    let bits : bytes * 8 ≡ length array * 8 = rw size' refl in
    let h₀ = bloom_hash key in
    rw (drop-append (length dst) dst (array ++ (u8 k ∷ [])) refl) (
      may_match-all_set key array k (omega (arith, large)) few
      ∙ ap (λ (n : ℕ). all_set k (array ++ (u8 k ∷ [])) n h₀ (rotate h₀)) (sym bits)
      ∙ all_set-append k array (u8 k ∷ []) (bytes * 8) h₀ (rotate h₀) some bits
      ∙ all_set-add_keys (bytes * 8) some k zeros front back key (zeros-AreBytes bytes)
          (rw size refl))

-- A filter made of some keys, behind whatever was in its destination, says of each of these keys
-- that it may be there, for every policy that the constructor makes. The condition is that 64 bits
-- hold the number of the filter's bits, rounded up to whole bytes.
pub key_may_match-create_filter :
    (scaled : ℕ → ℕ) (per_key : ℕ) (front back : List Bytes) (key dst : Bytes)
    → length (front ++ (key ∷ back)) * per_key + 7 < 2 ^ 64
    → key_may_match key
        (drop (length dst) (create_filter (new_policy scaled per_key) (front ++ (key ∷ back)) dst))
      ≡ true
key_may_match-create_filter scaled per_key front back key dst h =
    policy_finds (new_policy scaled per_key) front back key dst (new_policy-bounds scaled per_key).1
      (unfold new_policy in h)
