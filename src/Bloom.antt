-- ===== src/Bloom.antt =====
-- bloom.cpp: `BloomFilterPolicy`.
pub mod Bits
pub mod Finds
use ambar.Prelude.{
  ℕ, zero, suc, ◌+◌, ◌-◌, ◌*◌, ◌/◌, ◌%◌, ◌^◌, bit_and, bit_or, ◌<<<◌, ◌>>>◌, u8, u32, u64, Bool,
  true, false, List, [], ◌∷◌, ◌++◌, Bytes, length, set, replicate, ltb, ◌==◌, not, if◌then◌else◌,
}
use ambar.Encoding.{byte_at}
use ambar.Hash.{bloom_hash}

pub record BloomFilterPolicy : Type 0 where
  pub bits_per_key : ℕ
  pub probes : ℕ

-- `scaled` is `static_cast<int>(bits_per_key * 0.69)`, which the source computes in floating point.
unfoldable pub new_policy : (ℕ → ℕ) → ℕ → BloomFilterPolicy
new_policy scaled bits_per_key =
    let k = scaled bits_per_key in
    let at_least = if ltb k 1 then 1 else k in
    record { bits_per_key = bits_per_key; probes = if ltb 30 at_least then 30 else at_least }

-- To the right by 17, in 32 bits.
abbrev pub rotate : ℕ → ℕ
rotate h = bit_or (h >>> 17) (u32 (h <<< 15))

unfoldable pub set_bit : Bytes → ℕ → Bytes
set_bit array bitpos =
    set array (bitpos / 8) (u8 (bit_or (byte_at array (bitpos / 8)) (1 <<< (bitpos % 8))))

-- The loop over `j`: rounds left, the array, `bits`, `h` and `delta`.
unfoldable pub add_probes : ℕ → Bytes → ℕ → ℕ → ℕ → Bytes
add_probes zero array bits h delta = array
add_probes (suc rounds) array bits h delta =
    add_probes rounds (set_bit array (h % bits)) bits (u32 (h + delta)) delta

-- The loop over the keys.
unfoldable pub add_keys : ℕ → Bytes → ℕ → List Bytes → Bytes
add_keys k array bits [] = array
add_keys k array bits (key ∷ keys) =
    let h = bloom_hash key in add_keys k (add_probes k array bits h (rotate h)) bits keys

-- The array's size in bytes.
unfoldable pub array_size : ℕ → ℕ → ℕ
array_size bits_per_key count =
    let bits = u64 (count * bits_per_key) in
    let at_least = if ltb bits 64 then 64 else bits in u64 (at_least + 7) / 8

-- The array and the byte behind it are appended to `dst`.
unfoldable pub create_filter : BloomFilterPolicy → List Bytes → Bytes → Bytes
create_filter policy keys dst =
    let bytes = array_size policy.bits_per_key (length keys) in
    let array = add_keys policy.probes (replicate bytes 0) (bytes * 8) keys in
    dst ++ (array ++ (u8 policy.probes ∷ []))

unfoldable pub bit_is_set : Bytes → ℕ → Bool
bit_is_set array bitpos = not (bit_and (byte_at array (bitpos / 8)) (1 <<< (bitpos % 8)) == 0)

-- The loop over `j` of `key_may_match`.
unfoldable pub all_set : ℕ → Bytes → ℕ → ℕ → ℕ → Bool
all_set zero array bits h delta = true
all_set (suc rounds) array bits h delta =
    let more = all_set rounds array bits (u32 (h + delta)) delta in
    if bit_is_set array (h % bits) then more else false

unfoldable pub key_may_match : Bytes → Bytes → Bool
key_may_match key filter =
    let len = length filter in
    let bits = (len - 1) * 8 in
    let k = byte_at filter (len - 1) in
    let h = bloom_hash key in
    if ltb len 2 then true else if ltb 30 k then true else all_set k filter bits h (rotate h)
