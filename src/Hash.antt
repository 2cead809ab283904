-- ===== src/Hash.antt =====
-- hash.hpp: the hash of a filter and of the block cache.
use ambar.Prelude.{
  ℕ, zero, suc, ◌+◌, ◌*◌, bit_or, bit_xor, ◌<<<◌, ◌>>>◌, u32, u64, [], ◌∷◌, Bytes, length, drop,
  leb, if◌then◌else◌,
}
use ambar.Encoding.{decode_fixed64}

abbrev prime : ℕ
prime = 0x9e3779b97f4a7c15

abbrev size_factor : ℕ
size_factor = 0xff51afd7ed558ccd

unfoldable pub fmix64 : ℕ → ℕ
fmix64 h =
    let h₁ = bit_xor h (h >>> 33) in
    let h₂ = u64 (h₁ * 0xff51afd7ed558ccd) in
    let h₃ = bit_xor h₂ (h₂ >>> 33) in
    let h₄ = u64 (h₃ * 0xc4ceb9fe1a85ec53) in bit_xor h₄ (h₄ >>> 33)

-- The loop over whole words: fuel, the bytes that remain, and `h`.
mix_words : ℕ → Bytes → ℕ → ℕ × Bytes
mix_words zero bytes h = (h, bytes)
mix_words (suc fuel) bytes h =
    let h₁ = u64 (bit_xor h (decode_fixed64 bytes) * prime) in
    let more = mix_words fuel (drop 8 bytes) (bit_xor h₁ (h₁ >>> 29)) in
    if leb 8 (length bytes) then more else (h, bytes)

-- The loop over the bytes behind them: the bytes, `8 * i` and `tail`.
tail_word : Bytes → ℕ → ℕ → ℕ
tail_word [] shift tail = tail
tail_word (byte ∷ bytes) shift tail =
    tail_word bytes (shift + 8) (bit_or tail (u64 (byte <<< shift)))

-- Every round of the first loop takes eight bytes.
unfoldable pub hash64 : Bytes → ℕ
unfolding mix_words tail_word fmix64
hash64 key =
    let (h, rest) = mix_words (length key) key (bit_xor prime (u64 (length key * size_factor))) in
    fmix64 (u64 (bit_xor h (tail_word rest 0 0) * prime))

unfoldable pub bloom_hash : Bytes → ℕ
unfolding hash64
bloom_hash key = u32 (hash64 key >>> 32)
