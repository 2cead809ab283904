-- ===== src/Block/Decode.antt =====
-- block.cpp: the bytes of an entry under the decoder.
use ambar.Prelude.{
  ℕ, ◌+◌, ◌-◌, ◌<◌, ◌^◌, bit_or, bit_or-ge, true, false, some, ◌∷◌, ◌++◌, append_assoc, Bytes,
  length, length-append, length-drop, drop, ltb, Bool-cases, inl, inr, arith, ◌≡◌, refl, ap, ◌∙◌,
  le→ltb, ltb→lt,
}
use ambar.Encoding.{byte_at, get_varint32}
use ambar.Encoding.Varint.{groups, groups-head, get-groups32}
use ambar.BlockBuilder.Chain.{entry_bytes, length-entry_bytes}
use ambar.Block.{Entry, check_entry, decode_entry}

abbrev pub entry_of : ℕ → Bytes → Bytes → Bytes → Entry
entry_of shared key val rest = record {
  shared = shared;
  non_shared = length key - shared;
  value_length = length val;
  rest = drop shared key ++ (val ++ rest);
}

checked :
    (shared : ℕ) (key val rest : Bytes)
    → check_entry (entry_of shared key val rest) ≡ some (entry_of shared key val rest)
unfolding check_entry
checked shared key val rest =
    let fits : ltb (length (drop shared key ++ (val ++ rest))) (length key - shared + length val)
        ≡ false =
      le→ltb _ _ (
        omega (
          arith,
          length-append (drop shared key) (val ++ rest),
          length-append val rest,
          length-drop shared key,
        )) in
    rw fits refl

small_head :
    (v : ℕ) (rest : Bytes) → byte_at (groups 4 v ++ rest) 0 < 128 → groups 4 v ++ rest ≡ v ∷ rest
small_head v rest h = elim (groups-head 3 v rest) [
  | inl (small, e) ↦ e
  | inr (c, cs, large, e) ↦ absurd (omega (arith, ap (λ (bs : Bytes). byte_at bs 0) e))
]

-- Three numbers below 128 are their bytes.
three_small :
    (s n v : ℕ) (tail p : Bytes)
    → p ≡ groups 4 s ++ (groups 4 n ++ (groups 4 v ++ tail))
    → ltb (bit_or (bit_or (byte_at p 0) (byte_at p 1)) (byte_at p 2)) 128 ≡ true
    → p ≡ s ∷ (n ∷ (v ∷ tail))
three_small s n v tail p e h =
    let low = ltb→lt (bit_or (bit_or (byte_at p 0) (byte_at p 1)) (byte_at p 2)) 128 h in
    let two = bit_or-ge (bit_or (byte_at p 0) (byte_at p 1)) (byte_at p 2) in
    let one = bit_or-ge (byte_at p 0) (byte_at p 1) in
    let q = groups 4 n ++ (groups 4 v ++ tail) in
    let e₀ : p ≡ s ∷ q = e ∙ small_head s q (omega (arith, ap (λ (bs : Bytes). byte_at bs 0) e)) in
    let e₁ : q ≡ n ∷ (groups 4 v ++ tail) =
      small_head n (groups 4 v ++ tail) (omega (arith, ap (λ (bs : Bytes). byte_at bs 1) e₀)) in
    let e₂ : groups 4 v ++ tail ≡ v ∷ tail =
      small_head v tail (
        omega
          (arith, ap (λ (bs : Bytes). byte_at bs 2) e₀, ap (λ (bs : Bytes). byte_at bs 1) e₁)) in
    e₀ ∙ ap (λ (bs : Bytes). s ∷ bs) (e₁ ∙ ap (λ (bs : Bytes). n ∷ bs) e₂)

entry_regroup :
    (shared : ℕ) (key val rest : Bytes)
    → entry_bytes shared key val ++ rest
      ≡ groups 4 shared
        ++ (groups 4 (length key - shared)
            ++ (groups 4 (length val) ++ (drop shared key ++ (val ++ rest))))
unfolding entry_bytes
entry_regroup shared key val rest = simp append_assoc refl

-- An entry that was put is decoded, with what follows it behind its value.
pub decode-entry_bytes :
    (shared : ℕ) (key val rest : Bytes)
    → shared < 2 ^ 32
    → length key < 2 ^ 32
    → length val < 2 ^ 32
    → decode_entry (entry_bytes shared key val ++ rest) ≡ some (entry_of shared key val rest)
unfolding decode_entry
decode-entry_bytes shared key val rest hs hk hv =
    let p = entry_bytes shared key val ++ rest in
    let n = length key - shared in
    let tail = drop shared key ++ (val ++ rest) in
    let form = entry_regroup shared key val rest in
    let long : ltb (length p) 3 ≡ false = le→ltb (length p) 3 (
      omega (
        arith,
        length-entry_bytes shared key val,
        length-append (entry_bytes shared key val) rest,
      )) in
    let first : get_varint32 p ≡ some (shared, groups 4 n ++ (groups 4 (length val) ++ tail)) =
      ap get_varint32 form
      ∙ get-groups32 shared (groups 4 n ++ (groups 4 (length val) ++ tail)) hs in
    elim (Bool-cases (ltb (bit_or (bit_or (byte_at p 0) (byte_at p 1)) (byte_at p 2)) 128)) [
      | inl small ↦
          let bytes = three_small shared n (length val) tail p form small in
          rw (long, small)
            (ap
                (λ (bs : Bytes). check_entry (record {
                  shared = byte_at bs 0;
                  non_shared = byte_at bs 1;
                  value_length = byte_at bs 2;
                  rest = drop 3 bs;
                }))
                bytes
              ∙ checked shared key val rest)
      | inr large ↦
          rw
            (
              long,
              large,
              first,
              get-groups32 n (groups 4 (length val) ++ tail) (omega arith),
              get-groups32 (length val) tail hv,
            )
            (checked shared key val rest)
    ]
