-- ===== src/Wal/Reader/Fragments.antt =====
-- The fragments of one logical record: their sizes, their types and what remains behind each.
use ambar.Prelude.{
  ℕ, suc, ◌+◌, ◌-◌, ◌≤◌, ◌<◌, Bool, true, false, [], ◌++◌, append_assoc, Bytes, length,
  length-append, take, drop, ltb, ◌==◌, if◌then◌else◌, arith, ◌≡◌, ◌⊎◌, inl, inr, refl, ap,
}
use ambar.Wal.{block_size, header_size, known_type, record_header, middle, last, first, full}
use ambar.Wal.Writer.{fragment_type}
use ambar.Wal.Writer.Encodes.{
  physical, padding, start, fragment_size, encoded, length-record_header,
}

-- Enough rounds for what is left of a payload, at the offset where it goes on.
abbrev pub Enough : ℕ → ℕ → ℕ → Type 0
Enough fuel offset left = (left + 1 < fuel) ⊎ ((offset ≡ block_size) × (left < fuel))

fragment_fills :
    (offset left : ℕ)
    → fragment_size offset left < left
    → (start offset + (header_size + fragment_size offset left) ≡ block_size)
      × (offset ≡ block_size → 0 < fragment_size offset left)
unfolding fragment_size start
fragment_fills offset left h = ground arith

pub Enough-next :
    (fuel offset left : ℕ)
    → Enough (suc fuel) offset left
    → fragment_size offset left < left
    → Enough fuel
        (start offset + (header_size + fragment_size offset left))
        (left - fragment_size offset left)
Enough-next fuel offset left (inl h) more = inr ((fragment_fills offset left more).0, omega arith)
Enough-next fuel offset left (inr (at, h)) more =
    let (filled, some) = fragment_fills offset left more in inr (filled, omega (arith, some at))

-- What the rounds behind this one write.
pub remaining : ℕ → ℕ → Bytes → Bytes
remaining fuel offset payload =
    if ltb 0 (length payload - fragment_size offset (length payload))
    then encoded fuel (start offset + (header_size + fragment_size offset (length payload)))
        (drop (fragment_size offset (length payload)) payload) false
    else []

pub remaining_more :
    (fuel offset : ℕ) (payload : Bytes)
    → ltb 0 (length payload - fragment_size offset (length payload)) ≡ true
    → remaining fuel offset payload
      ≡ encoded fuel
          (start offset + (header_size + fragment_size offset (length payload)))
          (drop (fragment_size offset (length payload)) payload)
          false
unfolding remaining
remaining_more fuel offset payload h = rw h refl

pub remaining_done :
    (fuel offset : ℕ) (payload : Bytes)
    → ltb 0 (length payload - fragment_size offset (length payload)) ≡ false
    → remaining fuel offset payload ≡ []
unfolding remaining
remaining_done fuel offset payload h = rw h refl

-- The bytes of one round, and what follows.
pub encoded_round :
    (fuel offset : ℕ) (payload rest : Bytes) (is_first : Bool)
    → encoded (suc fuel) offset payload is_first ++ rest
      ≡ padding offset
        ++ (physical
              (fragment_type is_first (fragment_size offset (length payload) == length payload))
              (take (fragment_size offset (length payload)) payload)
            ++ (remaining fuel offset payload ++ rest))
unfolding encoded remaining
encoded_round fuel offset payload rest is_first = simp append_assoc refl

pub known-fragment_type : (a b : Bool) → known_type (fragment_type a b) ≡ true
known-fragment_type true true = refl
known-fragment_type true false = refl
known-fragment_type false true = refl
known-fragment_type false false = refl

pub ltb→lt_sub : (k n : ℕ) → ltb 0 (n - k) ≡ true → k < n
ltb→lt_sub k n h = ground arith

pub all_taken : (k n : ℕ) → ltb 0 (n - k) ≡ false → k ≤ n → k ≡ n
all_taken k n h le = ground arith

pub middle_type : (k n : ℕ) → k < n → fragment_type false (k == n) ≡ middle
middle_type k n h = ground arith

pub last_type : (k n : ℕ) → k ≡ n → fragment_type false (k == n) ≡ last
last_type k n h = ground arith

pub first_type : (k n : ℕ) → k < n → fragment_type true (k == n) ≡ first
first_type k n h = ground arith

pub full_type : (k n : ℕ) → k ≡ n → fragment_type true (k == n) ≡ full
full_type k n h = ground arith

-- A round writes a header at least, and all that follows it.
pub encoded_size :
    (fuel offset : ℕ) (payload : Bytes) (is_first : Bool)
    → 7 + length (remaining fuel offset payload)
      ≤ length (encoded (suc fuel) offset payload is_first)
encoded_size fuel offset payload is_first =
    let k = fragment_size offset (length payload) in
    let t = fragment_type is_first (k == length payload) in
    let behind = remaining fuel offset payload ++ [] in
    omega (
      arith,
      ap (λ (bs : Bytes). length bs) (encoded_round fuel offset payload [] is_first),
      length-append (encoded (suc fuel) offset payload is_first) [],
      length-append (padding offset) (physical t (take k payload) ++ behind),
      length-append (physical t (take k payload)) behind,
      length-append (record_header t (take k payload)) (take k payload),
      length-record_header t (take k payload),
      length-append (remaining fuel offset payload) [],
    )

pub encoded_more :
    (fuel offset : ℕ) (payload : Bytes) (is_first : Bool)
    → ltb 0 (length payload - fragment_size offset (length payload)) ≡ true
    → 7
        + length (
            encoded fuel
              (start offset + (header_size + fragment_size offset (length payload)))
              (drop (fragment_size offset (length payload)) payload)
              false)
      ≤ length (encoded (suc fuel) offset payload is_first)
encoded_more fuel offset payload is_first more =
    rw (remaining_more fuel offset payload more) at (encoded_size fuel offset payload is_first)
