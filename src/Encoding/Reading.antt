-- ===== src/Encoding/Reading.antt =====
-- encoding.cpp: the varint reader on any input, whoever wrote it.
use native.Mathlib.Nat.{one-le-pow}
use ambar.Prelude.{
  ℕ, zero, suc, ◌+◌, ◌%◌, ◌^◌, ◌≤◌, ◌<◌, bit_and, bit_or, ◌<<<◌, arith, ◌≡◌, ap, none, some,
  Option-cases, Bool-cases, ◌==◌, inl, inr, [], ◌∷◌, ◌++◌, append-nil, Bytes, length, length-append,
  bit_or-lt,
}
use ambar.Encoding.{get_varint, get_varint32, put_varint32, get_varint64}
use ambar.Encoding.Varint.{get-put_varint32}

-- A value read has `w` bits, and it took between one byte and as many as there are rounds.
pub get_varint_takes :
    (w n : ℕ) (input : Bytes) (r s v : ℕ) (rest : Bytes)
    → r < 2 ^ w
    → get_varint w n input r s ≡ some (v, rest)
    → (v < 2 ^ w) × (length rest < length input) × (length input ≤ length rest + n)
unfolding get_varint
get_varint_takes w zero input r s v rest hr e = cc
get_varint_takes w (suc n) [] r s v rest hr e = cc
get_varint_takes w (suc n) (b ∷ input) r s v rest hr e = ground (
  arith,
  one-le-pow w 2,
  bit_or-lt w r ((bit_and b 0x7f <<< s) % 2 ^ w) hr (omega (arith, one-le-pow w 2)),
  get_varint_takes w n input (bit_or r ((bit_and b 0x7f <<< s) % 2 ^ w)) (s + 7) v rest,
)

-- The reader does not look past the number.
pub get_varint-append :
    (w n : ℕ) (input more : Bytes) (r s v : ℕ) (rest : Bytes)
    → get_varint w n input r s ≡ some (v, rest)
    → get_varint w n (input ++ more) r s ≡ some (v, rest ++ more)
unfolding get_varint
get_varint-append w zero input more r s v rest e = cc
get_varint-append w (suc n) [] more r s v rest e = cc
get_varint-append w (suc n) (b ∷ input) more r s v rest e = ground (
  arith,
  get_varint-append w n input more (bit_or r ((bit_and b 0x7f <<< s) % 2 ^ w)) (s + 7) v rest,
)

-- What was taken is a piece of the input.
pub get_varint_header :
    (w n : ℕ) (input : Bytes) (r s v : ℕ) (rest : Bytes)
    → get_varint w n input r s ≡ some (v, rest)
    → (header : Bytes) × (input ≡ header ++ rest)
unfolding get_varint
get_varint_header w zero input r s v rest e = absurd (cc)
get_varint_header w (suc n) [] r s v rest e = absurd (cc)
get_varint_header w (suc n) (b ∷ input) r s v rest e = elim (Bool-cases (bit_and b 0x80 == 0)) [
  | inl last ↦ (b ∷ [], ground arith)
  | inr more ↦
      let (header, split) =
        get_varint_header w n input (bit_or r ((bit_and b 0x7f <<< s) % 2 ^ w)) (s + 7) v rest
          (ground arith) in
      (b ∷ header, ap (◌∷◌ b) split)
]

-- Where the varint of a number of 32 bits is cut off before its end, get_varint32 refuses what is
-- left of it.
pub get_varint32_cut :
    (v x : ℕ) (front back : Bytes)
    → v < 2 ^ 32
    → put_varint32 [] v ≡ front ++ (x ∷ back)
    → get_varint32 front ≡ none
unfolding get_varint32
get_varint32_cut v x front back h e = elim (Option-cases (get_varint32 front)) [
  | inl refused ↦ refused
  | inr ((u, rest), r) ↦ ground (
    arith,
    whole,
    get_varint-append 32 5 front (x ∷ back) 0 0 u rest r,
    length-append rest (x ∷ back),
  )
]
  where
    whole : get_varint32 (front ++ (x ∷ back)) ≡ some (v, [])
    whole = rw (append-nil, e) at (get-put_varint32 v [] h)

-- Where get_varint32 gives a number, it has 32 bits, and the reader took between one byte and five.
pub get_varint32_takes :
    (input : Bytes) (v : ℕ) (rest : Bytes)
    → get_varint32 input ≡ some (v, rest)
    → (v < 2 ^ 32) × (length rest < length input) × (length input ≤ length rest + 5)
unfolding get_varint32
get_varint32_takes input v rest e = get_varint_takes 32 5 input 0 0 v rest (omega arith) e

-- The 64-bit reader takes one to ten.
pub get_varint64_takes :
    (input : Bytes) (v : ℕ) (rest : Bytes)
    → get_varint64 input ≡ some (v, rest)
    → (v < 2 ^ 64) × (length rest < length input) × (length input ≤ length rest + 10)
unfolding get_varint64
get_varint64_takes input v rest e = get_varint_takes 64 10 input 0 0 v rest (omega arith) e
