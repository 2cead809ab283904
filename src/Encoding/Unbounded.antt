-- ===== src/Encoding/Unbounded.antt =====
-- encoding.hpp: `decode_varint32_exact` against the bounded reader.
use ambar.Prelude.{
  ℕ, zero, suc, ◌+◌, ◌%◌, ◌^◌, bit_and, bit_or, ◌<<<◌, arith, ◌≡◌, refl, Option, none, some, [],
  ◌∷◌, Bytes,
}
use ambar.Encoding.{
  Exact, found, too_long, overrun, get_varint, get_varint32, decode_exact_loop,
  decode_varint32_exact,
}

-- What the bounded reader makes of an outcome: both faults are a refusal.
abbrev pub bounded : Exact → Option (ℕ × Bytes)
bounded (found v rest) = some (v, rest)
bounded too_long = none
bounded overrun = none

decode_exact_loop-bounded :
    (n : ℕ) (p : Bytes) (r s : ℕ) → bounded (decode_exact_loop n p r s) ≡ get_varint 32 n p r s
unfolding decode_exact_loop get_varint
decode_exact_loop-bounded zero p r s = refl
decode_exact_loop-bounded (suc n) [] r s = refl
decode_exact_loop-bounded (suc n) (b ∷ p) r s =
    ground
      (arith, decode_exact_loop-bounded n p (bit_or r ((bit_and b 0x7f <<< s) % 2 ^ 32)) (s + 7))

-- On every string of bytes, with the ends of the two readers' outcomes matched,
-- decode_varint32_exact finds the number and the rest that get_varint32 finds, and finds none where
-- get_varint32 refuses.
pub decode_varint32_exact-get_varint32 :
    (p : Bytes) → bounded (decode_varint32_exact p) ≡ get_varint32 p
unfolding decode_varint32_exact get_varint32
decode_varint32_exact-get_varint32 p = decode_exact_loop-bounded 5 p 0 0
