-- ===== src/Encoding.antt =====
-- encoding.hpp and encoding.cpp: little-endian integers, varints and length-prefixed strings.
-- A `char*` or `std::string_view` is the list of the bytes from there on. An integer of w bits is a
-- number below 2 ^ w; a shift to the left is cut to the width where the source's type cuts it.
pub mod Fixed
pub mod Varint
pub mod Reading
pub mod Unbounded
pub mod Prefixed
use mathlib.Core.Logic.{dite}
use mathlib.Core.WellFounded.{Acc}
use native.Mathlib.Decide.{dec_lt}
use ambar.Prelude.{
  ℕ, zero, suc, ◌+◌, ◌*◌, ◌-◌, ◌/◌, ◌%◌, ◌^◌, ◌≤◌, ◌<◌, bit_and, bit_or, ◌<<<◌, ◌>>>◌, u8, u32, u64,
}
use ambar.Prelude.{
  List, [], ◌∷◌, ◌++◌, Bytes, Bool, Option, none, some, ltb, ◌==◌, ◌>>=◌, if◌then◌else◌, length,
  get_or, take, drop, arith, lt_wf,
}

-- `p[i]`. A read outside the buffer is undefined in the source; here it is 0.
abbrev pub byte_at : Bytes → ℕ → ℕ
byte_at p i = get_or p i 0

-- What a store of `bytes` at `dst + pos` leaves of the buffer, where it fits.
unfoldable pub store_at : Bytes → ℕ → Bytes → Bytes
store_at dst pos bytes = take pos dst ++ (bytes ++ drop (pos + length bytes) dst)

-- The four bytes that are written to `dst`.
unfoldable pub encode_fixed32 : ℕ → Bytes
encode_fixed32 value =
    bit_and value 0xff
    ∷ bit_and (value >>> 8) 0xff
    ∷ bit_and (value >>> 16) 0xff
    ∷ bit_and (value >>> 24) 0xff
    ∷ []

-- The loop over `i`: rounds left, and `i`.
encode_fixed64_loop : ℕ → ℕ → ℕ → Bytes
encode_fixed64_loop zero i value = []
encode_fixed64_loop (suc n) i value =
    bit_and (value >>> (8 * i)) 0xff ∷ encode_fixed64_loop n (i + 1) value

unfoldable pub encode_fixed64 : ℕ → Bytes
unfolding encode_fixed64_loop
encode_fixed64 value = encode_fixed64_loop 8 0 value

unfoldable pub put_fixed32 : Bytes → ℕ → Bytes
put_fixed32 dst value = dst ++ encode_fixed32 value

unfoldable pub put_fixed64 : Bytes → ℕ → Bytes
put_fixed64 dst value = dst ++ encode_fixed64 value

unfoldable pub decode_fixed32 : Bytes → ℕ
decode_fixed32 p =
    bit_or (bit_or (bit_or (byte_at p 0) (u32 (byte_at p 1 <<< 8))) (u32 (byte_at p 2 <<< 16)))
      (u32 (byte_at p 3 <<< 24))

decode_fixed64_loop : ℕ → ℕ → Bytes → ℕ → ℕ
decode_fixed64_loop zero i p value = value
decode_fixed64_loop (suc n) i p value =
    decode_fixed64_loop n (i + 1) p (bit_or value (u64 (byte_at p i <<< (8 * i))))

unfoldable pub decode_fixed64 : Bytes → ℕ
unfolding decode_fixed64_loop
decode_fixed64 p = decode_fixed64_loop 8 0 p 0

pub shift_shrinks : (value : ℕ) → ¬ (value < 0x80) → value >>> 7 < value
shift_shrinks value h = omega arith

-- The loop of `put_varint32`, `put_varint64` and `encode_varint32`.
put_varint_loop : Bytes → (value : ℕ) → Acc ◌<◌ value → Bytes
put_varint_loop dst value (Acc.intro _ smaller) =
    dite (dec_lt value 0x80) (λ _. dst ++ (u8 value ∷ []))
      (λ more.
        put_varint_loop (dst ++ (u8 (bit_or (bit_and value 0x7f) 0x80) ∷ [])) (value >>> 7)
          (smaller _ (shift_shrinks value more)))

unfoldable pub put_varint32 : Bytes → ℕ → Bytes
unfolding put_varint_loop dec_lt lt_wf
put_varint32 dst value = put_varint_loop dst value (lt_wf.apply value)

unfoldable pub put_varint64 : Bytes → ℕ → Bytes
unfolding put_varint_loop dec_lt lt_wf
put_varint64 dst value = put_varint_loop dst value (lt_wf.apply value)

-- The bytes written at `dst`; the source returns the position after them.
unfoldable pub encode_varint32 : ℕ → Bytes
unfolding put_varint_loop dec_lt lt_wf
encode_varint32 value = put_varint_loop [] value (lt_wf.apply value)

-- `get_varint<T>` for a T of `w` bits: rounds left, the input from `i` on, `result` and `shift`.
-- On `none` the source leaves its two out-parameters alone.
pub get_varint : ℕ → ℕ → Bytes → ℕ → ℕ → Option (ℕ × Bytes)
get_varint w zero input result shift = none
get_varint w (suc n) [] result shift = none
get_varint w (suc n) (byte ∷ input) result shift =
    let result' = bit_or result ((bit_and byte 0x7f <<< shift) % 2 ^ w) in
    let more = get_varint w n input result' (shift + 7) in
    if bit_and byte 0x80 == 0 then some (result', input) else more

unfoldable pub get_varint32 : Bytes → Option (ℕ × Bytes)
unfolding get_varint
get_varint32 input = get_varint 32 5 input 0 0

unfoldable pub get_varint64 : Bytes → Option (ℕ × Bytes)
unfolding get_varint
get_varint64 input = get_varint 64 10 input 0 0

-- What `decode_varint32_exact` comes to: a value and the place behind it, `nullptr`, or a read
-- beyond the bytes that are there, which the source does not check.
pub data Exact : Type 0 where
  found : ℕ → Bytes → Exact
  too_long : Exact
  overrun : Exact

-- Rounds left stand for `shift <= 28`.
decode_exact_loop : ℕ → Bytes → ℕ → ℕ → Exact
decode_exact_loop zero p result shift = too_long
decode_exact_loop (suc n) [] result shift = overrun
decode_exact_loop (suc n) (byte ∷ p) result shift =
    let result' = bit_or result (u32 (bit_and byte 0x7f <<< shift)) in
    let more = decode_exact_loop n p result' (shift + 7) in
    if bit_and byte 0x80 == 0 then found result' p else more

unfoldable pub decode_varint32_exact : Bytes → Exact
unfolding decode_exact_loop
decode_varint32_exact p = decode_exact_loop 5 p 0 0

unfoldable pub put_length_prefixed : Bytes → Bytes → Bytes
put_length_prefixed dst value = put_varint32 dst (u32 (length value)) ++ value

-- The second half of `get_length_prefixed`, once the length is read.
take_prefixed : ℕ → Bytes → Option (Bytes × Bytes)
take_prefixed len input =
    if ltb (length input) len then none else some (take len input, drop len input)

unfoldable pub get_length_prefixed : Bytes → Option (Bytes × Bytes)
unfolding take_prefixed
get_length_prefixed input = do (len, rest) ← get_varint32 input; take_prefixed len rest
