-- ===== src/Encoding/Prefixed.antt =====
-- encoding.cpp: length-prefixed strings.
use native.Mathlib.Nat.{mod-eq_of_lt}
use ambar.Prelude.{
  ◌^◌, ◌<◌, ◌≤◌, arith, ◌≡◌, refl, some, [], ◌++◌, append_assoc, Bytes, length, length-append,
  take-append, drop-append, ◌>>=◌, le→ltb, ◌+◌, Option-cases, inl, inr, length-take, length-drop,
}
use ambar.Encoding.{put_length_prefixed, get_length_prefixed, take_prefixed, get_varint32}
use ambar.Encoding.Reading.{get_varint32_takes}
use ambar.Encoding.Varint.{groups, put_varint32-groups, get-put_varint32}

-- A string as it is stored: its length, then its bytes.
unfoldable pub prefixed : Bytes → Bytes
prefixed value = groups 4 (length value) ++ value

pub put_length_prefixed-prefixed :
    (dst value : Bytes)
    → length value < 2 ^ 32
    → put_length_prefixed dst value ≡ dst ++ prefixed value
unfolding put_length_prefixed prefixed
put_length_prefixed-prefixed dst value h =
    rw (mod-eq_of_lt h, put_varint32-groups dst (length value) h) (append_assoc dst _ value)

take_prefixed-append :
    (value rest : Bytes) → take_prefixed (length value) (value ++ rest) ≡ some (value, rest)
unfolding take_prefixed
take_prefixed-append value rest = rw (
  le→ltb (length (value ++ rest)) (length value) (omega (arith, length-append value rest)),
  take-append (length value) value rest refl,
  drop-append (length value) value rest refl,
)

pub get-prefixed :
    (value rest : Bytes)
    → length value < 2 ^ 32
    → get_length_prefixed (prefixed value ++ rest) ≡ some (value, rest)
unfolding get_length_prefixed prefixed
get-prefixed value rest h = rw (append_assoc (groups 4 (length value)) value rest) (
    rw (← put_varint32-groups [] (length value) h) (
      rw (get-put_varint32 (length value) (value ++ rest) h, ◌>>=◌)
        (take_prefixed-append value rest)))

-- A string that put_length_prefixed wrote, with a length of 32 bits, is read back, and what follows
-- it is left.
pub get-put_length_prefixed :
    (value rest : Bytes)
    → length value < 2 ^ 32
    → get_length_prefixed (put_length_prefixed [] value ++ rest) ≡ some (value, rest)
get-put_length_prefixed value rest h =
    rw (put_length_prefixed-prefixed [] value h) (get-prefixed value rest h)

-- Where get_length_prefixed gives a string, that string and what is left have together less bytes
-- than the input.
pub get_length_prefixed_shrinks :
    (input value rest : Bytes)
    → get_length_prefixed input ≡ some (value, rest)
    → length value + length rest < length input
unfolding get_length_prefixed take_prefixed
get_length_prefixed_shrinks input value rest e = elim (Option-cases (get_varint32 input)) [
  | inl refused ↦ ground arith
  | inr ((len, behind), read) ↦
      ground
        (arith, get_varint32_takes input len behind, length-take len behind, length-drop len behind)
]

-- A string that was read has a length of 32 bits.
pub get_length_prefixed-fits :
    (input value rest : Bytes)
    → get_length_prefixed input ≡ some (value, rest)
    → (length value < 2 ^ 32) × (length rest ≤ length input)
unfolding get_length_prefixed take_prefixed
get_length_prefixed-fits input value rest e = elim (Option-cases (get_varint32 input)) [
  | inl refused ↦ ground arith
  | inr ((len, behind), read) ↦
      ground
        (arith, get_varint32_takes input len behind, length-take len behind, length-drop len behind)
]
