-- ===== src/Tests/Encoding.antt =====
-- encoding.cpp and encoding.hpp on concrete input.
use ambar.Prelude.{ℕ, none, some, [], ◌∷◌, ◌++◌, arith, ◌≡◌, refl}
use ambar.Encoding.{
  encode_fixed64, decode_fixed64, put_varint32, get_varint32, put_varint64, get_varint64,
  put_length_prefixed, get_length_prefixed, decode_varint32_exact,
}
use ambar.Encoding.Fixed.{decode-encode_fixed64}
use ambar.Encoding.Varint.{get-put_varint64}
use ambar.Encoding.Reading.{get_varint32_cut}
use ambar.Encoding.Unbounded.{bounded, decode_varint32_exact-get_varint32}
use ambar.Encoding.Prefixed.{get-put_length_prefixed}
use ambar.Crc.{crc32c, crc32c_extend}
use ambar.Crc.Extend.{crc32c_extend-append}
use ambar.Crc.Detects.{crc32c_extend_detects}

put_varint32_300 : put_varint32 [] 300 ≡ 172 ∷ 2 ∷ []
unfolding put_varint32
put_varint32_300 = refl

get_varint32_too_long : get_varint32 (128 ∷ 128 ∷ 128 ∷ 128 ∷ 128 ∷ 1 ∷ []) ≡ none
unfolding get_varint32
get_varint32_too_long = refl

-- The check value of CRC-32C, of "123456789".
crc32c_check : crc32c (49 ∷ 50 ∷ 51 ∷ 52 ∷ 53 ∷ 54 ∷ 55 ∷ 56 ∷ 57 ∷ []) ≡ 0xE3069283
unfolding crc32c
crc32c_check = refl

decode-encode_fixed64_example :
    decode_fixed64 (encode_fixed64 0x123456789a ++ (9 ∷ [])) ≡ 0x123456789a
decode-encode_fixed64_example = decode-encode_fixed64 0x123456789a (9 ∷ []) (omega arith)

get-put_varint64_example :
    get_varint64 (put_varint64 [] 0x123456789a ++ (9 ∷ [])) ≡ some (0x123456789a, 9 ∷ [])
get-put_varint64_example = get-put_varint64 0x123456789a (9 ∷ []) (omega arith)

get_varint32_cut_example : get_varint32 (172 ∷ []) ≡ none
get_varint32_cut_example = get_varint32_cut 300 2 (172 ∷ []) [] (omega arith) put_varint32_300

read_300 : get_varint32 (172 ∷ 2 ∷ 9 ∷ []) ≡ some (300, 9 ∷ [])
unfolding get_varint32
read_300 = refl

decode_varint32_exact-get_varint32_example :
    bounded (decode_varint32_exact (172 ∷ 2 ∷ 9 ∷ [])) ≡ get_varint32 (172 ∷ 2 ∷ 9 ∷ [])
decode_varint32_exact-get_varint32_example = decode_varint32_exact-get_varint32 (172 ∷ 2 ∷ 9 ∷ [])

get-put_length_prefixed_example :
    get_length_prefixed (put_length_prefixed [] (1 ∷ 2 ∷ []) ++ (9 ∷ []))
    ≡ some (1 ∷ 2 ∷ [], 9 ∷ [])
get-put_length_prefixed_example = get-put_length_prefixed (1 ∷ 2 ∷ []) (9 ∷ []) (omega arith)

read_field : get_length_prefixed (2 ∷ 7 ∷ 8 ∷ 9 ∷ []) ≡ some (7 ∷ 8 ∷ [], 9 ∷ [])
unfolding get_length_prefixed get_varint32
read_field = refl

crc32c_extend-append_example :
    crc32c_extend 0 ((1 ∷ 2 ∷ []) ++ (3 ∷ []))
    ≡ crc32c_extend (crc32c_extend 0 (1 ∷ 2 ∷ [])) (3 ∷ [])
crc32c_extend-append_example = crc32c_extend-append 0 (1 ∷ 2 ∷ []) (3 ∷ [])

crc32c_extend_detects_example : ◌≡◌ {A = ℕ} 5 5
crc32c_extend_detects_example =
    crc32c_extend_detects 0 (1 ∷ []) (7 ∷ []) 5 5 (omega arith) (omega arith, tt) (omega arith)
      (omega arith) refl
