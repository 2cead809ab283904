-- ===== src/Format.antt =====
-- format.hpp and format.cpp: block handles and the footer of a table file.
pub mod RoundTrip
use ambar.Prelude.{
  ℕ, ◌+◌, ◌-◌, bit_and, bit_or, ◌<<<◌, ◌>>>◌, u32, u64, none, some, ◌++◌, Bytes, length, take, drop,
  replicate, ltb, ◌==◌, if◌then◌else◌,
}
use ambar.Encoding.{put_varint64, get_varint64, put_fixed32, decode_fixed32}
use ambar.Status.{Status, ok, corruption, is_ok}

pub record BlockHandle : Type 0 where
  pub offset : ℕ
  pub size : ℕ

pub record Footer : Type 0 where
  pub metaindex_handle : BlockHandle
  pub index_handle : BlockHandle

-- Of a handle, and of a footer.
abbrev pub max_encoded_length : ℕ
max_encoded_length = 20

abbrev pub encoded_length : ℕ
encoded_length = 48

abbrev pub table_magic_number : ℕ
table_magic_number = 0x9d4f2b6c1a73e850

-- `BlockHandle::encode_to`
unfoldable pub encode_handle : BlockHandle → Bytes → Bytes
encode_handle h dst = put_varint64 (put_varint64 dst h.offset) h.size

-- `BlockHandle::decode_from`: the status, the handle and the input that it leaves; an offset that was
-- read stays where the size is refused.
unfoldable pub decode_handle : BlockHandle → Bytes → Status × BlockHandle × Bytes
decode_handle h input = elim (get_varint64 input) [
  | none ↦ (corruption "bad block handle", h, input)
  | some (offset, input₁) ↦ elim (get_varint64 input₁) [
    | none ↦ (corruption "bad block handle", record h { offset = offset }, input₁)
    | some (size, input₂) ↦ (ok, record { offset = offset; size = size }, input₂)
  ]
]

-- `std::string::resize`
abbrev pub resize : Bytes → ℕ → Bytes
resize dst n = take n dst ++ replicate (n - length dst) 0

-- `Footer::encode_to`
unfoldable pub encode_footer : Footer → Bytes → Bytes
encode_footer f dst =
    let handles = encode_handle f.index_handle (encode_handle f.metaindex_handle dst) in
    let padded = resize handles (length dst + (max_encoded_length + max_encoded_length)) in
    put_fixed32 (put_fixed32 padded (u32 (bit_and table_magic_number 0xffffffff)))
      (u32 (table_magic_number >>> 32))

-- `Footer::decode_from`
unfoldable pub decode_footer : Footer → Bytes → Status × Footer × Bytes
decode_footer f input =
    let magic =
      bit_or (u64 (decode_fixed32 (drop 44 input) <<< 32)) (decode_fixed32 (drop 40 input)) in
    let (status, metaindex, remaining) = decode_handle f.metaindex_handle (take 40 input) in
    let (status', index, remaining') = decode_handle f.index_handle remaining in
    let both : Footer = record { metaindex_handle = metaindex; index_handle = index } in
    if ltb (length input) encoded_length
    then (corruption "file is too short to hold a table footer", f, input)
    else if magic == table_magic_number
    then if is_ok status
      then if is_ok status' then (ok, both, drop encoded_length input) else (status', both, input)
      else (status, record f { metaindex_handle = metaindex }, input)
    else (corruption "not an Ambar table file (bad magic number)", f, input)
