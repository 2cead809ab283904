-- ===== src/InternalKey.antt =====
-- dbformat.hpp and dbformat.cpp: user keys with a version, and the order of the engine.
pub mod Codec
pub mod Compare
pub mod Lookup
use Prim.Native.Nat.{compare, Ordering, lt, eq, gt}
use ambar.Prelude.{
  ℕ, zero, suc, ◌+◌, ◌-◌, ◌^◌, ◌≤◌, bit_and, bit_or, ◌<<<◌, ◌>>>◌, u32, u64, Bool, true, false,
  Option, none, some, [], ◌∷◌, ◌++◌, Bytes, length, take, drop, ltb, leb, ◌==◌, if◌then◌else◌,
}
use ambar.Encoding.{put_fixed64, encode_fixed64, decode_fixed64, encode_varint32}
use ambar.Order.{compare_bytes, flip_ordering}

-- An `enum class` over a byte: the two named values, and any other byte that a cast may give.
pub data ValueType : Type 0 where
  deletion : ValueType
  value : ValueType
  other : ℕ → ValueType

-- `static_cast<uint8_t>` and `static_cast<ValueType>` of a byte.
abbrev pub type_byte : ValueType → ℕ
type_byte deletion = 0
type_byte value = 1
type_byte (other n) = n

abbrev pub to_value_type : ℕ → ValueType
to_value_type n = if n == 0 then deletion else if n == 1 then value else other n

abbrev pub value_type_for_seek : ValueType
value_type_for_seek = value

abbrev pub max_sequence_number : ℕ
max_sequence_number = 2 ^ 56 - 1

unfoldable pub pack_sequence_and_type : ℕ → ValueType → ℕ
pack_sequence_and_type seq kind = bit_or (u64 (seq <<< 8)) (type_byte kind)

pub record ParsedInternalKey : Type 0 where
  pub user_key : Bytes
  pub sequence : ℕ
  pub kind : ValueType

unfoldable pub append_internal_key : Bytes → ParsedInternalKey → Bytes
append_internal_key dst key =
    put_fixed64 (dst ++ key.user_key) (pack_sequence_and_type key.sequence key.kind)

unfoldable pub make_internal_key : Bytes → ℕ → ValueType → Bytes
unfolding append_internal_key
make_internal_key user_key sequence kind =
    append_internal_key [] (record { user_key = user_key; sequence = sequence; kind = kind })

-- `substr(0, size() - 8)`: below eight bytes the count wraps, and the whole is taken.
unfoldable pub extract_user_key : Bytes → Bytes
extract_user_key internal_key =
    if ltb (length internal_key) 8
    then internal_key
    else take (length internal_key - 8) internal_key

-- The eight bytes at the end; the source reads them only of keys that have as many.
unfoldable pub trailer : Bytes → ℕ
trailer internal_key = decode_fixed64 (drop (length internal_key - 8) internal_key)

unfoldable pub extract_sequence : Bytes → ℕ
extract_sequence internal_key = trailer internal_key >>> 8

unfoldable pub extract_value_type : Bytes → ValueType
extract_value_type internal_key = to_value_type (bit_and (trailer internal_key) 0xff)

-- `type != kValue && type != kDeletion`
abbrev pub is_known : ValueType → Bool
is_known deletion = true
is_known value = true
is_known (other n) = false

unfoldable pub parse_internal_key : Bytes → Option ParsedInternalKey
parse_internal_key internal_key =
    let word = trailer internal_key in
    let kind = to_value_type (bit_and word 0xff) in
    if ltb (length internal_key) 8
    then none
    else if is_known kind
    then some (record {
      user_key = take (length internal_key - 8) internal_key;
      sequence = word >>> 8;
      kind = kind;
    })
    else none

-- The trailers, the higher first.
unfoldable pub compare_trailers : ℕ → ℕ → Ordering
compare_trailers a b = if ltb b a then lt else if ltb a b then gt else eq

unfoldable pub compare_internal_keys : Bytes → Bytes → Ordering
compare_internal_keys a b = elim (compare_bytes (extract_user_key a) (extract_user_key b)) [
  | lt ↦ lt
  | eq ↦ compare_trailers (trailer a) (trailer b)
  | gt ↦ gt
]

-- `InternalKeyComparator`
abbrev pub is_before : Bytes → Bytes → Bool
is_before a b = elim (compare_internal_keys a b) [ lt ↦ true | eq ↦ false | gt ↦ false ]

unfoldable pub make_lookup_key : Bytes → ℕ → Bytes
unfolding make_internal_key
make_lookup_key user_key snapshot = make_internal_key user_key snapshot value_type_for_seek

-- A `LookupKey`: the bytes from `start_` to `end_`, the place of `kstart_` among them, and whether
-- they stand in the key's own space or on the heap.
pub record LookupKey : Type 0 where
  pub bytes : Bytes
  pub kstart : ℕ
  pub on_heap : Bool

abbrev pub space_size : ℕ
space_size = 200

unfoldable pub new_lookup_key : Bytes → ℕ → LookupKey
new_lookup_key user_key snapshot =
    let internal_size = length user_key + 8 in
    let needed = 5 + internal_size in
    let header = encode_varint32 (u32 internal_size) in
    record {
      bytes =
          header
          ++ (user_key ++ encode_fixed64 (pack_sequence_and_type snapshot value_type_for_seek));
      kstart = length header;
      on_heap = if leb needed space_size then false else true;
    }

-- `delete[]` in the destructor is for what stands on the heap.
unfoldable pub memtable_key : LookupKey → Bytes
memtable_key key = key.bytes

unfoldable pub internal_key : LookupKey → Bytes
internal_key key = drop key.kstart key.bytes

unfoldable pub user_key_of : LookupKey → Bytes
user_key_of key = take (length key.bytes - key.kstart - 8) (drop key.kstart key.bytes)
