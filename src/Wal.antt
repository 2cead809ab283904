-- ===== src/Wal.antt =====
-- wal.hpp: the format that the writer and the reader of the log share.
pub mod Writer
pub mod Reader
pub mod Recovery
use ambar.Prelude.{
  ℕ, ◌+◌, ◌*◌, bit_and, bit_or, ◌<<<◌, ◌>>>◌, Bool, ◌&&◌, ◌||◌, [], ◌∷◌, ◌++◌, Bytes, length, take,
  drop, ◌==◌,
}
use ambar.Encoding.{byte_at, encode_fixed32, decode_fixed32, put_fixed32}
use ambar.Crc.{crc32c_extend}

abbrev pub block_size : ℕ
block_size = 32768

-- crc, length and type
abbrev pub header_size : ℕ
header_size = 7

-- `enum class RecordType : uint8_t`; a cast may give any other byte.
abbrev pub RecordType : Type 0
RecordType = ℕ

abbrev pub zero_type : RecordType
zero_type = 0

abbrev pub full : RecordType
full = 1

abbrev pub first : RecordType
first = 2

abbrev pub middle : RecordType
middle = 3

abbrev pub last : RecordType
last = 4

abbrev pub known_type : RecordType → Bool
known_type t = t == full || (t == first || (t == middle || t == last))

-- The checksum of the type byte and the payload.
unfoldable pub record_crc : RecordType → Bytes → ℕ
record_crc t payload = crc32c_extend (crc32c_extend 0 (t ∷ [])) payload

-- The header that `emit_physical_record` builds.
unfoldable pub record_header : RecordType → Bytes → Bytes
record_header t payload =
    put_fixed32 [] (record_crc t payload)
    ++ (bit_and (length payload) 0xff ∷ bit_and (length payload >>> 8) 0xff ∷ t ∷ [])

pub record Header : Type 0 where
  pub crc : ℕ
  pub len : ℕ
  pub kind : RecordType

unfoldable pub parse_header : Bytes → Header
parse_header p = record {
  crc = decode_fixed32 p;
  len = bit_or (byte_at p 4) (byte_at p 5 <<< 8);
  kind = byte_at p 6;
}

unfoldable pub is_zeroed : Header → Bool
is_zeroed h = h.kind == zero_type && (h.len == 0 && h.crc == 0)

-- Whether the record at `p` carries the checksum that its header claims.
unfoldable pub verifies : Bytes → Header → Bool
verifies p h =
    record_crc (byte_at p 6) (take h.len (drop header_size p)) == h.crc && known_type h.kind
