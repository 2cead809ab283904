-- ===== src/Crc.antt =====
-- encoding.cpp: CRC32C, by the table of 256 entries.
pub mod Extend
pub mod Detects
use mathlib.Core.List.{foldl}
use ambar.Prelude.{ℕ, zero, suc, ◌+◌, ◌-◌, ◌^◌, bit_and, bit_xor, ◌>>>◌, Bytes, ◌==◌, if◌then◌else◌}

abbrev polynomial : ℕ
polynomial = 0x82F63B78

-- One bit of an entry.
crc_bit : ℕ → ℕ
crc_bit crc = if bit_and crc 1 == 0 then crc >>> 1 else bit_xor (crc >>> 1) polynomial

crc_bits : ℕ → ℕ → ℕ
unfolding crc_bit
crc_bits zero crc = crc
crc_bits (suc bit) crc = crc_bits bit (crc_bit crc)

-- `table[i]`; the source fills the table once with these.
pub crc_table : ℕ → ℕ
unfolding crc_bits
crc_table i = crc_bits 8 i

-- `~crc` on 32 bits.
abbrev pub complement : ℕ → ℕ
complement crc = 2 ^ 32 - 1 - crc

-- The body of the loop over the bytes.
pub crc_step : ℕ → ℕ → ℕ
crc_step crc c = bit_xor (crc_table (bit_and (bit_xor crc c) 0xff)) (crc >>> 8)

unfoldable pub crc32c_extend : ℕ → Bytes → ℕ
unfolding crc_step crc_table
crc32c_extend crc bytes = complement (foldl crc_step (complement crc) bytes)

unfoldable pub crc32c : Bytes → ℕ
unfolding crc32c_extend
crc32c bytes = crc32c_extend 0 bytes
