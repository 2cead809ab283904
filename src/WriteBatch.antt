-- ===== src/WriteBatch.antt =====
-- write_batch.cpp and write_batch_internal.hpp. A batch is its string `rep_`: a fixed64 sequence, a
-- fixed32 count, and the records.
pub mod Layout
pub mod Builds
pub mod Iterates
pub mod Inserts
use Prim.Native.String.{String}
use ambar.Prelude.{
  ℕ, zero, suc, ◌+◌, u32, u64, Bool, Option, none, some, List, [], ◌∷◌, ◌++◌, Bytes, length, drop,
  replicate, ltb, ◌==◌, if◌then◌else◌,
}
use ambar.Encoding.{
  store_at, encode_fixed32, encode_fixed64, decode_fixed32, decode_fixed64, put_length_prefixed,
  get_length_prefixed,
}
use ambar.InternalKey.{ValueType, value, deletion, other, type_byte, to_value_type}
use ambar.Status.{Status, ok, corruption}

abbrev pub WriteBatch : Type 0
WriteBatch = Bytes

-- `kHeader`
abbrev pub header_size : ℕ
header_size = 12

unfoldable pub clear : WriteBatch
clear = replicate header_size 0

unfoldable pub count : WriteBatch → ℕ
count b = decode_fixed32 (drop 8 b)

unfoldable pub set_count : WriteBatch → ℕ → WriteBatch
set_count b n = store_at b 8 (encode_fixed32 n)

unfoldable pub sequence : WriteBatch → ℕ
sequence b = decode_fixed64 b

unfoldable pub set_sequence : WriteBatch → ℕ → WriteBatch
set_sequence b seq = store_at b 0 (encode_fixed64 seq)

unfoldable pub put : WriteBatch → Bytes → Bytes → WriteBatch
put b key val =
    let counted = set_count b (u32 (count b + 1)) in
    put_length_prefixed (put_length_prefixed (counted ++ (type_byte value ∷ [])) key) val

unfoldable pub del : WriteBatch → Bytes → WriteBatch
del b key =
    let counted = set_count b (u32 (count b + 1)) in
    put_length_prefixed (counted ++ (type_byte deletion ∷ [])) key

-- The bytes and the status; on an error the batch stays.
unfoldable pub set_contents : WriteBatch → Bytes → Status × WriteBatch
set_contents b contents =
    if ltb (length contents) header_size
    then (corruption "write batch: log record smaller than header", b)
    else (ok, contents)

unfoldable pub append : WriteBatch → WriteBatch → WriteBatch
append dst src = set_count dst (u32 (count dst + count src)) ++ drop header_size src

-- `WriteBatch::Handler`: what is called with each operation, over the state that it keeps.
pub record Handler (S : Type 0) : Type 0 where
  pub on_put : Bytes → Bytes → S → S
  pub on_del : Bytes → S → S

-- Where the loop of `iterate` ends: with the count found, with a corruption, or with its fuel used up,
-- which no run of the source does.
pub data Walk (S : Type 0) : Type 0 where
  finished : ℕ → S → Walk S
  failed : String → S → Walk S
  unfinished : Walk S

module _ {S : Type 0} (handler : Handler S) where
  -- Fuel, the input, `found` and the handler's state. Each round takes the tag at least.
  unfoldable pub iterate_loop : ℕ → Bytes → ℕ → S → Walk S
  iterate_loop fuel [] found s = finished found s
  iterate_loop zero (tag ∷ input) found s = unfinished
  iterate_loop (suc fuel) (tag ∷ input) found s = elim (to_value_type tag) [
    | value ↦ elim (get_length_prefixed input) [
      | none ↦ failed "write batch: truncated put record" s
      | some (key, input₁) ↦ elim (get_length_prefixed input₁) [
        | none ↦ failed "write batch: truncated put record" s
        | some (val, input₂) ↦ iterate_loop fuel input₂ (u32 (found + 1)) (handler.on_put key val s)
      ]
    ]
    | deletion ↦ elim (get_length_prefixed input) [
      | none ↦ failed "write batch: truncated delete record" s
      | some (key, input₁) ↦ iterate_loop fuel input₁ (u32 (found + 1)) (handler.on_del key s)
    ]
    | other n ↦ failed "write batch: unknown record tag" s
  ]

  -- The check of the count behind the loop.
  unfoldable pub conclude : WriteBatch → Walk S → Option (Status × S)
  conclude b (finished found s) =
      if found == count b
      then some (ok, s)
      else some (corruption "write batch: record count does not match header", s)
  conclude b (failed message s) = some (corruption message, s)
  conclude b unfinished = none

  unfoldable pub iterate : WriteBatch → S → Option (Status × S)
  iterate b s =
      if ltb (length b) header_size
      then some (corruption "write batch is smaller than its header", s)
      else conclude b (iterate_loop (length b) (drop header_size b) 0 s)

-- `MemTableInserter` over a memtable's `add`: the next sequence number and the memtable.
module _ {M : Type 0} (add : ℕ → ValueType → Bytes → Bytes → M → M) where
  abbrev pub inserter : Handler (ℕ × M)
  inserter = record {
    on_put = λ key val s. (u64 (s.0 + 1), add s.0 value key val s.1);
    on_del = λ key s. (u64 (s.0 + 1), add s.0 deletion key [] s.1);
  }

  unfoldable pub insert_into : WriteBatch → M → Option (Status × (ℕ × M))
  insert_into b memtable = iterate inserter b (sequence b, memtable)
