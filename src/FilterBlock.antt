-- ===== src/FilterBlock.antt =====
-- filter_block.hpp and filter_block.cpp: the filters of a table, one for each region of its file.
pub mod Builds
pub mod Blocks
pub mod Reads
pub mod Finds
use ambar.Prelude.{
  ℕ, zero, suc, ◌+◌, ◌-◌, ◌*◌, ◌/◌, ◌>>>◌, u8, u32, u64, Bool, true, false, ◌||◌, Option, none,
  some, List, [], ◌∷◌, ◌++◌, Bytes, length, take, drop, ltb, leb, ◌==◌, if◌then◌else◌,
}
use ambar.Encoding.{byte_at, put_fixed32, decode_fixed32}
use ambar.FilterPolicy.{FilterPolicy}

abbrev pub filter_base_log : ℕ
filter_base_log = 11

pub record FilterBlockBuilder : Type 0 where
  pub keys : Bytes
  pub key_starts : List ℕ
  pub result : Bytes
  pub filter_offsets : List ℕ
  pub tmp_keys : List Bytes

abbrev pub new_builder : FilterBlockBuilder
new_builder = record { keys = []; key_starts = []; result = []; filter_offsets = []; tmp_keys = [] }

unfoldable pub add_key : FilterBlockBuilder → Bytes → FilterBlockBuilder
add_key b key = record b { key_starts = b.key_starts ++ (length b.keys ∷ []); keys = b.keys ++ key }

-- The loop over `i` that cuts the keys, on the starts from `i` on.
unfoldable pub cut_keys : Bytes → List ℕ → List Bytes
cut_keys keys [] = []
cut_keys keys (start ∷ []) = []
cut_keys keys (start ∷ end ∷ starts) =
    take (end - start) (drop start keys) ∷ cut_keys keys (end ∷ starts)

-- The loop over the offsets of `finish`.
unfoldable pub put_offsets : Bytes → List ℕ → Bytes
put_offsets dst [] = dst
put_offsets dst (offset ∷ offsets) = put_offsets (put_fixed32 dst offset) offsets

module _ (policy : FilterPolicy) where
  unfoldable pub generate_filter : FilterBlockBuilder → FilterBlockBuilder
  generate_filter b =
      let placed = b.filter_offsets ++ (u32 (length b.result) ∷ []) in
      if length b.key_starts == 0 then record b { filter_offsets = placed } else record {
        keys = [];
        key_starts = [];
        result =
            policy.create_filter (cut_keys b.keys (b.key_starts ++ (length b.keys ∷ []))) b.result;
        filter_offsets = placed;
        tmp_keys = [];
      }

  -- The loop `while (wanted > filter_offsets_.size())`, each round of which adds an offset.
  unfoldable pub generate_filters : ℕ → FilterBlockBuilder → FilterBlockBuilder
  generate_filters zero b = b
  generate_filters (suc rounds) b = generate_filters rounds (generate_filter b)

  unfoldable pub start_block : FilterBlockBuilder → ℕ → FilterBlockBuilder
  start_block b block_offset =
      let wanted = block_offset >>> filter_base_log in
      generate_filters (wanted - length b.filter_offsets) b

  -- The builder behind it, whose `result` is what is returned.
  unfoldable pub finish : FilterBlockBuilder → FilterBlockBuilder
  finish b =
      let b' = if length b.key_starts == 0 then b else generate_filter b in
      let array_offset = u32 (length b'.result) in
      record b' {
        result =
            put_fixed32 (put_offsets b'.result b'.filter_offsets) array_offset
            ++ (u8 filter_base_log ∷ []);
      }

-- `data_` is `none` where it is null; `offset` is where the array starts in it.
pub record FilterBlockReader : Type 0 where
  pub data_ : Option Bytes
  pub offset : ℕ
  pub num : ℕ
  pub base_lg : ℕ

unfoldable pub new_reader : Bytes → FilterBlockReader
new_reader contents =
    let size = length contents in
    let base_lg = byte_at contents (size - 1) in
    let last_word = decode_fixed32 (drop (size - 5) contents) in
    if ltb size 5
    then record { data_ = none; offset = 0; num = 0; base_lg = 0 }
    else if leb 64 base_lg
    then record { data_ = none; offset = 0; num = 0; base_lg = base_lg }
    else if ltb (size - 5) last_word
    then record { data_ = none; offset = 0; num = 0; base_lg = base_lg }
    else record {
      data_ = some contents;
      offset = last_word;
      num = (size - 5 - last_word) / 4;
      base_lg = base_lg;
    }

-- What a filter between two offsets answers.
unfoldable pub match_between : FilterPolicy → FilterBlockReader → Bytes → ℕ → ℕ → Bytes → Bool
match_between policy r block start limit key =
    if ltb limit start || ltb (u32 r.offset) limit
    then true
    else if start == limit
    then true
    else policy.key_may_match key (take (limit - start) (drop start block))

unfoldable pub key_may_match : FilterPolicy → FilterBlockReader → ℕ → Bytes → Bool
unfolding match_between
key_may_match policy r block_offset key = elim r.data_ [
  | none ↦ true
  | some block ↦
      let index = block_offset >>> r.base_lg in
      let start = decode_fixed32 (drop (r.offset + index * 4) block) in
      let limit = decode_fixed32 (drop (r.offset + index * 4 + 4) block) in
      if leb r.num index then true else match_between policy r block start limit key
]
