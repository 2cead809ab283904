-- ===== src/Tests/Block.antt =====
-- block_builder.cpp and block.cpp on a block of three entries.
use ambar.Prelude.{◌<◌, ◌^◌, List, [], ◌∷◌, some, Bytes, All, length, arith, ◌≡◌, refl}
use ambar.Status.{ok}
use ambar.Order.{compare_bytes, compare_bytes_trans}
use ambar.Encoding.{put_varint32, put_fixed32, encode_fixed32}
use ambar.Comparator.{bytewise_comparator}
use ambar.BlockBuilder.{new_builder, reset, add, finish, current_size_estimate}
use ambar.BlockBuilder.Chain.{add_entries}
use ambar.Block.{Iter, over, new_block, new_iterator, seek_to_first}
use ambar.Block.Reads.{IsReadable}
use ambar.Block.RoundTrip.{walk, walk-finish}
use ambar.Block.Find.{find, found}
use ambar.Block.Find.Correct.{find-finish}
use ambar.Block.Find.Walk.{IsTransitive, IsAscending, first_from}

-- "ab", "abc" and "b", the last of which begins a new chain.
abbrev three_entries : List (Bytes × Bytes)
three_entries = ((97 ∷ 98 ∷ [], 1 ∷ []) ∷ (97 ∷ 98 ∷ 99 ∷ [], 2 ∷ []) ∷ (98 ∷ [], 3 ∷ []) ∷ [])

three_entries-IsReadable : All (IsReadable bytewise_comparator) three_entries
three_entries-IsReadable = (
  ((omega arith, omega arith), omega arith),
  (((omega arith, omega arith), omega arith), (((omega arith, omega arith), omega arith), tt)),
)

three_entries-IsAscending : IsAscending bytewise_comparator three_entries
unfolding IsAscending compare_bytes
three_entries-IsAscending = ((refl, (refl, tt)), ((refl, tt), (tt, tt)))

three_entries_fit : length (finish (add_entries (new_builder 2) three_entries)).buffer < 2 ^ 32
unfolding add_entries new_builder finish put_varint32 put_fixed32 ambar.BlockBuilder.put_restarts
    add ambar.BlockBuilder.put_entry ambar.BlockBuilder.shared_prefix encode_fixed32
three_entries_fit = omega arith

bytewise-IsTransitive : IsTransitive bytewise_comparator
bytewise-IsTransitive a b c h h' = ground (arith, compare_bytes_trans a b c)

walk-finish_example :
    (it it' : Iter) × (new_iterator bytewise_comparator 0
        (new_block (finish (add_entries (new_builder 2) three_entries)).buffer)
      ≡ over it)
    × (walk bytewise_comparator 0 4 (seek_to_first bytewise_comparator 0 it)
        ≡ some (three_entries, it'))
    × (it'.status ≡ ok)
walk-finish_example =
    walk-finish bytewise_comparator 0 2 three_entries three_entries-IsReadable three_entries_fit

find-finish_example :
    find bytewise_comparator 0
      (new_block (finish (add_entries (new_builder 2) three_entries)).buffer)
      (97 ∷ 98 ∷ 98 ∷ [])
    ≡ found (97 ∷ 98 ∷ 99 ∷ []) (2 ∷ [])
unfolding first_from compare_bytes
find-finish_example =
    find-finish bytewise_comparator 0 2 three_entries (97 ∷ 98 ∷ 98 ∷ []) bytewise-IsTransitive
      three_entries-IsAscending three_entries-IsReadable three_entries_fit
