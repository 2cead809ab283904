-- ===== src/Tests/TwoLevel.antt =====
-- two_level_iterator.cpp over two blocks.
use ambar.Prelude.{some, List, [], ◌∷◌, Bytes, if◌then◌else◌, ◌==◌, ◌≡◌, refl}
use ambar.FileName.{same_bytes}
use ambar.Block.Find.Walk.{Entries}
use ambar.Merger.Interleaves.{Shows}
use ambar.TwoLevel.{TwoLevelIterator, new_two_level, two_level_to_first}
use ambar.TwoLevel.Walks.{
  flat, AreDistinct, Opens, no_block, block, two_level_walk, two_level_walk-two_level_to_first,
}
use ambar.Tests.Merge.{Cursor, list_iterator, odd_entries, even_entries}

-- The first handle is that of an empty block.
abbrev three_handles : Entries
three_handles = (1 ∷ [], 7 ∷ []) ∷ ((2 ∷ [], 8 ∷ []) ∷ ((4 ∷ [], 9 ∷ []) ∷ []))

abbrev open_block : Bytes → Cursor
open_block [] = ([], [])
open_block (handle ∷ _) =
    if handle == 8 then (odd_entries, []) else if handle == 9 then (even_entries, []) else ([], [])

abbrev three_blocks : List Entries
three_blocks = [] ∷ (odd_entries ∷ (even_entries ∷ []))

handles_distinct : AreDistinct three_handles
unfolding same_bytes
handles_distinct = (refl, (refl, (tt, tt)))

blocks_open : Opens list_iterator list_iterator open_block three_handles three_blocks
blocks_open = block _ _ _ [] _ refl (
    block _ _ _ odd_entries _ (refl, refl, refl, (refl, refl, refl, refl))
      (block _ _ _ even_entries _ (refl, refl, refl, refl) no_block))

handles_shown : Shows list_iterator (list_iterator.seek_to_first (three_handles, [])) three_handles
handles_shown = (refl, refl, refl, (refl, refl, refl, (refl, refl, refl, refl)))

two_level_walk-two_level_to_first_example :
    (t : TwoLevelIterator Cursor Cursor) × (two_level_to_first list_iterator list_iterator
        open_block 5
        (new_two_level list_iterator list_iterator open_block (three_handles, []))
      ≡ some t)
    × (two_level_walk list_iterator list_iterator open_block 5 4 t ≡ some (flat three_blocks))
two_level_walk-two_level_to_first_example =
    two_level_walk-two_level_to_first list_iterator list_iterator open_block (three_handles, [])
      three_handles three_blocks handles_shown blocks_open handles_distinct
