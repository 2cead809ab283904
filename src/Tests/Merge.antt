-- ===== src/Tests/Merge.antt =====
-- merger.cpp over two lists.
use ambar.Prelude.{
  ◌+◌, ◌-◌, some, List, [], ◌∷◌, Bytes, length, drop, map, All, ltb, if◌then◌else◌, arith, ◌≡◌,
  refl,
}
use ambar.Status.{ok}
use ambar.Order.{compare_bytes, compare_bytes_trans, compare_bytes_refl}
use ambar.Comparator.{bytewise_comparator}
use ambar.Block.Find.{below}
use ambar.Block.Find.Walk.{Entries, IsTransitive, IsAscending}
use ambar.Merger.{Iterator, MergingIterator, new_merger, merge_to_first}
use ambar.Merger.Smallest.{IsIrreflexive}
use ambar.Merger.Interleaves.{Interleaves, IsSorted}
use ambar.Merger.Merges.{Showing, none_shown, and_shown, merge_walk, merge_walk-merge_to_first}

-- All entries, and those that are ahead.
abbrev pub Cursor : Type 0
Cursor = Entries × Entries

abbrev ahead_of : Bytes → Entries → Entries
ahead_of target [] = []
ahead_of target (e ∷ es) =
    let more = ahead_of target es in if below bytewise_comparator e.0 target then more else e ∷ es

abbrev pub list_iterator : Iterator Cursor
list_iterator = record {
  valid = λ c. ltb 0 (length c.1);
  seek_to_first = λ c. (c.0, c.0);
  seek_to_last = λ c. (c.0, drop (length c.0 - 1) c.0);
  seek = λ target c. (c.0, ahead_of target c.0);
  next = λ c. (c.0, drop 1 c.1);
  prev = λ c. (c.0, drop (length c.0 - (length c.1 + 1)) c.0);
  key = λ c. elim c.1 [ [] ↦ [] | e ∷ _ ↦ e.0 ];
  value = λ c. elim c.1 [ [] ↦ [] | e ∷ _ ↦ e.1 ];
  status = λ c. ok;
}

abbrev pub odd_entries : Entries
odd_entries = (1 ∷ [], 10 ∷ []) ∷ ((3 ∷ [], 30 ∷ []) ∷ [])

abbrev pub even_entries : Entries
even_entries = (2 ∷ [], 20 ∷ []) ∷ []

abbrev both : List Entries
both = odd_entries ∷ (even_entries ∷ [])

abbrev two_cursors : MergingIterator Cursor
two_cursors =
    new_merger list_iterator bytewise_comparator ((odd_entries, []) ∷ ((even_entries, []) ∷ []))

bytewise-IsTransitive : IsTransitive bytewise_comparator
bytewise-IsTransitive a b c h h' = ground (arith, compare_bytes_trans a b c)

bytewise-IsIrreflexive : IsIrreflexive bytewise_comparator
bytewise-IsIrreflexive a = ground (arith, compare_bytes_refl a)

cursors_show :
    Showing list_iterator bytewise_comparator
      (map list_iterator.seek_to_first two_cursors.children)
      both
cursors_show =
    and_shown (odd_entries, odd_entries) odd_entries _ _
      (refl, refl, refl, (refl, refl, refl, refl))
      (and_shown (even_entries, even_entries) even_entries _ _ (refl, refl, refl, refl) none_shown)

both-IsAscending : All (IsAscending bytewise_comparator) both
unfolding IsAscending compare_bytes
both-IsAscending = (((refl, tt), (tt, tt)), ((tt, tt), tt))

merge_walk-merge_to_first_example :
    (es : Entries) × (merge_walk list_iterator bytewise_comparator 4
        (merge_to_first list_iterator bytewise_comparator two_cursors)
      ≡ some es)
    × Interleaves both es
    × IsSorted bytewise_comparator es
merge_walk-merge_to_first_example =
    merge_walk-merge_to_first list_iterator bytewise_comparator two_cursors both
      bytewise-IsTransitive bytewise-IsIrreflexive cursors_show both-IsAscending
