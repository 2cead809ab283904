-- ===== src/Merger.antt =====
-- include/ambar/iterator.hpp and merger.cpp: iterators, and one that merges several.

pub mod Interleaves
pub mod Smallest
pub mod Merges
use Prim.Native.Nat.{Ordering, lt, eq, gt}
use ambar.Prelude.{
  ℕ, zero, suc, ◌+◌, Bool, true, false, not, Option, none, some, List, [], ◌∷◌, map, Bytes, ◌==◌,
  if◌then◌else◌,
}
use ambar.Status.{Status, ok, is_ok}
use ambar.Comparator.{Comparator}
use ambar.Block.Find.{below}

-- `Iterator`, over the states of one of its classes.
pub record Iterator (C : Type 0) : Type 0 where
  pub valid : C → Bool
  pub seek_to_first : C → C
  pub seek_to_last : C → C
  pub seek : Bytes → C → C
  pub next : C → C
  pub prev : C → C
  pub key : C → Bytes
  pub value : C → Bytes
  pub status : C → Status

pub data Direction : Type 0 where
  forward : Direction
  reverse : Direction

-- `current` is the place of the child that `current_` points to, and `none` where it is null.
pub record MergingIterator (C : Type 0) : Type 0 where
  pub children : List C
  pub current : Option ℕ
  pub direction : Direction

-- `compare(a, b) > 0`
abbrev pub key_above : Comparator → Bytes → Bytes → Bool
key_above comparator a b = elim (comparator.compare a b) [ lt ↦ false | eq ↦ false | gt ↦ true ]

-- The child at a place.
unfoldable pub child_at {ℓ} : {C : Type ℓ} → List C → ℕ → Option C
child_at [] i = none
child_at (c ∷ children) zero = some c
child_at (c ∷ children) (suc i) = child_at children i

-- A change of the child at a place.
unfoldable pub change_at : {C : Type 0} → (C → C) → List C → ℕ → List C
change_at f [] i = []
change_at f (c ∷ children) zero = f c ∷ children
change_at f (c ∷ children) (suc i) = c ∷ change_at f children i

-- A change of all the others.
unfoldable pub change_others : {C : Type 0} → (C → C) → List C → ℕ → List C
change_others f [] i = []
change_others f (c ∷ children) zero = c ∷ map f children
change_others f (c ∷ children) (suc i) = f c ∷ change_others f children i

module _ {C : Type 0} (it : Iterator C) (comparator : Comparator) where
  -- The loop of `find_smallest`: the children from place `i` on, and `smallest`, with its place.
  unfoldable pub smallest_loop : List C → ℕ → Option (ℕ × C) → Option (ℕ × C)
  smallest_loop [] i smallest = smallest
  smallest_loop (c ∷ children) i smallest = smallest_loop children (i + 1) (
      if not (it.valid c) then smallest else elim smallest [
        | none ↦ some (i, c)
        | some (j, s) ↦ if below comparator (it.key c) (it.key s) then some (i, c) else some (j, s)
      ])

  -- The loop of `find_largest`, which begins at the last child.
  unfoldable pub largest_loop : List C → ℕ → Option (ℕ × C)
  largest_loop [] i = none
  largest_loop (c ∷ children) i =
      let largest = largest_loop children (i + 1) in
      if not (it.valid c) then largest else elim largest [
        | none ↦ some (i, c)
        | some (j, l) ↦
            if key_above comparator (it.key c) (it.key l) then some (i, c) else some (j, l)
      ]

  abbrev pub place_of : Option (ℕ × C) → Option ℕ
  place_of none = none
  place_of (some (i, c)) = some i

  unfoldable pub find_smallest : MergingIterator C → MergingIterator C
  find_smallest m = record m { current = place_of (smallest_loop m.children 0 none) }

  unfoldable pub find_largest : MergingIterator C → MergingIterator C
  find_largest m = record m { current = place_of (largest_loop m.children 0) }

  -- `MergingIterator::MergingIterator`
  abbrev pub new_merger : List C → MergingIterator C
  new_merger children = record { children = children; current = none; direction = forward }

  abbrev pub merger_valid : MergingIterator C → Bool
  merger_valid m = elim m.current [ none ↦ false | some i ↦ true ]

  -- The current child, where there is one; the source calls `key` and `value` only then.
  abbrev pub current_child : MergingIterator C → Option C
  current_child m = elim m.current [ none ↦ none | some i ↦ child_at m.children i ]

  unfoldable pub merge_to_first : MergingIterator C → MergingIterator C
  merge_to_first m =
      record (find_smallest (record m { children = map it.seek_to_first m.children })) {
        direction = forward;
      }

  unfoldable pub merge_to_last : MergingIterator C → MergingIterator C
  merge_to_last m = record (find_largest (record m { children = map it.seek_to_last m.children })) {
    direction = reverse;
  }

  unfoldable pub merge_seek : Bytes → MergingIterator C → MergingIterator C
  merge_seek target m =
      record (find_smallest (record m { children = map (it.seek target) m.children })) {
        direction = forward;
      }

  -- What `next` does to the others where the direction was the other one.
  abbrev pub turn_forward : MergingIterator C → ℕ → C → List C
  turn_forward m i c = elim m.direction [
    | forward ↦ m.children
    | reverse ↦ change_others (it.seek (it.key c)) m.children i
  ]

  -- To before the key: behind the seek, a step back, or to the last entry.
  abbrev pub before_key : Bytes → C → C
  before_key key d =
      let sought = it.seek key d in
      if it.valid sought then it.prev sought else it.seek_to_last sought

  abbrev pub turn_back : MergingIterator C → ℕ → C → List C
  turn_back m i c = elim m.direction [
    | forward ↦ change_others (before_key (it.key c)) m.children i
    | reverse ↦ m.children
  ]

  -- `next` and `prev`, which the source calls where the iterator is valid.
  unfoldable pub merge_next : MergingIterator C → MergingIterator C
  merge_next m = elim m.current [
    | none ↦ m
    | some i ↦ elim (child_at m.children i) [
      | none ↦ m
      | some c ↦
          find_smallest
            (record m { children = change_at it.next (turn_forward m i c) i; direction = forward })
    ]
  ]

  unfoldable pub merge_prev : MergingIterator C → MergingIterator C
  merge_prev m = elim m.current [
    | none ↦ m
    | some i ↦ elim (child_at m.children i) [
      | none ↦ m
      | some c ↦
          find_largest
            (record m { children = change_at it.prev (turn_back m i c) i; direction = reverse })
    ]
  ]

  -- `status`: of the first child that failed.
  unfoldable pub merge_status : List C → Status
  merge_status [] = ok
  merge_status (c ∷ children) =
      if not (is_ok (it.status c)) then it.status c else merge_status children
