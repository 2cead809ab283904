-- ===== src/Block/Find.antt =====
-- block.cpp: the search over the restart points, `Block::find`, and the iterator's other moves.
pub mod Walk
pub mod Points
pub mod Correct
use Prim.Native.Nat.{Ordering, lt, eq, gt}
use Prim.Native.String.{String, ◌++◌ as cat}
use ambar.Prelude.{
  ℕ, zero, suc, ◌+◌, ◌-◌, ◌*◌, ◌/◌, u32, Bool, true, false, not, ◌&&◌, ◌||◌, Option, none, some,
  List, [], ◌∷◌, ◌++◌, Bytes, length, take, drop, ltb, leb, ◌==◌, if◌then◌else◌,
}
use ambar.Encoding.{decode_fixed32}
use ambar.Status.{Status, ok, corruption}
use ambar.Comparator.{Comparator}
use ambar.Block.{
  Block, Entry, decode_entry, Iter, get_restart_point, next_entry_offset, corrupted,
  seek_to_restart_point, parse_next_entry, new_iter,
}

-- `compare(a, b) < 0`
abbrev pub below : Comparator → Bytes → Bytes → Bool
below comparator a b = elim (comparator.compare a b) [ lt ↦ true | eq ↦ false | gt ↦ false ]

-- Where the search ends: at a restart point, or at one that is bad.
pub data SearchEnd : Type 0 where
  at_point : ℕ → SearchEnd
  bad_point : String → SearchEnd

-- What a round does at its restart point: goes above it, or below, or stops.
pub data Probe : Type 0 where
  above : Probe
  under : Probe
  bad : String → Probe

-- The entry from a restart point to the limit; the two copies of the loop differ in one message.
unfoldable pub probe_entry : Comparator → String → Bytes → Option Entry → Probe
probe_entry comparator too_short target none = bad "restart point does not begin a key"
probe_entry comparator too_short target (some e) =
    if not (e.shared == 0)
    then bad "restart point does not begin a key"
    else if ltb e.non_shared comparator.min_key_length
    then bad too_short
    else if below comparator (take e.non_shared e.rest) target
    then above
    else under

unfoldable pub probe : Comparator → String → Bytes → Iter → ℕ → Probe
unfolding probe_entry
probe comparator too_short target it mid =
    let region_offset = get_restart_point it mid in
    if leb it.restart_offset region_offset
    then bad "restart point lies outside the entry region"
    else probe_entry comparator too_short target
        (decode_entry (take (it.restart_offset - region_offset) (drop region_offset it.bytes)))

-- The loop over `left` and `right`, with as many rounds as lie between them at most.
unfoldable pub search_loop : Comparator → String → Bytes → Iter → ℕ → ℕ → ℕ → SearchEnd
search_loop comparator too_short target it zero left right = at_point left
search_loop comparator too_short target it (suc rounds) left right =
    let mid = u32 (left + right + 1) / 2 in
    if ltb left right
    then elim (probe comparator too_short target it mid) [
      | above ↦ search_loop comparator too_short target it rounds mid right
      | under ↦ search_loop comparator too_short target it rounds left (mid - 1)
      | bad what ↦ bad_point what
    ]
    else at_point left

-- What `find` answers. The walk's fuel is used up by no run of the source.
pub data Answer : Type 0 where
  found : Bytes → Bytes → Answer
  absent : Answer
  corrupt : Status → Answer
  unfinished : Answer

abbrev bad_entry : String → Answer
bad_entry what = corrupt (corruption (cat "bad block entry: " what))

-- The walk from a restart point: fuel, the bytes from `p` to the limit, and `key`.
unfoldable pub find_walk : Comparator → Bytes → ℕ → Bytes → Bytes → Answer
find_walk comparator target zero p key = unfinished
find_walk comparator target (suc fuel) [] key = absent
find_walk comparator target (suc fuel) (b ∷ p) key = elim (decode_entry (b ∷ p)) [
  | none ↦ bad_entry "entry runs past the end of the block"
  | some e ↦
      let key' = take e.shared key ++ take e.non_shared e.rest in
      let behind = drop e.non_shared e.rest in
      let more = find_walk comparator target fuel (drop e.value_length behind) key' in
      if ltb (length key) e.shared
      then bad_entry "shared prefix longer than the previous key"
      else if ltb (length key') comparator.min_key_length
      then bad_entry "key is too short for this comparator"
      else if below comparator key' target
      then more
      else found key' (take e.value_length behind)
]

-- The walk from the point that the search found.
unfoldable pub find_from : Comparator → Bytes → Iter → SearchEnd → Answer
find_from comparator target it (bad_point what) = bad_entry what
find_from comparator target it (at_point left) =
    let start = get_restart_point it left in
    let limit = it.restart_offset in
    if ltb limit start
    then bad_entry "restart point lies outside the entry region"
    else find_walk comparator target (limit - start + 1)
        (take (limit - start) (drop start it.bytes)) []

-- `Block::find`, which reads the block as an iterator does.
unfoldable pub find : Comparator → ℕ → Block → Bytes → Answer
unfolding find_from
find comparator stray block target =
    let it = new_iter comparator stray block.contents block.restart_offset block.num_restarts in
    if ltb block.size 4
    then corrupt (corruption "block is too small")
    else if block.num_restarts == 0
    then absent
    else find_from comparator target it (
        search_loop comparator "restart key is too short for this comparator" target it
          block.num_restarts 0 (block.num_restarts - 1))

module _ (comparator : Comparator) (stray : ℕ) where
  -- The loops that walk on have fuel; `none` is that it ran out.
  unfoldable pub seek_walk : ℕ → Bytes → Iter → Option Iter
  seek_walk zero target it = none
  seek_walk (suc fuel) target it =
      let (read, it') = parse_next_entry comparator stray it in
      let more = seek_walk fuel target it' in
      if read then if below comparator it'.key target then more else some it' else some it'

  -- `Iter::seek`
  unfoldable pub seek : Iter → Bytes → Option Iter
  seek it target =
      elim (search_loop comparator "key is too short for this comparator" target it it.num_restarts
        0 (it.num_restarts - 1)) [
          | bad_point what ↦ some (corrupted comparator stray it what)
          | at_point left ↦
              seek_walk (length it.bytes + 1) target
                (seek_to_restart_point comparator stray it left)
        ]

  -- `while (parse_next_entry() && next_entry_offset() < limit)`
  unfoldable pub walk_to : ℕ → ℕ → Iter → Option Iter
  walk_to zero limit it = none
  walk_to (suc fuel) limit it =
      let (read, it') = parse_next_entry comparator stray it in
      let more = walk_to fuel limit it' in
      if read && ltb (next_entry_offset it') limit then more else some it'

  -- `Iter::seek_to_last`
  unfoldable pub seek_to_last : Iter → Option Iter
  seek_to_last it =
      if it.num_restarts == 0
      then some (record it { current = it.restart_offset })
      else walk_to (length it.bytes + 1) it.restart_offset
          (seek_to_restart_point comparator stray it (it.num_restarts - 1))

  -- The loop of `prev`, over `restart_index_`: the last restart point before the entry, if there is one.
  restart_before : Iter → ℕ → ℕ → Option ℕ
  restart_before it original zero = if leb original (get_restart_point it 0) then none else some 0
  restart_before it original (suc index) =
      if leb original (get_restart_point it (suc index))
      then restart_before it original index
      else some (suc index)

  -- `Iter::prev`
  unfoldable pub prev : Iter → Option Iter
  unfolding restart_before
  prev it = elim (restart_before it it.current it.restart_index) [
    | none ↦ some (record it { current = it.restart_offset; restart_index = it.num_restarts })
    | some index ↦
        walk_to (length it.bytes + 1) it.current (seek_to_restart_point comparator stray it index)
  ]
