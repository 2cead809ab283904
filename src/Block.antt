-- ===== src/Block.antt =====
-- block.hpp and block.cpp: a block that was read, and its iterator.
pub mod Find
pub mod Decode
pub mod Layout
pub mod Reads
pub mod RoundTrip
use Prim.Native.Nat.{Ordering, lt, eq, gt}
use Prim.Native.String.{String, ◌++◌ as cat}
use ambar.Prelude.{
  ℕ, zero, suc, ◌+◌, ◌-◌, ◌*◌, ◌/◌, bit_or, u32, Bool, true, false, ◌&&◌, Option, none, some, List,
  [], ◌∷◌, ◌++◌, Bytes, length, take, drop, ltb, leb, ◌==◌, ◌>>=◌, if◌then◌else◌,
}
use ambar.Encoding.{byte_at, get_varint32, decode_fixed32}
use ambar.Status.{Status, ok, corruption}
use ambar.Comparator.{Comparator}

-- A block's header. `size` 0 says that the header did not decode.
pub record Block : Type 0 where
  pub contents : Bytes
  pub size : ℕ
  pub restart_offset : ℕ
  pub num_restarts : ℕ

unfoldable pub new_block : Bytes → Block
new_block contents =
    let size = length contents in
    let max_restarts = u32 ((size - 4) / 4) in
    let num_restarts = decode_fixed32 (drop (size - 4) contents) in
    if ltb size 4
    then record { contents = contents; size = 0; restart_offset = 0; num_restarts = 0 }
    else if ltb max_restarts num_restarts
    then record { contents = contents; size = 0; restart_offset = 0; num_restarts = num_restarts }
    else record {
      contents = contents;
      size = size;
      restart_offset = u32 (size - u32 (1 + num_restarts) * 4);
      num_restarts = num_restarts;
    }

-- The three lengths of an entry, and the bytes from the key delta to the limit.
pub record Entry : Type 0 where
  pub shared : ℕ
  pub non_shared : ℕ
  pub value_length : ℕ
  pub rest : Bytes

-- The check behind the lengths, in 64 bits.
unfoldable pub check_entry : Entry → Option Entry
check_entry e = if ltb (length e.rest) (e.non_shared + e.value_length) then none else some e

-- The bytes from `p` to `limit`.
unfoldable pub decode_entry : Bytes → Option Entry
unfolding check_entry
decode_entry p =
    let shared = byte_at p 0 in
    let non_shared = byte_at p 1 in
    let value_length = byte_at p 2 in
    if ltb (length p) 3
    then none
    else if ltb (bit_or (bit_or shared non_shared) value_length) 128
    then check_entry (record {
      shared = shared;
      non_shared = non_shared;
      value_length = value_length;
      rest = drop 3 p;
    })
    else get_varint32 p >>= λ (s : ℕ × Bytes). get_varint32 s.1 >>= λ (n : ℕ × Bytes).
        get_varint32 n.1 >>= λ (v : ℕ × Bytes).
        check_entry (record { shared = s.0; non_shared = n.0; value_length = v.0; rest = v.1 })

-- `Block::Iter`. `value_` is a view: where it starts in the block, and its length.
pub record Iter : Type 0 where
  pub bytes : Bytes
  pub restart_offset : ℕ
  pub num_restarts : ℕ
  pub current : ℕ
  pub restart_index : ℕ
  pub key : Bytes
  pub value_start : ℕ
  pub value_length : ℕ
  pub status : Status

abbrev pub valid : Iter → Bool
valid it = ltb it.current it.restart_offset

unfoldable pub value : Iter → Bytes
value it = take it.value_length (drop it.value_start it.bytes)

unfoldable pub next_entry_offset : Iter → ℕ
next_entry_offset it = u32 (it.value_start + it.value_length)

unfoldable pub get_restart_point : Iter → ℕ → ℕ
get_restart_point it index = decode_fixed32 (drop (it.restart_offset + index * 4) it.bytes)

-- The loop that keeps `restart_index_` in step: rounds left, and the iterator.
unfoldable pub step_index : ℕ → Iter → ℕ → ℕ
step_index zero it index = index
step_index (suc rounds) it index = step_index rounds it (
    if ltb (index + 1) it.num_restarts
      && ltb (get_restart_point it (index + 1)) (next_entry_offset it)
    then index + 1
    else index)

-- What a block gives: its iterator, or one of iterator.cpp that is never valid and has a status.
pub data NewIterator : Type 0 where
  over : Iter → NewIterator
  fixed : Status → NewIterator

-- `stray` is what the distance of a null view from the block's start comes to, which the language
-- leaves undefined.
module _ (comparator : Comparator) (stray : ℕ) where
  unfoldable pub corrupted : Iter → String → Iter
  corrupted it what = record it {
    current = it.restart_offset;
    restart_index = it.num_restarts;
    status = corruption (cat "bad block entry: " what);
    key = [];
    value_start = stray;
    value_length = 0;
  }

  unfoldable pub seek_to_restart_point : Iter → ℕ → Iter
  seek_to_restart_point it index =
      let offset = get_restart_point it index in
      let moved = record it { key = []; restart_index = index } in
      if ltb it.restart_offset offset
      then corrupted moved "restart point lies outside the entry region"
      else record moved { value_start = offset; value_length = 0 }

  -- `parse_next_entry` on an entry that was decoded.
  unfoldable pub take_entry : Iter → Entry → Bool × Iter
  take_entry it e =
      let key' = take e.shared it.key ++ take e.non_shared e.rest in
      let at = record it {
        key = key';
        value_start = (it.restart_offset - length e.rest) + e.non_shared;
        value_length = e.value_length;
      } in
      if ltb (length it.key) e.shared
      then (false, corrupted it "shared prefix longer than the previous key")
      else if ltb (length key') comparator.min_key_length
      then (false, corrupted it "key is too short for this comparator")
      else (true, record at { restart_index = step_index it.num_restarts at it.restart_index })

  unfoldable pub parse_next_entry : Iter → Bool × Iter
  parse_next_entry it =
      let current = next_entry_offset it in
      let moved = record it { current = current } in
      if leb it.restart_offset current
      then (false, record it { current = it.restart_offset; restart_index = it.num_restarts })
      else elim (decode_entry (take (it.restart_offset - current) (drop current it.bytes))) [
        | none ↦ (false, corrupted moved "entry runs past the end of the block")
        | some e ↦ take_entry moved e
      ]

  unfoldable pub next : Iter → Iter
  next it = (parse_next_entry it).1

  unfoldable pub seek_to_first : Iter → Iter
  seek_to_first it = (parse_next_entry (seek_to_restart_point it 0)).1

  -- `Iter::Iter`; a view that was not set is null.
  abbrev pub new_iter : Bytes → ℕ → ℕ → Iter
  new_iter bytes restart_offset num_restarts = record {
    bytes = bytes;
    restart_offset = restart_offset;
    num_restarts = num_restarts;
    current = restart_offset;
    restart_index = num_restarts;
    key = [];
    value_start = stray;
    value_length = 0;
    status = ok;
  }

  -- `Block::new_iterator`
  unfoldable pub new_iterator : Block → NewIterator
  new_iterator block =
      if ltb block.size 4
      then fixed (corruption "block is too small")
      else if block.num_restarts == 0
      then fixed ok
      else over (new_iter block.contents block.restart_offset block.num_restarts)
