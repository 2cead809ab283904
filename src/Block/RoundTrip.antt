-- ===== src/Block/RoundTrip.antt =====
-- block.cpp and block_builder.cpp: what was added to a builder, an iterator over the block finds again.
use ambar.Prelude.{
  ℕ, zero, suc, ◌+◌, ◌*◌, ◌<◌, ◌^◌, Bool, true, false, Option, none, some, List, [], ◌∷◌, ◌++◌,
  append_assoc, Bytes, length, drop-append, All, ltb, if◌then◌else◌, arith, ◌≡◌, refl, ap, ◌∙◌,
  le→ltb,
}
use ambar.Encoding.{encode_fixed32, decode_fixed32}
use ambar.Encoding.Fixed.{decode-encode_fixed32}
use ambar.Status.{ok}
use ambar.Comparator.{Comparator}
use ambar.BlockBuilder.{new_builder, finish}
use ambar.BlockBuilder.Chain.{
  new_builder-Building, add_entries, add_entries-Building, restart_bytes, Holds,
}
use ambar.Block.{
  Iter, over, new_block, new_iter, new_iterator, valid, value, next, next_entry_offset,
  seek_to_first, seek_to_restart_point, get_restart_point, parse_next_entry,
}
use ambar.Block.Reads.{IsReadable, Before, parse-Before, parse-Before_end, readable-Fits}
use ambar.Block.Layout.{laid_out, length-laid_out, over_laid_out, finish-laid_out}

abbrev pub with_entry :
    Bytes × Bytes → Option (List (Bytes × Bytes) × Iter) → Option (List (Bytes × Bytes) × Iter)
with_entry e none = none
with_entry e (some (es, it)) = some (e ∷ es, it)

module _ (comparator : Comparator) (stray : ℕ) where
  -- The entries that a client's loop meets: while the iterator is valid, its key and value, and `next`.
  unfoldable pub walk : ℕ → Iter → Option (List (Bytes × Bytes) × Iter)
  walk zero it = none
  walk (suc fuel) it =
      let more = walk fuel (next comparator stray it) in
      if valid it then with_entry (it.key, value it) more else some ([], it)

  walk_step :
      (fuel : ℕ) (it it' : Iter) (key val : Bytes) (es : List (Bytes × Bytes))
      → it.key ≡ key
      → value it ≡ val
      → valid it ≡ true
      → walk fuel (parse_next_entry comparator stray it).1 ≡ some (es, it')
      → walk (suc fuel) it ≡ some ((key, val) ∷ es, it')
  unfolding walk next value
  walk_step fuel it it' key val es hk hv is_valid more = rw (is_valid, more, hk, hv) refl

  walk_done : (fuel : ℕ) (it : Iter) → valid it ≡ false → walk (suc fuel) it ≡ some ([], it)
  unfolding walk
  walk_done fuel it invalid = rw invalid refl

  -- Behind a move that read an entry, the walk meets this entry and the others.
  walk-Before :
      (it : Iter) (es : List (Bytes × Bytes))
      → Before comparator stray it es
      → (it' : Iter) × (walk (suc (length es)) (parse_next_entry comparator stray it).1
          ≡ some (es, it'))
        × (it'.status ≡ ok)
  walk-Before it [] b =
      let (it', read, invalid, fine) = parse-Before_end comparator stray it b in
      (it', ap (λ (r : Bool × Iter). walk 1 r.1) read ∙ walk_done 0 it' invalid, fine)
  walk-Before it ((key, val) ∷ es) b =
      let (it₁, read, at_key, at_val, is_valid, b₁) =
        parse-Before comparator stray it key val es b in
      let (it', walked, fine) = walk-Before it₁ es b₁ in
      (
        it',
        ap (λ (r : Bool × Iter). walk (suc (suc (length es))) r.1) read
            ∙ walk_step (suc (length es)) it₁ it' key val es at_key at_val is_valid walked,
        fine,
      )

  first_point :
      (buffer : Bytes) (more : List ℕ)
      → get_restart_point
          (new_iter comparator stray
            (laid_out buffer (0 ∷ more))
            (length buffer)
            (length (0 ∷ more)))
          0
        ≡ 0
  unfolding get_restart_point restart_bytes
  first_point buffer more =
      let rest = restart_bytes more ++ encode_fixed32 (length (0 ∷ more)) in
      let at : length buffer + 0 * 4 ≡ length buffer = omega arith in
      rw at (
        ap decode_fixed32 (
          drop-append (length buffer) buffer
            ((encode_fixed32 0 ++ restart_bytes more) ++ encode_fixed32 (length (0 ∷ more))) refl
          ∙ append_assoc (encode_fixed32 0) (restart_bytes more)
              (encode_fixed32 (length (0 ∷ more))))
        ∙ decode-encode_fixed32 0 rest (omega arith))

  -- The first move goes to the first restart, which stands before all entries.
  seek_first-Before :
      (buffer : Bytes) (more : List ℕ) (es : List (Bytes × Bytes))
      → Holds [] buffer es
      → All (IsReadable comparator) es
      → length buffer < 2 ^ 32
      → Before comparator stray
          (seek_to_restart_point comparator stray
            (new_iter comparator stray
              (laid_out buffer (0 ∷ more))
              (length buffer)
              (length (0 ∷ more)))
            0)
          es
  unfolding seek_to_restart_point next_entry_offset
  seek_first-Before buffer more es holds readable small =
      let restarts = 0 ∷ more in
      let inside : ltb (length buffer) 0 ≡ false = le→ltb _ _ (omega arith) in
      rw (first_point buffer more, inside)
        (record {
          left = buffer;
          tail = restart_bytes restarts ++ encode_fixed32 (length restarts);
          holds = holds;
          split = refl;
          size = omega arith;
          small = small;
          readable = readable;
          fine = refl;
        })

-- From the block that a builder finishes, Block::new_iterator makes an iterator that meets, from
-- seek_to_first on and by next, the entries that were added, unchanged and in order; it is then no
-- longer valid, and its status is ok. The conditions are that no key is shorter than the comparator
-- reads, and that the lengths of keys, values and the block have 32 bits.
pub walk-finish :
    (comparator : Comparator) (stray interval : ℕ) (es : List (Bytes × Bytes))
    → All (IsReadable comparator) es
    → length (finish (add_entries (new_builder interval) es)).buffer < 2 ^ 32
    → (it it' : Iter) × (new_iterator comparator stray
          (new_block (finish (add_entries (new_builder interval) es)).buffer)
        ≡ over it)
      × (walk comparator stray (suc (length es)) (seek_to_first comparator stray it)
          ≡ some (es, it'))
      × (it'.status ≡ ok)
walk-finish comparator stray interval es readable small =
    let b = add_entries (new_builder interval) es in
    let built =
      add_entries-Building (new_builder interval) [] es (new_builder-Building interval)
        (readable-Fits comparator es readable) in
    let (more, restarts) = built.first_restart in
    let form = finish-laid_out b more restarts small in
    let small' : length (laid_out b.buffer (0 ∷ more)) < 2 ^ 32 = rw form at small in
    let it =
      new_iter comparator stray (laid_out b.buffer (0 ∷ more)) (length b.buffer)
        (length (0 ∷ more)) in
    let (it', walked, fine) =
      walk-Before comparator stray (seek_to_restart_point comparator stray it 0) es (
        seek_first-Before comparator stray b.buffer more es built.holds readable
          (omega (arith, small', length-laid_out b.buffer (0 ∷ more)))) in
    (
      it,
      it',
      ap (λ (bs : Bytes). new_iterator comparator stray (new_block bs)) form
          ∙ over_laid_out comparator stray b.buffer more small',
      unfold seek_to_first in walked,
      fine,
    )
