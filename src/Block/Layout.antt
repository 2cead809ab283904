-- ===== src/Block/Layout.antt =====
-- block.cpp: the layout of a finished block, and its header under the reader.
use native.Mathlib.Nat.{mod-eq_of_lt}
use ambar.Prelude.{
  ℕ, ◌+◌, ◌-◌, ◌*◌, ◌/◌, ◌<◌, ◌^◌, u32, false, List, [], ◌∷◌, ◌++◌, append-nil, append_assoc, Bytes,
  length, length-append, drop, drop-append, ltb, ◌==◌, arith, ◌≡◌, refl, ap, sym, ◌∙◌, le→ltb,
}
use ambar.Encoding.{encode_fixed32, decode_fixed32}
use ambar.Encoding.Fixed.{decode-encode_fixed32}
use ambar.Comparator.{Comparator}
use ambar.BlockBuilder.{BlockBuilder, finish, current_size_estimate}
use ambar.BlockBuilder.Chain.{restart_bytes, length-restart_bytes, finish-bytes, length-finish}
use ambar.Block.{over, new_block, new_iter, new_iterator}

-- The layout of a finished block: the entries, the restarts and their count.
abbrev pub laid_out : Bytes → List ℕ → Bytes
laid_out buffer restarts = buffer ++ (restart_bytes restarts ++ encode_fixed32 (length restarts))

pub length-laid_out :
    (buffer : Bytes) (restarts : List ℕ)
    → length (laid_out buffer restarts) ≡ length buffer + (length restarts * 4 + 4)
unfolding encode_fixed32
length-laid_out buffer restarts = omega (
  arith,
  length-append buffer (restart_bytes restarts ++ encode_fixed32 (length restarts)),
  length-append (restart_bytes restarts) (encode_fixed32 (length restarts)),
  length-restart_bytes restarts,
)

-- The header of such a block is found.
pub new_block-laid_out :
    (buffer : Bytes) (restarts : List ℕ)
    → length (laid_out buffer restarts) < 2 ^ 32
    → new_block (laid_out buffer restarts) ≡ record {
      contents = laid_out buffer restarts;
      size = length (laid_out buffer restarts);
      restart_offset = length buffer;
      num_restarts = length restarts;
    }
unfolding new_block
new_block-laid_out buffer restarts h =
    let contents = laid_out buffer restarts in
    let n = length restarts in
    let size = length-laid_out buffer restarts in
    let front = buffer ++ restart_bytes restarts in
    let few : n < 2 ^ 32 = omega (arith, size) in
    let at_count : drop (length contents - 4) contents ≡ encode_fixed32 n =
      ap (drop (length contents - 4))
        (sym (append_assoc buffer (restart_bytes restarts) (encode_fixed32 n)))
      ∙ drop-append (length contents - 4) front (encode_fixed32 n) (
          omega (
            arith,
            size,
            length-append buffer (restart_bytes restarts),
            length-restart_bytes restarts,
          )) in
    let count : decode_fixed32 (drop (length contents - 4) contents) ≡ n =
      ap decode_fixed32 (at_count ∙ sym (append-nil (encode_fixed32 n)))
      ∙ decode-encode_fixed32 n [] few in
    let long : ltb (length contents) 4 ≡ false = le→ltb _ _ (omega (arith, size)) in
    let sane : ltb (u32 ((length contents - 4) / 4)) n ≡ false = le→ltb _ _ (omega (arith, size)) in
    let at : u32 (length contents - u32 (1 + n) * 4) ≡ length buffer = omega (arith, size) in
    rw (long, count, sane)
      (ap
        (λ (o : ℕ). record {
          contents = contents;
          size = length contents;
          restart_offset = o;
          num_restarts = n;
        })
        at)

pub over_laid_out :
    (comparator : Comparator) (stray : ℕ) (buffer : Bytes) (more : List ℕ)
    → length (laid_out buffer (0 ∷ more)) < 2 ^ 32
    → new_iterator comparator stray (new_block (laid_out buffer (0 ∷ more)))
      ≡ over (
          new_iter comparator stray
            (laid_out buffer (0 ∷ more))
            (length buffer)
            (length (0 ∷ more)))
unfolding new_iterator
over_laid_out comparator stray buffer more small =
    let long : ltb (length (laid_out buffer (0 ∷ more))) 4 ≡ false =
      le→ltb _ _ (omega (arith, length-laid_out buffer (0 ∷ more))) in
    let some_restarts : (length (0 ∷ more) == 0) ≡ false = ground arith in
    rw (new_block-laid_out buffer (0 ∷ more) small, long, some_restarts) refl

-- What a builder finishes is laid out so, with a header that is found.
pub finish-laid_out :
    (b : BlockBuilder) (more : List ℕ)
    → b.restarts ≡ 0 ∷ more
    → length (finish b).buffer < 2 ^ 32
    → (finish b).buffer ≡ laid_out b.buffer (0 ∷ more)
finish-laid_out b more restarts small =
    let few : length b.restarts < 2 ^ 32 =
      unfold current_size_estimate in omega (arith, length-finish b) in
    finish-bytes b
    ∙ ap (λ (n : ℕ). b.buffer ++ (restart_bytes b.restarts ++ encode_fixed32 n)) (mod-eq_of_lt few)
    ∙ ap (laid_out b.buffer) restarts
