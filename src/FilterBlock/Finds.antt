-- ===== src/FilterBlock/Finds.antt =====
-- filter_block.cpp: no key of a table is refused by its filter block.
use native.Mathlib.Nat.{mod-eq_of_lt}
use ambar.Prelude.{
  ℕ, ◌+◌, ◌<◌, ◌^◌, u32, true, List, [], ◌∷◌, ◌++◌, map, append_assoc, append-nil, Bytes, length,
  length-append, ◌==◌, Bool-cases, inl, inr, arith, ◌≡◌, refl, ap, sym, ◌∙◌, subst,
}
use ambar.Encoding.{encode_fixed32, put_fixed32}
use ambar.BlockBuilder.Chain.{restart_bytes}
use ambar.FilterPolicy.{FilterPolicy, IsFilter}
use ambar.FilterBlock.{
  FilterBlockBuilder, new_builder, put_offsets, finish, new_reader, key_may_match,
}
use ambar.FilterBlock.Builds.{
  Holding, Tracks, pending, filed, joined, starts, starts-end, new_builder-Holding,
}
use ambar.FilterBlock.Blocks.{
  DataBlock, region_of, add_blocks, key_count, IsClimbing, AllKeys, All-map, Later-generate_filter,
  Later-add_blocks,
}
use ambar.FilterBlock.Reads.{laid_out, restart_bytes-append, key_may_match-laid_out}

put_offsets-bytes :
    (dst : Bytes) (offsets : List ℕ) → put_offsets dst offsets ≡ dst ++ restart_bytes offsets
unfolding put_offsets restart_bytes put_fixed32
put_offsets-bytes dst [] = sym (append-nil dst)
put_offsets-bytes dst (n ∷ offsets) =
    put_offsets-bytes (dst ++ encode_fixed32 n) offsets
    ∙ append_assoc dst (encode_fixed32 n) (restart_bytes offsets)

-- Starts of 32 bits are stored as they are.
starts-fit :
    (n : ℕ) (xs : List Bytes)
    → n + length (joined xs) < 2 ^ 32
    → map u32 (starts n xs) ≡ starts n xs
unfolding starts joined
starts-fit n [] h = refl
starts-fit n (x ∷ xs) h =
    let small : n < 2 ^ 32 = omega arith in
    rw (mod-eq_of_lt small)
      (ap (◌∷◌ n) (starts-fit (n + length x) xs (omega (arith, length-append x (joined xs)))))

-- What `finish` puts behind the filters.
closed : List Bytes → Bytes
closed filters =
    put_fixed32 (put_offsets (joined filters) (map u32 (starts 0 filters)))
      (u32 (length (joined filters)))
    ++ (11 ∷ [])

closed-laid_out :
    (filters : List Bytes) → length (closed filters) < 2 ^ 32 → closed filters ≡ laid_out filters
unfolding closed put_fixed32
closed-laid_out filters small =
    let offsets = map u32 (starts 0 filters) in
    let n = length (joined filters) in
    let bytes = put_offsets-bytes (joined filters) offsets in
    let fits : n < 2 ^ 32 = omega (
      arith,
      small,
      ap (λ (b : Bytes). length b) bytes,
      length-append (joined filters) (restart_bytes offsets),
      length-append (put_offsets (joined filters) offsets) (encode_fixed32 (u32 n)),
      length-append (put_offsets (joined filters) offsets ++ encode_fixed32 (u32 n)) (11 ∷ []),
    ) in
    ap (λ (b : Bytes). (b ++ encode_fixed32 (u32 n)) ++ (11 ∷ [])) bytes
    ∙ ap
        (λ (ns : List ℕ).
          ((joined filters ++ restart_bytes ns) ++ encode_fixed32 (u32 n)) ++ (11 ∷ []))
        (starts-fit 0 filters (omega arith))
    ∙ ap
        (λ (k : ℕ).
          ((joined filters ++ restart_bytes (starts 0 filters)) ++ encode_fixed32 k) ++ (11 ∷ []))
        (mod-eq_of_lt fits ∙ omega arith)
    ∙ ap (λ (b : Bytes). b ++ (11 ∷ []))
        (append_assoc (joined filters) (restart_bytes (starts 0 filters)) (encode_fixed32 (0 + n)))
    ∙ append_assoc (joined filters) (restart_bytes (starts 0 filters) ++ encode_fixed32 (0 + n))
        (11 ∷ [])
    ∙ ap (λ (b : Bytes). joined filters ++ (b ++ (11 ∷ [])))
        (sym (restart_bytes-append (starts 0 filters) (0 + n))
          ∙ ap restart_bytes (starts-end 0 filters))

no_starts : (ks : List Bytes) → (length (starts 0 ks) == 0) ≡ true → ks ≡ []
unfolding starts
no_starts [] h = refl
no_starts (k ∷ ks) h = absurd (ground arith)

module _ (policy : FilterPolicy) (limit : ℕ) (is_filter : IsFilter policy limit) where
  -- `finish` leaves filters only.
  finish-closed :
      (b : FilterBlockBuilder) (filters ks : List Bytes)
      → Holding b filters ks
      → length ks < limit
      → (filters' : List Bytes) × ((finish policy b).result ≡ closed filters')
        × ((i : ℕ) (key : Bytes) → Tracks policy filters ks i key → Tracks policy filters' [] i key)
  unfolding finish closed
  finish-closed b filters ks h few = elim (Bool-cases (length b.key_starts == 0)) [
    | inl none_kept ↦
        let empty = no_starts ks (ap (λ (ns : List ℕ). length ns == 0) (sym h.cuts) ∙ none_kept) in
        (
          filters,
          rw (none_kept, h.whole, h.placed) refl,
          λ i key t. subst (λ xs. Tracks policy filters xs i key) empty t,
        )
    | inr some_kept ↦
        let (l, count, empty) = Later-generate_filter policy limit is_filter b filters ks h few in
        (
          l.filters',
          rw (some_kept, l.holds.whole, l.holds.placed) refl,
          λ i key t. subst (λ xs. Tracks policy l.filters' xs i key) empty (l.tracks i key t),
        )
  ]

  Tracks-key_may_match :
      (filters : List Bytes) (offset : ℕ) (key : Bytes)
      → length (laid_out filters) < 2 ^ 32
      → Tracks policy filters [] (region_of offset) key
      → key_may_match policy (new_reader (laid_out filters)) offset key ≡ true
  Tracks-key_may_match filters offset key small (pending front back e at) =
      absurd
        (omega (arith, ap (λ (xs : List Bytes). length xs) e, length-append front (key ∷ back)))
  Tracks-key_may_match filters offset key small (filed front back filter e at matches) =
      rw e (key_may_match-laid_out policy front filter back offset key (rw e at small) at matches)

-- A filter block that was built for some data blocks, and read back, refuses no key of these blocks
-- at its own block's offset. The conditions are that the policy keeps its promise for as many keys,
-- that no block starts before an earlier one, and that the filter block's length has 32 bits.
pub key_may_match-finish :
    (policy : FilterPolicy) (limit : ℕ) (blocks : List DataBlock)
    → IsFilter policy limit
    → IsClimbing 0 blocks
    → key_count blocks < limit
    → length (finish policy (add_blocks policy new_builder blocks)).result < 2 ^ 32
    → AllKeys
        (λ offset key.
          key_may_match policy
            (new_reader (finish policy (add_blocks policy new_builder blocks)).result)
            offset
            key
          ≡ true)
        blocks
key_may_match-finish policy limit blocks is_filter climbing few small =
    let b = add_blocks policy new_builder blocks in
    let (l, kept, all) =
      Later-add_blocks policy limit is_filter blocks new_builder 0 [] [] new_builder-Holding
        (omega arith) climbing (omega arith) in
    let (filters, result, more) =
      finish-closed policy limit is_filter b l.filters' l.ks' l.holds kept in
    let small' : length (closed filters) < 2 ^ 32 = rw result at small in
    let form = result ∙ closed-laid_out filters small' in
    let answers : (offset : ℕ) (key : Bytes)
        → Tracks policy l.filters' l.ks' (region_of offset) key
        → key_may_match policy (new_reader (finish policy b).result) offset key ≡ true =
      λ offset key t.
        ap (λ (bs : Bytes). key_may_match policy (new_reader bs) offset key) form
        ∙ Tracks-key_may_match policy limit is_filter filters offset key
            (rw (closed-laid_out filters small') at small') (more (region_of offset) key t) in
    All-map _ _ blocks (λ d keys. All-map _ _ d.1 (λ key t. answers d.0 key t) keys) all
