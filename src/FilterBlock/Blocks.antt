-- ===== src/FilterBlock/Blocks.antt =====
-- filter_block.cpp: the filters behind the calls of a table's builder.
use ambar.Prelude.{
  ℕ, zero, suc, ◌+◌, ◌-◌, ◌≤◌, ◌<◌, ◌>>>◌, u32, List, [], ◌∷◌, ◌++◌, map, append_assoc, Bytes,
  length, length-append, All, arith, ◌≡◌, refl, ap, ◌∙◌, subst,
}
use ambar.FilterPolicy.{FilterPolicy, IsFilter}
use ambar.FilterBlock.{
  FilterBlockBuilder, add_key, generate_filter, generate_filters, start_block, filter_base_log,
}
use ambar.FilterBlock.Builds.{
  Holding, Tracks, pending, filed, starts, length-starts, add_key-Holding, generate_filter-Holding,
}

-- A data block: where it starts in the file, and its keys.
abbrev pub DataBlock : Type 0
DataBlock = ℕ × List Bytes

abbrev pub region_of : ℕ → ℕ
region_of block_offset = block_offset >>> filter_base_log

-- The calls that a table's builder makes.
unfoldable pub add_block_keys : FilterBlockBuilder → List Bytes → FilterBlockBuilder
add_block_keys b [] = b
add_block_keys b (key ∷ keys) = add_block_keys (add_key b key) keys

unfoldable pub add_blocks : FilterPolicy → FilterBlockBuilder → List DataBlock → FilterBlockBuilder
add_blocks policy b [] = b
add_blocks policy b ((offset, keys) ∷ blocks) =
    add_blocks policy (add_block_keys (start_block policy b offset) keys) blocks

abbrev pub key_count : List DataBlock → ℕ
key_count [] = 0
key_count ((offset, keys) ∷ blocks) = length keys + key_count blocks

-- No block starts before another that was added before it.
abbrev pub IsClimbing : ℕ → List DataBlock → Type 0
IsClimbing from [] = Unit
IsClimbing from ((offset, keys) ∷ blocks) = (from ≤ offset) × IsClimbing offset blocks

abbrev pub AllKeys : (ℕ → Bytes → Type 0) → List DataBlock → Type 0
AllKeys P blocks = All (λ (b : DataBlock). All (P b.0) b.1) blocks

pub All-map :
    {A : Type 0} (P Q : A → Type 0) (xs : List A) → ((x : A) → P x → Q x) → All P xs → All Q xs
All-map P Q [] f h = tt
All-map P Q (x ∷ xs) f (h, hs) = (f x h, All-map P Q xs f hs)

length-map-u32 : (xs : List ℕ) → length (map u32 xs) ≡ length xs
length-map-u32 [] = refl
length-map-u32 (x ∷ xs) = ap suc (length-map-u32 xs)

length-filter_offsets :
    (b : FilterBlockBuilder) (filters ks : List Bytes)
    → Holding b filters ks
    → length b.filter_offsets ≡ length filters
length-filter_offsets b filters ks h =
    ap (λ (ns : List ℕ). length ns) h.placed
    ∙ length-map-u32 (starts 0 filters)
    ∙ length-starts 0 filters

module _ (policy : FilterPolicy) (limit : ℕ) (is_filter : IsFilter policy limit) where
  -- The builder holds filters and keys that track what these did.
  pub record Later (b : FilterBlockBuilder) (filters ks : List Bytes) : Type 0 where
    pub filters' : List Bytes
    pub ks' : List Bytes
    pub holds : Holding b filters' ks'
    pub tracks :
        (i : ℕ) (key : Bytes) → Tracks policy filters ks i key → Tracks policy filters' ks' i key

  pub Later-generate_filter :
      (b : FilterBlockBuilder) (filters ks : List Bytes)
      → Holding b filters ks
      → length ks < limit
      → (l : Later (generate_filter policy b) filters ks) × (length l.filters'
          ≡ suc (length filters))
        × (l.ks' ≡ [])
  Later-generate_filter b filters ks h few =
      let (filter, held, matches) = generate_filter-Holding policy limit is_filter b filters ks h in
      (
        record {
          filters' = filters ++ (filter ∷ []);
          ks' = [];
          holds = held;
          tracks = λ i key t. elim t [
            | pending front back e at ↦
                filed filters [] filter refl at (matches key front back e few)
            | filed front back f e at m ↦
                filed front (back ++ (filter ∷ [])) f
                  (ap (λ (fs : List Bytes). fs ++ (filter ∷ [])) e
                    ∙ append_assoc front (f ∷ back) (filter ∷ []))
                  at m
          ];
        },
        omega (arith, length-append filters (filter ∷ [])),
        refl,
      )

  Later-generate_filters :
      (rounds : ℕ) (b : FilterBlockBuilder) (filters ks : List Bytes)
      → Holding b filters ks
      → length ks < limit
      → (l : Later (generate_filters policy rounds b) filters ks) × (length l.filters'
          ≡ length filters + rounds)
        × (length l.ks' ≤ length ks)
  unfolding generate_filters
  Later-generate_filters zero b filters ks h few = (
    record { filters' = filters; ks' = ks; holds = h; tracks = λ i key t. t },
    omega arith,
    omega arith,
  )
  Later-generate_filters (suc rounds) b filters ks h few =
      let (l, more, none_left) = Later-generate_filter b filters ks h few in
      let empty : length l.ks' ≡ 0 = ap (λ (xs : List Bytes). length xs) none_left in
      let (l', more', few') =
        Later-generate_filters rounds (generate_filter policy b) l.filters' l.ks' l.holds
          (omega arith) in
      (
        record {
          filters' = l'.filters';
          ks' = l'.ks';
          holds = l'.holds;
          tracks = λ i key t. l'.tracks i key (l.tracks i key t);
        },
        omega arith,
        omega arith,
      )

  Later-add_block_keys :
      (keys : List Bytes) (b : FilterBlockBuilder) (filters ks : List Bytes)
      → Holding b filters ks
      → (l : Later (add_block_keys b keys) filters ks) × (l.filters' ≡ filters)
        × (length l.ks' ≡ length ks + length keys)
        × All (λ key. Tracks policy l.filters' l.ks' (length filters) key) keys
  unfolding add_block_keys
  Later-add_block_keys [] b filters ks h = (
    record { filters' = filters; ks' = ks; holds = h; tracks = λ i key t. t },
    refl,
    omega arith,
    tt,
  )
  Later-add_block_keys (k ∷ keys) b filters ks h =
      let kept = ks ++ (k ∷ []) in
      let (l, same, count, all) =
        Later-add_block_keys keys (add_key b k) filters kept (add_key-Holding b filters ks k h) in
      (
        record {
          filters' = l.filters';
          ks' = l.ks';
          holds = l.holds;
          tracks = λ i key t. l.tracks i key (elim t [
            | pending front back e at ↦
                pending front (back ++ (k ∷ []))
                  (ap (λ (xs : List Bytes). xs ++ (k ∷ [])) e
                    ∙ append_assoc front (key ∷ back) (k ∷ []))
                  at
            | filed front back f e at m ↦ filed front back f e at m
          ]);
        },
        same,
        omega (arith, count, length-append ks (k ∷ [])),
        (l.tracks (length filters) k (pending ks [] refl refl), all),
      )

  Later-start_block :
      (b : FilterBlockBuilder) (filters ks : List Bytes) (offset : ℕ)
      → Holding b filters ks
      → length filters ≤ region_of offset
      → length ks < limit
      → (l : Later (start_block policy b offset) filters ks) × (length l.filters'
          ≡ region_of offset)
        × (length l.ks' ≤ length ks)
  unfolding start_block
  Later-start_block b filters ks offset h ahead few =
      let (l, more, fewer) =
        Later-generate_filters (region_of offset - length b.filter_offsets) b filters ks h few in
      (l, omega (arith, more, length-filter_offsets b filters ks h), fewer)

  -- All keys are tracked under their blocks' regions.
  pub Later-add_blocks :
      (blocks : List DataBlock) (b : FilterBlockBuilder) (from : ℕ) (filters ks : List Bytes)
      → Holding b filters ks
      → length filters ≤ region_of from
      → IsClimbing from blocks
      → length ks + key_count blocks < limit
      → (l : Later (add_blocks policy b blocks) filters ks) × (length l.ks' < limit)
        × AllKeys (λ offset key. Tracks policy l.filters' l.ks' (region_of offset) key) blocks
  unfolding add_blocks
  Later-add_blocks [] b from filters ks h ahead climbing few =
      (record { filters' = filters; ks' = ks; holds = h; tracks = λ i key t. t }, omega arith, tt)
  Later-add_blocks ((offset, keys) ∷ blocks) b from filters ks h ahead (behind, climbing) few =
      let (l₁, at, fewer) = Later-start_block b filters ks offset h (omega arith) (omega arith) in
      let (l₂, same, count, all) =
        Later-add_block_keys keys (start_block policy b offset) l₁.filters' l₁.ks' l₁.holds in
      let size : length l₂.filters' ≡ region_of offset =
        ap (λ (xs : List Bytes). length xs) same ∙ at in
      let (l₃, few₃, others) =
        Later-add_blocks blocks (add_block_keys (start_block policy b offset) keys) offset
          l₂.filters' l₂.ks' l₂.holds (omega arith) climbing (omega arith) in
      let here : All (λ key. Tracks policy l₃.filters' l₃.ks' (region_of offset) key) keys =
        All-map _ _ keys
          (λ key t.
            l₃.tracks (region_of offset) key
              (subst (λ i. Tracks policy l₂.filters' l₂.ks' i key) at t))
          all in
      (
        record {
          filters' = l₃.filters';
          ks' = l₃.ks';
          holds = l₃.holds;
          tracks = λ i key t. l₃.tracks i key (l₂.tracks i key (l₁.tracks i key t));
        },
        few₃,
        (here, others),
      )
