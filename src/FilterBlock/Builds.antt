-- ===== src/FilterBlock/Builds.antt =====
-- filter_block.cpp: what the builder's buffers hold.
use ambar.Prelude.{
  ℕ, suc, ◌+◌, ◌-◌, ◌<◌, u32, true, false, List, [], ◌∷◌, ◌++◌, map, append_assoc, append-nil,
  Bytes, length, length-append, take, drop, take-append, drop-append, ◌==◌, arith, ◌≡◌, refl, ap,
  ap₂, sym, ◌∙◌, subst,
}
use ambar.FilterPolicy.{FilterPolicy, IsFilter}
use ambar.FilterBlock.{FilterBlockBuilder, new_builder, add_key, cut_keys, generate_filter}

-- Strings one behind the other.
unfoldable pub joined : List Bytes → Bytes
joined [] = []
joined (x ∷ xs) = x ++ joined xs

pub joined-append : (xs ys : List Bytes) → joined (xs ++ ys) ≡ joined xs ++ joined ys
unfolding joined
joined-append [] ys = refl
joined-append (x ∷ xs) ys =
    ap (λ (b : Bytes). x ++ b) (joined-append xs ys) ∙ sym (append_assoc x (joined xs) (joined ys))

-- Where each of them starts, and with the place behind the last.
unfoldable pub starts : ℕ → List Bytes → List ℕ
starts n [] = []
starts n (x ∷ xs) = n ∷ starts (n + length x) xs

unfoldable pub bounds : ℕ → List Bytes → List ℕ
bounds n [] = n ∷ []
bounds n (x ∷ xs) = n ∷ bounds (n + length x) xs

pub starts-end :
    (n : ℕ) (xs : List Bytes) → starts n xs ++ ((n + length (joined xs)) ∷ []) ≡ bounds n xs
unfolding starts bounds joined
starts-end n [] = ap (λ (k : ℕ). k ∷ []) (omega arith)
starts-end n (x ∷ xs) =
    let ends : n + length (x ++ joined xs) ≡ (n + length x) + length (joined xs) =
      omega (arith, length-append x (joined xs)) in
    ap (◌∷◌ n)
      (ap (λ (k : ℕ). starts (n + length x) xs ++ (k ∷ [])) ends ∙ starts-end (n + length x) xs)

pub starts-append :
    (n : ℕ) (xs : List Bytes) (y : Bytes)
    → starts n (xs ++ (y ∷ [])) ≡ starts n xs ++ ((n + length (joined xs)) ∷ [])
unfolding starts joined
starts-append n [] y = ap (λ (k : ℕ). k ∷ []) (omega arith)
starts-append n (x ∷ xs) y =
    let ends : (n + length x) + length (joined xs) ≡ n + length (x ++ joined xs) =
      omega (arith, length-append x (joined xs)) in
    ap (◌∷◌ n) (
      starts-append (n + length x) xs y ∙ ap (λ (k : ℕ). starts (n + length x) xs ++ (k ∷ [])) ends)

pub length-starts : (n : ℕ) (xs : List Bytes) → length (starts n xs) ≡ length xs
unfolding starts
length-starts n [] = refl
length-starts n (x ∷ xs) = ap suc (length-starts (n + length x) xs)

cut_one :
    (done x behind : Bytes)
    → take ((length done + length x) - length done) (drop (length done) (done ++ (x ++ behind))) ≡ x
cut_one done x behind =
    ap (take ((length done + length x) - length done))
      (drop-append (length done) done (x ++ behind) refl)
    ∙ take-append _ x behind (omega arith)

-- The keys are cut where they were put together.
cut_keys-bounds :
    (done : Bytes) (ks : List Bytes) → cut_keys (done ++ joined ks) (bounds (length done) ks) ≡ ks
unfolding cut_keys bounds joined
cut_keys-bounds done [] = refl
cut_keys-bounds done (k ∷ []) = ap (λ (x : Bytes). x ∷ []) (cut_one done k [])
cut_keys-bounds done (k ∷ (k' ∷ ks)) =
    let more : cut_keys (done ++ (k ++ joined (k' ∷ ks)))
          (bounds (length done + length k) (k' ∷ ks))
        ≡ k' ∷ ks =
      ap₂ (λ (bs : Bytes) (n : ℕ). cut_keys bs (bounds n (k' ∷ ks)))
        (sym (append_assoc done k (joined (k' ∷ ks)))) (sym (length-append done k))
      ∙ cut_keys-bounds (done ++ k) (k' ∷ ks) in
    ap₂ (◌∷◌) (cut_one done k (joined (k' ∷ ks))) more

-- The builder holds these filters, and these keys for the next.
pub record Holding (b : FilterBlockBuilder) (filters ks : List Bytes) : Type 0 where
  pub whole : b.result ≡ joined filters
  pub placed : b.filter_offsets ≡ map u32 (starts 0 filters)
  pub kept : b.keys ≡ joined ks
  pub cuts : b.key_starts ≡ starts 0 ks

pub new_builder-Holding : Holding new_builder [] []
unfolding joined starts
new_builder-Holding = record { whole = refl; placed = refl; kept = refl; cuts = refl }

pub add_key-Holding :
    (b : FilterBlockBuilder) (filters ks : List Bytes) (key : Bytes)
    → Holding b filters ks
    → Holding (add_key b key) filters (ks ++ (key ∷ []))
unfolding add_key joined
add_key-Holding b filters ks key h = record {
  whole = h.whole;
  placed = h.placed;
  kept =
      ap (λ (bs : Bytes). bs ++ key) h.kept
      ∙ sym (joined-append ks (key ∷ []) ∙ ap (λ (x : Bytes). joined ks ++ x) (append-nil key));
  cuts =
      ap₂ (λ (ns : List ℕ) (bs : Bytes). ns ++ (length bs ∷ [])) h.cuts h.kept
      ∙ sym (starts-append 0 ks key ∙ ap (λ (k : ℕ). starts 0 ks ++ (k ∷ [])) (omega arith));
}

map-append_u32 : (xs : List ℕ) (y : ℕ) → map u32 (xs ++ (y ∷ [])) ≡ map u32 xs ++ (u32 y ∷ [])
map-append_u32 [] y = refl
map-append_u32 (x ∷ xs) y = ap (◌∷◌ (u32 x)) (map-append_u32 xs y)

placed-append :
    (filters : List Bytes) (filter : Bytes)
    → map u32 (starts 0 (filters ++ (filter ∷ [])))
      ≡ map u32 (starts 0 filters) ++ (u32 (length (joined filters)) ∷ [])
placed-append filters filter =
    ap (map u32) (starts-append 0 filters filter)
    ∙ map-append_u32 (starts 0 filters) (0 + length (joined filters))
    ∙ ap (λ (k : ℕ). map u32 (starts 0 filters) ++ (u32 k ∷ [])) (omega arith)

-- Whether the filter with an index may match a key: it has to be made yet, from keys with this one, or it is there and may.
pub data Tracks (policy : FilterPolicy) (filters ks : List Bytes) (i : ℕ) (key : Bytes)
    : Type 0 where
  pending :
      (front back : List Bytes)
      → ks ≡ front ++ (key ∷ back)
      → i ≡ length filters
      → Tracks policy filters ks i key
  filed :
      (front back : List Bytes) (filter : Bytes)
      → filters ≡ front ++ (filter ∷ back)
      → i ≡ length front
      → policy.key_may_match key filter ≡ true
      → Tracks policy filters ks i key

module _ (policy : FilterPolicy) (limit : ℕ) (is_filter : IsFilter policy limit) where
  suc_not_zero : (n : ℕ) → (suc n == 0) ≡ false
  suc_not_zero n = ground arith

  grown :
      {b : FilterBlockBuilder} {ks : List Bytes} (filters : List Bytes) (filter : Bytes)
      → Holding b filters ks
      → b.filter_offsets ++ (u32 (length b.result) ∷ [])
        ≡ map u32 (starts 0 (filters ++ (filter ∷ [])))
  grown filters filter h =
      ap₂ (λ (ns : List ℕ) (bs : Bytes). ns ++ (u32 (length bs) ∷ [])) h.placed h.whole
      ∙ sym (placed-append filters filter)

  -- A filter more, which may match the keys that were kept.
  pub generate_filter-Holding :
      (b : FilterBlockBuilder) (filters ks : List Bytes)
      → Holding b filters ks
      → (filter : Bytes) × Holding (generate_filter policy b) (filters ++ (filter ∷ [])) []
        × ((key : Bytes) (front back : List Bytes)
            → ks ≡ front ++ (key ∷ back)
            → length ks < limit
            → policy.key_may_match key filter ≡ true)
  unfolding generate_filter
  generate_filter-Holding b filters [] h =
      let none_kept : (length b.key_starts == 0) ≡ true =
        ap (λ (ns : List ℕ). length ns == 0) h.cuts ∙ unfold starts in refl in
      let held : Holding (generate_filter policy b) (filters ++ ([] ∷ [])) [] =
        rw none_kept (record {
          whole =
              h.whole
              ∙ sym
                  (joined-append filters ([] ∷ []) ∙ unfold joined in append-nil (joined filters));
          placed = grown filters [] h;
          kept = h.kept;
          cuts = h.cuts;
        }) in
      (
        [],
        held,
        λ key front back e few. absurd (
            omega (arith, ap (λ (ks : List Bytes). length ks) e, length-append front (key ∷ back))),
      )
  generate_filter-Holding b filters (k ∷ ks) h =
      let all = k ∷ ks in
      let some_kept : (length b.key_starts == 0) ≡ false =
        ap (λ (ns : List ℕ). length ns == 0) h.cuts
        ∙ unfold starts in suc_not_zero (length (starts (0 + length k) ks)) in
      let cut : cut_keys b.keys (b.key_starts ++ (length b.keys ∷ [])) ≡ all =
        ap₂ (λ (ns : List ℕ) (bs : Bytes). cut_keys bs (ns ++ (length bs ∷ []))) h.cuts h.kept
        ∙ ap (cut_keys (joined all))
            (ap (λ (n : ℕ). starts 0 all ++ (n ∷ [])) (omega arith) ∙ starts-end 0 all)
        ∙ cut_keys-bounds [] all in
      let (filter, made) = is_filter.appends all b.result in
      let held : Holding (generate_filter policy b) (filters ++ (filter ∷ [])) [] =
        rw (some_kept, cut)
          (record {
            whole =
                made
                ∙ ap (λ (bs : Bytes). bs ++ filter) h.whole
                ∙ sym (
                    joined-append filters (filter ∷ [])
                    ∙ ap (λ (x : Bytes). joined filters ++ x) (unfold joined in append-nil filter));
            placed = grown filters filter h;
            kept = unfold joined in refl;
            cuts = unfold starts in refl;
          }) in
      (
        filter,
        held,
        λ key front back e few.
            ap (policy.key_may_match key) (
              sym (drop-append (length b.result) b.result filter refl)
              ∙ ap (drop (length b.result))
                  (sym made ∙ ap (λ (xs : List Bytes). policy.create_filter xs b.result) e))
            ∙ is_filter.finds front back key b.result (subst (λ xs. length xs < limit) e few),
      )
