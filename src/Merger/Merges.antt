-- ===== src/Merger/Merges.antt =====
-- merger.cpp: going forward, the merging iterator meets all its children's entries, in order.
use ambar.Prelude.{
  ℕ, zero, suc, ◌≤◌, ◌<◌, true, false, Option, none, some, List, [], ◌∷◌, ◌++◌, Bytes, length, map,
  All, All-append, Bool-cases, inl, inr, arith, ◌≡◌, refl, ap, sym, ◌∙◌, subst,
}
use ambar.Comparator.{Comparator}
use ambar.Block.Find.{below}
use ambar.Block.Find.Walk.{Entries, IsTransitive, IsAscending}
use ambar.FilterBlock.Blocks.{All-map}
use ambar.Merger.{
  Iterator, MergingIterator, forward, child_at, change_at, smallest_loop, place_of, find_smallest,
  current_child, merge_next, merge_to_first, merge_seek,
}
use ambar.Merger.Smallest.{
  IsIrreflexive, IsNotBelow, IsLeast, none_valid, least_at, smallest_loop-IsLeast,
}
use ambar.Merger.Interleaves.{
  Shows, Interleaves, IsSorted, entry_count, entry_count-append, All-split, All-rest,
  Interleaves-All, all_taken, taken,
}

module _ {C : Type 0} (it : Iterator C) (comparator : Comparator) where
  pub data Showing : List C → List Entries → Type 0 where
    none_shown : Showing [] []
    and_shown :
        (c : C) (es : Entries) (cs : List C) (ess : List Entries)
        → Shows it c es
        → Showing cs ess
        → Showing (c ∷ cs) (es ∷ ess)

  -- What a client's loop meets: while the merge is valid, its key and value, and `next`.
  unfoldable pub merge_walk : ℕ → MergingIterator C → Option Entries
  merge_walk zero m = none
  merge_walk (suc fuel) m =
      let more = merge_walk fuel (merge_next it comparator m) in
      elim (current_child it comparator m) [
        | none ↦ some []
        | some c ↦ elim more [ none ↦ none | some es ↦ some ((it.key c, it.value c) ∷ es) ]
      ]

  -- The list that the child at a place shows.
  record Parted (front : List C) (s : C) (back : List C) (ess : List Entries) : Type 0 where
    ess_front : List Entries
    ess_back : List Entries
    val : Bytes
    rest : Entries
    split : ess ≡ ess_front ++ (((it.key s, val) ∷ rest) ∷ ess_back)
    value_is : it.value s ≡ val
    shows_rest : Shows it (it.next s) rest
    shown_rest : Showing (front ++ (it.next s ∷ back)) (ess_front ++ (rest ∷ ess_back))

  Showing-Parted :
      (front : List C) (s : C) (back : List C) (ess : List Entries)
      → it.valid s ≡ true
      → Showing (front ++ (s ∷ back)) ess
      → Parted front s back ess
  Showing-Parted [] s back ess valid (and_shown s' [] back' ess' gone others) = absurd (cc)
  Showing-Parted [] s back ess valid
        (and_shown s' ((key, val) ∷ rest) back' ess' (here, is_key, is_val, more) others) =
      record {
        ess_front = [];
        ess_back = ess';
        val = val;
        rest = rest;
        split = ap (λ (k : Bytes). ((k, val) ∷ rest) ∷ ess') (sym is_key);
        value_is = is_val;
        shows_rest = more;
        shown_rest = and_shown (it.next s) rest back ess' more others;
      }
  Showing-Parted (c ∷ front) s back ess valid (and_shown c' es cs ess' shows others) =
      let p = Showing-Parted front s back ess' valid others in
      record {
        ess_front = es ∷ p.ess_front;
        ess_back = p.ess_back;
        val = p.val;
        rest = p.rest;
        split = ap (◌∷◌ es) p.split;
        value_is = p.value_is;
        shows_rest = p.shows_rest;
        shown_rest =
            and_shown c es (front ++ (it.next s ∷ back)) (p.ess_front ++ (p.rest ∷ p.ess_back))
              shows p.shown_rest;
      }

  child_at-front :
      (front : List C) (s : C) (back : List C)
      → child_at (front ++ (s ∷ back)) (length front) ≡ some s
  unfolding child_at
  child_at-front [] s back = refl
  child_at-front (c ∷ front) s back = child_at-front front s back

  change_at-front :
      (front : List C) (s : C) (back : List C)
      → change_at it.next (front ++ (s ∷ back)) (length front) ≡ front ++ (it.next s ∷ back)
  unfolding change_at
  change_at-front [] s back = refl
  change_at-front (c ∷ front) s back = ap (◌∷◌ c) (change_at-front front s back)

  All-empty :
      (cs : List C) (ess : List Entries)
      → Showing cs ess
      → All (λ d. it.valid d ≡ false) cs
      → All (λ es. es ≡ []) ess
  All-empty cs ess none_shown h = tt
  All-empty cs ess (and_shown c [] cs' ess' shows others) (gone, hs) =
      (refl, All-empty cs' ess' others hs)
  All-empty cs ess (and_shown c (e ∷ es) cs' ess' shows others) (gone, hs) = absurd (cc)

  abbrev NotBelow : Bytes → Entries → Type 0
  NotBelow key es = All (λ d. below comparator d.0 key ≡ false) es

  abbrev Walks : ℕ → MergingIterator C → List Entries → Type 0
  Walks fuel m ess =
      (es : Entries) × (merge_walk fuel m ≡ some es) × Interleaves ess es × IsSorted comparator es

  -- The merge over these children, at the smallest.
  abbrev at_smallest : List C → MergingIterator C
  at_smallest cs = record {
    children = cs;
    current = place_of it comparator (smallest_loop it comparator cs 0 none);
    direction = forward;
  }

  abbrev at_place : List C → ℕ → MergingIterator C
  at_place cs i = record { children = cs; current = some i; direction = forward }

  at_smallest-place :
      (cs : List C) (i : ℕ) (s : C)
      → smallest_loop it comparator cs 0 none ≡ some (i, s)
      → at_smallest cs ≡ at_place cs i
  at_smallest-place cs i s found =
      ap
        (λ (best : Option (ℕ × C)). record {
          children = cs;
          current = place_of it comparator best;
          direction = forward;
        })
        found

  next_place :
      (cs : List C) (i : ℕ) (s : C)
      → child_at cs i ≡ some s
      → merge_next it comparator (at_place cs i) ≡ at_smallest (change_at it.next cs i)
  unfolding merge_next find_smallest child_at change_at smallest_loop
  next_place cs i s child = rw child refl

  walk_place :
      (n : ℕ) (cs : List C) (i : ℕ) (s : C) (es : Entries)
      → child_at cs i ≡ some s
      → merge_walk n (merge_next it comparator (at_place cs i)) ≡ some es
      → merge_walk (suc n) (at_place cs i) ≡ some ((it.key s, it.value s) ∷ es)
  unfolding merge_walk child_at
  walk_place n cs i s es child walked = rw (child, walked) refl

  walk_smallest :
      (n : ℕ) (cs cs' : List C) (i : ℕ) (s : C) (es : Entries)
      → smallest_loop it comparator cs 0 none ≡ some (i, s)
      → child_at cs i ≡ some s
      → change_at it.next cs i ≡ cs'
      → merge_walk n (at_smallest cs') ≡ some es
      → merge_walk (suc n) (at_smallest cs) ≡ some ((it.key s, it.value s) ∷ es)
  walk_smallest n cs cs' i s es found child moved walked =
      ap (merge_walk (suc n)) (at_smallest-place cs i s found)
      ∙ walk_place n cs i s es child (
          ap (merge_walk n) (next_place cs i s child ∙ ap (λ (xs : List C). at_smallest xs) moved)
          ∙ walked)

  module _ (trans : IsTransitive comparator) (irreflexive : IsIrreflexive comparator) where
    not_below_behind :
        (k d s : Bytes)
        → below comparator k d ≡ true
        → below comparator k s ≡ false
        → below comparator d s ≡ false
    not_below_behind k d s h not_below = elim (Bool-cases (below comparator d s)) [
      | inl lower ↦ absurd (absurd_bool (sym (trans k d s h lower) ∙ not_below))
      | inr higher ↦ higher
    ]
      where
        absurd_bool : true ≡ false → ⊥
        absurd_bool e = cc

    child-NotBelow :
        (s c : C) (es : Entries)
        → IsNotBelow it comparator s c
        → Shows it c es
        → IsAscending comparator es
        → NotBelow (it.key s) es
    unfolding IsAscending
    child-NotBelow s c [] h shows sorted = tt
    child-NotBelow s c ((key, val) ∷ es) (inl gone) (here, is_key, is_val, others) sorted =
        absurd (cc)
    child-NotBelow s c ((key, val) ∷ es) (inr higher) (here, is_key, is_val, others)
          (ahead, sorted) =
        let first : below comparator key (it.key s) ≡ false =
          subst (λ k. below comparator k (it.key s) ≡ false) is_key higher in
        (first, All-map _ _ es (λ d h. not_below_behind key d.0 (it.key s) h first) ahead)

    children-NotBelow :
        (s : C) (cs : List C) (ess : List Entries)
        → Showing cs ess
        → All (IsNotBelow it comparator s) cs
        → All (IsAscending comparator) ess
        → All (NotBelow (it.key s)) ess
    children-NotBelow s cs ess none_shown h sorted = tt
    children-NotBelow s cs ess (and_shown c es cs' ess' shows others) (h, hs) (sorted, more) =
        (child-NotBelow s c es h shows sorted, children-NotBelow s cs' ess' others hs more)

    IsAscending-rest :
        (front back : List Entries) (e : Bytes × Bytes) (rest : Entries)
        → All (IsAscending comparator) (front ++ ((e ∷ rest) ∷ back))
        → All (IsAscending comparator) (front ++ (rest ∷ back))
    unfolding IsAscending
    IsAscending-rest front back e rest h =
        let (hf, ((ahead, hr), hb)) =
          All-split (IsAscending comparator) front ((e ∷ rest) ∷ back) h in
        All-append (IsAscending comparator) front (rest ∷ back) hf (hr, hb)

    walk_least :
        (n : ℕ) (cs : List C) (ess : List Entries) (best : Option (ℕ × C))
        → ((cs' : List C) (ess' : List Entries)
            → Showing cs' ess'
            → All (IsAscending comparator) ess'
            → entry_count ess' < n
            → Walks n (at_smallest cs') ess')
        → smallest_loop it comparator cs 0 none ≡ best
        → IsLeast it comparator cs best
        → Showing cs ess
        → All (IsAscending comparator) ess
        → entry_count ess ≤ n
        → Walks (suc n) (at_smallest cs) ess
    unfolding merge_walk IsSorted
    walk_least n cs ess best more found (none_valid invalid) shown sorted few =
        ([], rw found refl, all_taken ess (All-empty cs ess shown invalid), tt)
    walk_least n cs ess best more found (least_at i s front back split at valid not_below) shown
          sorted few =
        let p = Showing-Parted front s back ess valid (subst (λ xs. Showing xs ess) split shown) in
        let e : Bytes × Bytes = (it.key s, p.val) in
        let cs' = front ++ (it.next s ∷ back) in
        let ess' = p.ess_front ++ (p.rest ∷ p.ess_back) in
        let sorted' = subst (All (IsAscending comparator)) p.split sorted in
        let fewer : entry_count ess' < n = omega (
          arith,
          few,
          ap (λ (xs : List Entries). entry_count xs) p.split,
          entry_count-append p.ess_front ((e ∷ p.rest) ∷ p.ess_back),
          entry_count-append p.ess_front (p.rest ∷ p.ess_back),
        ) in
        let (es, walked, interleaves, es_sorted) =
          more cs' ess' p.shown_rest (IsAscending-rest p.ess_front p.ess_back e p.rest sorted')
            fewer in
        let child : child_at cs i ≡ some s =
          ap (λ (xs : List C). child_at xs i) split
          ∙ ap (child_at (front ++ (s ∷ back))) at
          ∙ child_at-front front s back in
        let moved : change_at it.next cs i ≡ cs' =
          ap (λ (xs : List C). change_at it.next xs i) split
          ∙ ap (change_at it.next (front ++ (s ∷ back))) at
          ∙ change_at-front front s back in
        let all_above =
          All-rest (λ d. below comparator d.0 (it.key s) ≡ false) p.ess_front p.ess_back e p.rest
            (subst (All (NotBelow (it.key s))) p.split
              (children-NotBelow s cs ess shown not_below sorted)) in
        (
          e ∷ es,
          walk_smallest n cs cs' i s es found child moved walked
              ∙ ap (λ (v : Bytes). some ((it.key s, v) ∷ es)) p.value_is,
          subst (λ xs. Interleaves xs (e ∷ es)) (sym p.split)
              (taken p.ess_front p.ess_back e p.rest es interleaves),
          (
            Interleaves-All (λ d. below comparator d.0 (it.key s) ≡ false) ess' es all_above.1
                interleaves,
            es_sorted,
          ),
        )

    walk-Showing :
        (n : ℕ) (cs : List C) (ess : List Entries)
        → Showing cs ess
        → All (IsAscending comparator) ess
        → entry_count ess ≤ n
        → Walks (suc n) (at_smallest cs) ess
    walk-Showing zero cs ess shown sorted few =
        walk_least zero cs ess _ (λ cs' ess' s a less. absurd (omega arith)) refl
          (smallest_loop-IsLeast it comparator trans irreflexive [] cs 0 none refl (none_valid tt))
          shown sorted few
    walk-Showing (suc n) cs ess shown sorted few =
        walk_least (suc n) cs ess _ (λ cs' ess' s a less. walk-Showing n cs' ess' s a (omega arith))
          refl
          (smallest_loop-IsLeast it comparator trans irreflexive [] cs 0 none refl (none_valid tt))
          shown sorted few

-- From seek_to_first on, the merging iterator meets by next all entries of its children, each
-- child's in its order, and with no later key below an earlier one; then it is no longer valid. The
-- conditions are that the comparator is transitive and has no key below itself, and that each
-- child, from its own seek_to_first on, shows a list of entries with ascending keys.
pub merge_walk-merge_to_first :
    {C : Type 0} (it : Iterator C) (comparator : Comparator) (m : MergingIterator C)
    (ess : List Entries)
    → IsTransitive comparator
    → IsIrreflexive comparator
    → Showing it comparator (map it.seek_to_first m.children) ess
    → All (IsAscending comparator) ess
    → (es : Entries) × (merge_walk it comparator
          (suc (entry_count ess))
          (merge_to_first it comparator m)
        ≡ some es)
      × Interleaves ess es
      × IsSorted comparator es
unfolding merge_to_first find_smallest
merge_walk-merge_to_first it comparator m ess trans irreflexive shown sorted =
    walk-Showing it comparator trans irreflexive (entry_count ess) (map it.seek_to_first m.children)
      ess shown sorted (omega arith)

-- The same from a seek on, of what the children show behind it.
pub merge_walk-merge_seek :
    {C : Type 0} (it : Iterator C) (comparator : Comparator) (m : MergingIterator C)
    (target : Bytes) (ess : List Entries)
    → IsTransitive comparator
    → IsIrreflexive comparator
    → Showing it comparator (map (it.seek target) m.children) ess
    → All (IsAscending comparator) ess
    → (es : Entries) × (merge_walk it comparator
          (suc (entry_count ess))
          (merge_seek it comparator target m)
        ≡ some es)
      × Interleaves ess es
      × IsSorted comparator es
unfolding merge_seek find_smallest
merge_walk-merge_seek it comparator m target ess trans irreflexive shown sorted =
    walk-Showing it comparator trans irreflexive (entry_count ess) (map (it.seek target) m.children)
      ess shown sorted (omega arith)
