-- ===== src/Merger/Smallest.antt =====
-- merger.cpp: `find_smallest` finds a valid child with no smaller key than any other's.
use ambar.Prelude.{
  ℕ, ◌+◌, true, false, not, Option, none, some, List, [], ◌∷◌, ◌++◌, append_assoc, append-nil,
  Bytes, length, length-append, All, All-append, if◌then◌else◌, Bool-cases, ◌⊎◌, inl, inr, arith,
  ◌≡◌, refl, ap, sym, ◌∙◌,
}
use ambar.Comparator.{Comparator}
use ambar.Block.Find.{below}
use ambar.Block.Find.Walk.{IsTransitive}
use ambar.FilterBlock.Blocks.{All-map}
use ambar.Merger.{Iterator, smallest_loop}

-- No key is below itself.
abbrev pub IsIrreflexive : Comparator → Type 0
IsIrreflexive comparator = (a : Bytes) → below comparator a a ≡ false

module _ {C : Type 0} (it : Iterator C) (comparator : Comparator) where
  -- The child is not valid, or its key is not below the other's.
  abbrev pub IsNotBelow : C → C → Type 0
  IsNotBelow s d = (it.valid d ≡ false) ⊎ (below comparator (it.key d) (it.key s) ≡ false)

  -- What the loop has found among the children that it has passed.
  pub data IsLeast (children : List C) : Option (ℕ × C) → Type 0 where
    none_valid : All (λ d. it.valid d ≡ false) children → IsLeast children none
    least_at :
        (i : ℕ) (s : C) (front back : List C)
        → children ≡ front ++ (s ∷ back)
        → i ≡ length front
        → it.valid s ≡ true
        → All (IsNotBelow s) children
        → IsLeast children (some (i, s))

  module _ (trans : IsTransitive comparator) (irreflexive : IsIrreflexive comparator) where
    not_below_trans :
        (d c s : Bytes)
        → below comparator c s ≡ true
        → below comparator d s ≡ false
        → below comparator d c ≡ false
    not_below_trans d c s h not_below = elim (Bool-cases (below comparator d c)) [
      | inl lower ↦ absurd (absurd_bool (sym (trans d c s lower h) ∙ not_below))
      | inr higher ↦ higher
    ]
      where
        absurd_bool : true ≡ false → ⊥
        absurd_bool e = cc

    IsLeast-step :
        (done : List C) (c : C) (i : ℕ) (best : Option (ℕ × C))
        → i ≡ length done
        → IsLeast done best
        → IsLeast (done ++ (c ∷ [])) (
            if not (it.valid c) then best else elim best [
              | none ↦ some (i, c)
              | some (j, s) ↦
                  if below comparator (it.key c) (it.key s) then some (i, c) else some (j, s)
            ])
    IsLeast-step done c i best at (none_valid invalid) = elim (Bool-cases (it.valid c)) [
      | inr gone ↦ rw gone (none_valid (All-append _ done (c ∷ []) invalid (gone, tt)))
      | inl here ↦ rw here (
          least_at i c done [] refl at here (
            All-append _ done (c ∷ []) (All-map _ _ done (λ d h. inl h) invalid)
              (inr (irreflexive (it.key c)), tt)))
    ]
    IsLeast-step done c i best at (least_at j s front back split place valid not_below) =
        elim (Bool-cases (it.valid c)) [
          | inr gone ↦ rw gone (
              least_at j s front (back ++ (c ∷ [])) (grown split) place valid
                (All-append _ done (c ∷ []) not_below (inl gone, tt)))
          | inl here ↦ elim (Bool-cases (below comparator (it.key c) (it.key s))) [
            | inl lower ↦
                rw (here, lower)
                  (least_at i c done [] refl at here (
                    All-append _ done (c ∷ [])
                      (All-map _ _ done
                        (λ d h. elim h [
                          | inl gone ↦ inl gone
                          | inr higher ↦
                              inr (not_below_trans (it.key d) (it.key c) (it.key s) lower higher)
                        ])
                        not_below)
                      (inr (irreflexive (it.key c)), tt)))
            | inr higher ↦
                rw (here, higher)
                  (least_at j s front (back ++ (c ∷ [])) (grown split) place valid
                    (All-append _ done (c ∷ []) not_below (inr higher, tt)))
          ]
        ]
      where
        grown : done ≡ front ++ (s ∷ back) → done ++ (c ∷ []) ≡ front ++ (s ∷ (back ++ (c ∷ [])))
        grown split =
            ap (λ (xs : List C). xs ++ (c ∷ [])) split ∙ append_assoc front (s ∷ back) (c ∷ [])

    pub smallest_loop-IsLeast :
        (done children : List C) (i : ℕ) (best : Option (ℕ × C))
        → i ≡ length done
        → IsLeast done best
        → IsLeast (done ++ children) (smallest_loop it comparator children i best)
    unfolding smallest_loop
    smallest_loop-IsLeast done [] i best at least = rw append-nil least
    smallest_loop-IsLeast done (c ∷ children) i best at least =
        rw (sym (append_assoc done (c ∷ []) children)) (
          smallest_loop-IsLeast (done ++ (c ∷ [])) children (i + 1) _
            (omega (arith, at, length-append done (c ∷ []))) (IsLeast-step done c i best at least))
