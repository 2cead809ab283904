-- ===== src/Merger/Interleaves.antt =====
-- Lists that are taken apart from their fronts, and the order of what was taken.
use ambar.Prelude.{
  true, ℕ, ◌+◌, false, List, [], ◌∷◌, ◌++◌, Bytes, length, All, All-append, arith, ◌≡◌,
}
use ambar.Comparator.{Comparator}
use ambar.Block.Find.{below}
use ambar.Block.Find.Walk.{Entries}
use ambar.Merger.{Iterator}

-- What an iterator shows from where it stands, going forward.
abbrev pub Shows : {C : Type 0} → Iterator C → C → Entries → Type 0
Shows it c [] = it.valid c ≡ false
Shows it c ((key, val) ∷ es) =
    (it.valid c ≡ true) × (it.key c ≡ key) × (it.value c ≡ val) × Shows it (it.next c) es

-- Lists taken apart from their fronts, one entry after another.
pub data Interleaves : List Entries → Entries → Type 0 where
  all_taken : (ess : List Entries) → All (λ es. es ≡ []) ess → Interleaves ess []
  taken :
      (front back : List Entries) (e : Bytes × Bytes) (rest es : Entries)
      → Interleaves (front ++ (rest ∷ back)) es
      → Interleaves (front ++ ((e ∷ rest) ∷ back)) (e ∷ es)

-- No later key is below an earlier one.
unfoldable pub IsSorted : Comparator → Entries → Type 0
IsSorted comparator [] = Unit
IsSorted comparator (e ∷ es) =
    All (λ d. below comparator d.0 e.0 ≡ false) es × IsSorted comparator es

abbrev pub entry_count : List Entries → ℕ
entry_count [] = 0
entry_count (es ∷ ess) = length es + entry_count ess

pub entry_count-append :
    (xs ys : List Entries) → entry_count (xs ++ ys) ≡ entry_count xs + entry_count ys
entry_count-append [] ys = omega arith
entry_count-append (x ∷ xs) ys = omega (arith, entry_count-append xs ys)

pub All-split :
    {A : Type 0} (P : A → Type 0) (xs ys : List A) → All P (xs ++ ys) → All P xs × All P ys
All-split P [] ys h = (tt, h)
All-split P (x ∷ xs) ys (h, hs) = let (a, b) = All-split P xs ys hs in ((h, a), b)

-- One list of several loses its first entry.
pub All-rest :
    (P : Bytes × Bytes → Type 0) (front back : List Entries) (e : Bytes × Bytes) (rest : Entries)
    → All (All P) (front ++ ((e ∷ rest) ∷ back))
    → P e × All (All P) (front ++ (rest ∷ back))
All-rest P front back e rest h =
    let (hf, ((he, hr), hb)) = All-split (All P) front ((e ∷ rest) ∷ back) h in
    (he, All-append (All P) front (rest ∷ back) hf (hr, hb))

pub Interleaves-All :
    (P : Bytes × Bytes → Type 0) (ess : List Entries) (es : Entries)
    → All (All P) ess
    → Interleaves ess es
    → All P es
Interleaves-All P ess es h (all_taken _ _) = tt
Interleaves-All P ess es h (taken front back e rest es' more) =
    let (he, others) = All-rest P front back e rest h in
    (he, Interleaves-All P (front ++ (rest ∷ back)) es' others more)
