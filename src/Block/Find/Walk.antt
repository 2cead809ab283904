-- ===== src/Block/Find/Walk.antt =====
-- block.cpp: the walk of `find` gives the first entry that is not below the target.
use ambar.Prelude.{
  ℕ, zero, suc, ◌+◌, ◌-◌, ◌≤◌, ◌<◌, true, false, some, List, [], ◌∷◌, ◌++◌, Bytes, length,
  length-append, length-drop, take, drop, take-append, take-append-drop, drop-append, All, ltb,
  le→ltb, if◌then◌else◌, arith, ◌≡◌, refl, ap, sym, ◌∙◌,
}
use ambar.Comparator.{Comparator}
use ambar.BlockBuilder.Chain.{entry_bytes, length-entry_bytes, Holds}
use ambar.Block.{decode_entry}
use ambar.Block.Decode.{entry_of, decode-entry_bytes}
use ambar.Block.Reads.{IsReadable}
use ambar.Block.Find.{below, Answer, found, absent, find_walk}
use ambar.Block.Find.Points.{All-middle}

abbrev pub Entries : Type 0
Entries = List (Bytes × Bytes)

-- The first entry whose key is not below the target.
unfoldable pub first_from : Comparator → Bytes → Entries → Answer
first_from comparator target [] = absent
first_from comparator target ((key, val) ∷ es) =
    if below comparator key target then first_from comparator target es else found key val

-- Each key is below all that follow.
unfoldable pub IsAscending : Comparator → Entries → Type 0
IsAscending comparator [] = Unit
IsAscending comparator (e ∷ es) =
    All (λ e'. below comparator e.0 e'.0 ≡ true) es × IsAscending comparator es

abbrev pub IsTransitive : Comparator → Type 0
IsTransitive comparator =
    (a b c : Bytes)
    → below comparator a b ≡ true
    → below comparator b c ≡ true
    → below comparator a c ≡ true

abbrev pub Passed : Comparator → Bytes → Entries → Type 0
Passed comparator target es = All (λ e. below comparator e.0 target ≡ true) es

pub first_from-Passed :
    (comparator : Comparator) (target : Bytes) (done es : Entries)
    → Passed comparator target done
    → first_from comparator target (done ++ es) ≡ first_from comparator target es
unfolding first_from
first_from-Passed comparator target [] es h = refl
first_from-Passed comparator target ((key, val) ∷ done) es (h, hs) =
    rw h (first_from-Passed comparator target done es hs)

-- What stands before a key that is below the target is below it.
pub before-Passed :
    (comparator : Comparator) (target : Bytes) (before behind : Entries) (e : Bytes × Bytes)
    → IsTransitive comparator
    → IsAscending comparator (before ++ (e ∷ behind))
    → below comparator e.0 target ≡ true
    → Passed comparator target before
unfolding IsAscending
before-Passed comparator target [] behind e trans sorted h = tt
before-Passed comparator target (b ∷ before) behind e trans (ahead, sorted) h = (
  trans b.0 e.0 target (All-middle (λ e'. below comparator b.0 e'.0 ≡ true) before e behind ahead)
      h,
  before-Passed comparator target before behind e trans sorted h,
)

-- The walk on an entry that is there.
walk_step :
    (comparator : Comparator) (target : Bytes) (fuel shared : ℕ) (p prev key val rest : Bytes)
    → decode_entry p ≡ some (entry_of shared key val rest)
    → 0 < length p
    → shared ≤ length prev
    → shared ≤ length key
    → take shared prev ≡ take shared key
    → comparator.min_key_length ≤ length key
    → find_walk comparator target (suc fuel) p prev ≡ (
        if below comparator key target
        then find_walk comparator target fuel rest key
        else found key val)
unfolding find_walk
walk_step comparator target fuel shared [] prev key val rest decoded nonempty hp hk same long =
    absurd (omega arith)
walk_step comparator target fuel shared (b ∷ p) prev key val rest decoded nonempty hp hk same long =
    let from = drop shared key ++ (val ++ rest) in
    let n = length key - shared in
    let prefix : ltb (length prev) shared ≡ false = le→ltb (length prev) shared hp in
    let cut = sym (length-drop shared key) in
    let whole : take shared prev ++ take n from ≡ key =
      ap (λ (bs : Bytes). bs ++ take n from) same
      ∙ ap (λ (bs : Bytes). take shared key ++ bs)
          (take-append n (drop shared key) (val ++ rest) cut)
      ∙ take-append-drop shared key in
    let behind : drop n from ≡ val ++ rest = drop-append n (drop shared key) (val ++ rest) cut in
    let value : take (length val) (val ++ rest) ≡ val = take-append (length val) val rest refl in
    let more : drop (length val) (val ++ rest) ≡ rest = drop-append (length val) val rest refl in
    let enough : ltb (length key) comparator.min_key_length ≡ false = le→ltb _ _ long in
    rw (find_walk, decoded, prefix, whole, behind, value, more, enough) refl

pub walk-first_from :
    (comparator : Comparator) (target : Bytes) (fuel : ℕ) (p prev : Bytes) (es : Entries)
    → Holds prev p es
    → All (IsReadable comparator) es
    → length p < fuel
    → find_walk comparator target fuel p prev ≡ first_from comparator target es
unfolding find_walk first_from
walk-first_from comparator target zero p prev es holds readable enough = absurd (omega arith)
walk-first_from comparator target (suc fuel) p prev [] holds readable enough = rw holds refl
walk-first_from comparator target (suc fuel) p prev ((key, val) ∷ es)
      (shared, rest, hp, hk, same, bytes, more) ((fits, long), others) enough =
    let size : length p ≡ length (entry_bytes shared key val) + length rest =
      ap (λ (bs : Bytes). length bs) bytes ∙ length-append (entry_bytes shared key val) rest in
    let decoded : decode_entry p ≡ some (entry_of shared key val rest) =
      ap decode_entry bytes
      ∙ decode-entry_bytes shared key val rest (omega (arith, fits.0)) fits.0 fits.1 in
    walk_step comparator target fuel shared p prev key val rest decoded
      (omega (arith, size, length-entry_bytes shared key val)) hp hk same long
    ∙ ap (λ (a : Answer). if below comparator key target then a else found key val)
        (walk-first_from comparator target fuel rest key es more others
          (omega (arith, size, length-entry_bytes shared key val)))
