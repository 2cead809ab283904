-- ===== src/TwoLevel/Walks.antt =====
-- two_level_iterator.cpp: going forward, the iterator meets the entries of all blocks, in order.
use ambar.Prelude.{
  ℕ, zero, suc, ◌+◌, ◌≤◌, ◌<◌, true, false, not, ◌&&◌, Option, none, some, ◌>>=◌, List, [], ◌∷◌,
  ◌++◌, Bytes, length, if◌then◌else◌, Bool-cases, inl, inr, arith, ◌≡◌, refl, ap, ◌∙◌,
}
use ambar.Status.{Status, ok, is_ok}
use ambar.FileName.{same_bytes}
use ambar.Block.Find.Walk.{Entries}
use ambar.Merger.{Iterator}
use ambar.Merger.Interleaves.{Shows}
use ambar.TwoLevel.{
  TwoLevelIterator, new_two_level, save_error, init_data_block, change_data,
  skip_empty_blocks_forward, two_level_to_first, two_level_next,
}

abbrev pub flat : List Entries → Entries
flat [] = []
flat (es ∷ ess) = es ++ flat ess

-- No handle is that of the block before.
abbrev IsOther : Bytes → Entries → Type 0
IsOther handle [] = Unit
IsOther handle ((key, handle') ∷ is) = same_bytes handle' handle ≡ false

abbrev pub AreDistinct : Entries → Type 0
AreDistinct [] = Unit
AreDistinct ((key, handle) ∷ is) = IsOther handle is × AreDistinct is

module _ {I D : Type 0} (index : Iterator I) (data_of : Iterator D) (function : Bytes → D) where
  -- The blocks of an index's entries, and what they show from their starts.
  pub data Opens : Entries → List Entries → Type 0 where
    no_block : Opens [] []
    block :
        (key handle : Bytes) (is : Entries) (es : Entries) (ess : List Entries)
        → Shows data_of (data_of.seek_to_first (function handle)) es
        → Opens is ess
        → Opens ((key, handle) ∷ is) (es ∷ ess)

  abbrev in_block : I → D → Bytes → Status → TwoLevelIterator I D
  in_block i d handle saved = record {
    index_iter = i;
    data_iter = some d;
    data_block_handle = handle;
    saved = saved;
  }

  abbrev behind_blocks : I → Bytes → Status → TwoLevelIterator I D
  behind_blocks i handle saved = record {
    index_iter = i;
    data_iter = none;
    data_block_handle = handle;
    saved = saved;
  }

  -- Where a move lands that has these entries ahead, with at most `limit` blocks behind the open one.
  data Landed (limit : ℕ) : TwoLevelIterator I D → Entries → Type 0 where
    at_end :
        (i : I) (handle : Bytes) (saved : Status) → Landed limit (behind_blocks i handle saved) []
    at_entry :
        (i : I) (d : D) (handle : Bytes) (saved : Status) (key k v : Bytes) (es is : Entries)
        (ess : List Entries)
        → Shows data_of d ((k, v) ∷ es)
        → Shows index i ((key, handle) ∷ is)
        → Opens is ess
        → AreDistinct ((key, handle) ∷ is)
        → length is ≤ limit
        → Landed limit (in_block i d handle saved) (((k, v) ∷ es) ++ flat ess)

  save_error-in_block :
      (i : I) (d : D) (handle : Bytes) (saved : Status)
      → (saved' : Status) × (save_error index data_of function (in_block i d handle saved)
          ≡ in_block i d handle saved')
  save_error-in_block i d handle saved =
      elim (Bool-cases (is_ok saved && not (is_ok (data_of.status d)))) [
        | inl new ↦ (data_of.status d, rw new refl)
        | inr old ↦ (saved, rw old refl)
      ]

  -- The next block is opened, at its start.
  init-next :
      (i : I) (d : D) (old handle : Bytes) (saved : Status)
      → index.valid i ≡ true
      → index.value i ≡ handle
      → same_bytes handle old ≡ false
      → (saved' : Status) × (change_data index data_of function data_of.seek_to_first
            (init_data_block index data_of function (in_block i d old saved))
          ≡ in_block i (data_of.seek_to_first (function handle)) handle saved')
  unfolding init_data_block
  init-next i d old handle saved valid at other =
      let (saved', e) = save_error-in_block i d old saved in (saved', rw (valid, at, other, e) refl)

  init-end :
      (i : I) (d : D) (old : Bytes) (saved : Status)
      → index.valid i ≡ false
      → (saved' : Status) × (change_data index data_of function data_of.seek_to_first
            (init_data_block index data_of function (in_block i d old saved))
          ≡ behind_blocks i old saved')
  unfolding init_data_block
  init-end i d old saved gone =
      let (saved', e) = save_error-in_block i d old saved in (saved', rw (gone, e) refl)

  skip_end :
      (rounds : ℕ) (i : I) (handle : Bytes) (saved : Status)
      → index.valid i ≡ false
      → skip_empty_blocks_forward index data_of function (suc rounds) (behind_blocks i handle saved)
        ≡ some (behind_blocks i handle saved)
  unfolding skip_empty_blocks_forward
  skip_end rounds i handle saved gone = rw gone refl

  skip_here :
      (rounds : ℕ) (i : I) (d : D) (handle : Bytes) (saved : Status)
      → data_of.valid d ≡ true
      → skip_empty_blocks_forward index data_of function (suc rounds) (in_block i d handle saved)
        ≡ some (in_block i d handle saved)
  unfolding skip_empty_blocks_forward
  skip_here rounds i d handle saved valid = rw valid refl

  skip_on :
      (rounds : ℕ) (i : I) (d : D) (handle : Bytes) (saved : Status)
      → data_of.valid d ≡ false
      → index.valid i ≡ true
      → (saved' : Status) × (skip_empty_blocks_forward index data_of function
            (suc rounds)
            (in_block i d handle saved)
          ≡ skip_empty_blocks_forward index data_of function rounds (
              change_data index data_of function data_of.seek_to_first
                (init_data_block index data_of function (in_block (index.next i) d handle saved'))))
  unfolding skip_empty_blocks_forward
  skip_on rounds i d handle saved gone more =
      let (saved', e) = save_error-in_block i d handle saved in (saved', rw (gone, e, more) refl)

  -- From a place in a block, with or without entries left, a skip lands at the entries ahead.
  skip-Landed :
      (rounds limit : ℕ) (i : I) (d : D) (handle : Bytes) (saved : Status) (key : Bytes)
      (es is : Entries) (ess : List Entries)
      → Shows data_of d es
      → Shows index i ((key, handle) ∷ is)
      → Opens is ess
      → AreDistinct ((key, handle) ∷ is)
      → length is ≤ limit
      → suc (length is) < rounds
      → (t : TwoLevelIterator I D) × (skip_empty_blocks_forward index data_of function rounds
            (in_block i d handle saved)
          ≡ some t)
        × Landed limit t (es ++ flat ess)
  skip-Landed zero limit i d handle saved key es is ess shows at opens distinct few enough =
      absurd (omega arith)
  skip-Landed (suc rounds) limit i d handle saved key ((k, v) ∷ es) is ess
        (valid, is_key, is_val, shows) at opens distinct few enough =
      (
        in_block i d handle saved,
        skip_here rounds i d handle saved valid,
        at_entry i d handle saved key k v es is ess (valid, is_key, is_val, shows) at opens distinct
            few,
      )
  skip-Landed (suc zero) limit i d handle saved key [] is ess gone at opens distinct few enough =
      absurd (omega arith)
  skip-Landed (suc (suc rounds)) limit i d handle saved key [] [] ess gone
        (here, is_key, is_val, last) no_block distinct few enough =
      let (saved', e) = skip_on (suc rounds) i d handle saved gone here in
      let (saved'', e') = init-end (index.next i) d handle saved' last in
      (
        behind_blocks (index.next i) handle saved'',
        e
            ∙ ap (skip_empty_blocks_forward index data_of function (suc rounds)) e'
            ∙ skip_end rounds (index.next i) handle saved'' last,
        at_end (index.next i) handle saved'',
      )
  skip-Landed (suc (suc rounds)) limit i d handle saved key [] ((key', handle') ∷ is) ess gone
        (here, is_key, is_val, (here', is_key', is_val', more))
        (block key'' handle'' is'' es' ess' opened opens) (other, distinct) few enough =
      let (saved', e) = skip_on (suc rounds) i d handle saved gone here in
      let (saved'', e') = init-next (index.next i) d handle handle' saved' here' is_val' other in
      let (t, skipped, landed) =
        skip-Landed (suc rounds) limit (index.next i) (data_of.seek_to_first (function handle'))
          handle' saved'' key' es' is ess' opened (here', is_key', is_val', more) opens distinct
          (omega arith) (omega arith) in
      (
        t,
        e ∙ ap (skip_empty_blocks_forward index data_of function (suc rounds)) e' ∙ skipped,
        landed,
      )

  -- What a client's loop meets: while the iterator is valid, its key and value, and `next`.
  unfoldable pub two_level_walk : ℕ → ℕ → TwoLevelIterator I D → Option Entries
  two_level_walk rounds zero t = none
  two_level_walk rounds (suc fuel) t =
      let more = two_level_next index data_of function rounds t >>= two_level_walk rounds fuel in
      elim t.data_iter [
        | none ↦ some []
        | some d ↦
            if data_of.valid d
            then elim more [ none ↦ none | some es ↦ some ((data_of.key d, data_of.value d) ∷ es) ]
            else some []
      ]

  walk_entry :
      (rounds fuel : ℕ) (i : I) (d : D) (handle : Bytes) (saved : Status) (k v : Bytes)
      (t : TwoLevelIterator I D) (es : Entries)
      → data_of.valid d ≡ true
      → data_of.key d ≡ k
      → data_of.value d ≡ v
      → skip_empty_blocks_forward index data_of function rounds
          (in_block i (data_of.next d) handle saved)
        ≡ some t
      → two_level_walk rounds fuel t ≡ some es
      → two_level_walk rounds (suc fuel) (in_block i d handle saved) ≡ some ((k, v) ∷ es)
  unfolding two_level_walk two_level_next
  walk_entry rounds fuel i d handle saved k v t es valid is_key is_val skipped walked =
      rw (valid, skipped, ◌>>=◌, walked, is_key, is_val) refl

  walk-Landed :
      (rounds limit fuel : ℕ) (t : TwoLevelIterator I D) (es : Entries)
      → suc limit < rounds
      → length es < fuel
      → Landed limit t es
      → two_level_walk rounds fuel t ≡ some es
  walk-Landed rounds limit zero t es few enough landed = absurd (omega arith)
  walk-Landed rounds limit (suc fuel) t es few enough (at_end i handle saved) =
      unfold two_level_walk in refl
  walk-Landed rounds limit (suc fuel) t all few enough
        (at_entry i d handle saved key k v es is ess
          (valid, is_key, is_val, shows)
          at
          opens
          distinct
          within) =
      let (t', skipped, landed) =
        skip-Landed rounds limit i (data_of.next d) handle saved key es is ess shows at opens
          distinct within (omega arith) in
      walk_entry rounds fuel i d handle saved k v t' (es ++ flat ess) valid is_key is_val skipped
        (walk-Landed rounds limit fuel t' (es ++ flat ess) few (omega arith) landed)

  first_Landed :
      (rounds : ℕ) (i : I) (is : Entries) (ess : List Entries)
      → Shows index (index.seek_to_first i) is
      → Opens is ess
      → AreDistinct is
      → suc (length is) < rounds
      → (t : TwoLevelIterator I D) × (two_level_to_first index data_of function rounds
            (new_two_level index data_of function i)
          ≡ some t)
        × Landed (length is) t (flat ess)
  unfolding two_level_to_first init_data_block
  first_Landed zero i is ess at opens distinct enough = absurd (omega arith)
  first_Landed (suc rounds) i [] ess gone no_block distinct enough =
      let i' = index.seek_to_first i in
      (behind_blocks i' [] ok, rw gone (skip_end rounds i' [] ok gone), at_end i' [] ok)
  first_Landed (suc rounds) i ((key, handle) ∷ is) ess (here, is_key, is_val, more)
        (block key' handle' is' es ess' opened opens) distinct enough =
      let (t, skipped, landed) =
        skip-Landed (suc rounds) (suc (length is)) (index.seek_to_first i)
          (data_of.seek_to_first (function handle)) handle ok key es is ess' opened
          (here, is_key, is_val, more) opens distinct (omega arith) (omega arith) in
      (t, rw (here, is_val) skipped, landed)

-- From seek_to_first on, a new two-level iterator meets by next the entries of all blocks that its
-- index lists, block by block, empty blocks passed over; then it is no longer valid. Each move ends
-- within two rounds more than the index has entries. The conditions are that the index shows a list
-- of handles, of which no two neighbours are the same, and that each block, from its own
-- seek_to_first on, shows its entries.
pub two_level_walk-two_level_to_first :
    {I D : Type 0} (index : Iterator I) (data_of : Iterator D) (function : Bytes → D) (i : I)
    (is : Entries) (ess : List Entries)
    → Shows index (index.seek_to_first i) is
    → Opens index data_of function is ess
    → AreDistinct is
    → (t : TwoLevelIterator I D) × (two_level_to_first index data_of function
          (length is + 2)
          (new_two_level index data_of function i)
        ≡ some t)
      × (two_level_walk index data_of function (length is + 2) (length (flat ess) + 1) t
          ≡ some (flat ess))
two_level_walk-two_level_to_first index data_of function i is ess at opens distinct =
    let (t, first, landed) =
      first_Landed index data_of function (length is + 2) i is ess at opens distinct
        (omega arith) in
    (
      t,
      first,
      walk-Landed index data_of function (length is + 2) (length is) (length (flat ess) + 1) t
          (flat ess) (omega arith) (omega arith) landed,
    )
