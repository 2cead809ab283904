-- ===== src/TwoLevel.antt =====
-- two_level_iterator.cpp: an iterator over the blocks that another iterator's values are handles of.
pub mod Walks
use ambar.Prelude.{
  ℕ, zero, suc, Bool, true, false, not, ◌&&◌, Option, none, some, [], Bytes, if◌then◌else◌,
}
use ambar.Status.{Status, ok, is_ok}
use ambar.FileName.{same_bytes}
use ambar.Merger.{Iterator}

-- The fields that change: the index's state, the open block's, its handle, and the first error.
pub record TwoLevelIterator (I D : Type 0) : Type 0 where
  pub index_iter : I
  pub data_iter : Option D
  pub data_block_handle : Bytes
  pub saved : Status

-- `function` opens the block of a handle; an error is the status of what it gives.
module _ {I D : Type 0} (index : Iterator I) (data_of : Iterator D) (function : Bytes → D) where
  -- `TwoLevelIterator::TwoLevelIterator`
  abbrev pub new_two_level : I → TwoLevelIterator I D
  new_two_level i = record { index_iter = i; data_iter = none; data_block_handle = []; saved = ok }

  abbrev pub two_level_valid : TwoLevelIterator I D → Bool
  two_level_valid t = elim t.data_iter [ none ↦ false | some d ↦ data_of.valid d ]

  abbrev pub save_error : TwoLevelIterator I D → TwoLevelIterator I D
  save_error t = elim t.data_iter [
    | none ↦ t
    | some d ↦
        if is_ok t.saved && not (is_ok (data_of.status d))
        then record t { saved = data_of.status d }
        else t
  ]

  abbrev pub set_data_iterator : TwoLevelIterator I D → Option D → TwoLevelIterator I D
  set_data_iterator t d = record (save_error t) { data_iter = d }

  abbrev pub is_open : TwoLevelIterator I D → Bytes → Bool
  is_open t handle = elim t.data_iter [
    | none ↦ false
    | some d ↦ same_bytes handle t.data_block_handle
  ]

  unfoldable pub init_data_block : TwoLevelIterator I D → TwoLevelIterator I D
  init_data_block t =
      let handle = index.value t.index_iter in
      if not (index.valid t.index_iter)
      then set_data_iterator t none
      else if is_open t handle
      then t
      else record (set_data_iterator t (some (function handle))) { data_block_handle = handle }

  -- `if (data_iter_ != nullptr) ...`
  abbrev pub change_data : (D → D) → TwoLevelIterator I D → TwoLevelIterator I D
  change_data f t = elim t.data_iter [ none ↦ t | some d ↦ record t { data_iter = some (f d) } ]

  -- `none` is that the rounds ran out.
  unfoldable pub skip_empty_blocks_forward :
      ℕ → TwoLevelIterator I D → Option (TwoLevelIterator I D)
  skip_empty_blocks_forward zero t = none
  skip_empty_blocks_forward (suc rounds) t =
      let t₁ = save_error t in
      let moved = record t₁ { index_iter = index.next t₁.index_iter } in
      let more =
        skip_empty_blocks_forward rounds
          (change_data data_of.seek_to_first (init_data_block moved)) in
      if two_level_valid t
      then some t
      else if not (index.valid t₁.index_iter)
      then some (set_data_iterator t₁ none)
      else more

  unfoldable pub skip_empty_blocks_backward :
      ℕ → TwoLevelIterator I D → Option (TwoLevelIterator I D)
  skip_empty_blocks_backward zero t = none
  skip_empty_blocks_backward (suc rounds) t =
      let t₁ = save_error t in
      let moved = record t₁ { index_iter = index.prev t₁.index_iter } in
      let more =
        skip_empty_blocks_backward rounds
          (change_data data_of.seek_to_last (init_data_block moved)) in
      if two_level_valid t
      then some t
      else if not (index.valid t₁.index_iter)
      then some (set_data_iterator t₁ none)
      else more

  unfoldable pub two_level_seek : ℕ → Bytes → TwoLevelIterator I D → Option (TwoLevelIterator I D)
  two_level_seek rounds target t = skip_empty_blocks_forward rounds (
      change_data (data_of.seek target)
        (init_data_block (record t { index_iter = index.seek target t.index_iter })))

  unfoldable pub two_level_to_first : ℕ → TwoLevelIterator I D → Option (TwoLevelIterator I D)
  two_level_to_first rounds t = skip_empty_blocks_forward rounds (
      change_data data_of.seek_to_first
        (init_data_block (record t { index_iter = index.seek_to_first t.index_iter })))

  unfoldable pub two_level_to_last : ℕ → TwoLevelIterator I D → Option (TwoLevelIterator I D)
  two_level_to_last rounds t = skip_empty_blocks_backward rounds (
      change_data data_of.seek_to_last
        (init_data_block (record t { index_iter = index.seek_to_last t.index_iter })))

  -- `next` and `prev`, which the source calls where the iterator is valid.
  unfoldable pub two_level_next : ℕ → TwoLevelIterator I D → Option (TwoLevelIterator I D)
  two_level_next rounds t = skip_empty_blocks_forward rounds (change_data data_of.next t)

  unfoldable pub two_level_prev : ℕ → TwoLevelIterator I D → Option (TwoLevelIterator I D)
  two_level_prev rounds t = skip_empty_blocks_backward rounds (change_data data_of.prev t)

  unfoldable pub two_level_status : TwoLevelIterator I D → Status
  two_level_status t =
      if not (is_ok (index.status t.index_iter))
      then index.status t.index_iter
      else elim t.data_iter [
        | none ↦ t.saved
        | some d ↦ if not (is_ok (data_of.status d)) then data_of.status d else t.saved
      ]
