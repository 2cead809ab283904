-- ===== src/VersionEdit/Stored.antt =====
-- version_edit.cpp: the edits that a record can hold.
use ambar.Prelude.{ℕ, ◌^◌, ◌≤◌, ◌<◌, Bool, true, List, [], ◌∷◌, Bytes, length, All, ◌≡◌, ◌⊎◌}
use ambar.VersionEdit.{VersionEdit, FileMetaData, pair_before}

-- A field that is set, or has its first value.
abbrev pub IsSetOr : {A : Type 0} → Bool → A → A → Type 0
IsSetOr has x first = (has ≡ true) ⊎ (x ≡ first)

abbrev pub IsLevel : ℕ → Type 0
IsLevel level = level < 7

-- Long enough for the eight bytes behind an internal key.
abbrev pub IsKey : Bytes → Type 0
IsKey key = (8 ≤ length key) × (length key < 2 ^ 32)

abbrev pub IsPointer : ℕ × Bytes → Type 0
IsPointer p = IsLevel p.0 × IsKey p.1

abbrev pub IsDeleted : ℕ × ℕ → Type 0
IsDeleted f = IsLevel f.0 × (f.1 < 2 ^ 64)

pub record IsMeta (meta : FileMetaData) : Type 0 where
  pub number_fits : meta.number < 2 ^ 64
  pub size_fits : meta.file_size < 2 ^ 64
  pub smallest_key : IsKey meta.smallest
  pub largest_key : IsKey meta.largest
  pub seeks_first : meta.allowed_seeks ≡ 2 ^ 30
  pub refs_first : meta.refs ≡ 0

abbrev pub IsNew : ℕ × FileMetaData → Type 0
IsNew f = IsLevel f.0 × IsMeta f.1

-- All later pairs are behind it.
abbrev pub IsAhead : List (ℕ × ℕ) → ℕ × ℕ → Type 0
IsAhead bs a = All (λ b. pair_before a b ≡ true) bs

pub data IsOrdered : List (ℕ × ℕ) → Type 0 where
  none_left : IsOrdered []
  first_of : (a : ℕ × ℕ) (bs : List (ℕ × ℕ)) → IsAhead bs a → IsOrdered bs → IsOrdered (a ∷ bs)

abbrev pub IsNumber : Bool → ℕ → Type 0
IsNumber has n = (n < 2 ^ 64) × IsSetOr has n 0

abbrev pub IsName : Bool → Bytes → Type 0
IsName has name = (length name < 2 ^ 32) × IsSetOr has name []

abbrev pub AreDeleted : List (ℕ × ℕ) → Type 0
AreDeleted files = All IsDeleted files × IsOrdered files

-- The edit is one that a record can hold.
abbrev pub IsStored : VersionEdit → Type 0
IsStored e =
    IsName e.has_comparator e.comparator
    × IsNumber e.has_log_number e.log_number
    × IsNumber e.has_prev_log_number e.prev_log_number
    × IsNumber e.has_next_file_number e.next_file_number
    × IsNumber e.has_last_sequence e.last_sequence
    × All IsPointer e.compact_pointers
    × AreDeleted e.deleted_files
    × All IsNew e.new_files
