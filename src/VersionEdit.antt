-- ===== src/VersionEdit.antt =====
-- version_edit.hpp and version_edit.cpp: a change of the set of files, and its record in the manifest.
-- A level is an `int` from 0 on.
pub mod Runs
pub mod Rounds
pub mod Decoding
pub mod Stored
pub mod Decodes
pub mod Encodes
pub mod Recovers
use Prim.Native.String.{String, ◌++◌ as cat}
use ambar.Prelude.{
  ℕ, zero, suc, ◌+◌, ◌*◌, ◌^◌, Bool, true, false, ◌&&◌, ◌||◌, Option, none, some, List, [], ◌∷◌,
  ◌++◌, Bytes, length, ltb, leb, ◌==◌, if◌then◌else◌,
}
use ambar.Encoding.{
  put_varint32, put_varint64, put_length_prefixed, get_varint32, get_varint64, get_length_prefixed,
}
use ambar.Status.{Status, ok, corruption}

-- `FileMetaData`
pub record FileMetaData : Type 0 where
  pub number : ℕ
  pub file_size : ℕ
  pub smallest : Bytes
  pub largest : Bytes
  pub allowed_seeks : ℕ
  pub refs : ℕ

abbrev pub new_meta : FileMetaData
new_meta = record {
  number = 0;
  file_size = 0;
  smallest = [];
  largest = [];
  allowed_seeks = 2 ^ 30;
  refs = 0;
}

-- `deleted_files` is a set of pairs: a list in their order, each of them once.
pub record VersionEdit : Type 0 where
  pub comparator : Bytes
  pub log_number : ℕ
  pub prev_log_number : ℕ
  pub next_file_number : ℕ
  pub last_sequence : ℕ
  pub has_comparator : Bool
  pub has_log_number : Bool
  pub has_prev_log_number : Bool
  pub has_next_file_number : Bool
  pub has_last_sequence : Bool
  pub compact_pointers : List (ℕ × Bytes)
  pub deleted_files : List (ℕ × ℕ)
  pub new_files : List (ℕ × FileMetaData)

-- `VersionEdit()`, which is also what `clear` assigns.
abbrev pub clear : VersionEdit
clear = record {
  comparator = [];
  log_number = 0;
  prev_log_number = 0;
  next_file_number = 0;
  last_sequence = 0;
  has_comparator = false;
  has_log_number = false;
  has_prev_log_number = false;
  has_next_file_number = false;
  has_last_sequence = false;
  compact_pointers = [];
  deleted_files = [];
  new_files = [];
}

abbrev pub set_comparator_name : VersionEdit → Bytes → VersionEdit
set_comparator_name edit name = record edit { comparator = name; has_comparator = true }

abbrev pub set_log_number : VersionEdit → ℕ → VersionEdit
set_log_number edit number = record edit { log_number = number; has_log_number = true }

abbrev pub set_prev_log_number : VersionEdit → ℕ → VersionEdit
set_prev_log_number edit number = record edit {
  prev_log_number = number;
  has_prev_log_number = true;
}

abbrev pub set_next_file : VersionEdit → ℕ → VersionEdit
set_next_file edit number = record edit { next_file_number = number; has_next_file_number = true }

abbrev pub set_last_sequence : VersionEdit → ℕ → VersionEdit
set_last_sequence edit sequence = record edit { last_sequence = sequence; has_last_sequence = true }

abbrev pub set_compact_pointer : VersionEdit → ℕ → Bytes → VersionEdit
set_compact_pointer edit level key = record edit {
  compact_pointers = edit.compact_pointers ++ ((level, key) ∷ []);
}

abbrev pub file_meta : ℕ → ℕ → Bytes → Bytes → FileMetaData
file_meta file file_size smallest largest = record new_meta {
  number = file;
  file_size = file_size;
  smallest = smallest;
  largest = largest;
}

abbrev pub add_file : VersionEdit → ℕ → ℕ → ℕ → Bytes → Bytes → VersionEdit
add_file edit level file file_size smallest largest = record edit {
  new_files = edit.new_files ++ ((level, file_meta file file_size smallest largest) ∷ []);
}

-- The order of the pairs.
abbrev pub pair_before : ℕ × ℕ → ℕ × ℕ → Bool
pair_before a b = ltb a.0 b.0 || (a.0 == b.0 && ltb a.1 b.1)

-- `std::set::insert`
unfoldable pub set_insert : ℕ × ℕ → List (ℕ × ℕ) → List (ℕ × ℕ)
set_insert a [] = a ∷ []
set_insert a (b ∷ bs) =
    let more = set_insert a bs in
    if pair_before a b then a ∷ b ∷ bs else if pair_before b a then b ∷ more else b ∷ bs

abbrev pub remove_file : VersionEdit → ℕ → ℕ → VersionEdit
remove_file edit level file = record edit {
  deleted_files = set_insert (level, file) edit.deleted_files;
}

-- `Tag`, and what a number is that is none of them.
pub data Tag : Type 0 where
  comparator_tag : Tag
  log_number_tag : Tag
  next_file_number_tag : Tag
  last_sequence_tag : Tag
  compact_pointer_tag : Tag
  deleted_file_tag : Tag
  new_file_tag : Tag
  prev_log_number_tag : Tag
  unknown_tag : ℕ → Tag

abbrev pub tag_number : Tag → ℕ
tag_number comparator_tag = 1
tag_number log_number_tag = 2
tag_number next_file_number_tag = 3
tag_number last_sequence_tag = 4
tag_number compact_pointer_tag = 5
tag_number deleted_file_tag = 6
tag_number new_file_tag = 7
tag_number prev_log_number_tag = 9
tag_number (unknown_tag n) = n

unfoldable pub to_tag : ℕ → Tag
to_tag n =
    if n == 1
    then comparator_tag
    else if n == 2
    then log_number_tag
    else if n == 3
    then next_file_number_tag
    else if n == 4
    then last_sequence_tag
    else if n == 5
    then compact_pointer_tag
    else if n == 6
    then deleted_file_tag
    else if n == 7
    then new_file_tag
    else if n == 9
    then prev_log_number_tag
    else unknown_tag n

-- The fields of `encode_to`: those that have a flag, and each list's.
unfoldable pub encode_name : Bool → Bytes → Bytes → Bytes
encode_name has name dst =
    if has then put_length_prefixed (put_varint32 dst (tag_number comparator_tag)) name else dst

unfoldable pub encode_number : Tag → Bool → ℕ → Bytes → Bytes
encode_number tag has number dst =
    if has then put_varint64 (put_varint32 dst (tag_number tag)) number else dst

unfoldable pub encode_pointers : List (ℕ × Bytes) → Bytes → Bytes
encode_pointers [] dst = dst
encode_pointers ((level, key) ∷ pointers) dst = encode_pointers pointers (
    put_length_prefixed (put_varint32 (put_varint32 dst (tag_number compact_pointer_tag)) level)
      key)

unfoldable pub encode_deleted : List (ℕ × ℕ) → Bytes → Bytes
encode_deleted [] dst = dst
encode_deleted ((level, number) ∷ files) dst =
    encode_deleted files
      (put_varint64 (put_varint32 (put_varint32 dst (tag_number deleted_file_tag)) level) number)

unfoldable pub encode_new : List (ℕ × FileMetaData) → Bytes → Bytes
encode_new [] dst = dst
encode_new ((level, meta) ∷ files) dst =
    let tagged = put_varint32 (put_varint32 dst (tag_number new_file_tag)) level in
    let numbered = put_varint64 (put_varint64 tagged meta.number) meta.file_size in
    encode_new files (put_length_prefixed (put_length_prefixed numbered meta.smallest) meta.largest)

-- `VersionEdit::encode_to`
unfoldable pub encode_to : VersionEdit → Bytes → Bytes
encode_to e dst =
    let named = encode_name e.has_comparator e.comparator dst in
    let logged = encode_number log_number_tag e.has_log_number e.log_number named in
    let prev_logged =
      encode_number prev_log_number_tag e.has_prev_log_number e.prev_log_number logged in
    let next_filed =
      encode_number next_file_number_tag e.has_next_file_number e.next_file_number prev_logged in
    let sequenced =
      encode_number last_sequence_tag e.has_last_sequence e.last_sequence next_filed in
    encode_new e.new_files
      (encode_deleted e.deleted_files (encode_pointers e.compact_pointers sequenced))
