-- ===== src/VersionEdit/Decoding.antt =====
-- version_edit.cpp: `decode_from`.
use Prim.Native.String.{String, ◌++◌ as cat}
use ambar.Prelude.{
  ℕ, zero, suc, ◌+◌, ◌||◌, Option, none, some, [], ◌∷◌, Bytes, length, ltb, leb, if◌then◌else◌,
}
use ambar.Encoding.{get_varint32, get_varint64, get_length_prefixed}
use ambar.Status.{Status, ok, corruption}
use ambar.VersionEdit.{
  VersionEdit, clear, set_comparator_name, set_log_number, set_prev_log_number, set_next_file,
  set_last_sequence, set_compact_pointer, add_file, remove_file, Tag, to_tag, comparator_tag,
  log_number_tag, next_file_number_tag, last_sequence_tag, compact_pointer_tag, deleted_file_tag,
  new_file_tag, prev_log_number_tag, unknown_tag,
}

unfoldable pub get_level : Bytes → Option (ℕ × Bytes)
get_level input = elim (get_varint32 input) [
  | none ↦ none
  | some (value, rest) ↦ if leb 7 value then none else some (value, rest)
]

-- What one round of the loop leaves: the input and the edit, or `failure`.
pub data Round : Type 0 where
  went : Bytes → VersionEdit → Round
  failed : String → Round

abbrev pub decode_number : String → (ℕ → VersionEdit) → Bytes → Round
decode_number failure set input = elim (get_varint64 input) [
  | none ↦ failed failure
  | some (number, rest) ↦ went rest (set number)
]

abbrev pub decode_name : VersionEdit → Bytes → Round
decode_name edit input = elim (get_length_prefixed input) [
  | none ↦ failed "comparator name"
  | some (name, rest) ↦ went rest (set_comparator_name edit name)
]

abbrev pub decode_pointer : VersionEdit → Bytes → Round
decode_pointer edit input = elim (get_level input) [
  | none ↦ failed "compaction pointer"
  | some (level, input₁) ↦ elim (get_length_prefixed input₁) [
    | none ↦ failed "compaction pointer"
    | some (key, rest) ↦
        if ltb (length key) 8
        then failed "compaction pointer: a key too short to be an internal key"
        else went rest (set_compact_pointer edit level key)
  ]
]

abbrev pub decode_deleted : VersionEdit → Bytes → Round
decode_deleted edit input = elim (get_level input) [
  | none ↦ failed "deleted file"
  | some (level, input₁) ↦ elim (get_varint64 input₁) [
    | none ↦ failed "deleted file"
    | some (number, rest) ↦ went rest (remove_file edit level number)
  ]
]

abbrev pub decode_new : VersionEdit → Bytes → Round
decode_new edit input = elim (get_level input) [
  | none ↦ failed "new file"
  | some (level, input₁) ↦ elim (get_varint64 input₁) [
    | none ↦ failed "new file"
    | some (number, input₂) ↦ elim (get_varint64 input₂) [
      | none ↦ failed "new file"
      | some (file_size, input₃) ↦ elim (get_length_prefixed input₃) [
        | none ↦ failed "new file"
        | some (smallest, input₄) ↦ elim (get_length_prefixed input₄) [
          | none ↦ failed "new file"
          | some (largest, rest) ↦
              if ltb (length smallest) 8 || ltb (length largest) 8
              then failed "new file: a key too short to be an internal key"
              else went rest (add_file edit level number file_size smallest largest)
        ]
      ]
    ]
  ]
]

-- The switch over the tag.
unfoldable pub decode_field : Tag → VersionEdit → Bytes → Round
decode_field comparator_tag edit = decode_name edit
decode_field log_number_tag edit = decode_number "log number" (set_log_number edit)
decode_field prev_log_number_tag edit =
    decode_number "previous log number" (set_prev_log_number edit)
decode_field next_file_number_tag edit = decode_number "next file number" (set_next_file edit)
decode_field last_sequence_tag edit = decode_number "last sequence" (set_last_sequence edit)
decode_field compact_pointer_tag edit = decode_pointer edit
decode_field deleted_file_tag edit = decode_deleted edit
decode_field new_file_tag edit = decode_new edit
decode_field (unknown_tag n) edit = λ input. failed "unknown tag"

abbrev pub refused : String → Status
refused failure = corruption (cat "version edit: " failure)

-- The loop of `decode_from` and what follows it; `none` is that the fuel ran out.
unfoldable pub decode_loop : ℕ → Bytes → VersionEdit → Option (Status × VersionEdit)
decode_loop zero input edit = none
decode_loop (suc fuel) input edit = elim (get_varint32 input) [
  | none ↦
      some (elim input [ [] ↦ ok | _ ∷ _ ↦ refused "trailing bytes after the last field" ], edit)
  | some (tag, rest) ↦ elim (decode_field (to_tag tag) edit rest) [
    | failed failure ↦ some (refused failure, edit)
    | went rest' edit' ↦ decode_loop fuel rest' edit'
  ]
]

-- `VersionEdit::decode_from`, whose rounds take a byte each.
unfoldable pub decode_from : Bytes → Option (Status × VersionEdit)
decode_from src = decode_loop (length src + 1) src clear
