-- ===== src/VersionEdit/Encodes.antt =====
-- version_edit.cpp: the bytes that `encode_to` writes of an edit.
use ambar.Prelude.{
  ℕ, ◌^◌, ◌<◌, Bool, true, false, List, [], ◌∷◌, ◌++◌, append_assoc, append-nil, Bytes, length, All,
  if◌then◌else◌, arith, ◌≡◌, refl, sym,
}
use ambar.Encoding.Varint.{groups, put_varint32-groups, put_varint64-groups}
use ambar.Encoding.Prefixed.{prefixed, put_length_prefixed-prefixed}
use ambar.VersionEdit.{
  VersionEdit, FileMetaData, Tag, comparator_tag, log_number_tag, prev_log_number_tag,
  next_file_number_tag, last_sequence_tag, compact_pointer_tag, deleted_file_tag, new_file_tag,
  tag_number, encode_name, encode_number, encode_pointers, encode_deleted, encode_new, encode_to,
}
use ambar.VersionEdit.Stored.{IsPointer, IsDeleted, IsNew, IsStored}

abbrev pub tagged : Tag → Bytes
tagged tag = groups 4 (tag_number tag)

unfoldable pub name_bytes : Bool → Bytes → Bytes
name_bytes has name = if has then tagged comparator_tag ++ prefixed name else []

unfoldable pub number_bytes : Tag → Bool → ℕ → Bytes
number_bytes tag has n = if has then tagged tag ++ groups 9 n else []

unfoldable pub pointer_bytes : List (ℕ × Bytes) → Bytes
pointer_bytes [] = []
pointer_bytes ((level, key) ∷ pointers) =
    tagged compact_pointer_tag ++ (groups 4 level ++ (prefixed key ++ pointer_bytes pointers))

unfoldable pub deleted_bytes : List (ℕ × ℕ) → Bytes
deleted_bytes [] = []
deleted_bytes ((level, n) ∷ files) =
    tagged deleted_file_tag ++ (groups 4 level ++ (groups 9 n ++ deleted_bytes files))

unfoldable pub new_bytes : List (ℕ × FileMetaData) → Bytes
new_bytes [] = []
new_bytes ((level, meta) ∷ files) =
    tagged new_file_tag
    ++ (groups 4 level
        ++ (groups 9 meta.number
            ++ (groups 9 meta.file_size
                ++ (prefixed meta.smallest ++ (prefixed meta.largest ++ new_bytes files)))))

unfoldable pub edit_bytes : VersionEdit → Bytes
edit_bytes e =
    name_bytes e.has_comparator e.comparator
    ++ (number_bytes log_number_tag e.has_log_number e.log_number
        ++ (number_bytes prev_log_number_tag e.has_prev_log_number e.prev_log_number
            ++ (number_bytes next_file_number_tag e.has_next_file_number e.next_file_number
                ++ (number_bytes last_sequence_tag e.has_last_sequence e.last_sequence
                    ++ (pointer_bytes e.compact_pointers
                        ++ (deleted_bytes e.deleted_files ++ new_bytes e.new_files))))))

encode_name-bytes :
    (has : Bool) (name dst : Bytes)
    → length name < 2 ^ 32
    → encode_name has name dst ≡ dst ++ name_bytes has name
unfolding encode_name name_bytes
encode_name-bytes true name dst h =
    rw
      (
        put_varint32-groups dst 1 (omega arith),
        put_length_prefixed-prefixed (dst ++ tagged comparator_tag) name h,
      )
      (append_assoc dst (tagged comparator_tag) (prefixed name))
encode_name-bytes false name dst h = sym (append-nil dst)

encode_number-bytes :
    (tag : Tag) (has : Bool) (n : ℕ) (dst : Bytes)
    → tag_number tag < 2 ^ 32
    → n < 2 ^ 64
    → encode_number tag has n dst ≡ dst ++ number_bytes tag has n
unfolding encode_number number_bytes
encode_number-bytes tag true n dst small h =
    rw (put_varint32-groups dst (tag_number tag) small, put_varint64-groups (dst ++ tagged tag) n h)
      (append_assoc dst (tagged tag) (groups 9 n))
encode_number-bytes tag false n dst small h = sym (append-nil dst)

encode_pointers-bytes :
    (pointers : List (ℕ × Bytes)) (dst : Bytes)
    → All IsPointer pointers
    → encode_pointers pointers dst ≡ dst ++ pointer_bytes pointers
unfolding encode_pointers pointer_bytes
encode_pointers-bytes [] dst h = sym (append-nil dst)
encode_pointers-bytes ((level, key) ∷ pointers) dst ((is_level, (long, fits)), h) =
    let at : Bytes = dst ++ tagged compact_pointer_tag in
    rw
      (
        put_varint32-groups dst 5 (omega arith),
        put_varint32-groups at level (omega arith),
        put_length_prefixed-prefixed (at ++ groups 4 level) key fits,
        encode_pointers-bytes pointers ((at ++ groups 4 level) ++ prefixed key) h,
      )
      (simp append_assoc refl)

encode_deleted-bytes :
    (files : List (ℕ × ℕ)) (dst : Bytes)
    → All IsDeleted files
    → encode_deleted files dst ≡ dst ++ deleted_bytes files
unfolding encode_deleted deleted_bytes
encode_deleted-bytes [] dst h = sym (append-nil dst)
encode_deleted-bytes ((level, n) ∷ files) dst ((is_level, fits), h) =
    let at : Bytes = dst ++ tagged deleted_file_tag in
    rw
      (
        put_varint32-groups dst 6 (omega arith),
        put_varint32-groups at level (omega arith),
        put_varint64-groups (at ++ groups 4 level) n fits,
        encode_deleted-bytes files ((at ++ groups 4 level) ++ groups 9 n) h,
      )
      (simp append_assoc refl)

encode_new-bytes :
    (files : List (ℕ × FileMetaData)) (dst : Bytes)
    → All IsNew files
    → encode_new files dst ≡ dst ++ new_bytes files
unfolding encode_new new_bytes
encode_new-bytes [] dst h = sym (append-nil dst)
encode_new-bytes ((level, meta) ∷ files) dst ((is_level, m), h) =
    let at : Bytes = dst ++ tagged new_file_tag in
    let leveled : Bytes = at ++ groups 4 level in
    let numbered : Bytes = leveled ++ groups 9 meta.number in
    let sized : Bytes = numbered ++ groups 9 meta.file_size in
    rw
      (
        put_varint32-groups dst 7 (omega arith),
        put_varint32-groups at level (omega arith),
        put_varint64-groups leveled meta.number m.number_fits,
        put_varint64-groups numbered meta.file_size m.size_fits,
        put_length_prefixed-prefixed sized meta.smallest m.smallest_key.1,
        put_length_prefixed-prefixed (sized ++ prefixed meta.smallest) meta.largest m.largest_key.1,
        encode_new-bytes files ((sized ++ prefixed meta.smallest) ++ prefixed meta.largest) h,
      )
      (simp append_assoc refl)

pub encode_to-bytes : (e : VersionEdit) → IsStored e → encode_to e [] ≡ edit_bytes e
unfolding encode_to edit_bytes
encode_to-bytes e (name, log, prev, next, seq, pointers, deleted, files) =
    rw
      (
        encode_name-bytes e.has_comparator e.comparator [] name.0,
        encode_number-bytes log_number_tag e.has_log_number e.log_number _ (omega arith) log.0,
        encode_number-bytes prev_log_number_tag e.has_prev_log_number e.prev_log_number _
            (omega arith) prev.0,
        encode_number-bytes next_file_number_tag e.has_next_file_number e.next_file_number _
            (omega arith) next.0,
        encode_number-bytes last_sequence_tag e.has_last_sequence e.last_sequence _ (omega arith)
            seq.0,
        encode_pointers-bytes e.compact_pointers _ pointers,
        encode_deleted-bytes e.deleted_files _ deleted.0,
        encode_new-bytes e.new_files _ files,
      )
      (simp append_assoc refl)
