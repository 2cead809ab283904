-- ===== src/Tests/Edit.antt =====
-- version_edit.cpp on an edit with all kinds of fields.
use ambar.Prelude.{true, [], ◌∷◌, some, Bytes, replicate, arith, ◌≡◌, refl, inl, inr}
use ambar.Status.{Status, ok}
use ambar.Encoding.{get_varint32, get_varint64}
use ambar.VersionEdit.{VersionEdit, clear, file_meta, set_log_number, encode_to, to_tag}
use ambar.VersionEdit.Decoding.{decode_loop, decode_field, decode_from, refused}
use ambar.VersionEdit.Stored.{IsStored, IsKey, first_of, none_left}
use ambar.VersionEdit.Decodes.{decode_from-IsStored}
use ambar.VersionEdit.Recovers.{decode-encode_edit, encode-decode_edit}

abbrev some_key : Bytes
some_key = replicate 9 7

abbrev some_edit : VersionEdit
some_edit = record clear {
  log_number = 300;
  has_log_number = true;
  compact_pointers = (1, some_key) ∷ [];
  deleted_files = (0, 4) ∷ ((2, 3) ∷ []);
  new_files = (1, file_meta 12 4096 some_key some_key) ∷ [];
}

some_edit-IsStored : IsStored some_edit
some_edit-IsStored =
    let key : IsKey some_key = (omega arith, omega arith) in
    (
      (omega arith, inr refl),
      (omega arith, inl refl),
      (omega arith, inr refl),
      (omega arith, inr refl),
      (omega arith, inr refl),
      ((omega arith, key), tt),
      (
        ((omega arith, omega arith), ((omega arith, omega arith), tt)),
        first_of (0, 4) ((2, 3) ∷ []) (refl, tt) (first_of (2, 3) [] tt none_left),
      ),
      (
        (
          omega arith,
          record {
            number_fits = omega arith;
            size_fits = omega arith;
            smallest_key = key;
            largest_key = key;
            seeks_first = refl;
            refs_first = refl;
          },
        ),
        tt,
      ),
    )

decode-encode_edit_example : decode_from (encode_to some_edit []) ≡ some (ok, some_edit)
decode-encode_edit_example = decode-encode_edit some_edit some_edit-IsStored

-- A log number, and then a tag that never shipped.
abbrev damaged : Bytes
damaged = 2 ∷ 5 ∷ 8 ∷ []

damaged_decodes : decode_from damaged ≡ some (refused "unknown tag", set_log_number clear 5)
unfolding decode_from decode_loop decode_field to_tag get_varint32 get_varint64
damaged_decodes = refl

decode_from-IsStored_example :
    (status : Status) × (e : VersionEdit) × (decode_from damaged ≡ some (status, e)) × IsStored e
decode_from-IsStored_example = decode_from-IsStored damaged

encode-decode_edit_example :
    decode_from (encode_to (set_log_number clear 5) []) ≡ some (ok, set_log_number clear 5)
encode-decode_edit_example =
    encode-decode_edit damaged (refused "unknown tag") (set_log_number clear 5) damaged_decodes
