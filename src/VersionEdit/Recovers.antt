-- ===== src/VersionEdit/Recovers.antt =====
-- version_edit.cpp: what was encoded is decoded again.
use ambar.Prelude.{zero, suc, ◌+◌, some, [], append-nil, Bytes, length, arith, ◌≡◌, refl, subst}
use ambar.Encoding.{get_varint32}
use ambar.Status.{Status, ok}
use ambar.VersionEdit.{
  VersionEdit, clear, log_number_tag, prev_log_number_tag, next_file_number_tag, last_sequence_tag,
  to_tag, encode_to,
}
use ambar.VersionEdit.Decoding.{decode_field, decode_loop, decode_from}
use ambar.VersionEdit.Stored.{IsStored}
use ambar.VersionEdit.Encodes.{name_bytes, edit_bytes, encode_to-bytes}
use ambar.VersionEdit.Decodes.{decode_from-IsStored}
use ambar.VersionEdit.Runs.{Run, name-Run, number-Run, pointers-Run, deleted-Run, new-Run}

done-Run : (e : VersionEdit) → Run [] e (ok, e)
unfolding decode_loop
done-Run e zero enough = absurd (omega arith)
done-Run e (suc fuel) enough = unfold get_varint32 in refl

edit-Run : (e : VersionEdit) → IsStored e → Run (edit_bytes e) clear (ok, e)
unfolding edit_bytes decode_field
edit-Run e (name, log, prev, next, seq, pointers, (deleted, ordered), files) =
    let n = name_bytes e.has_comparator e.comparator in
    let named : VersionEdit = record clear {
      comparator = e.comparator;
      has_comparator = e.has_comparator;
    } in
    let logged : VersionEdit = record named {
      log_number = e.log_number;
      has_log_number = e.has_log_number;
    } in
    let prev_logged : VersionEdit = record logged {
      prev_log_number = e.prev_log_number;
      has_prev_log_number = e.has_prev_log_number;
    } in
    let next_filed : VersionEdit = record prev_logged {
      next_file_number = e.next_file_number;
      has_next_file_number = e.has_next_file_number;
    } in
    let sequenced : VersionEdit = record next_filed {
      last_sequence = e.last_sequence;
      has_last_sequence = e.has_last_sequence;
    } in
    let pointed : VersionEdit = record sequenced { compact_pointers = e.compact_pointers } in
    let removed : VersionEdit = record pointed { deleted_files = e.deleted_files } in
    name-Run (λ has x. record clear { comparator = x; has_comparator = has }) e.has_comparator
      e.comparator _ (ok, e) (λ x. refl) name
      (number-Run log_number_tag "log number"
        (λ has x. record named { log_number = x; has_log_number = has }) e.has_log_number
        e.log_number _ (ok, e) (unfold to_tag in refl) (omega arith) (λ input. refl) log
        (number-Run prev_log_number_tag "previous log number"
          (λ has x. record logged { prev_log_number = x; has_prev_log_number = has })
          e.has_prev_log_number e.prev_log_number _ (ok, e) (unfold to_tag in refl) (omega arith)
          (λ input. refl) prev
          (number-Run next_file_number_tag "next file number"
            (λ has x. record prev_logged { next_file_number = x; has_next_file_number = has })
            e.has_next_file_number e.next_file_number _ (ok, e) (unfold to_tag in refl)
            (omega arith) (λ input. refl) next
            (number-Run last_sequence_tag "last sequence"
              (λ has x. record next_filed { last_sequence = x; has_last_sequence = has })
              e.has_last_sequence e.last_sequence _ (ok, e) (unfold to_tag in refl) (omega arith)
              (λ input. refl) seq
              (pointers-Run e.compact_pointers sequenced _ (ok, e) pointers
                (deleted-Run e.deleted_files pointed _ (ok, e) deleted ordered
                  (rw append-nil at
                    (new-Run e.new_files removed [] (ok, e) files (done-Run e)))))))))

-- A well-formed edit is decoded, without an error, from what encode_to writes of it.
pub decode-encode_edit :
    (e : VersionEdit) → IsStored e → decode_from (encode_to e []) ≡ some (ok, e)
unfolding decode_from
decode-encode_edit e s =
    rw (encode_to-bytes e s) (edit-Run e s (length (edit_bytes e) + 1) (omega arith))

-- Whatever edit decode_from leaves of any bytes, encoding it and decoding that gives this edit
-- again, without an error.
pub encode-decode_edit :
    (src : Bytes) (status : Status) (e : VersionEdit)
    → decode_from src ≡ some (status, e)
    → decode_from (encode_to e []) ≡ some (ok, e)
encode-decode_edit src status e h =
    let (status', e', h', s) = decode_from-IsStored src in
    decode-encode_edit e (subst IsStored (cc) s)
