-- ===== src/Wal/Recovery.antt =====
-- wal.cpp: records added one after another, and the loop that reads them.
pub mod Reads
pub mod RoundTrip
use ambar.Prelude.{
  ℕ, zero, suc, ◌+◌, ◌-◌, ◌≤◌, ◌<◌, true, false, Option, none, some, List, [], ◌∷◌, ◌++◌, Bytes,
  length, drop, ltb, if◌then◌else◌, Bool-cases, arith, ◌≡◌, ◌⊎◌, inl, inr, refl, ap, sym, ◌∙◌,
  append_assoc, append-nil, not, length-append, length-drop, Option-cases,
}
use ambar.Status.{Status, ok, is_ok}
use ambar.File.{WritableFile, SequentialFile}
use ambar.Wal.{block_size, header_size}
use ambar.Wal.Writer.{LogWriter, new_writer, add_record}
use ambar.Wal.Writer.Encodes.{
  encoded, end_offset, start, fragment_size, fragment_size-le, add_record_appends,
}
use ambar.Wal.Reader.{
  LogReader, got, no_more, unfinished, new_reader, read_record, read_logical, read_physical_loop,
  read_physical_record, load_next_block, is_damaged, is_empty,
}
use ambar.Wal.Reader.Blocks.{Unread, NeverFails, load_reads, load_steps, load-Unread}
use ambar.Wal.Reader.Records.{read_logical-encoded}
use ambar.Wal.Reader.Fragments.{encoded_size}

-- Records that are added one after another, until one fails.
unfoldable pub add_all :
    {F : Type 0} → WritableFile F → LogWriter F → List Bytes → Option (Status × LogWriter F)
add_all file w [] = some (ok, w)
add_all file w (p ∷ ps) = elim (add_record file w p) [
  | none ↦ none
  | some (status, w') ↦
      let more = add_all file w' ps in if is_ok status then more else some (status, w')
]

-- The loop of a client: records are read until there is none.
pub read_all : {R : Type 0} → SequentialFile R → ℕ → LogReader R → Option (List Bytes × LogReader R)
read_all file zero r = none
read_all file (suc fuel) r = elim (read_record file r).0 [
  | got p ↦ elim (read_all file fuel (read_record file r).1) [
    | none ↦ none
    | some (ps, r') ↦ some (p ∷ ps, r')
  ]
  | no_more ↦ some ([], (read_record file r).1)
  | unfinished ↦ none
]

-- The records' bytes in the file.
pub log_bytes : ℕ → List Bytes → Bytes
log_bytes offset [] = []
log_bytes offset (p ∷ ps) =
    encoded (length p + 2) offset p true ++ log_bytes (end_offset (length p + 2) offset p) ps
