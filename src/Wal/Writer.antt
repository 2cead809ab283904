-- ===== src/Wal/Writer.antt =====
-- wal.cpp: `LogWriter`, over any file.
pub mod Encodes
pub mod Ends
use ambar.Prelude.{
  ℕ, zero, suc, ◌+◌, ◌-◌, Bool, true, false, Option, none, some, [], ◌++◌, Bytes, length, take,
  drop, replicate, ltb, ◌==◌, if◌then◌else◌,
}
use ambar.Status.{Status, ok, is_ok}
use ambar.File.{WritableFile}
use ambar.Wal.{block_size, header_size, RecordType, full, first, middle, last, record_header}

pub record LogWriter (F : Type 0) : Type 0 where
  pub dest : F
  pub offset : ℕ
  pub bytes_written : ℕ

-- `available` and `fragment`, at an offset that leaves room for a header.
abbrev pub fragment_length : ℕ → ℕ → ℕ
fragment_length offset left =
    let available = block_size - offset - header_size in
    if ltb left available then left else available

-- By `first_fragment` and `last_fragment`.
abbrev pub fragment_type : Bool → Bool → RecordType
fragment_type true true = full
fragment_type true false = first
fragment_type false true = last
fragment_type false false = middle

module _ {F : Type 0} (file : WritableFile F) where
  abbrev pub new_writer : F → LogWriter F
  new_writer dest = record { dest = dest; offset = 0; bytes_written = 0 }

  -- The two appends; on an error the offset stays.
  unfoldable pub emit_physical_record : LogWriter F → RecordType → Bytes → Status × LogWriter F
  emit_physical_record w t payload =
      let (headed, dest₁) = file.append (record_header t payload) w.dest in
      let (written, dest₂) = file.append payload dest₁ in
      let size = header_size + length payload in
      if is_ok headed
      then if is_ok written
        then (
          ok,
          record { dest = dest₂; offset = w.offset + size; bytes_written = w.bytes_written + size },
        )
        else (written, record w { dest = dest₂ })
      else (headed, record w { dest = dest₁ })

  -- What the loop does where fewer than seven bytes of the block are left.
  unfoldable pub start_block : LogWriter F → Status × LogWriter F
  start_block w =
      let block_left = block_size - w.offset in
      let (padded, dest') = file.append (replicate block_left 0) w.dest in
      if ltb block_left header_size
      then if ltb 0 block_left
        then if is_ok padded
          then (
            ok,
            record { dest = dest'; offset = 0; bytes_written = w.bytes_written + block_left },
          )
          else (padded, record w { dest = dest' })
        else (ok, record w { offset = 0 })
      else (ok, w)

  -- Fuel, the writer, what is left of the payload, and `first_fragment`.
  unfoldable pub add_record_loop : ℕ → LogWriter F → Bytes → Bool → Option (Status × LogWriter F)
  add_record_loop zero w payload is_first = none
  add_record_loop (suc fuel) w payload is_first =
      let (started, w₁) = start_block w in
      let left = length payload in
      let fragment = fragment_length w₁.offset left in
      let t = fragment_type is_first (fragment == left) in
      let (emitted, w₂) = emit_physical_record w₁ t (take fragment payload) in
      let more = add_record_loop fuel w₂ (drop fragment payload) false in
      if is_ok started
      then if is_ok emitted
        then if ltb 0 (left - fragment) then more else some (ok, w₂)
        else some (emitted, w₂)
      else some (started, w₁)

  -- A round with no payload in it is the last of its block, so two rounds more than there are bytes
  -- are enough.
  unfoldable pub add_record : LogWriter F → Bytes → Option (Status × LogWriter F)
  add_record w payload = add_record_loop (length payload + 2) w payload true

  pub flush : LogWriter F → Status × LogWriter F
  flush w = let (status, dest') = file.flush w.dest in (status, record w { dest = dest' })

  pub sync : LogWriter F → Status × LogWriter F
  sync w = let (status, dest') = file.sync w.dest in (status, record w { dest = dest' })

  pub close : LogWriter F → Status × LogWriter F
  close w = let (status, dest') = file.close w.dest in (status, record w { dest = dest' })
