-- ===== src/Wal/Writer/Ends.antt =====
-- wal.cpp: the loop of `add_record` ends.
use ambar.Prelude.{
  ℕ, zero, suc, ◌+◌, ◌<◌, Bool, true, false, none, Bytes, length, length-take, length-drop, take,
  drop, ◌==◌, arith, ◌≡◌, ◌≢◌, refl,
}
use ambar.Status.{ok}
use ambar.File.{WritableFile}
use ambar.Wal.{block_size, RecordType}
use ambar.Wal.Writer.{
  LogWriter, emit_physical_record, start_block, fragment_type, add_record_loop, add_record,
  fragment_length,
}
use ambar.Wal.Writer.Encodes.{start, start_block_appends, emit_appends}

module _ {F : Type 0} (file : WritableFile F) where
  -- A round that runs out of fuel has made both its steps well, and went on.
  round_none :
      (fuel : ℕ) (w : LogWriter F) (payload : Bytes) (is_first : Bool)
      → add_record_loop file (suc fuel) w payload is_first ≡ none
      → (w₁ : LogWriter F) × (w₂ : LogWriter F) × (start_block file w ≡ (ok, w₁))
        × (emit_physical_record file w₁
              (fragment_type is_first
                (fragment_length w₁.offset (length payload) == length payload))
              (take (fragment_length w₁.offset (length payload)) payload)
            ≡ (ok, w₂))
        × (fragment_length w₁.offset (length payload) < length payload)
        × (add_record_loop file fuel w₂
              (drop (fragment_length w₁.offset (length payload)) payload)
              false
            ≡ none)
  unfolding add_record_loop
  round_none fuel w payload is_first e =
      let w₁ = (start_block file w).1 in
      let k = fragment_length w₁.offset (length payload) in
      (
        w₁,
        (emit_physical_record file w₁ (fragment_type is_first (k == length payload))
            (take k payload)).1,
        ground arith,
        ground arith,
        ground arith,
        ground arith,
      )

  -- Such a round has filled its block.
  round_fills :
      (w w₁ w₂ : LogWriter F) (payload : Bytes) (t : RecordType)
      → start_block file w ≡ (ok, w₁)
      → emit_physical_record file w₁ t (take (fragment_length w₁.offset (length payload)) payload)
        ≡ (ok, w₂)
      → fragment_length w₁.offset (length payload) < length payload
      → (w₂.offset ≡ block_size)
        × (block_size ≡ start w.offset + 7 + fragment_length w₁.offset (length payload))
  unfolding start
  round_fills w w₁ w₂ payload t started emitted h = ground (
    arith,
    start_block_appends file w w₁ started,
    emit_appends file w₁ w₂ t (take (fragment_length w₁.offset (length payload)) payload) emitted,
    length-take (fragment_length w₁.offset (length payload)) payload,
  )

  -- From the end of a block every round takes a byte.
  loop-ne-none_full :
      (fuel : ℕ) (w : LogWriter F) (payload : Bytes) (is_first : Bool)
      → w.offset ≡ block_size
      → length payload < fuel
      → add_record_loop file fuel w payload is_first ≢ none
  loop-ne-none_full zero w payload is_first ho h e = absurd (omega arith)
  loop-ne-none_full (suc fuel) w payload is_first ho h e =
      let (w₁, w₂, started, emitted, more, rest) = round_none fuel w payload is_first e in
      let k = fragment_length w₁.offset (length payload) in
      let t = fragment_type is_first (k == length payload) in
      let (filled, sum) = round_fills w w₁ w₂ payload t started emitted more in
      let from_zero : start w.offset ≡ 0 = unfold start in rw ho refl in
      loop-ne-none_full fuel w₂ (drop k payload) false filled (omega (arith, length-drop k payload))
        rest

  loop-ne-none :
      (fuel : ℕ) (w : LogWriter F) (payload : Bytes) (is_first : Bool)
      → length payload + 1 < fuel
      → add_record_loop file fuel w payload is_first ≢ none
  loop-ne-none zero w payload is_first h e = absurd (omega arith)
  loop-ne-none (suc fuel) w payload is_first h e =
      let (w₁, w₂, started, emitted, more, rest) = round_none fuel w payload is_first e in
      let k = fragment_length w₁.offset (length payload) in
      let t = fragment_type is_first (k == length payload) in
      let (filled, sum) = round_fills w w₁ w₂ payload t started emitted more in
      loop-ne-none_full fuel w₂ (drop k payload) false filled (omega (arith, length-drop k payload))
        rest

  -- From every state of the writer and on every payload, whatever the file answers, the loop of
  -- add_record ends within two rounds more than the payload has bytes.
  pub add_record_total : (w : LogWriter F) (payload : Bytes) → add_record file w payload ≢ none
  unfolding add_record
  add_record_total w payload = loop-ne-none (length payload + 2) w payload true (omega arith)
