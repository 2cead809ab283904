-- ===== src/Wal/Writer/Encodes.antt =====
-- What `add_record` appends to the file, as a function of the offset and the payload.
use ambar.Prelude.{
  ℕ, zero, suc, ◌+◌, ◌-◌, ◌≤◌, Bool, true, false, some, [], ◌++◌, append-nil, append_assoc, Bytes,
  length, length-append, length-replicate, length-take, take, drop, replicate, ltb, ◌==◌,
  if◌then◌else◌, arith, ◌≡◌, refl, ap, sym, ◌∙◌, Bool-cases, inl, inr,
}
use ambar.Status.{ok}
use ambar.File.{WritableFile}
use ambar.Encoding.{put_fixed32, encode_fixed32}
use ambar.Wal.{block_size, header_size, RecordType, record_header}
use ambar.Wal.Writer.{
  LogWriter, emit_physical_record, start_block, fragment_type, add_record_loop, add_record,
  fragment_length,
}

-- A record as it stands in the file.
abbrev pub physical : RecordType → Bytes → Bytes
physical t payload = record_header t payload ++ payload

-- The zeros at the end of a block, and the place where the next header goes.
unfoldable pub padding : ℕ → Bytes
padding offset =
    if ltb (block_size - offset) header_size then replicate (block_size - offset) 0 else []

unfoldable pub start : ℕ → ℕ
start offset = if ltb (block_size - offset) header_size then 0 else offset

unfoldable pub fragment_size : ℕ → ℕ → ℕ
fragment_size offset left = fragment_length (start offset) left

-- The bytes of a logical record that starts at an offset of its block.
unfoldable pub encoded : ℕ → ℕ → Bytes → Bool → Bytes
encoded zero offset payload is_first = []
encoded (suc fuel) offset payload is_first =
    let k = fragment_size offset (length payload) in
    let more = encoded fuel (start offset + (header_size + k)) (drop k payload) false in
    padding offset
    ++ (physical (fragment_type is_first (k == length payload)) (take k payload)
        ++ (if ltb 0 (length payload - k) then more else []))

-- The offset behind it.
unfoldable pub end_offset : ℕ → ℕ → Bytes → ℕ
end_offset zero offset payload = offset
end_offset (suc fuel) offset payload =
    let k = fragment_size offset (length payload) in
    let more = end_offset fuel (start offset + (header_size + k)) (drop k payload) in
    if ltb 0 (length payload - k) then more else start offset + (header_size + k)

pub length-record_header : (t : RecordType) (payload : Bytes) → length (record_header t payload) ≡ 7
unfolding record_header put_fixed32 encode_fixed32
length-record_header t payload = refl

pub fragment_size-le :
    (offset left : ℕ)
    → (fragment_size offset left ≤ left)
      × (offset ≤ block_size
          → start offset + (header_size + fragment_size offset left) ≤ block_size)
unfolding fragment_size start
fragment_size-le offset left = ground arith

regroup : (c p q m : Bytes) → ((c ++ p) ++ q) ++ m ≡ c ++ (p ++ (q ++ m))
regroup c p q m = simp append_assoc

length_regroup : (p q m : Bytes) → length (p ++ (q ++ m)) ≡ length p + (length q + length m)
length_regroup p q m = omega (arith, length-append p (q ++ m), length-append q m)

module _ {F : Type 0} (file : WritableFile F) where
  appended :
      (bytes : Bytes) (f : F)
      → (file.append bytes f).0 ≡ ok
      → file.contents (file.append bytes f).1 ≡ file.contents f ++ bytes
  appended bytes f e = file.append_appends bytes f (file.append bytes f).1 (ground arith)

  pub start_block_appends :
      (w w' : LogWriter F)
      → start_block file w ≡ (ok, w')
      → (file.contents w'.dest ≡ file.contents w.dest ++ padding w.offset)
        × (w'.offset ≡ start w.offset)
        × (w'.bytes_written ≡ w.bytes_written + length (padding w.offset))
  unfolding start_block padding start
  start_block_appends w w' e = ground (
    arith,
    appended (replicate (block_size - w.offset) 0) w.dest,
    append-nil (file.contents w.dest),
    length-replicate {A = ℕ} (block_size - w.offset) 0,
  )

  pub emit_appends :
      (w w' : LogWriter F) (t : RecordType) (payload : Bytes)
      → emit_physical_record file w t payload ≡ (ok, w')
      → (file.contents w'.dest ≡ file.contents w.dest ++ physical t payload)
        × (w'.offset ≡ w.offset + (header_size + length payload))
        × (w'.bytes_written ≡ w.bytes_written + length (physical t payload))
  unfolding emit_physical_record
  emit_appends w w' t payload e = ground (
    arith,
    appended (record_header t payload) w.dest,
    appended payload (file.append (record_header t payload) w.dest).1,
    append_assoc (file.contents w.dest) (record_header t payload) payload,
    length-append (record_header t payload) payload,
    length-record_header t payload,
  )

  -- A round that ends well has made both its steps well.
  round_steps :
      (fuel : ℕ) (w w' : LogWriter F) (payload : Bytes) (is_first : Bool)
      → add_record_loop file (suc fuel) w payload is_first ≡ some (ok, w')
      → (w₁ : LogWriter F) × (w₂ : LogWriter F) × (start_block file w ≡ (ok, w₁))
        × (emit_physical_record file w₁
              (fragment_type is_first
                (fragment_length w₁.offset (length payload) == length payload))
              (take (fragment_length w₁.offset (length payload)) payload)
            ≡ (ok, w₂))
        × ((if ltb 0 (length payload - fragment_length w₁.offset (length payload))
              then add_record_loop file fuel w₂
                  (drop (fragment_length w₁.offset (length payload)) payload)
                  false
              else some (ok, w₂))
            ≡ some (ok, w'))
  unfolding add_record_loop
  round_steps fuel w w' payload is_first e =
      let w₁ = (start_block file w).1 in
      let k = fragment_length w₁.offset (length payload) in
      (
        w₁,
        (emit_physical_record file w₁ (fragment_type is_first (k == length payload))
            (take k payload)).1,
        ground arith,
        ground arith,
        ground arith,
      )

  -- What a successful round sequence has appended.
  loop_appends :
      (fuel : ℕ) (w w' : LogWriter F) (payload : Bytes) (is_first : Bool)
      → add_record_loop file fuel w payload is_first ≡ some (ok, w')
      → (file.contents w'.dest ≡ file.contents w.dest ++ encoded fuel w.offset payload is_first)
        × (w'.offset ≡ end_offset fuel w.offset payload)
        × (w'.bytes_written ≡ w.bytes_written + length (encoded fuel w.offset payload is_first))
  unfolding encoded end_offset
  loop_appends zero w w' payload is_first e = absurd (unfold add_record_loop in cc)
  loop_appends (suc fuel) w w' payload is_first e =
      let (w₁, w₂, started, emitted, rest) = round_steps fuel w w' payload is_first e in
      let k = fragment_size w.offset (length payload) in
      let t = fragment_type is_first (k == length payload) in
      let before = start_block_appends w w₁ started in
      let same : fragment_length w₁.offset (length payload) ≡ k =
        unfold fragment_size in ap (λ (o : ℕ). fragment_length o (length payload)) before.1 in
      let here = emit_appends w₁ w₂ t (take k payload) (rw same at emitted) in
      let continued = rw same at rest in
      let here_bytes : Bytes = physical t (take k payload) in
      let more_bytes : Bytes =
        encoded fuel (start w.offset + (header_size + k)) (drop k payload) false in
      let size : length (take k payload) ≡ k =
        omega (arith, length-take k payload, fragment_size-le w.offset (length payload)) in
      let behind : w₂.offset ≡ start w.offset + (header_size + k) = omega arith in
      elim (Bool-cases (ltb 0 (length payload - k))) [
        | inl more ↦
            let ih =
              rw behind at
                (loop_appends fuel w₂ w' (drop k payload) false (rw more at continued)) in
            rw more (
              ih.0
                  ∙ ap (λ (c : Bytes). c ++ more_bytes)
                      (here.0 ∙ ap (λ (c : Bytes). c ++ here_bytes) before.0)
                  ∙ regroup (file.contents w.dest) (padding w.offset) here_bytes more_bytes,
              ih.1,
              omega (arith, length_regroup (padding w.offset) here_bytes more_bytes),
            )
        | inr done ↦
            let same_writer : w₂ ≡ w' = cc (rw done at continued) in
            rw (done, ← same_writer)
              (
                here.0
                    ∙ ap (λ (c : Bytes). c ++ here_bytes) before.0
                    ∙ append_assoc (file.contents w.dest) (padding w.offset)
                        (physical t (take k payload))
                    ∙ ap (λ (c : Bytes). file.contents w.dest ++ (padding w.offset ++ c))
                        (sym (append-nil (physical t (take k payload)))),
                behind,
                omega (arith, length_regroup (padding w.offset) (physical t (take k payload)) []),
              )
      ]

  -- A record that is added without an error stands behind what the file held, in the form that the
  -- offset within the block and the payload alone decide: padding where a header does not fit, and
  -- a header before every fragment. The offset and the count of bytes written follow that form.
  pub add_record_appends :
      (w w' : LogWriter F) (payload : Bytes)
      → add_record file w payload ≡ some (ok, w')
      → (file.contents w'.dest
          ≡ file.contents w.dest ++ encoded (length payload + 2) w.offset payload true)
        × (w'.offset ≡ end_offset (length payload + 2) w.offset payload)
        × (w'.bytes_written
            ≡ w.bytes_written + length (encoded (length payload + 2) w.offset payload true))
  unfolding add_record
  add_record_appends w w' payload e = loop_appends (length payload + 2) w w' payload true e
