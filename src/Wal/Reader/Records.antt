-- ===== src/Wal/Reader/Records.antt =====
-- One logical record, put together from its fragments.
use ambar.Prelude.{
  ℕ, zero, suc, ◌+◌, ◌-◌, ◌≤◌, ◌<◌, Bool, true, false, ◌++◌, append_assoc, Bytes, length,
  length-append, take, drop, length-drop, length-take, take-append-drop, take_all, ltb, ◌==◌,
  Bool-cases, arith, ◌≡◌, inl, inr, ap, sym, ◌∙◌, subst,
}
use ambar.File.{SequentialFile}
use ambar.Wal.{block_size, header_size, RecordType, middle, last, first, full}
use ambar.Wal.Writer.{fragment_type}
use ambar.Wal.Writer.Encodes.{start, fragment_size, fragment_size-le, encoded, end_offset}
use ambar.Wal.Reader.{
  LogReader, got, read_physical_record, read_rest, read_logical, is_damaged, unread,
}
use ambar.Wal.Reader.Blocks.{Unread, NeverFails, read_padded}
use ambar.Wal.Reader.Fragments.{
  Enough, Enough-next, remaining, remaining_more, remaining_done, encoded_round,
  known-fragment_type, ltb→lt_sub, all_taken, middle_type, last_type, first_type, full_type,
  encoded_size, encoded_more,
}

module _ {R : Type 0} (file : SequentialFile R) (never : NeverFails file) where
  -- One round of the writer is read by one physical read.
  read_round :
      (fuel : ℕ) (r : LogReader R) (payload rest : Bytes) (is_first : Bool)
      → Unread file r (encoded (suc fuel) r.block_offset payload is_first ++ rest)
      → r.block_offset ≤ block_size
      → (r' : LogReader R) × (read_physical_record file r ≡ (
        got (
          fragment_type is_first (fragment_size r.block_offset (length payload) == length payload),
          take (fragment_size r.block_offset (length payload)) payload,
        ),
        r',
      ))
        × Unread file r' (remaining fuel r.block_offset payload ++ rest)
        × (r'.block_offset
            ≡ start r.block_offset + (header_size + fragment_size r.block_offset (length payload)))
        × (r'.truncated ≡ r.truncated)
        × (is_damaged file r' ≡ is_damaged file r)
  read_round fuel r payload rest is_first u inside =
      let k = fragment_size r.block_offset (length payload) in
      let (small, room) = fragment_size-le r.block_offset (length payload) in
      let size : length (take k payload) ≡ k = omega (arith, length-take k payload) in
      let todo : Bytes = remaining fuel r.block_offset payload ++ rest in
      let (r', read, u', offset, same, undamaged) =
        read_padded file never r (fragment_type is_first (k == length payload)) (take k payload)
          todo (subst (Unread file r) (encoded_round fuel r.block_offset payload rest is_first) u)
          inside (rw size (room inside)) (omega (arith, room inside))
          (known-fragment_type is_first (k == length payload)) in
      (
        r',
        read,
        u',
        offset ∙ ap (λ (n : ℕ). start r.block_offset + (header_size + n)) size,
        same,
        undamaged,
      )

  rest_middle :
      (fuel : ℕ) (r r₁ : LogReader R) (scratch fragment : Bytes)
      → read_physical_record file r ≡ (got (middle, fragment), r₁)
      → read_rest file (suc fuel) r scratch ≡ read_rest file fuel r₁ (scratch ++ fragment)
  unfolding read_rest
  rest_middle fuel r r₁ scratch fragment e = ground arith

  rest_last :
      (fuel : ℕ) (r r₁ : LogReader R) (scratch fragment : Bytes)
      → read_physical_record file r ≡ (got (last, fragment), r₁)
      → read_rest file (suc fuel) r scratch ≡ (got (scratch ++ fragment), r₁)
  unfolding read_rest
  rest_last fuel r r₁ scratch fragment e = ground arith

  -- The fragments behind the first are put behind `scratch`, to the end of the payload.
  read_rest-encoded :
      (rounds fuel : ℕ) (r : LogReader R) (payload rest scratch : Bytes)
      → Unread file r (encoded rounds r.block_offset payload false ++ rest)
      → r.block_offset ≤ block_size
      → Enough rounds r.block_offset (length payload)
      → length (encoded rounds r.block_offset payload false) ≤ fuel
      → (r' : LogReader R) × (read_rest file fuel r scratch ≡ (got (scratch ++ payload), r'))
        × Unread file r' rest
        × (r'.block_offset ≡ end_offset rounds r.block_offset payload)
        × (r'.truncated ≡ r.truncated)
        × (is_damaged file r' ≡ is_damaged file r)
  unfolding end_offset
  read_rest-encoded zero fuel r payload rest scratch u inside enough h = absurd (no_rounds enough)
    where
      no_rounds : Enough 0 r.block_offset (length payload) → ⊥
      no_rounds (inl h) = omega arith
      no_rounds (inr (at, h)) = omega arith
  read_rest-encoded (suc rounds) zero r payload rest scratch u inside enough h =
      absurd (omega (arith, encoded_size rounds r.block_offset payload false))
  read_rest-encoded (suc rounds) (suc fuel) r payload rest scratch u inside enough h =
      let k = fragment_size r.block_offset (length payload) in
      let (r₁, read, u₁, offset, same, undamaged) =
        read_round rounds r payload rest false u inside in
      let room = (fragment_size-le r.block_offset (length payload)).1 inside in
      elim (Bool-cases (ltb 0 (length payload - k))) [
        | inl more ↦
            let shorter : k < length payload = ltb→lt_sub k (length payload) more in
            let (r', read', u', offset', same', undamaged') =
              read_rest-encoded rounds fuel r₁ (drop k payload) rest (scratch ++ take k payload)
                (subst (λ (bs : Bytes). Unread file r₁ (bs ++ rest))
                  (remaining_more rounds r.block_offset payload more
                    ∙ ap (λ (o : ℕ). encoded rounds o (drop k payload) false) (sym offset))
                  u₁)
                (omega arith)
                (rw (← offset, ← length-drop k payload) at
                  (Enough-next rounds r.block_offset (length payload) enough shorter))
                (rw offset (
                  omega (
                    arith,
                    encoded_size rounds r.block_offset payload false,
                    encoded_more rounds r.block_offset payload false more,
                  ))) in
            (
              r',
              rest_middle fuel r r₁ scratch (take k payload) (
                    read
                    ∙ ap (λ (t : RecordType). (got (t, take k payload), r₁))
                        (middle_type k (length payload) shorter))
                  ∙ read'
                  ∙ ap (λ (bs : Bytes). (got bs, r'))
                      (append_assoc scratch (take k payload) (drop k payload)
                        ∙ ap (◌++◌ scratch) (take-append-drop k payload)),
              u',
              rw more (offset' ∙ ap (λ (o : ℕ). end_offset rounds o (drop k payload)) offset),
              same' ∙ same,
              undamaged' ∙ undamaged,
            )
        | inr done ↦
            let whole : k ≡ length payload =
              all_taken k (length payload) done
                (fragment_size-le r.block_offset (length payload)).0 in
            (
              r₁,
              rest_last fuel r r₁ scratch (take k payload) (
                    read
                    ∙ ap (λ (t : RecordType). (got (t, take k payload), r₁))
                        (last_type k (length payload) whole))
                  ∙ ap (λ (bs : Bytes). (got (scratch ++ bs), r₁))
                      (take_all k payload (omega arith)),
              subst (λ (bs : Bytes). Unread file r₁ (bs ++ rest))
                  (remaining_done rounds r.block_offset payload done) u₁,
              rw done offset,
              same,
              undamaged,
            )
      ]

  logical_full :
      (r r₁ : LogReader R) (fragment : Bytes)
      → read_physical_record file r ≡ (got (full, fragment), r₁)
      → read_logical file r ≡ (got fragment, r₁)
  unfolding read_logical
  logical_full r r₁ fragment e = ground arith

  logical_first :
      (r r₁ : LogReader R) (fragment : Bytes)
      → read_physical_record file r ≡ (got (first, fragment), r₁)
      → read_logical file r ≡ read_rest file (unread file r₁ + 1) r₁ fragment
  unfolding read_logical
  logical_first r r₁ fragment e = ground arith

  -- The bytes that a reader has before it are among those that it counts.
  todo-le-unread :
      (r : LogReader R) (todo rest : Bytes)
      → Unread file r (todo ++ rest)
      → length todo ≤ unread file r + 1
  todo-le-unread r todo rest u = omega (
    arith,
    ap (λ (bs : Bytes). length bs) u.bytes,
    length-append (drop r.block_offset r.block) (file.left r.source),
    length-append todo rest,
    length-drop r.block_offset r.block,
  )

  -- A whole record, as `add_record` writes it, is read back.
  pub read_logical-encoded :
      (r : LogReader R) (payload rest : Bytes)
      → Unread file r (encoded (length payload + 2) r.block_offset payload true ++ rest)
      → r.block_offset ≤ block_size
      → (r' : LogReader R) × (read_logical file r ≡ (got payload, r'))
        × Unread file r' rest
        × (r'.block_offset ≡ end_offset (length payload + 2) r.block_offset payload)
        × (r'.truncated ≡ r.truncated)
        × (is_damaged file r' ≡ is_damaged file r)
  unfolding end_offset
  read_logical-encoded r payload rest u₀ inside =
      let rounds : ℕ = length payload + 1 in
      let more_rounds : length payload + 2 ≡ suc rounds = omega arith in
      let u =
        subst (λ (n : ℕ). Unread file r (encoded n r.block_offset payload true ++ rest)) more_rounds
          u₀ in
      let k = fragment_size r.block_offset (length payload) in
      let (r₁, read, u₁, offset, same, undamaged) =
        read_round rounds r payload rest true u inside in
      let room = (fragment_size-le r.block_offset (length payload)).1 inside in
      rw more_rounds (elim (Bool-cases (ltb 0 (length payload - k))) [
        | inl more ↦
            let shorter : k < length payload = ltb→lt_sub k (length payload) more in
            let u₂ =
              subst (λ (bs : Bytes). Unread file r₁ (bs ++ rest))
                (remaining_more rounds r.block_offset payload more
                  ∙ ap (λ (o : ℕ). encoded rounds o (drop k payload) false) (sym offset))
                u₁ in
            let (r', read', u', offset', same', undamaged') =
              read_rest-encoded rounds (unread file r₁ + 1) r₁ (drop k payload) rest
                (take k payload) u₂ (omega arith)
                (rw (← offset, ← length-drop k payload) at
                  (Enough-next rounds r.block_offset (length payload) (inl (omega arith)) shorter))
                (todo-le-unread r₁ (encoded rounds r₁.block_offset (drop k payload) false) rest
                  u₂) in
            (
              r',
              logical_first r r₁ (take k payload) (
                    read
                    ∙ ap (λ (t : RecordType). (got (t, take k payload), r₁))
                        (first_type k (length payload) shorter))
                  ∙ read'
                  ∙ ap (λ (bs : Bytes). (got bs, r')) (take-append-drop k payload),
              u',
              rw more (offset' ∙ ap (λ (o : ℕ). end_offset rounds o (drop k payload)) offset),
              same' ∙ same,
              undamaged' ∙ undamaged,
            )
        | inr done ↦
            let whole : k ≡ length payload =
              all_taken k (length payload) done
                (fragment_size-le r.block_offset (length payload)).0 in
            (
              r₁,
              logical_full r r₁ (take k payload) (
                    read
                    ∙ ap (λ (t : RecordType). (got (t, take k payload), r₁))
                        (full_type k (length payload) whole))
                  ∙ ap (λ (bs : Bytes). (got bs, r₁)) (take_all k payload (omega arith)),
              subst (λ (bs : Bytes). Unread file r₁ (bs ++ rest))
                  (remaining_done rounds r.block_offset payload done) u₁,
              rw done offset,
              same,
              undamaged,
            )
      ])
