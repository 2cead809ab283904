-- ===== src/Wal/Recovery/Reads.antt =====
-- wal.cpp: a reader before the bytes of some records reads these records.
use ambar.Prelude.{
  ℕ, zero, suc, ◌+◌, ◌-◌, ◌≤◌, ◌<◌, true, false, some, List, [], ◌∷◌, ◌++◌, Bytes, length, drop,
  ltb, Bool-cases, arith, ◌≡◌, ◌⊎◌, inl, inr, refl, ap, sym, ◌∙◌, not, length-append, length-drop,
}
use ambar.File.{SequentialFile}
use ambar.Wal.{block_size, header_size}
use ambar.Wal.Writer.Encodes.{encoded, end_offset, start, fragment_size, fragment_size-le}
use ambar.Wal.Reader.{
  LogReader, got, no_more, read_record, read_logical, read_physical_loop, read_physical_record,
  load_next_block, is_damaged, is_empty,
}
use ambar.Wal.Reader.Blocks.{Unread, NeverFails, load_reads, load_steps, load-Unread}
use ambar.Wal.Reader.Records.{read_logical-encoded}
use ambar.Wal.Reader.Fragments.{encoded_size}
use ambar.Wal.Recovery.{read_all, log_bytes}

end_offset-le :
    (fuel offset : ℕ) (payload : Bytes)
    → offset ≤ block_size
    → end_offset fuel offset payload ≤ block_size
unfolding end_offset
end_offset-le zero offset payload h = h
end_offset-le (suc fuel) offset payload h =
    let k = fragment_size offset (length payload) in
    let room = (fragment_size-le offset (length payload)).1 h in
    let more = end_offset-le fuel (start offset + (header_size + k)) (drop k payload) room in
    elim (Bool-cases (ltb 0 (length payload - k))) [ inl e ↦ rw e more | inr e ↦ rw e room ]

end_offset-ge :
    (fuel offset : ℕ) (payload : Bytes) → 7 ≤ offset → 7 ≤ end_offset fuel offset payload
unfolding end_offset
end_offset-ge zero offset payload h = h
end_offset-ge (suc fuel) offset payload h =
    let k = fragment_size offset (length payload) in
    let more =
      end_offset-ge fuel (start offset + (header_size + k)) (drop k payload) (omega arith) in
    elim (Bool-cases (ltb 0 (length payload - k))) [
      | inl e ↦ rw e more
      | inr e ↦ rw e (omega arith)
    ]

end_offset-pos : (fuel offset : ℕ) (payload : Bytes) → 7 ≤ end_offset (suc fuel) offset payload
unfolding end_offset
end_offset-pos fuel offset payload =
    let k = fragment_size offset (length payload) in
    let more =
      end_offset-ge fuel (start offset + (header_size + k)) (drop k payload) (omega arith) in
    elim (Bool-cases (ltb 0 (length payload - k))) [
      | inl e ↦ rw e more
      | inr e ↦ rw e (omega arith)
    ]

behind_header : (offset : ℕ) (payload : Bytes) → 7 ≤ end_offset (length payload + 2) offset payload
behind_header offset payload =
    let more : suc (length payload + 1) ≡ length payload + 2 = omega arith in
    rw (← more) (end_offset-pos (length payload + 1) offset payload)

not_empty : (xs : Bytes) → 0 < length xs → is_empty xs ≡ false
not_empty [] h = absurd (omega arith)
not_empty (x ∷ xs) h = refl

module _ {R : Type 0} (file : SequentialFile R) (never : NeverFails file) where
  -- A reader that stands before these bytes, with a block or yet without one.
  unfoldable pub Before : LogReader R → Bytes → Type 0
  Before r todo =
      (Unread file r todo × (is_empty r.block ≡ false))
      ⊎ ((r.block ≡ []) × (r.block_offset ≡ 0) × (r.eof ≡ false) × (file.left r.source ≡ todo))

  record_at_block :
      (r : LogReader R)
      → r.eof ≡ false
      → is_empty r.block ≡ false
      → read_record file r ≡ read_logical file r
  unfolding read_record
  record_at_block r running there = ground arith

  record_at_start :
      (r : LogReader R)
      → r.eof ≡ false
      → r.block ≡ []
      → (load_next_block file r).0 ≡ true
      → read_record file r ≡ read_logical file (load_next_block file r).1
  unfolding read_record
  record_at_start r running empty loaded =
      let is : is_empty r.block ≡ true = ap is_empty empty in ground arith

  nonempty :
      (r : LogReader R) (todo : Bytes)
      → Unread file r todo
      → 0 < r.block_offset
      → is_empty r.block ≡ false
  nonempty r todo u h = not_empty r.block (omega (arith, u.inside))

  encoded_nonempty :
      (offset : ℕ) (p rest : Bytes)
      → is_empty (encoded (length p + 2) offset p true ++ rest) ≡ false
  encoded_nonempty offset p rest =
      let more : suc (length p + 1) ≡ length p + 2 = omega arith in
      not_empty (encoded (length p + 2) offset p true ++ rest) (
        omega (
          arith,
          rw more at (encoded_size (length p + 1) offset p true),
          length-append (encoded (length p + 2) offset p true) rest,
        ))

  record-Before :
      (r : LogReader R) (p rest : Bytes)
      → Before r (encoded (length p + 2) r.block_offset p true ++ rest)
      → r.block_offset ≤ block_size
      → (r' : LogReader R) × (read_record file r ≡ (got p, r'))
        × Before r' rest
        × (r'.block_offset ≡ end_offset (length p + 2) r.block_offset p)
        × (r'.truncated ≡ r.truncated)
        × (is_damaged file r' ≡ is_damaged file r)
  unfolding Before
  record-Before r p rest (inl (u, there)) inside =
      let (r', read, u', offset, same, undamaged) =
        read_logical-encoded file never r p rest u inside in
      (
        r',
        record_at_block r u.running there ∙ read,
        inl (u', nonempty r' rest u' (omega (arith, behind_header r.block_offset p))),
        offset,
        same,
        undamaged,
      )
  record-Before r p rest (inr (empty, at, running, same)) inside =
      let r₁ = (load_next_block file r).1 in
      let todo : Bytes = encoded (length p + 2) r.block_offset p true ++ rest in
      let more = encoded_nonempty r.block_offset p rest in
      let at₁ : r₁.block_offset ≡ r.block_offset = (load_steps file never r).2 ∙ sym at in
      let (r', read, u', offset, same', undamaged) =
        read_logical-encoded file never r₁ p rest
          (rw at₁ (load-Unread file never r todo same more running)) (rw at₁ inside) in
      (
        r',
        record_at_start r running empty
              (load_reads file never r ∙ ap (λ (bs : Bytes). not (is_empty bs)) same ∙ ap not more)
            ∙ read,
        inl (u', nonempty r' rest u' (omega (arith, behind_header r₁.block_offset p))),
        offset ∙ ap (λ (o : ℕ). end_offset (length p + 2) o p) at₁,
        same' ∙ (load_steps file never r).3,
        undamaged ∙ (load_steps file never r).4,
      )

  -- Before nothing, a reader finds that there is no more.
  empty_of_length : (bs : Bytes) → length bs ≡ 0 → is_empty bs ≡ true
  empty_of_length [] h = refl
  empty_of_length (b ∷ bs) h = absurd (omega arith)

  none_behind :
      (r : LogReader R)
      → length r.block ≡ block_size
      → r.block_offset ≡ length r.block
      → (load_next_block file r).0 ≡ false
      → read_physical_record file r ≡ (no_more, (load_next_block file r).1)
  unfolding read_physical_record read_physical_loop
  none_behind r whole all_read none_left = ground arith

  none_at_end :
      (r : LogReader R)
      → length r.block < block_size
      → r.block_offset ≡ length r.block
      → read_physical_record file r ≡ (no_more, record r { eof = true })
  unfolding read_physical_record read_physical_loop
  none_at_end r short all_read = ground arith

  logical_none :
      (r r' : LogReader R)
      → read_physical_record file r ≡ (no_more, r')
      → read_logical file r ≡ (no_more, r')
  unfolding read_logical
  logical_none r r' e = ground arith

  none_at_start :
      (r : LogReader R)
      → r.eof ≡ false
      → r.block ≡ []
      → (load_next_block file r).0 ≡ false
      → read_record file r ≡ (no_more, (load_next_block file r).1)
  unfolding read_record
  none_at_start r running empty loaded =
      let is : is_empty r.block ≡ true = ap is_empty empty in ground arith

  physical_none :
      (r : LogReader R)
      → Unread file r []
      → (r' : LogReader R) × (read_physical_record file r ≡ (no_more, r'))
        × (r'.truncated ≡ r.truncated)
        × (is_damaged file r' ≡ is_damaged file r)
  physical_none r u =
      let total = ap (λ (bs : Bytes). length bs) u.bytes in
      let sum = length-append (drop r.block_offset r.block) (file.left r.source) in
      let all_read : r.block_offset ≡ length r.block =
        omega (arith, u.inside, length-drop r.block_offset r.block) in
      let ended : is_empty (file.left r.source) ≡ true =
        empty_of_length (file.left r.source) (omega arith) in
      elim u.whole [
        | inl whole ↦ (
          (load_next_block file r).1,
          none_behind r whole all_read (load_reads file never r ∙ ap not ended),
          (load_steps file never r).3,
          (load_steps file never r).4,
        )
        | inr (short, e) ↦ (record r { eof = true }, none_at_end r short all_read, refl, refl)
      ]

  record_none :
      (r : LogReader R)
      → Before r []
      → (r' : LogReader R) × (read_record file r ≡ (no_more, r'))
        × (r'.truncated ≡ r.truncated)
        × (is_damaged file r' ≡ is_damaged file r)
  unfolding Before
  record_none r (inl (u, there)) =
      let (r', read, same, undamaged) = physical_none r u in
      (r', record_at_block r u.running there ∙ logical_none r r' read, same, undamaged)
  record_none r (inr (empty, at, running, same)) = (
    (load_next_block file r).1,
    none_at_start r running empty
        (load_reads file never r ∙ ap (λ (bs : Bytes). not (is_empty bs)) same),
    (load_steps file never r).3,
    (load_steps file never r).4,
  )

  all_got :
      (fuel : ℕ) (r r₁ r' : LogReader R) (p : Bytes) (ps : List Bytes)
      → read_record file r ≡ (got p, r₁)
      → read_all file fuel r₁ ≡ some (ps, r')
      → read_all file (suc fuel) r ≡ some (p ∷ ps, r')
  unfolding read_all
  all_got fuel r r₁ r' p ps e more = ground arith

  all_none :
      (fuel : ℕ) (r r' : LogReader R)
      → read_record file r ≡ (no_more, r')
      → read_all file (suc fuel) r ≡ some ([], r')
  unfolding read_all
  all_none fuel r r' e = ground arith

  -- All records that are before a reader are read, in order, and nothing else.
  pub read_all-log_bytes :
      (r : LogReader R) (ps : List Bytes)
      → Before r (log_bytes r.block_offset ps)
      → r.block_offset ≤ block_size
      → (r' : LogReader R) × (read_all file (suc (length ps)) r ≡ some (ps, r'))
        × (r'.truncated ≡ r.truncated)
        × (is_damaged file r' ≡ is_damaged file r)
  unfolding log_bytes
  read_all-log_bytes r [] b inside =
      let (r', read, same, undamaged) = record_none r b in
      (r', all_none 0 r r' read, same, undamaged)
  read_all-log_bytes r (p ∷ ps) b inside =
      let (r₁, read, b₁, offset, same, undamaged) =
        record-Before r p (log_bytes (end_offset (length p + 2) r.block_offset p) ps) b inside in
      let (r', more, same', undamaged') =
        read_all-log_bytes r₁ ps (rw offset b₁)
          (rw offset (end_offset-le (length p + 2) r.block_offset p inside)) in
      (r', all_got (suc (length ps)) r r₁ r' p ps read more, same' ∙ same, undamaged' ∙ undamaged)
