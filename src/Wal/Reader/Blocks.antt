-- ===== src/Wal/Reader/Blocks.antt =====
-- One physical record, wherever the block ends.
use ambar.Prelude.{
  ℕ, suc, ◌+◌, ◌-◌, ◌≤◌, ◌<◌, ◌^◌, true, false, [], ◌++◌, Bytes, length, length-append,
  append_prefix, take, drop, length-drop, take-append-drop, arith, ◌≡◌, ◌⊎◌, inl, inr, refl, ap,
  sym, ◌∙◌, not, if◌then◌else◌, Bool-cases, ltb, length-replicate,
}
use ambar.Status.{ok}
use ambar.File.{SequentialFile}
use ambar.Encoding.{byte_at}
use ambar.Wal.{block_size, header_size, RecordType, parse_header, is_zeroed, record_crc, known_type}
use ambar.Wal.Writer.Encodes.{physical, padding, start}
use ambar.Wal.Reader.{
  LogReader, got, load_next_block, read_physical_loop, read_physical_record, is_damaged, is_empty,
}
use ambar.Wal.Reader.Headers.{
  parse_header-physical, type_byte-physical, payload-physical, length-physical, is_empty-take,
  take_whole, is_empty-physical, length-pos, append_cancel, drop_behind,
}

module _ {R : Type 0} (file : SequentialFile R) where
  -- The reader stands before these bytes: they are what is left of its block, and what the source has
  -- behind it; a block that is not whole is the last.
  pub record Unread (r : LogReader R) (todo : Bytes) : Type 0 where
    pub bytes : drop r.block_offset r.block ++ file.left r.source ≡ todo
    pub whole :
        (length r.block ≡ block_size) ⊎ ((length r.block < block_size) × (file.left r.source ≡ []))
    pub inside : r.block_offset ≤ length r.block
    pub running : r.eof ≡ false

  -- A physical record that stands where the reader does, within the block, is read.
  read_here :
      (fuel : ℕ) (r : LogReader R) (t : RecordType) (payload rest : Bytes)
      → drop r.block_offset r.block ≡ physical t payload ++ rest
      → r.block_offset + 7 + length payload ≤ length r.block
      → length payload < 2 ^ 16
      → known_type t ≡ true
      → read_physical_loop file (suc fuel) r
        ≡ (got (t, payload), record r { block_offset = r.block_offset + 7 + length payload })
  unfolding read_physical_loop is_zeroed
  read_here fuel r t payload rest here fits small known =
      let p = drop r.block_offset r.block in
      let header : parse_header p
          ≡ record { crc = record_crc t payload; len = length payload; kind = t } =
        ap parse_header here ∙ parse_header-physical t payload rest small in
      let kind : byte_at p 6 ≡ t =
        ap (λ (q : Bytes). byte_at q 6) here ∙ type_byte-physical t payload rest in
      let body : take (length payload) (drop 7 p) ≡ payload =
        ap (λ (q : Bytes). take (length payload) (drop 7 q)) here
        ∙ payload-physical t payload rest in
      ground arith

  -- The same of a record that begins what is left to read.
  read_unpadded :
      (fuel : ℕ) (r : LogReader R) (t : RecordType) (payload rest : Bytes)
      → Unread r (physical t payload ++ rest)
      → r.block_offset + (7 + length payload) ≤ block_size
      → length payload < 2 ^ 16
      → known_type t ≡ true
      → (r' : LogReader R) × (read_physical_loop file (suc fuel) r ≡ (got (t, payload), r'))
        × Unread r' rest
        × (r'.block_offset ≡ r.block_offset + (7 + length payload))
        × (r'.truncated ≡ r.truncated)
        × (is_damaged file r' ≡ is_damaged file r)
  read_unpadded fuel r t payload rest u room small known =
      let size : length (physical t payload) ≡ 7 + length payload = length-physical t payload in
      let there : 7 + length payload + length rest
          ≡ length (drop r.block_offset r.block) + length (file.left r.source) =
        omega (
          arith,
          ap (λ (bs : Bytes). length bs) u.bytes,
          length-append (drop r.block_offset r.block) (file.left r.source),
          length-append (physical t payload) rest,
        ) in
      let long : 7 + length payload ≤ length (drop r.block_offset r.block) =
        long_enough r (7 + length payload) u.whole room (omega arith) in
      let (m, here, behind) =
        append_prefix (drop r.block_offset r.block) (file.left r.source) (physical t payload) rest
          u.bytes (omega arith) in
      let fits : r.block_offset + 7 + length payload ≤ length r.block =
        omega (arith, length-drop r.block_offset r.block) in
      let r' : LogReader R = record r { block_offset = r.block_offset + 7 + length payload } in
      (
        r',
        read_here fuel r t payload m here fits small known,
        record {
          bytes =
              ap (λ (bs : Bytes). bs ++ file.left r.source)
                (drop_behind t payload m r.block r.block_offset here)
              ∙ behind;
          whole = u.whole;
          inside = fits;
          running = u.running;
        },
        omega arith,
        refl,
        refl,
      )
    where
      long_enough :
          (r : LogReader R) (n : ℕ)
          → (length r.block ≡ block_size)
            ⊎ ((length r.block < block_size) × (file.left r.source ≡ []))
          → r.block_offset + n ≤ block_size
          → n ≤ length (drop r.block_offset r.block) + length (file.left r.source)
          → n ≤ length (drop r.block_offset r.block)
      long_enough r n (inl whole) h all = omega (arith, length-drop r.block_offset r.block)
      long_enough r n (inr (short, ended)) h all =
          omega (arith, ap (λ (bs : Bytes). length bs) ended)

  -- Reading never fails.
  abbrev pub NeverFails : Type 0
  NeverFails = (n : ℕ) (s : R) → (file.read n s).0 ≡ ok

  module _ (never : NeverFails) where
    read_ok :
        (n : ℕ) (s : R)
        → ((file.read n s).1 ≡ take n (file.left s))
          × (file.left (file.read n s).2 ≡ drop n (file.left s))
    read_ok n s =
        file.read_reads n s (file.read n s).2 (file.read n s).1 (ground (arith, never n s))

    chunk_empty : (s : R) → is_empty (file.read block_size s).1 ≡ is_empty (file.left s)
    chunk_empty s =
        ap is_empty (read_ok block_size s).0 ∙ is_empty-take (block_size - 1) (file.left s)

    -- A block is loaded while there is something left.
    pub load_reads :
        (r : LogReader R) → (load_next_block file r).0 ≡ not (is_empty (file.left r.source))
    unfolding load_next_block
    load_reads r = ground (arith, never block_size r.source, chunk_empty r.source)

    pub load_steps :
        (r : LogReader R)
        → ((load_next_block file r).1.block ≡ (file.read block_size r.source).1)
          × ((load_next_block file r).1.source ≡ (file.read block_size r.source).2)
          × ((load_next_block file r).1.block_offset ≡ 0)
          × ((load_next_block file r).1.truncated ≡ r.truncated)
          × (is_damaged file (load_next_block file r).1 ≡ is_damaged file r)
          × ((load_next_block file r).1.eof
              ≡ (if is_empty (file.left r.source) then true else r.eof))
    unfolding load_next_block
    load_steps r = ground (arith, never block_size r.source, chunk_empty r.source)

    load_block :
        (r : LogReader R) → (load_next_block file r).1.block ≡ take block_size (file.left r.source)
    load_block r = (load_steps r).0 ∙ (read_ok block_size r.source).0

    load_left :
        (r : LogReader R)
        → file.left (load_next_block file r).1.source ≡ drop block_size (file.left r.source)
    load_left r = ap file.left (load_steps r).1 ∙ (read_ok block_size r.source).1

    -- Behind a load the reader stands before all that was left.
    pub load-Unread :
        (r : LogReader R) (todo : Bytes)
        → file.left r.source ≡ todo
        → is_empty todo ≡ false
        → r.eof ≡ false
        → Unread (load_next_block file r).1 todo
    load-Unread r todo same more running = record {
      bytes =
          rw ((load_steps r).2, load_block r, load_left r, same) (take-append-drop block_size todo);
      whole = rw (load_block r, load_left r, same) (take_whole block_size todo);
      inside = rw (load_steps r).2 (omega arith);
      running = rw ((load_steps r).5, same, more) running;
    }

    -- Behind padding the block is whole, and the source has the rest.
    padding_fills :
        (r : LogReader R) (rest : Bytes)
        → Unread r (padding r.block_offset ++ rest)
        → r.block_offset ≤ block_size
        → ltb (block_size - r.block_offset) header_size ≡ true
        → is_empty rest ≡ false
        → (length r.block ≡ block_size) × (file.left r.source ≡ rest)
    padding_fills r rest u inside full_block more =
        let size : length (padding r.block_offset) ≡ block_size - r.block_offset =
          unfold padding in rw full_block (length-replicate (block_size - r.block_offset) 0) in
        let filled = fills r u.whole (
          omega (
            arith,
            ap (λ (bs : Bytes). length bs) u.bytes,
            length-append (drop r.block_offset r.block) (file.left r.source),
            length-append (padding r.block_offset) rest,
            length-pos rest more,
          )) in
        (
          filled,
          append_cancel (drop r.block_offset r.block) (file.left r.source) (padding r.block_offset)
              rest u.bytes (omega (arith, length-drop r.block_offset r.block)),
        )
      where
        fills :
            (r : LogReader R)
            → (length r.block ≡ block_size)
              ⊎ ((length r.block < block_size) × (file.left r.source ≡ []))
            → block_size - r.block_offset
              < length (drop r.block_offset r.block) + length (file.left r.source)
            → length r.block ≡ block_size
        fills r (inl whole) h = whole
        fills r (inr (short, ended)) h = absurd (
            omega (arith, length-drop r.block_offset r.block, ap (λ (bs : Bytes). length bs) ended))

    loop_loads :
        (fuel : ℕ) (r : LogReader R)
        → length r.block ≡ block_size
        → ltb (block_size - r.block_offset) header_size ≡ true
        → (load_next_block file r).0 ≡ true
        → read_physical_loop file (suc fuel) r
          ≡ read_physical_loop file fuel (load_next_block file r).1
    unfolding read_physical_loop
    loop_loads fuel r filled full_block loaded = ground arith

    -- A physical record is read wherever it stands, behind the padding of a block that is full too.
    pub read_padded :
        (r : LogReader R) (t : RecordType) (payload rest : Bytes)
        → Unread r (padding r.block_offset ++ (physical t payload ++ rest))
        → r.block_offset ≤ block_size
        → start r.block_offset + (7 + length payload) ≤ block_size
        → length payload < 2 ^ 16
        → known_type t ≡ true
        → (r' : LogReader R) × (read_physical_record file r ≡ (got (t, payload), r'))
          × Unread r' rest
          × (r'.block_offset ≡ start r.block_offset + (7 + length payload))
          × (r'.truncated ≡ r.truncated)
          × (is_damaged file r' ≡ is_damaged file r)
    unfolding read_physical_record
    read_padded r t payload rest u inside room small known =
        elim (Bool-cases (ltb (block_size - r.block_offset) header_size)) [
          | inr enough ↦
              let pad : padding r.block_offset ≡ [] = unfold padding in rw enough refl in
              let at : start r.block_offset ≡ r.block_offset = unfold start in rw enough refl in
              rw at (read_unpadded 1 r t payload rest (rw pad at u) (rw at at room) small known)
          | inl full_block ↦
              let at : start r.block_offset ≡ 0 = unfold start in rw full_block refl in
              let (filled, behind) =
                padding_fills r (physical t payload ++ rest) u inside full_block
                  (is_empty-physical t payload rest) in
              let (r', read, u', offset, same, undamaged) =
                read_unpadded 0 (load_next_block file r).1 t payload rest
                  (load-Unread r (physical t payload ++ rest) behind
                    (is_empty-physical t payload rest) u.running)
                  (rw (load_steps r).2 (rw at at room)) small known in
              (
                r',
                loop_loads 1 r filled full_block (
                      load_reads r
                      ∙ ap (λ (bs : Bytes). not (is_empty bs)) behind
                      ∙ ap not (is_empty-physical t payload rest))
                    ∙ read,
                u',
                offset ∙ ap (λ (n : ℕ). n + (7 + length payload)) ((load_steps r).2 ∙ sym at),
                same ∙ (load_steps r).3,
                undamaged ∙ (load_steps r).4,
              )
        ]
