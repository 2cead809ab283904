-- ===== src/Wal/Reader.antt =====
-- wal.cpp: `LogReader`, over any source.
pub mod Headers
pub mod Blocks
pub mod Fragments
pub mod Records
use Prim.Native.String.{String}
use text.Mathlib.Text.{◌==◌ as str_eq}
use ambar.Prelude.{
  ℕ, zero, suc, ◌+◌, ◌-◌, Bool, true, false, not, ◌&&◌, List, [], ◌∷◌, ◌++◌, Bytes, length, take,
  drop, ltb, leb, ◌==◌, if◌then◌else◌,
}
use ambar.Status.{Status, is_ok, to_string}
use ambar.File.{SequentialFile}
use ambar.Wal.{
  block_size, header_size, RecordType, full, first, middle, last, Header, parse_header, is_zeroed,
  known_type, verifies, record_crc, byte_at,
}

pub record LogReader (R : Type 0) : Type 0 where
  pub source : R
  pub block : Bytes
  pub block_offset : ℕ
  pub eof : Bool
  pub truncated : Bool
  pub damaged : Bool
  pub read_failed : Bool
  pub failure_reason : String

-- What a reading function returns: `true` and what it found, `false`, or that the model's fuel ran
-- out, which the theorems exclude.
pub data Reading (A : Type 0) : Type 0 where
  got : A → Reading A
  no_more : Reading A
  unfinished : Reading A

abbrev pub is_empty : Bytes → Bool
is_empty [] = true
is_empty (b ∷ bs) = false

abbrev all_zero : Bytes → Bool
all_zero [] = true
all_zero (b ∷ bs) = b == 0 && all_zero bs

-- `verifies_to_block_end`: fuel, the block, `offset` and `any`.
verifies_loop : ℕ → Bytes → ℕ → Bool → Bool
verifies_loop zero block offset any = false
verifies_loop (suc fuel) block offset any =
    let p = drop offset block in
    let h = parse_header p in
    let behind = offset + header_size + h.len in
    let more = verifies_loop fuel block behind true in
    let rest = any && all_zero p in
    if leb (offset + header_size) (length block)
    then if is_zeroed h
      then rest
      else if ltb (length block) behind
      then false
      else if verifies p h
      then more
      else false
    else rest

unfoldable pub verifies_to_block_end : Bytes → ℕ → Bool
unfolding verifies_loop
verifies_to_block_end block start = verifies_loop (length block + 1) block start false

-- The first loop of `readable_record_follows`: along the length fields.
walk_loop : ℕ → Bytes → ℕ → Bool
walk_loop zero block walk = false
walk_loop (suc fuel) block walk =
    let p = drop walk block in
    let h = parse_header p in
    let behind = walk + header_size + h.len in
    let next = walk_loop fuel block (if is_zeroed h then walk + 1 else behind) in
    if leb (walk + header_size) (length block)
    then if is_zeroed h
      then next
      else if ltb (length block) behind
      then false
      else if verifies p h
      then true
      else next
    else false

-- The second: from every byte.
scan_loop : ℕ → Bytes → ℕ → Bool
unfolding verifies_to_block_end
scan_loop zero block at = false
scan_loop (suc fuel) block at =
    let h = parse_header (drop at block) in
    let next = scan_loop fuel block (at + 1) in
    let chain = verifies_to_block_end block at in
    if leb (at + header_size) (length block)
    then if not (known_type h.kind)
      then next
      else if ltb (length block) (at + header_size + h.len)
      then next
      else if chain
      then true
      else next
    else false

module _ {R : Type 0} (file : SequentialFile R) where
  abbrev pub new_reader : R → LogReader R
  new_reader source = record {
    source = source;
    block = [];
    block_offset = 0;
    eof = false;
    truncated = false;
    damaged = false;
    read_failed = false;
    failure_reason = "";
  }

  -- `damaged()`
  abbrev pub is_damaged : LogReader R → Bool
  is_damaged r = if r.damaged then true else r.read_failed

  -- What a failed read leaves in the block is not looked at again.
  unfoldable pub load_next_block : LogReader R → Bool × LogReader R
  load_next_block r =
      let (status, chunk, source') = file.read block_size r.source in
      let loaded = record r { source = source'; block = chunk; block_offset = 0 } in
      if is_ok status
      then if is_empty chunk then (false, record loaded { eof = true }) else (true, loaded)
      else (
        false,
        record r {
          source = source';
          block = chunk;
          truncated = true;
          read_failed = true;
          failure_reason = to_string status;
          eof = true;
        },
      )

  -- Fuel, the reader, `walk_from` and `scan_from`.
  readable_loop : ℕ → LogReader R → ℕ → ℕ → Bool × LogReader R
  unfolding walk_loop scan_loop
  readable_loop zero r walk_from scan_from = (false, r)
  readable_loop (suc fuel) r walk_from scan_from =
      let (status, chunk, source') = file.read block_size r.source in
      let loaded = record r { source = source'; block = chunk } in
      let more = readable_loop fuel loaded 0 0 in
      if walk_loop (length r.block + 1) r.block walk_from
      then (true, r)
      else if scan_loop (length r.block + 1) r.block scan_from
      then (true, r)
      else if ltb (length r.block) block_size
      then (false, r)
      else if is_ok status
      then if is_empty chunk then (false, loaded) else more
      else (false, record loaded { read_failed = true })

  -- Every round but the last takes a byte of the source at least.
  unfoldable pub readable_record_follows : LogReader R → ℕ → ℕ → Bool × LogReader R
  unfolding readable_loop
  readable_record_follows r walk_from scan_from =
      readable_loop (length (file.left r.source) + 2) r walk_from scan_from

  unfoldable pub stop : LogReader R → String → ℕ → LogReader R
  stop r reason resume_offset =
      let scan_from =
        if ltb resume_offset (r.block_offset + 1) then resume_offset else r.block_offset + 1 in
      let stopped = record r { truncated = true; eof = true; failure_reason = reason } in
      let (found, r') = readable_record_follows stopped resume_offset scan_from in
      record r' { damaged = found }

  -- The loop runs again only behind a block that was loaded, and then not twice.
  unfoldable pub read_physical_loop : ℕ → LogReader R → Reading (RecordType × Bytes) × LogReader R
  read_physical_loop zero r = (unfinished, r)
  read_physical_loop (suc fuel) r =
      let (loaded, r₁) = load_next_block r in
      let again = read_physical_loop fuel r₁ in
      let p = drop r.block_offset r.block in
      let h = parse_header p in
      let behind = r.block_offset + header_size + h.len in
      if ltb (length r.block) (r.block_offset + header_size)
      then if length r.block == block_size
        then if loaded then again else (no_more, r₁)
        else if ltb r.block_offset (length r.block)
        then (no_more, stop r "partial record header at end of log" (length r.block))
        else (no_more, record r { eof = true })
      else if is_zeroed h
      then (no_more, stop r "zeroed span where a record header should be" r.block_offset)
      else if ltb (length r.block) behind
      then (no_more, stop r "record length runs past the end of the log" (length r.block))
      else if record_crc (byte_at p 6) (take h.len (drop header_size p)) == h.crc
      then (got (h.kind, take h.len (drop header_size p)), record r { block_offset = behind })
      else (no_more, stop r "checksum mismatch" behind)

  unfoldable pub read_physical_record : LogReader R → Reading (RecordType × Bytes) × LogReader R
  read_physical_record r = read_physical_loop 2 r

  -- Ran out inside a record: the write never completed.
  abbrev pub cut_short : LogReader R → LogReader R
  cut_short r = record r {
    truncated = true;
    failure_reason =
        if str_eq r.failure_reason ""
        then "log ends in the middle of a fragmented record"
        else r.failure_reason;
  }

  -- The loop of `read_record` behind the first fragment: fuel, the reader and `scratch`.
  unfoldable pub read_rest : ℕ → LogReader R → Bytes → Reading Bytes × LogReader R
  read_rest zero r scratch = (unfinished, r)
  read_rest (suc fuel) r scratch = elim (read_physical_record r).0 [
    | got (t, fragment) ↦
        let r₁ = (read_physical_record r).1 in
        let more = read_rest fuel r₁ (scratch ++ fragment) in
        if t == middle then more else if t == last then (got (scratch ++ fragment), r₁) else (
          no_more,
          stop r₁ "unexpected fragment type inside a record"
              (r₁.block_offset - header_size - length fragment),
        )
    | no_more ↦ (no_more, cut_short (read_physical_record r).1)
    | unfinished ↦ (unfinished, r)
  ]

  -- Every fragment takes its header of what is left.
  abbrev pub unread : LogReader R → ℕ
  unread r = length r.block + length (file.left r.source)

  -- `read_record` behind its two guards.
  unfoldable pub read_logical : LogReader R → Reading Bytes × LogReader R
  read_logical r = elim (read_physical_record r).0 [
    | got (t, fragment) ↦
        let r₁ = (read_physical_record r).1 in
        if t == full
        then (got fragment, r₁)
        else if not (t == first)
        then (
          no_more,
          stop r₁ "log begins with a continuation fragment"
              (r₁.block_offset - header_size - length fragment),
        )
        else read_rest (unread r₁ + 1) r₁ fragment
    | no_more ↦ (no_more, (read_physical_record r).1)
    | unfinished ↦ (unfinished, r)
  ]

  unfoldable pub read_record : LogReader R → Reading Bytes × LogReader R
  read_record r =
      let (loaded, r₁) = load_next_block r in
      if r.eof
      then (no_more, r)
      else if is_empty r.block
      then if loaded then read_logical r₁ else (no_more, r₁)
      else read_logical r
