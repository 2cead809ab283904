-- ===== src/Tests/Log.antt =====
-- wal.cpp over files in memory.
use ambar.Prelude.{
  List, true, false, some, none, [], ◌∷◌, ◌++◌, ◌+◌, Bytes, length, take, drop, ◌≡◌, ◌≢◌, refl, ap,
  sym,
}
use ambar.Status.{Status, ok}
use ambar.File.{WritableFile, SequentialFile}
use ambar.Encoding.{put_fixed32, encode_fixed32, decode_fixed32}
use ambar.Crc.{crc32c_extend}
use ambar.Wal.{record_header, record_crc, is_zeroed, parse_header, verifies}
use ambar.Wal.Writer.{
  add_record_loop, start_block, emit_physical_record, LogWriter, new_writer, add_record,
}
use ambar.Wal.Writer.Ends.{add_record_total}
use ambar.Wal.Writer.Encodes.{encoded, end_offset, add_record_appends}
use ambar.Wal.Reader.{
  LogReader, new_reader, is_damaged, read_record, load_next_block, read_logical,
  read_physical_record, read_physical_loop, stop, readable_record_follows,
}
use ambar.Wal.Recovery.{add_all, read_all}
use ambar.Wal.Recovery.RoundTrip.{read_all-add_all}

abbrev memory_out : WritableFile Bytes
memory_out = record {
  append = λ bytes f. (ok, f ++ bytes);
  flush = λ f. (ok, f);
  sync = λ f. (ok, f);
  close = λ f. (ok, f);
  contents = λ f. f;
  append_appends = λ bytes f f' e. sym (ap (λ (p : Status × Bytes). p.1) e);
}

abbrev memory_in : SequentialFile Bytes
memory_in = record {
  read = λ n r. (ok, take n r, drop n r);
  left = λ r. r;
  read_reads = λ n r r' chunk e. (
    sym (ap (λ (p : Status × Bytes × Bytes). p.1) e),
    sym (ap (λ (p : Status × Bytes × Bytes). p.2) e),
  );
}

abbrev two_records : List Bytes
two_records = (1 ∷ 2 ∷ 3 ∷ []) ∷ ([] ∷ [])

-- The writer behind both records.
abbrev written : LogWriter Bytes
written = record {
  dest = 27 ∷ 176 ∷ 118 ∷ 4 ∷ 3 ∷ 0 ∷ 1 ∷ 1 ∷ 2 ∷ 3 ∷ 82 ∷ 208 ∷ 22 ∷ 160 ∷ 0 ∷ 0 ∷ 1 ∷ [];
  offset = 17;
  bytes_written = 17;
}

both_added : add_all memory_out (new_writer memory_out []) two_records ≡ some (ok, written)
unfolding add_all add_record add_record_loop start_block emit_physical_record record_header
    put_fixed32 encode_fixed32 record_crc crc32c_extend
both_added = refl

read_all-add_all_example :
    (r : LogReader Bytes) × (read_all memory_in 3 (new_reader memory_in written.dest)
      ≡ some (two_records, r))
    × (r.truncated ≡ false)
    × (is_damaged memory_in r ≡ false)
read_all-add_all_example =
    read_all-add_all memory_out memory_in [] written written.dest two_records (λ n s. refl) refl
      both_added refl

-- The writer behind the first.
abbrev begun : LogWriter Bytes
begun = record {
  dest = 27 ∷ 176 ∷ 118 ∷ 4 ∷ 3 ∷ 0 ∷ 1 ∷ 1 ∷ 2 ∷ 3 ∷ [];
  offset = 10;
  bytes_written = 10;
}

one_added : add_record memory_out (new_writer memory_out []) (1 ∷ 2 ∷ 3 ∷ []) ≡ some (ok, begun)
unfolding add_record add_record_loop start_block emit_physical_record record_header put_fixed32
    encode_fixed32 record_crc crc32c_extend
one_added = refl

add_record_appends_example :
    (begun.dest ≡ [] ++ encoded 5 0 (1 ∷ 2 ∷ 3 ∷ []) true)
    × (10 ≡ end_offset 5 0 (1 ∷ 2 ∷ 3 ∷ []))
    × (10 ≡ 0 + length (encoded 5 0 (1 ∷ 2 ∷ 3 ∷ []) true))
add_record_appends_example =
    add_record_appends memory_out (new_writer memory_out []) begun (1 ∷ 2 ∷ 3 ∷ []) one_added

add_record_total_example : add_record memory_out begun (4 ∷ []) ≢ none
add_record_total_example = add_record_total memory_out begun (4 ∷ [])

-- One changed byte of the first record's payload, with the second record whole behind it: the reader
-- stops before the first, and reports damage.
abbrev damaged_file : Bytes
damaged_file = 27 ∷ 176 ∷ 118 ∷ 4 ∷ 3 ∷ 0 ∷ 1 ∷ 1 ∷ 9 ∷ 3 ∷ 82 ∷ 208 ∷ 22 ∷ 160 ∷ 0 ∷ 0 ∷ 1 ∷ []

damage_found :
    is_damaged memory_in (read_record memory_in (new_reader memory_in damaged_file)).1 ≡ true
unfolding read_record load_next_block read_logical read_physical_record read_physical_loop is_zeroed
    parse_header record_crc crc32c_extend decode_fixed32 stop readable_record_follows verifies
damage_found = refl

-- The same byte with nothing whole behind it: a torn tail.
abbrev torn_file : Bytes
torn_file = 27 ∷ 176 ∷ 118 ∷ 4 ∷ 3 ∷ 0 ∷ 1 ∷ 1 ∷ 9 ∷ 3 ∷ 82 ∷ 208 ∷ 22 ∷ 160 ∷ 0 ∷ 0 ∷ []

tear_found :
    (is_damaged memory_in (read_record memory_in (new_reader memory_in torn_file)).1 ≡ false)
    × ((read_record memory_in (new_reader memory_in torn_file)).1.truncated ≡ true)
unfolding read_record load_next_block read_logical read_physical_record read_physical_loop is_zeroed
    parse_header record_crc crc32c_extend decode_fixed32 stop readable_record_follows
tear_found = (refl, refl)
