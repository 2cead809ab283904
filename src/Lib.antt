-- ===== src/Lib.antt =====
-- Verification of ambar, an LSM key-value store.
--
-- A write reaches ambar as a batch of operations (WriteBatch), whose bytes are one record of the log
-- (LogWriter). Behind the log the batch is inserted into a memtable, each operation under a sequence
-- number of its own, as an entry whose key is an internal key: the user key, the sequence and the
-- type. After a crash the log is read record by record (LogReader), and each record is a batch again.
-- Tables on disk are sorted by the same internal keys, and shorten the keys of their indexes by the
-- comparator's separators. A table is made of blocks, whose entries share prefixes (BlockBuilder) and
-- which are searched by their restart points (Block); its filter block has a filter for each region of
-- the file, made by a policy (BloomFilterPolicy) that is given user keys (InternalFilterPolicy), and
-- answers for most keys that they are not there. A table is scanned by its index (TwoLevelIterator),
-- and several tables are merged (MergingIterator). Which tables there are is told by the manifest, a
-- log whose records are edits (VersionEdit). All of these write integers and strings by encoding.hpp.
--
-- The files, with paths from the repository's root:
--
-- Prelude, Prelude/*        what the other files share: Boolean tests, lists of bytes, bits of numbers.
-- Encoding, Encoding/*      src/encoding.hpp, src/encoding.cpp. Fixed32 and fixed64, varints (put_varint32,
--                           get_varint32, encode_varint32, decode_varint32_exact), length-prefixed strings.
-- Crc, Crc/*                src/encoding.cpp. crc32c, crc32c_extend and the table that they build.
-- Order                     the order of strings of bytes, which string_view::compare gives.
-- InternalKey, ...          src/dbformat.hpp, src/dbformat.cpp. ValueType, internal keys, their order, LookupKey.
-- Comparator, ...           src/comparator.hpp, src/comparator.cpp. Separators and successors of both comparators.
-- Status                    include/ambar/status.hpp, src/status.cpp.
-- WriteBatch, ...           include/ambar/write_batch.hpp, src/write_batch_internal.hpp, src/write_batch.cpp.
--                           Layout is the abstract view, a list of operations under a sequence number.
-- File                      src/file.hpp. WritableFile and SequentialFile as interfaces.
-- Wal, Wal/*                src/wal.hpp, src/wal.cpp. Wal/Writer is LogWriter, Wal/Reader is LogReader,
--                           Wal/Recovery what the one makes of the other's file.
-- Hash                      src/hash.hpp. hash64 and bloom_hash.
-- Bloom, Bloom/*            src/bloom.cpp. The filter policy: create_filter and key_may_match.
-- FilterPolicy, ...         include/ambar/filter_policy.hpp, src/internal_filter_policy.cpp. The interface, its promise
--                           (IsFilter), the policy over internal keys, and the keys that it is given
--                           (StoredKey).
-- FilterBlock, ...          src/filter_block.hpp, src/filter_block.cpp. FilterBlock/Blocks has the calls that a table's
--                           builder makes, data block by data block.
-- Format, Format/*          src/format.hpp, src/format.cpp. BlockHandle and Footer.
-- BlockBuilder, ...         src/block_builder.hpp, src/block_builder.cpp. BlockBuilder/Chain is the abstract view of
--                           the buffer, a chain of entries; BlockBuilder/Points that of the restart points.
-- Block, Block/*            src/block.hpp, src/block.cpp. The header, the iterator and its moves; Block/Find is the
--                           search, Block::find, seek, seek_to_last and prev.
-- FileName, FileName/*      src/filename.hpp, src/filename.cpp. The names of files, and their parsing.
-- Merger, Merger/*          include/ambar/iterator.hpp, src/merger.cpp. The interface of iterators, and MergingIterator.
-- TwoLevel, TwoLevel/*      src/two_level_iterator.cpp. An iterator over the blocks of an index.
-- VersionEdit, ...          src/version_edit.hpp, src/version_edit.cpp. VersionEdit/Stored is the well-formed edit,
--                           VersionEdit/Decoding is decode_from.
-- Tests/*                   runs on concrete input, and each property at a concrete input.
--
-- A byte is a number below 256, a string its list of bytes. An integer of w bits is a number below 2 ^
-- w, and what the source's type cuts off is cut by u32 and u64. A read outside a buffer, which the
-- source leaves undefined, gives 0; the source's guards stand in the model where they stand in the
-- code. An enum over a byte has the cases of the source, and other values that a cast may give. An
-- object is a record, and a member function that changes it returns the changed record. What a
-- function returns through a bool and an out parameter is an Option. A pointer into a block is the
-- offset from its start, and the bytes from there to a limit where the source passes both. The
-- iterator's value is a view that may be null; the distance of a null view from the block, which the
-- language leaves undefined, is a parameter (stray) of the iterator, and the properties hold for every
-- such number. The log writer's count of bytes is kept without the wrap at 2 ^ 64, and what is left of
-- its block is the size less the offset for an offset up to the size (the source's difference would
-- wrap beyond it). std::set is a list in its order without duplicates.
--
-- Files are interfaces, with the behaviour that src/file.hpp states as fields of the record: an append
-- without an error puts its bytes behind the contents; a read without an error gives up to n bytes of
-- what is left, and fewer at the end alone. A memtable is a parameter of the batch's insertion: any
-- function that adds an entry. The floating-point product from which a filter's number of probes comes
-- is a parameter of the policy's constructor. The filter block takes any policy. A block's comparator
-- is any record of functions; that it is transitive is a hypothesis of the search. The merging
-- iterator takes any iterator for its children, the two-level iterator any for its index and its
-- blocks, and the function that opens a block of a handle.
--
-- The loop of snprintf has a round for each of the 20 digits that a number of 64 bits has at most.
-- Loops that are not recursive in an argument have fuel, but for put_varint, which recurses along its
-- shrinking number. The writer's loop has two rounds more than the payload has bytes, since no round
-- but the first takes none of a payload that is not empty; iterate takes a byte of the batch in each
-- round; read_physical_record reads at most one new block before it returns; read_record takes the
-- seven bytes of a header in each round; the search behind damage takes a byte of the block in each
-- round, and a byte of the file in each block. decode_from takes a byte of the record in each round,
-- and has one round more than the record has bytes; the search over the restart points has as many
-- rounds as there are points; the walks over a block take three bytes of it in each round. The writer,
-- the reader and iterate have a value of their own for a run out of fuel, and so have decode_from, the
-- walks and the moves of the two-level iterator, whose rounds are those over empty blocks; the
-- searches and the hash stop there, where their loops have ended before.
--
-- Not modelled: the memtable and its skip list, the tables that blocks, filter blocks and footers make
-- up, compression, the caches, the version set, the database's iterators, set_current_file, the
-- database itself with its threads, the repair tool, and the implementations of the file interfaces,
-- which are system calls. VersionEdit::debug_string, which prints an edit, is left out. Allocation,
-- moves and the memory of views are not modelled.
pub mod Prelude
pub mod Encoding
pub mod Crc
pub mod Order
pub mod InternalKey
pub mod Comparator
pub mod Status
pub mod WriteBatch
pub mod File
pub mod Wal
pub mod Hash
pub mod Bloom
pub mod Format
pub mod BlockBuilder
pub mod Block
pub mod Merger
pub mod TwoLevel
pub mod FileName
pub mod FilterPolicy
pub mod FilterBlock
pub mod VersionEdit
pub mod Tests
