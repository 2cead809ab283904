-- ===== src/Tests.antt =====
-- The code on concrete input: encoding, keys, batches, the log, filters, tables, blocks, edits, names
-- of files and iterators.
pub mod Encoding
pub mod Keys
pub mod Batch
pub mod Log
pub mod Filter
pub mod Table
pub mod Block
pub mod Edit
pub mod FilterBlock
pub mod Names
pub mod Merge
pub mod TwoLevel
