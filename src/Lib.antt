-- ===== src/Lib.antt =====
-- A verification library for the storage formats and the chunking of xet-server.
--
-- The server stores files as chunks. A file is cut into chunks by content (src/chunking/cdc.rs), the
-- chunks are named by keyed hashes (src/hash/blake3_hash.rs, src/types/merkle_hash.rs), files and
-- xorbs by the root of a tree over their chunks (src/hash/merkle_tree.rs), and shards
-- (src/format/shard.rs) say of which chunks of which xorbs a file consists. A client or the
-- conversion service makes a shard with the builder (src/format/shard_builder.rs), and the server
-- parses what it is sent. The chunks of a xorb are compressed (src/format/compression.rs) and joined
-- by the builder of xorbs (src/format/xorb_builder.rs); the server verifies a xorb in memory or in a
-- file (src/format/xorb.rs), reads single chunks of it (src/xorb_reader.rs), checks an uploaded shard
-- against the stored xorbs (src/shard_validation.rs), and registers it in an index in memory, which it
-- builds again from the storage when it starts (src/index.rs).
--
-- Which file models which part:
--
-- - Prelude, Bytes: the shared names, lists on native numbers, and little-endian bytes.
-- - Outcome: src/error.rs. A fallible call is an `Outcome`: `ok`, `err`, or `panicked`. `out_of_fuel`
--   is no outcome of the program. A message is its fixed text.
-- - Reader: what the code uses of `std::io::Read` and `Seek` on a slice of bytes. `Cursor` is the
--   position and the bytes that follow; `read_exact` fails with `UnexpectedEof`. Reader/Reads,
--   Total and Ensures are the rules for what a reader takes, that it ends, and what its values
--   satisfy; Reader/Loops is for the section loops.
-- - Hash: src/types/merkle_hash.rs. Hash/Hex is `from_hex` and `to_hex` over the `hex` crate, a
--   parameter; Hash/Keyed is src/hash/blake3_hash.rs over the `blake3` crate, a parameter.
-- - Shard: src/format/shard.rs. A file for each record (Header, Footer, FileSequence, XorbSequence,
--   ChunkLookup), Sections for `parse_file_section` and `parse_xorb_section`, and Parse for
--   `parse_reader`, whose three sections are functions of their own (`read_files`, `read_xorbs`,
--   `read_lookups`). Layout states what a shard of given tables is, apart from the parser.
-- - ShardBuilder: src/format/shard_builder.rs. The builder is a record that the operations take and
--   return.
-- - Chunking: src/chunking/cdc.rs. `chunk_at` is a round of the loops of `chunk_data` and
--   `finalize`, which are the same code on a slice and on the buffer; `drain_loop` is
--   `drain_complete_chunks`. The `gearhash` crate is a parameter.
-- - MerkleTree: src/hash/merkle_tree.rs. `merge_pass` is the inner loop of `aggregated_node_hash`,
--   on the nodes that are left, and `collapse` the outer one.
-- - ReconstructionPlan: src/reconstruction_plan.rs, whose one function takes the tables of a parsed
--   shard to the chunks of a file. The hash maps are lists of their insertions, and an index or a
--   slice out of bounds panics.
-- - Slices: indexing, slicing and writing of vectors, which panic out of bounds. HashMap: the maps of
--   the index, as lists of entries.
-- - Compression: src/format/compression.rs. A loop of `bg4_split` is `split_group`, a loop of
--   `bg4_regroup` is `restore_group`, which writes into the result. The `lz4_flex` crate is a
--   parameter, with the documented prefix and bound, and a decompressor that undoes it.
-- - Xorb: src/format/xorb.rs. ChunkHeader and ObjectInfo are its two records, Verify is `verify_xorb`,
--   and VerifyFile is `verify_xorb_from_file_with_info` on the content of the file.
-- - XorbBuilder: src/format/xorb_builder.rs. XorbReader: src/xorb_reader.rs.
-- - Reply: the calls with messages as errors. A message is its fixed text.
-- - ShardValidation: src/shard_validation.rs. Xorbs is the loop over the xorbs, Files the one over the
--   files. The storage returns the object of a key or a message; a temporary file is its content.
-- - Index: src/index.rs. The two maps are a record that the operations take and return. Rebuild is
--   `rebuild_from_storage`, on the list of what the listing yields; a task is a function of its key.
-- - ReconstructionIo: src/reconstruction_io.rs, over what the storage and the parsing of stored shards
--   return. An error is its kind.
-- - TempQuota: the ledger of temporary disk usage of xet-common/src/lib.rs, which uploads and
--   reconstructions share. An operation on an atomic counter is a function of its own where another
--   thread can come between; Steps has the runs of whole calls, but for those of `account_existing`.
-- - CommitPath: hub/src/commit/validation.rs, the check of the paths that a commit of the hub names.
-- - AuthTypes: xet-auth-types/src/lib.rs, the tokens that the hub signs and the server verifies. What
--   it calls of libraries is a parameter, and the clock is an argument.
-- - Tests: concrete inputs.
--
-- Numbers are natural numbers. Where the code adds or multiplies with a check, so does the model;
-- casts to 32 bits and sums of 64 bits wrap. That a value fits its Rust type is a predicate of its
-- own (`IsHash`, `IsFooter`, `IsBuilder` and the others).
--
-- The loops of the sections run on fuel, one unit more than the bytes of the shard, and every
-- round reads a record. The loop of `chunk_data` has one unit for each byte, and every chunk has a
-- byte. The loop of `drain_complete_chunks` has one more than the bytes in the buffer.
-- The loop that reads a payload has a unit for each byte, and every read has a byte. The loop over the
-- batches of a rebuild has one more than the entries of the listing, and every batch but the last
-- takes one or more.
-- A pass of the tree has a unit for each node, and so have the passes, each of which leaves fewer
-- nodes.
--
-- Not modelled: `parse_from_file`, `compute_hash_from_file` and `hash_reader`, which read a file
-- in blocks; the opening of files and failed seeks; failed allocations; the texts that messages
-- insert; the creation and removal of temporary files; log entries. Storage, which validation
-- and rebuild take as an argument, the HTTP handlers, the stores of tokens and the rest of the
-- hub service call databases, the network and the file system.
pub mod Prelude
pub mod Outcome
pub mod Slices
pub mod Bytes
pub mod Reader
pub mod Hash
pub mod Shard
pub mod ShardBuilder
pub mod Chunking
pub mod CommitPath
pub mod AuthTypes
pub mod MerkleTree
pub mod ReconstructionPlan
pub mod Compression
pub mod Xorb
pub mod XorbBuilder
pub mod XorbReader
pub mod Reply
pub mod ShardValidation
pub mod HashMap
pub mod Index
pub mod ReconstructionIo
pub mod TempQuota
pub mod Tests
