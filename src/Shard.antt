-- ===== src/Shard.antt =====
-- src/format/shard.rs: the binary form of a shard, a table of files, xorbs and chunks.
pub mod Header
pub mod Footer
pub mod FileSequence
pub mod XorbSequence
pub mod ChunkLookup
pub mod RoundTrip
pub mod Sizes
pub mod Sections
pub mod Layout
pub mod Parse
pub mod Total
