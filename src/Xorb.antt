-- ===== src/Xorb.antt =====
-- src/format/xorb.rs: xorbs, which hold the bytes of chunks.
pub mod ChunkHeader
pub mod ObjectInfo
pub mod Footer
pub mod Verify
pub mod VerifyFile
