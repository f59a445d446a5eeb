-- ===== src/XorbBuilder.antt =====
-- src/format/xorb_builder.rs: the chunks of a xorb as they are added, and the xorb that is built. The
-- build is a release build: the 32-bit sums wrap.
pub mod Invariant
pub mod Chunks
pub mod Ident
pub mod Build
use xet_server.Prelude.{ℕ, ◌+◌, ◌%◌, ◌^◌, List, [], ◌∷◌, ◌++◌, length, map, flat_map, sum_by}
use xet_server.Outcome.{Outcome, ok, ◌>>=◌, ◌>>◌}
use xet_server.Hash.{MerkleHash}
use xet_server.Hash.Keyed.{Blake3, compute_data_hash}
use xet_server.Hash.Hex.{Hex}
use xet_server.MerkleTree
use xet_server.MerkleTree.{Node}
use xet_server.Compression.{CompressionScheme, Lz4, compress}
use xet_server.Xorb.ChunkHeader.{XorbChunkHeader, serialize}
use xet_server.Xorb.ObjectInfo.{XorbObjectInfoV1, to_bytes}
use xet_server.Xorb.Verify.{verify_xorb}

pub record ChunkData : Type 0 where
  pub chunk_hash : MerkleHash
  pub serialized_chunk : List ℕ
  pub compressed_len : ℕ
  pub uncompressed_size : ℕ
  pub boundary_offset : ℕ
  pub unpacked_offset : ℕ

pub record XorbBuildResult : Type 0 where
  pub «data» : List ℕ
  pub xorb_hash : MerkleHash
  pub chunk_hashes : List MerkleHash
  pub total_uncompressed_size : ℕ
  pub total_compressed_size : ℕ

pub record XorbBuilder : Type 0 where
  pub chunks : List ChunkData
  pub compression_scheme : CompressionScheme
  pub next_boundary_offset : ℕ
  pub next_unpacked_offset : ℕ

-- `XorbBuilder::new`
abbrev pub new : CompressionScheme → XorbBuilder
new scheme = record {
  chunks = [];
  compression_scheme = scheme;
  next_boundary_offset = 0;
  next_unpacked_offset = 0;
}

-- The header that `add_chunk` writes before the compressed data.
abbrev pub chunk_header : XorbBuilder → List ℕ → List ℕ → XorbChunkHeader
chunk_header b bs compressed_data = record {
  version = 1;
  compressed_length = length compressed_data % 2 ^ 32;
  compression_scheme = b.compression_scheme;
  uncompressed_length = length bs % 2 ^ 32;
}

-- The chunk that `add_chunk` pushes.
abbrev pub chunk_data : Blake3 → XorbBuilder → List ℕ → List ℕ → ChunkData
chunk_data blake3 b bs compressed_data =
    let chunk_bytes : List ℕ = serialize (chunk_header b bs compressed_data) ++ compressed_data in
    record {
      chunk_hash = compute_data_hash blake3 chunk_bytes;
      serialized_chunk = chunk_bytes;
      compressed_len = length compressed_data % 2 ^ 32;
      uncompressed_size = length bs % 2 ^ 32;
      boundary_offset = (b.next_boundary_offset + length chunk_bytes % 2 ^ 32) % 2 ^ 32;
      unpacked_offset = b.next_unpacked_offset;
    }

-- The builder behind a push of the chunk.
abbrev pub push_chunk : XorbBuilder → ChunkData → XorbBuilder
push_chunk b c = record {
  chunks = b.chunks ++ (c ∷ []);
  compression_scheme = b.compression_scheme;
  next_boundary_offset = c.boundary_offset;
  next_unpacked_offset = (b.next_unpacked_offset + c.uncompressed_size) % 2 ^ 32;
}

unfoldable pub add_chunk :
    Blake3 → Lz4 → XorbBuilder → List ℕ → Outcome (XorbBuilder × (MerkleHash × ℕ))
add_chunk blake3 codec b bs = do
  compressed_data ← compress codec b.compression_scheme bs
  let c = chunk_data blake3 b bs compressed_data
  ok (push_chunk b c, (c.chunk_hash, c.compressed_len))

abbrev pub serialized_node : ChunkData → Node
serialized_node c = (c.chunk_hash, length c.serialized_chunk)

-- The bytes of the chunks, one behind the other.
abbrev pub chunk_bytes : List ChunkData → List ℕ
chunk_bytes cs = flat_map (λ (c : ChunkData). c.serialized_chunk) cs

-- The footer that `build` writes.
abbrev pub built_footer : List ChunkData → MerkleHash → XorbObjectInfoV1
built_footer cs xorb_hash_val = record {
  xorb_hash = xorb_hash_val;
  chunk_hashes = map (λ (c : ChunkData). c.chunk_hash) cs;
  chunk_boundary_offsets = map (λ (c : ChunkData). c.boundary_offset) cs;
  unpacked_chunk_offsets = map (λ (c : ChunkData). c.unpacked_offset) cs;
}

-- `XorbBuilder::xorb_hash`
unfoldable pub xorb_hash : Blake3 → Hex → XorbBuilder → Outcome MerkleHash
xorb_hash blake3 hex b = MerkleTree.xorb_hash blake3 hex (map serialized_node b.chunks)

unfoldable pub chunk_info : XorbBuilder → List Node
chunk_info b = map (λ (c : ChunkData). (c.chunk_hash, c.uncompressed_size)) b.chunks

unfoldable pub build : Blake3 → Hex → XorbBuilder → Outcome XorbBuildResult
build blake3 hex b = do
  xorb_hash_val ← MerkleTree.xorb_hash blake3 hex (map serialized_node b.chunks)
  let footer = built_footer b.chunks xorb_hash_val
  let buf = chunk_bytes b.chunks ++ to_bytes footer
  verify_xorb blake3 hex buf
  ok (record {
    «data» = buf;
    xorb_hash = xorb_hash_val;
    chunk_hashes = footer.chunk_hashes;
    total_uncompressed_size = sum_by (λ (c : ChunkData). c.uncompressed_size) b.chunks % 2 ^ 64;
    total_compressed_size = sum_by (λ (c : ChunkData). c.compressed_len) b.chunks % 2 ^ 64;
  })
