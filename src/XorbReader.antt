-- ===== src/XorbReader.antt =====
-- src/xorb_reader.rs: a chunk is read from the file of a xorb, verified and decompressed.
pub mod Extract
use xet_server.Prelude.{ℕ, String, ◌+◌, ◌/◌, ◌%◌, not, ◌==◌, ltb, Bool, true, false, List, ◌++◌}
use xet_server.Reply.{Reply, ◌>>=◌, ◌>>◌, map_err, fail_if}
use xet_server.Hash.{MerkleHash, eq_hash}
use xet_server.Hash.Keyed.{Blake3, compute_data_hash}
use xet_server.Chunking.{default_config, max_chunk_size}
use xet_server.Compression.{
  CompressionScheme, none_scheme, lz4, byte_grouping4_lz4, Lz4, decompress,
}
use xet_server.Xorb.ChunkHeader.{XorbChunkHeader, chunk_header_size}
use xet_server.Xorb.VerifyFile.{read_exact_at, parse_header}

unfoldable pub max_compressed_len_for_chunk : CompressionScheme → ℕ → ℕ
max_compressed_len_for_chunk none_scheme expected_uncompressed_len = expected_uncompressed_len
max_compressed_len_for_chunk lz4 expected_uncompressed_len =
    expected_uncompressed_len + expected_uncompressed_len / 255 + 20
max_compressed_len_for_chunk byte_grouping4_lz4 expected_uncompressed_len =
    expected_uncompressed_len + expected_uncompressed_len / 255 + 20

unfoldable pub extract_chunk_verified_from_file :
    Blake3 → Lz4 → List ℕ → ℕ → ℕ → MerkleHash → Reply (List ℕ)
extract_chunk_verified_from_file blake3 codec content chunk_offset_bytes expected_uncompressed_len
      expected_hash =
    do
      header_bytes ←
          map_err (read_exact_at content chunk_offset_bytes chunk_header_size)
            "Failed to read chunk header"
      chunk_header ← map_err (parse_header header_bytes) "Failed to parse chunk header"
      fail_if (ltb (max_chunk_size default_config) expected_uncompressed_len)
          "Shard chunk length exceeds maximum"
      fail_if (not (chunk_header.uncompressed_length == expected_uncompressed_len))
          "Chunk length mismatch"
      let max_compressed_len =
          max_compressed_len_for_chunk chunk_header.compression_scheme expected_uncompressed_len
      fail_if (ltb max_compressed_len chunk_header.compressed_length)
          "Chunk compressed length exceeds maximum"
      compressed_data ←
          map_err
            (read_exact_at content (chunk_offset_bytes + chunk_header_size)
              chunk_header.compressed_length)
            "Failed to read chunk data"
      let actual_hash = compute_data_hash blake3 (header_bytes ++ compressed_data)
      fail_if (not (eq_hash actual_hash expected_hash)) "Chunk hash mismatch"
      map_err
          (decompress codec chunk_header.compression_scheme compressed_data
            chunk_header.uncompressed_length)
          "Failed to decompress chunk"
