-- ===== src/Tests/Chunks.antt =====
-- Chunks: a target of 256 bytes, so that a chunk has 32 bytes at least and 512 at most.
use xet_server.Prelude.{
  ℕ, ◌+◌, ◌*◌, ◌^◌, ◌<◌, ◌≡◌, refl, List, [], ◌∷◌, flatten, length, replicate, arith,
}
use xet_server.Outcome.{ok, ◌>>=◌}
use xet_server.Chunking.{
  ChunkConfig, Chunk, Chunker, StreamingChunker, new_chunker, is_power_of_two, leading_zeros,
  bit_length, new_streaming, chunk_data, next_block, total_bytes,
}
use xet_server.Chunking.Cut.{IsChunker}
use xet_server.Chunking.Tiling.{Tiles, chunk_data-Tiles}
use xet_server.Chunking.Streaming.{chunk_blocks, chunk_blocks-chunk_data, next_block-total_bytes}
use xet_server.Tests.Data.{zero_gear, zero_gear-IsGearHash}

abbrev small_config : ChunkConfig
small_config = record { target_chunk_size = 256; min_chunk_divisor = 8; max_chunk_multiplier = 2 }

abbrev small_chunker : Chunker
small_chunker = record {
  hash = 0;
  config = small_config;
  mask = 255 * 2 ^ 56;
  min_chunk = 32;
  max_chunk = 512;
}

small_chunker-is_new : new_chunker small_config ≡ ok small_chunker
unfolding new_chunker is_power_of_two leading_zeros bit_length
small_chunker-is_new = refl

small_chunker-IsChunker : IsChunker small_chunker
small_chunker-IsChunker = (omega arith, omega arith)

abbrev some_blocks : List (List ℕ)
some_blocks = (1 ∷ 2 ∷ 0 ∷ []) ∷ replicate 40 5 ∷ (0 ∷ 9 ∷ []) ∷ []

abbrev some_stream : StreamingChunker
some_stream = record { chunker = small_chunker; buffer = 4 ∷ []; total_offset = 600 }

chunk_data-Tiles_example :
    (cs : List Chunk) × (c : Chunker) × (chunk_data zero_gear small_chunker (replicate 45 5)
      ≡ ok (cs, c))
    × Tiles 32 512 0 45 cs
chunk_data-Tiles_example =
    chunk_data-Tiles zero_gear small_chunker (replicate 45 5) zero_gear-IsGearHash
      small_chunker-IsChunker

chunk_blocks-chunk_data_example :
    (cs : List Chunk) × (c : Chunker) × ((new_streaming small_config >>= λ s.
    chunk_blocks zero_gear s some_blocks)
      ≡ ok cs)
    × (chunk_data zero_gear small_chunker (flatten some_blocks) ≡ ok (cs, c))
chunk_blocks-chunk_data_example =
    chunk_blocks-chunk_data zero_gear small_config small_chunker some_blocks zero_gear-IsGearHash
      (omega arith) small_chunker-is_new

next_block-total_bytes_example :
    (cs : List Chunk) × (s : StreamingChunker) × (next_block zero_gear some_stream (replicate 45 5)
      ≡ ok (cs, s))
    × (total_bytes s ≡ total_bytes some_stream + 45)
    × (length s.buffer < s.chunker.max_chunk)
next_block-total_bytes_example =
    next_block-total_bytes zero_gear some_stream (replicate 45 5) zero_gear-IsGearHash
      small_chunker-IsChunker
