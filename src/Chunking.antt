-- ===== src/Chunking.antt =====
-- src/chunking/cdc.rs: content-defined chunking, of a whole slice and of a stream of blocks.
pub mod Cut
pub mod Local
pub mod Tiling
pub mod Streaming
use xet_server.Prelude.{
  ℕ, zero, suc, ◌+◌, ◌-◌, ◌*◌, ◌/◌, ◌%◌, ◌^◌, min, max, Bool, true, false, not, ◌&&◌, ◌||◌, ltb,
  leb, ◌==◌, Option, none, some, List, [], ◌∷◌, ◌++◌, length, take, drop, if◌then◌else◌,
}
use Prim.Native.Nat.{bit_and}
use xet_server.Outcome.{Outcome, ok, panicked, out_of_fuel, ◌>>=◌}

pub record ChunkConfig : Type 0 where
  pub target_chunk_size : ℕ
  pub min_chunk_divisor : ℕ
  pub max_chunk_multiplier : ℕ

abbrev pub default_config : ChunkConfig
default_config = record {
  target_chunk_size = 64 * 1024;
  min_chunk_divisor = 8;
  max_chunk_multiplier = 2;
}

abbrev pub min_chunk_size : ChunkConfig → ℕ
min_chunk_size c = c.target_chunk_size / c.min_chunk_divisor

abbrev pub max_chunk_size : ChunkConfig → ℕ
max_chunk_size c = c.target_chunk_size * c.max_chunk_multiplier

pub record Chunk : Type 0 where
  pub offset : ℕ
  pub size : ℕ

-- `Hasher::next_match` of the `gearhash` crate: the hasher's hash, the data and the mask to a
-- position behind a match. The hash that it leaves is not modelled: the code sets it to 0 before
-- it is read again.
pub record GearHash : Type 0 where
  pub next_match : ℕ → List ℕ → ℕ → Option ℕ

-- The fields that both chunkers keep for the search.
pub record Chunker : Type 0 where
  pub hash : ℕ
  pub config : ChunkConfig
  pub mask : ℕ
  pub min_chunk : ℕ
  pub max_chunk : ℕ

-- The number of binary digits, for numbers below 2 ^ fuel.
unfoldable pub bit_length : ℕ → ℕ → ℕ
bit_length zero n = 0
bit_length (suc fuel) n = let rest = bit_length fuel (n / 2) in if n == 0 then 0 else suc rest

-- `u64::leading_zeros`
unfoldable pub leading_zeros : ℕ → ℕ
unfolding bit_length
leading_zeros n = 64 - bit_length 64 n

-- `usize::is_power_of_two`
unfoldable pub is_power_of_two : ℕ → Bool
is_power_of_two n = ltb 0 n && bit_and n (n - 1) == 0

-- `Chunker::new`, and the same fields of `StreamingChunker::new`. The division by a divisor of 0
-- panics, and so does the assertion. The build is a release build, so that the shift by 64 that a
-- target of 1 leads to is taken modulo 64. No configuration has a maximum of 2 ^ 64 or more: the
-- fields are private, and `default_config` is the only one that the library makes.
unfoldable pub new_chunker : ChunkConfig → Outcome Chunker
unfolding is_power_of_two leading_zeros
new_chunker config =
    let target = config.target_chunk_size in
    if not (config.min_chunk_divisor == 0) && is_power_of_two target
    then ok (record {
      hash = 0;
      config = config;
      mask = ((target - 1) * 2 ^ (leading_zeros (target - 1) % 64)) % 2 ^ 64;
      min_chunk = min_chunk_size config;
      max_chunk = max_chunk_size config;
    })
    else panicked

abbrev pub hasher_window_size : ℕ
hasher_window_size = 64

-- `match boundary { Some(pos) => …, None => … }`
abbrev pub boundary_size : Option ℕ → ℕ → ℕ → ℕ → ℕ
boundary_size (some pos) search_start search_end offset = search_start + pos - offset
boundary_size none search_start search_end offset = search_end - offset

-- A round of the loops of `chunk_data` and `finalize`: the size of the chunk that begins at
-- `offset`, and whether the loop breaks.
unfoldable pub chunk_at : GearHash → Chunker → List ℕ → ℕ → ℕ × Bool
chunk_at gear c bs offset =
    let remaining = length bs - offset in
    let search_start = offset + (c.min_chunk - (hasher_window_size + 1)) in
    let search_end = min (offset + c.max_chunk) (length bs) in
    if ltb remaining c.min_chunk
    then (remaining, true)
    else if leb (length bs) search_start || leb search_end search_start
    then (remaining, true)
    else (
      max
          (boundary_size
            (gear.next_match c.hash (take (search_end - search_start) (drop search_start bs))
              c.mask)
            search_start search_end offset)
          (min c.min_chunk remaining),
      false,
    )

abbrev pub reset : Chunker → Chunker
reset c = record c { hash = 0 }

-- The loop of `chunk_data` (with `base` 0) and of `finalize` (with `base` the bytes emitted before).
unfoldable pub chunk_loop : ℕ → GearHash → ℕ → Chunker → List ℕ → ℕ → Outcome (List Chunk × Chunker)
chunk_loop zero gear base c bs offset = if ltb offset (length bs) then out_of_fuel else ok ([], c)
chunk_loop (suc fuel) gear base c bs offset =
    let (size, stop) = chunk_at gear c bs offset in
    let chunk : Chunk = record { offset = base + offset; size = size } in
    let rest = chunk_loop fuel gear base (reset c) bs (offset + size) in
    let more = rest >>= λ (cs, c'). ok (chunk ∷ cs, c') in
    if ltb offset (length bs) then (if stop then ok (chunk ∷ [], c) else more) else ok ([], c)

-- `Chunker::chunk_data`: every chunk takes a byte, so `length bs` rounds are enough.
unfoldable pub chunk_data : GearHash → Chunker → List ℕ → Outcome (List Chunk × Chunker)
chunk_data gear c [] = ok ([], c)
chunk_data gear c (b ∷ bs) = chunk_loop (length (b ∷ bs)) gear 0 c (b ∷ bs) 0

pub record StreamingChunker : Type 0 where
  pub chunker : Chunker
  pub buffer : List ℕ
  pub total_offset : ℕ

unfoldable pub new_streaming : ChunkConfig → Outcome StreamingChunker
unfolding new_chunker
new_streaming config = do
  c ← new_chunker config
  ok (record { chunker = c; buffer = []; total_offset = 0 })

-- The size that a round of `drain_complete_chunks` finds at the front of the buffer.
unfoldable pub drained_size : GearHash → Chunker → List ℕ → ℕ
drained_size gear c buffer =
    let search_start = c.min_chunk - (hasher_window_size + 1) in
    max
      (boundary_size
        (gear.next_match c.hash (take (c.max_chunk - search_start) (drop search_start buffer))
          c.mask)
        search_start c.max_chunk 0)
      (min c.min_chunk (length buffer))

-- The loop of `drain_complete_chunks`. The slice `buffer[search_start..search_end]` and
-- `drain(..chunk_size)` panic out of bounds.
unfoldable pub drain_loop :
    ℕ → GearHash → StreamingChunker → Outcome (List Chunk × StreamingChunker)
drain_loop zero gear s = out_of_fuel
drain_loop (suc fuel) gear s =
    let c = s.chunker in
    let remaining = length s.buffer in
    let size = drained_size gear c s.buffer in
    let next : StreamingChunker = record {
      chunker = reset c;
      buffer = drop size s.buffer;
      total_offset = s.total_offset + size;
    } in
    let rest = drain_loop fuel gear next in
    let chunk : Chunk = record { offset = s.total_offset; size = size } in
    let more = rest >>= λ (cs, s'). ok (chunk ∷ cs, s') in
    if ltb remaining c.min_chunk
    then ok ([], s)
    else if ltb remaining c.max_chunk
    then ok ([], s)
    else if ltb c.max_chunk (c.min_chunk - (hasher_window_size + 1)) || ltb remaining size
    then panicked
    else more

-- `next_block`
unfoldable pub next_block :
    GearHash → StreamingChunker → List ℕ → Outcome (List Chunk × StreamingChunker)
next_block gear s block =
    let buffer = s.buffer ++ block in
    drain_loop (suc (length buffer)) gear (record s { buffer = buffer })

-- `finalize` consumes the chunker.
unfoldable pub finalize : GearHash → StreamingChunker → Outcome (List Chunk)
finalize gear s =
    chunk_loop (length s.buffer) gear s.total_offset s.chunker s.buffer 0 >>= λ (cs, c). ok cs

unfoldable pub total_bytes : StreamingChunker → ℕ
total_bytes s = s.total_offset + length s.buffer
