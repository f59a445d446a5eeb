-- ===== src/ReconstructionPlan.antt =====
-- src/reconstruction_plan.rs: the chunks of a file, in order, as a shard names them.
pub mod Total
pub mod Sound
pub mod Sums
pub mod Origin
pub mod Segments
use xet_server.Prelude.{
  ℕ, zero, suc, ◌+◌, ◌-◌, ◌%◌, ◌^◌, Bool, not, ◌&&◌, ◌==◌, ltb, leb, Option, none, some, List, [],
  ◌∷◌, ◌++◌, length, take, drop, get_elem?, if◌then◌else◌, checked_add,
}
use xet_server.Outcome.{
  Outcome, ok, err, panicked, out_of_fuel, parse_error, refuse, ok_or, ◌>>=◌, ◌>>◌,
}
use xet_server.Slices.{index, slice}
use xet_server.Hash.{MerkleHash, eq_hash}
use xet_server.Shard.FileSequence.{FileDataSequenceHeader, FileDataSequenceEntry}
use xet_server.Shard.XorbSequence.{XorbChunkSequenceHeader, XorbChunkSequenceEntry}
use xet_server.Shard.ChunkLookup.{ChunkLookupEntry}
use xet_server.Shard.Parse.{MdbShardFile}

pub record PlannedChunk : Type 0 where
  pub xorb_hash : MerkleHash
  pub xorb_chunk_index : ℕ
  pub chunk_byte_range_start : ℕ
  pub unpacked_segment_bytes : ℕ
  pub serialized_chunk_hash : MerkleHash
  pub raw_chunk_hash : MerkleHash

pub record PlannedFile : Type 0 where
  pub file_hash : MerkleHash
  pub file_index : ℕ
  pub chunks : List PlannedChunk
  pub total_unpacked_bytes : ℕ

-- `position(|entry| entry.file_hash == *file_hash)`
unfoldable pub position : MerkleHash → List FileDataSequenceHeader → Option ℕ
position file_hash [] = none
position file_hash (entry ∷ entries) =
    let rest = position file_hash entries in
    if eq_hash entry.file_hash file_hash
    then some 0
    else elim rest [ none ↦ none | some i ↦ some (suc i) ]

-- The match on `expected_file_index`.
unfoldable pub find_file : MdbShardFile → MerkleHash → Option ℕ → Outcome ℕ
find_file shard file_hash (some i) = do
  entry ← ok_or (get_elem? shard.file_entries i) (parse_error "Expected file index out of bounds")
  refuse (not (eq_hash entry.file_hash file_hash))
      (parse_error "Expected file index to contain file")
  ok i
find_file shard file_hash none =
    ok_or (position file_hash shard.file_entries) (parse_error "File not found in shard")

-- The `try_fold` over the entries before the file.
unfoldable pub entries_before : ℕ → List FileDataSequenceHeader → Outcome ℕ
entries_before acc [] = ok acc
entries_before acc (entry ∷ entries) = do
  acc' ← ok_or (checked_add acc entry.num_entries) (parse_error "File entry offset overflow")
  entries_before acc' entries

-- A map from xorb hashes to offset and number of chunks, as its list of insertions.
abbrev pub XorbOffsets : Type 0
XorbOffsets = List (MerkleHash × ℕ × ℕ)

unfoldable pub get_xorb : MerkleHash → XorbOffsets → Option (ℕ × ℕ)
get_xorb hash [] = none
get_xorb hash ((key, start, count) ∷ offsets) =
    let rest = get_xorb hash offsets in if eq_hash key hash then some (start, count) else rest

abbrev pub is_some {ℓ} : {A : Type ℓ} → Option A → Bool
is_some none = Bool.false
is_some (some a) = Bool.true

abbrev pub exceeds : Option ℕ → ℕ → Bool
exceeds none len = Bool.true
exceeds (some end) len = ltb len end

-- The loop that fills `xorb_offsets`.
unfoldable pub locate_xorbs :
    ℕ → ℕ → XorbOffsets → List XorbChunkSequenceHeader → Outcome XorbOffsets
locate_xorbs len offset offsets [] = ok offsets
locate_xorbs len offset offsets (x ∷ xs) = do
  refuse (is_some (get_xorb x.xorb_hash offsets)) (parse_error "duplicate xorb hash")
  refuse (exceeds (checked_add offset x.num_entries) len)
      (parse_error "Xorb chunk entries exceed shard chunk table")
  next ← ok_or (checked_add offset x.num_entries) (parse_error "Xorb chunk offset overflow")
  locate_xorbs len next ((x.xorb_hash, offset, x.num_entries) ∷ offsets) xs

-- A map from xorb hash and chunk index to the raw chunk hash.
abbrev pub RawChunks : Type 0
RawChunks = List (MerkleHash × ℕ × MerkleHash)

unfoldable pub get_raw : MerkleHash → ℕ → RawChunks → Option MerkleHash
get_raw hash i [] = none
get_raw hash i ((key, j, value) ∷ raws) =
    let rest = get_raw hash i raws in if eq_hash key hash && (j == i) then some value else rest

-- The loop that fills `raw_chunk_lookup`. On a duplicate the function returns, so that the
-- replaced value is never read.
unfoldable pub raw_chunk_lookup : RawChunks → List ChunkLookupEntry → Outcome RawChunks
raw_chunk_lookup raws [] = ok raws
raw_chunk_lookup raws (e ∷ es) = do
  refuse (is_some (get_raw e.xorb_hash e.chunk_index raws))
      (parse_error "duplicate raw chunk lookup")
  raw_chunk_lookup ((e.xorb_hash, e.chunk_index, e.chunk_hash) ∷ raws) es

-- The loop over `count` chunks of a segment's xorb from the local index `i` on: the chunks that it
-- pushes and the segment's bytes.
unfoldable pub plan_chunks :
    ℕ
    → List XorbChunkSequenceEntry
    → RawChunks
    → MerkleHash
    → ℕ
    → ℕ
    → ℕ
    → Outcome (List PlannedChunk × ℕ)
plan_chunks zero entries raws xorb_hash global_start i bytes = ok ([], bytes)
plan_chunks (suc count) entries raws xorb_hash global_start i bytes = do
  global ← ok_or (checked_add global_start i) (parse_error "Global chunk index overflow")
  entry ← ok_or (get_elem? entries global) (parse_error "Global chunk index out of bounds")
  let xorb_chunk_index = i % 2 ^ 32
  raw ← ok_or (get_raw xorb_hash xorb_chunk_index raws) (parse_error "Missing raw chunk hash")
  bytes' ←
      ok_or (checked_add bytes entry.unpacked_segment_bytes)
        (parse_error "Segment byte total overflow")
  (chunks, sum) ← plan_chunks count entries raws xorb_hash global_start (i + 1) bytes'
  ok (
    record {
      xorb_hash = xorb_hash;
      xorb_chunk_index = xorb_chunk_index;
      chunk_byte_range_start = entry.chunk_byte_range_start;
      unpacked_segment_bytes = entry.unpacked_segment_bytes;
      serialized_chunk_hash = entry.chunk_hash;
      raw_chunk_hash = raw;
    }
        ∷ chunks,
    sum,
  )

-- A round of the loop over the segments.
unfoldable pub plan_segment :
    List XorbChunkSequenceEntry
    → XorbOffsets
    → RawChunks
    → FileDataSequenceEntry
    → Outcome (List PlannedChunk × ℕ)
plan_segment entries offsets raws segment = do
  refuse (ltb segment.chunk_index_end segment.chunk_index_start) (parse_error "invalid chunk range")
  (start, count) ← ok_or (get_xorb segment.xorb_hash offsets) (parse_error "missing xorb")
  refuse (ltb count segment.chunk_index_end) (parse_error "chunk range beyond chunks")
  (chunks, bytes) ←
      plan_chunks (segment.chunk_index_end - segment.chunk_index_start) entries raws
        segment.xorb_hash start segment.chunk_index_start 0
  refuse (not (bytes == segment.unpacked_segment_bytes)) (parse_error "segment byte total mismatch")
  ok (chunks, bytes)

-- The loop over the segments.
unfoldable pub plan_segments :
    List XorbChunkSequenceEntry
    → XorbOffsets
    → RawChunks
    → ℕ
    → List FileDataSequenceEntry
    → Outcome (List PlannedChunk × ℕ)
plan_segments entries offsets raws total [] = ok ([], total)
plan_segments entries offsets raws total (segment ∷ segments) = do
  (chunks, bytes) ← plan_segment entries offsets raws segment
  total' ← ok_or (checked_add total bytes) (parse_error "File byte total overflow")
  (more, sum) ← plan_segments entries offsets raws total' segments
  ok (chunks ++ more, sum)

unfoldable pub build_file_chunk_plan : MdbShardFile → MerkleHash → Option ℕ → Outcome PlannedFile
build_file_chunk_plan shard file_hash expected_file_index = do
  file_index ← find_file shard file_hash expected_file_index
  before ← slice shard.file_entries 0 file_index
  start ← entries_before 0 before
  entry ← index shard.file_entries file_index
  end ← ok_or (checked_add start entry.num_entries) (parse_error "File entry end offset overflow")
  refuse (ltb (length shard.file_data_entries) end)
      (parse_error "File entries exceed shard file data entries")
  offsets ← locate_xorbs (length shard.xorb_chunk_entries) 0 [] shard.xorb_entries
  raws ← raw_chunk_lookup [] shard.chunk_lookup_entries
  segments ← slice shard.file_data_entries start end
  (chunks, total) ← plan_segments shard.xorb_chunk_entries offsets raws 0 segments
  ok (record {
    file_hash = file_hash;
    file_index = file_index;
    chunks = chunks;
    total_unpacked_bytes = total;
  })
