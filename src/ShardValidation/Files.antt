-- ===== src/ShardValidation/Files.antt =====
-- The second loop of `validate_shard_for_index` of src/shard_validation.rs: the declared files.
use xet_server.Prelude.{
  ℕ, ◌+◌, ◌&&◌, ◌||◌, not, ◌==◌, leb, Bool, false, some, List, [], ◌∷◌, ◌++◌, length, map,
  checked_add, if◌then◌else◌,
}
use xet_server.Bytes.{eq_bytes}
use xet_server.Hash.{MerkleHash, eq_hash}
use xet_server.Hash.Keyed.{compute_data_hash}
use xet_server.Hash.Hex.{to_hex}
use xet_server.MerkleTree.{Node, file_hash}
use xet_server.Shard.FileSequence.{FileDataSequenceHeader}
use xet_server.Shard.ChunkLookup.{ChunkLookupEntry}
use xet_server.Shard.Parse.{MdbShardFile}
use xet_server.ReconstructionPlan.{PlannedChunk, build_file_chunk_plan}
use xet_server.Reply.{Reply, reply, ◌>>=◌, ◌>>◌, map_err, fail_if, some_or}
use xet_server.XorbReader.{extract_chunk_verified_from_file}
use xet_server.ShardValidation.{
  Services, ValidatedXorbs, get_validated, VerifiedFileMapping, VerifiedChunkMapping,
  VerifiedShardRegistration,
}
use xet_server.ShardValidation.Xorbs.{validate_xorbs}

-- A round of the loop over the planned chunks: the chunk's data.
unfoldable pub validate_chunk : Services → ValidatedXorbs → PlannedChunk → Reply (List ℕ)
validate_chunk s validated_xorbs planned = do
  validated_xorb ←
      some_or (get_validated planned.xorb_hash validated_xorbs)
        "File references xorb that was not downloaded"
  fail_if (leb (length validated_xorb.info.chunks) planned.xorb_chunk_index)
      "chunk beyond verified chunk count"
  raw_chunk ←
      extract_chunk_verified_from_file s.blake3 s.codec validated_xorb.content
        planned.chunk_byte_range_start planned.unpacked_segment_bytes planned.serialized_chunk_hash
  fail_if (not (eq_hash (compute_data_hash s.blake3 raw_chunk) planned.raw_chunk_hash))
      "Raw chunk hash mismatch"
  reply raw_chunk

-- The loop over the planned chunks, with the size so far: the chunks' data, and the file's size. The
-- two hashers are fed the data in order. A length of a vector fits 64 bits.
unfoldable pub validate_chunks :
    Services → ValidatedXorbs → ℕ → List PlannedChunk → Reply (List (List ℕ) × ℕ)
validate_chunks s validated_xorbs file_size [] = reply ([], file_size)
validate_chunks s validated_xorbs file_size (planned ∷ chunks) = do
  raw_chunk ← validate_chunk s validated_xorbs planned
  file_size' ← some_or (checked_add file_size (length raw_chunk)) "Reconstructed size overflow"
  (raw_chunks, total) ← validate_chunks s validated_xorbs file_size' chunks
  reply (raw_chunk ∷ raw_chunks, total)

-- The bytes that the hashers are fed.
abbrev pub contents : List (List ℕ) → List ℕ
contents [] = []
contents (c ∷ cs) = c ++ contents cs

-- `raw_chunk_hashes_and_sizes`
abbrev pub raw_nodes : Services → List (List ℕ) → List Node
raw_nodes s raw_chunks = map (λ (c : List ℕ). (compute_data_hash s.blake3 c, length c)) raw_chunks

-- Whether the declared hash is one of the three.
abbrev pub is_declared : Services → MerkleHash → List ℕ → MerkleHash → Bool
is_declared s declared_file_hash bs xet_file_hash =
    eq_bytes (to_hex s.hex declared_file_hash) (s.hex.encode (s.sha256.digest bs))
    || (eq_hash declared_file_hash (compute_data_hash s.blake3 bs)
        || eq_hash declared_file_hash xet_file_hash)

-- A round of the loop over the files: the file, and the chunks that it adds to `validated_chunks`.
unfoldable pub validate_file :
    Services
    → MdbShardFile
    → ValidatedXorbs
    → ℕ
    → FileDataSequenceHeader
    → Reply (VerifiedFileMapping × List PlannedChunk)
validate_file s shard validated_xorbs file_index file_entry = do
  plan ←
      map_err (build_file_chunk_plan shard file_entry.file_hash (some file_index))
        "Failed to build validation plan"
  (raw_chunks, file_size) ← validate_chunks s validated_xorbs 0 plan.chunks
  xet_file_hash ←
      map_err (file_hash s.blake3 s.hex (raw_nodes s raw_chunks))
        "no message: the hash does not fail"
  fail_if (not (is_declared s file_entry.file_hash (contents raw_chunks) xet_file_hash))
      "File hash mismatch"
  reply (
    record { file_hash = file_entry.file_hash; file_index = file_index; file_size = file_size },
    plan.chunks,
  )

unfoldable pub validate_files :
    Services
    → MdbShardFile
    → ValidatedXorbs
    → ℕ
    → List FileDataSequenceHeader
    → Reply (List VerifiedFileMapping × List PlannedChunk)
validate_files s shard validated_xorbs file_index [] = reply ([], [])
validate_files s shard validated_xorbs file_index (e ∷ es) = do
  (f, chunks) ← validate_file s shard validated_xorbs file_index e
  (fs, more) ← validate_files s shard validated_xorbs (file_index + 1) es
  reply (f ∷ fs, chunks ++ more)

-- `validated_chunks.contains`
unfoldable pub contains : List PlannedChunk → MerkleHash → ℕ → Bool
contains [] xorb_hash chunk_index = false
contains (p ∷ ps) xorb_hash chunk_index =
    (eq_hash p.xorb_hash xorb_hash && (p.xorb_chunk_index == chunk_index))
    || contains ps xorb_hash chunk_index

-- The mappings of the lookup entries whose chunk was validated.
unfoldable pub chunk_mappings :
    List PlannedChunk → List ChunkLookupEntry → List VerifiedChunkMapping
chunk_mappings validated_chunks [] = []
chunk_mappings validated_chunks (e ∷ es) =
    let rest = chunk_mappings validated_chunks es in
    if contains validated_chunks e.xorb_hash e.chunk_index
    then record { chunk_hash = e.chunk_hash; xorb_hash = e.xorb_hash; chunk_index = e.chunk_index }
      ∷ rest
    else rest

unfoldable pub validate_shard_for_index :
    Services → List ℕ → MdbShardFile → Reply VerifiedShardRegistration
validate_shard_for_index s shard_id shard = do
  (validated_xorbs, xorb_chunk_offset) ←
      validate_xorbs s shard.xorb_chunk_entries [] 0 shard.xorb_entries
  fail_if (not (xorb_chunk_offset == length shard.xorb_chunk_entries))
      "Shard has unclaimed xorb chunk entries"
  (files, validated_chunks) ← validate_files s shard validated_xorbs 0 shard.file_entries
  reply (record {
    shard_id = shard_id;
    files = files;
    chunks = chunk_mappings validated_chunks shard.chunk_lookup_entries;
  })
