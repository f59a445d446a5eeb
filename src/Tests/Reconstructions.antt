-- ===== src/Tests/Reconstructions.antt =====
-- The file of the validated shard, reconstructed.
use xet_server.Prelude.{◌≡◌, inr, refl, [], ◌∷◌}
use xet_server.Hash.{MerkleHash}
use xet_server.Hash.Keyed.{compute_data_hash}
use xet_server.Bytes.{to_le_bytes, from_le_bytes, eq_bytes}
use xet_server.Hash
use xet_server.Hash.{as_bytes, read_hash}
use xet_server.MerkleTree.{aggregated_node_hash, collapse, file_hash}
use xet_server.Reader
use xet_server.Reader.{split_exact, read_exact, pure, lift, repeat, read_u32}
use xet_server.Compression.{try_from, decompress}
use xet_server.ReconstructionPlan.{
  build_file_chunk_plan, find_file, entries_before, locate_xorbs, get_xorb, raw_chunk_lookup,
  get_raw, plan_segments, plan_segment, plan_chunks,
}
use xet_server.Xorb.ChunkHeader
use xet_server.Xorb.ChunkHeader.{serialize}
use xet_server.Xorb.ObjectInfo.{to_bytes}
use xet_server.Xorb.VerifyFile.{read_exact_at}
use xet_server.XorbReader.{extract_chunk_verified_from_file, max_compressed_len_for_chunk}
use xet_server.Tests.Data.{lower_hex}
use xet_server.Tests.Xorbs.{three, one_xorb}
use xet_server.Outcome.{ok}
use xet_server.Index.{FileShardRef}
use xet_server.Hash.Hex.{from_hex, to_hex}
use xet_server.HashMap.{get, insert}
use xet_server.ReconstructionIo.{
  Sources, VerifiedReconstruction, done, fetch_shard, fill_cache, reconstruct_chunk,
  reconstruct_chunks, reconstruct_single_file_ref_to_temp, try_refs,
  reconstruct_verified_file_to_temp,
}
use xet_server.ReconstructionIo.Content.{OneOf, IsReconstruction}
use xet_server.ReconstructionIo.Verified.{reconstruct_verified_file_to_temp-IsReconstruction}
use xet_server.Tests.Registrations.{services, raw_hash, one_file}

abbrev sources : Sources
sources = record { download = λ key. inr one_xorb; parse_shard = λ key. inr one_file }

abbrev one_ref : FileShardRef
one_ref = record { shard_id = 49 ∷ []; file_index = 0; file_size = 3 }

abbrev rebuilt : VerifiedReconstruction
rebuilt = record { content = three; size = 3 }

is_rebuilt :
    reconstruct_verified_file_to_temp services sources
      (lower_hex.encode (as_bytes raw_hash))
      (one_ref ∷ [])
    ≡ done rebuilt
unfolding reconstruct_verified_file_to_temp try_refs reconstruct_single_file_ref_to_temp fetch_shard
    reconstruct_chunks reconstruct_chunk fill_cache get insert from_hex file_hash
    extract_chunk_verified_from_file max_compressed_len_for_chunk decompress build_file_chunk_plan
    find_file entries_before locate_xorbs get_xorb raw_chunk_lookup get_raw plan_segments
    plan_segment plan_chunks to_hex read_exact_at split_exact eq_bytes to_bytes to_le_bytes
    from_le_bytes as_bytes serialize ChunkHeader.deserialize read_exact pure lift read_hash
    Hash.from_bytes try_from compute_data_hash aggregated_node_hash collapse Reader.◌>>=◌
is_rebuilt = refl

reconstruct_verified_file_to_temp-IsReconstruction_example :
    (target : MerkleHash) × (from_hex lower_hex (lower_hex.encode (as_bytes raw_hash)) ≡ ok target)
    × ((ref : FileShardRef) × OneOf ref (one_ref ∷ [])
        × IsReconstruction services sources target ref rebuilt)
reconstruct_verified_file_to_temp-IsReconstruction_example =
    reconstruct_verified_file_to_temp-IsReconstruction services sources
      (lower_hex.encode (as_bytes raw_hash)) (one_ref ∷ []) rebuilt is_rebuilt
