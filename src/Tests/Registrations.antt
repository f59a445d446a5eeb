-- ===== src/Tests/Registrations.antt =====
-- A shard of one file, validated against the xorb that was built, and its registration.
use xet_server.Prelude.{ℕ, ◌≡◌, ◌⊎◌, inr, refl, arith, some, [], ◌∷◌, All, replicate}
use xet_server.Hash.{MerkleHash}
use xet_server.Hash.Keyed.{compute_data_hash}
use xet_server.Shard.Header.{default_header}
use xet_server.Shard.Parse.{MdbShardFile}
use xet_server.Reply.{Reply, reply, failed}
use xet_server.HashMap.{get, insert}
use xet_server.ShardValidation.{Services, VerifiedFileMapping, VerifiedShardRegistration}
use xet_server.ShardValidation.Files.{validate_shard_for_index}
use xet_server.ShardValidation.Reconstructed.{
  AreReconstructed, validate_shard_for_index-AreReconstructed,
}
use xet_server.Index.{
  MetadataIndex, new, check_sizes, add_files, add_chunks, register_verified_shard, get_file_size,
}
use xet_server.Index.Sizes.{IsIndex}
use xet_server.Index.Register.{register_verified_shard-IsIndex}
use xet_server.Index.Rebuild.{Listing, rebuild_loop, rebuild_from_storage}
use xet_server.Index.Rebuild.Batches.{one_by_one, rebuild_loop-one_by_one}
use xet_server.Index.Rebuild.Registrations.{Registrations}
use xet_server.Index.Rebuild.Complete.{rebuild_from_storage_complete}
use xet_server.Bytes.{to_le_bytes, from_le_bytes, eq_bytes}
use xet_server.Hash
use xet_server.Hash.{as_bytes, read_hash}
use xet_server.Hash.Keyed.{hmac_hash}
use xet_server.Hash.Hex.{to_hex}
use xet_server.MerkleTree
use xet_server.MerkleTree.{aggregated_node_hash, collapse, file_hash}
use xet_server.Reader
use xet_server.Reader.{split_exact, read_exact, pure, lift, repeat, read_u32}
use xet_server.Compression.{try_from, decompress}
use xet_server.ReconstructionPlan.{
  build_file_chunk_plan, find_file, entries_before, locate_xorbs, get_xorb, raw_chunk_lookup,
  get_raw, plan_segments, plan_segment, plan_chunks,
}
use xet_server.Xorb.ChunkHeader
use xet_server.Xorb.ChunkHeader.{serialize}
use xet_server.Xorb.ObjectInfo
use xet_server.Xorb.ObjectInfo.{to_bytes, from_bytes, expect_bytes, serialized_len}
use xet_server.Xorb.Verify.{find_footer}
use xet_server.Xorb.VerifyFile.{
  verify_xorb_from_file_with_info, locate_footer, verify_file_chunks, verify_file_chunk,
  read_payload, read_exact_at,
}
use xet_server.XorbReader.{extract_chunk_verified_from_file, max_compressed_len_for_chunk}
use xet_server.ShardValidation.{get_validated}
use xet_server.ShardValidation.Xorbs.{validate_xorbs, validate_xorb, check_chunks, check_chunk}
use xet_server.ShardValidation.Files.{
  validate_files, validate_file, validate_chunks, validate_chunk, contains, chunk_mappings,
}
use xet_server.Tests.Data.{some_blake3, lower_hex}
use xet_server.Tests.Compressions.{stored}
use xet_server.Tests.Xorbs.{three, one_chunk, one_xorb}

abbrev pub services : Services
services = record {
  blake3 = some_blake3;
  hex = lower_hex;
  sha256 = record { digest = λ bs. replicate 32 7 };
  codec = stored;
  storage = record { download = λ key. reply one_xorb };
}

abbrev pub raw_hash : MerkleHash
raw_hash = compute_data_hash some_blake3 three

abbrev pub one_file : MdbShardFile
one_file = record {
  header = default_header;
  footer = record {
    version = 1;
    file_info_offset = 0;
    xorb_info_offset = 0;
    file_lookup_offset = 0;
    file_lookup_num_entry = 0;
    xorb_lookup_offset = 0;
    xorb_lookup_num_entry = 0;
    chunk_lookup_offset = 0;
    chunk_lookup_num_entry = 0;
    chunk_hash_hmac_key = [];
    shard_creation_timestamp = 0;
    shard_key_expiry = 0;
    stored_bytes_on_disk = 0;
    materialized_bytes = 0;
    stored_bytes = 0;
    footer_offset = 0;
  };
  file_entries = record { file_hash = raw_hash; file_flags = 0; num_entries = 1 } ∷ [];
  file_data_entries =
      record {
        xorb_hash = one_chunk.chunk_hash;
        xorb_flags = 0;
        unpacked_segment_bytes = 3;
        chunk_index_start = 0;
        chunk_index_end = 1;
      }
      ∷ [];
  xorb_entries =
      record {
        xorb_hash = one_chunk.chunk_hash;
        xorb_flags = 0;
        num_entries = 1;
        num_bytes_in_xorb = 3;
        num_bytes_on_disk = 3;
      }
      ∷ [];
  xorb_chunk_entries =
      record {
        chunk_hash = one_chunk.chunk_hash;
        chunk_byte_range_start = 0;
        unpacked_segment_bytes = 3;
        flags = 0;
      }
      ∷ [];
  chunk_lookup_entries =
      record { chunk_hash = raw_hash; xorb_hash = one_chunk.chunk_hash; chunk_index = 0 } ∷ [];
  file_hashes = raw_hash ∷ [];
  chunk_mappings = [];
  hash = [];
}

abbrev one_registration : VerifiedShardRegistration
one_registration = record {
  shard_id = 49 ∷ [];
  files = record { file_hash = raw_hash; file_index = 0; file_size = 3 } ∷ [];
  chunks = record { chunk_hash = raw_hash; xorb_hash = one_chunk.chunk_hash; chunk_index = 0 } ∷ [];
}

one_file-validated : validate_shard_for_index services (49 ∷ []) one_file ≡ reply one_registration
unfolding validate_shard_for_index validate_xorbs validate_xorb get_validated check_chunks
    check_chunk validate_files validate_file validate_chunks validate_chunk file_hash
    extract_chunk_verified_from_file max_compressed_len_for_chunk decompress build_file_chunk_plan
    find_file entries_before locate_xorbs get_xorb raw_chunk_lookup get_raw plan_segments
    plan_segment plan_chunks to_hex contains chunk_mappings hmac_hash
    verify_xorb_from_file_with_info locate_footer verify_file_chunks verify_file_chunk read_payload
    read_exact_at split_exact find_footer eq_bytes to_bytes to_le_bytes from_le_bytes as_bytes
    serialize ChunkHeader.deserialize ObjectInfo.deserialize from_bytes expect_bytes read_exact pure
    lift repeat read_u32 read_hash Hash.from_bytes try_from serialized_len compute_data_hash
    MerkleTree.xorb_hash aggregated_node_hash collapse Reader.◌>>=◌
one_file-validated = refl

validate_shard_for_index-AreReconstructed_example :
    AreReconstructed services one_file 0 one_file.file_entries one_registration.files
validate_shard_for_index-AreReconstructed_example =
    validate_shard_for_index-AreReconstructed services (49 ∷ []) one_file one_registration
      one_file-validated

abbrev one_index : MetadataIndex
one_index = record {
  file_to_shards =
      (raw_hash, record { shard_id = 49 ∷ []; file_index = 0; file_size = 3 } ∷ []) ∷ [];
  chunk_to_xorb = (raw_hash, (one_chunk.chunk_hash, 0)) ∷ [];
}

new-IsIndex : IsIndex new.file_to_shards
unfolding get
new-IsIndex = record { one_size = λ h rs e. cc }

one_registered : register_verified_shard new one_registration ≡ inr one_index
unfolding register_verified_shard check_sizes get add_files add_chunks insert
one_registered = refl

register_verified_shard-IsIndex_example :
    IsIndex one_index.file_to_shards
    × All
        (λ (f : VerifiedFileMapping). get_file_size one_index f.file_hash ≡ some f.file_size)
        one_registration.files
    × ((h : MerkleHash) (n : ℕ) → get_file_size new h ≡ some n → get_file_size one_index h ≡ some n)
register_verified_shard-IsIndex_example =
    register_verified_shard-IsIndex new one_index one_registration new-IsIndex one_registered

abbrev one_key : Listing
one_key = some (115 ∷ 104 ∷ 97 ∷ 114 ∷ 100 ∷ 115 ∷ 47 ∷ 49 ∷ []) ∷ []

rebuild_loop-one_by_one_example :
    rebuild_loop services
      (λ key. reply one_file)
      2
      (record { index = new; total_count = 0; failure_count = 0 })
      one_key
    ≡ some (
        one_by_one services
          (λ key. reply one_file)
          (record { index = new; total_count = 0; failure_count = 0 })
          one_key)
rebuild_loop-one_by_one_example =
    rebuild_loop-one_by_one services (λ key. reply one_file) 2
      (record { index = new; total_count = 0; failure_count = 0 }) one_key (omega arith)

rebuild_from_storage_complete_example :
    (r : Reply ℕ) × (index' : MetadataIndex) × (rebuild_from_storage services
        (λ key. reply one_file)
        new
        one_key
      ≡ some (r, index'))
    × IsIndex index'.file_to_shards
    × (((r ≡ reply 1) × Registrations services (λ key. reply one_file) new one_key index')
        ⊎ ((r ≡ failed "Index rebuild incomplete")
            × ((end : MetadataIndex)
                → ¬ Registrations services (λ key. reply one_file) new one_key end)))
rebuild_from_storage_complete_example =
    rebuild_from_storage_complete services (λ key. reply one_file) new one_key new-IsIndex
