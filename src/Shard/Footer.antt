-- ===== src/Shard/Footer.antt =====
-- `MDBShardFileFooter` of src/format/shard.rs.
use xet_server.Prelude.{ℕ, ◌≡◌, List, [], ◌∷◌, flatten, length, replicate, IsU64}
use xet_server.Bytes.{to_le_bytes}
use xet_server.Reader.{Reader, ◌>>=◌, pure, read_exact, read_u64}

pub record MdbShardFileFooter : Type 0 where
  pub version : ℕ
  pub file_info_offset : ℕ
  pub xorb_info_offset : ℕ
  pub file_lookup_offset : ℕ
  pub file_lookup_num_entry : ℕ
  pub xorb_lookup_offset : ℕ
  pub xorb_lookup_num_entry : ℕ
  pub chunk_lookup_offset : ℕ
  pub chunk_lookup_num_entry : ℕ
  pub chunk_hash_hmac_key : List ℕ
  pub shard_creation_timestamp : ℕ
  pub shard_key_expiry : ℕ
  pub stored_bytes_on_disk : ℕ
  pub materialized_bytes : ℕ
  pub stored_bytes : ℕ
  pub footer_offset : ℕ

-- The array and the integers of the Rust type.
pub record IsFooter (f : MdbShardFileFooter) : Type 0 where
  pub version_fits : IsU64 f.version
  pub file_info_fits : IsU64 f.file_info_offset
  pub xorb_info_fits : IsU64 f.xorb_info_offset
  pub file_lookup_fits : IsU64 f.file_lookup_offset
  pub file_count_fits : IsU64 f.file_lookup_num_entry
  pub xorb_lookup_fits : IsU64 f.xorb_lookup_offset
  pub xorb_count_fits : IsU64 f.xorb_lookup_num_entry
  pub chunk_lookup_fits : IsU64 f.chunk_lookup_offset
  pub chunk_count_fits : IsU64 f.chunk_lookup_num_entry
  pub key_length : length f.chunk_hash_hmac_key ≡ 32
  pub creation_fits : IsU64 f.shard_creation_timestamp
  pub expiry_fits : IsU64 f.shard_key_expiry
  pub on_disk_fits : IsU64 f.stored_bytes_on_disk
  pub materialized_fits : IsU64 f.materialized_bytes
  pub stored_fits : IsU64 f.stored_bytes
  pub footer_fits : IsU64 f.footer_offset

unfoldable pub serialize : MdbShardFileFooter → List ℕ
serialize f = flatten (
    to_le_bytes 8 f.version
    ∷ to_le_bytes 8 f.file_info_offset
    ∷ to_le_bytes 8 f.xorb_info_offset
    ∷ to_le_bytes 8 f.file_lookup_offset
    ∷ to_le_bytes 8 f.file_lookup_num_entry
    ∷ to_le_bytes 8 f.xorb_lookup_offset
    ∷ to_le_bytes 8 f.xorb_lookup_num_entry
    ∷ to_le_bytes 8 f.chunk_lookup_offset
    ∷ to_le_bytes 8 f.chunk_lookup_num_entry
    ∷ f.chunk_hash_hmac_key
    ∷ to_le_bytes 8 f.shard_creation_timestamp
    ∷ to_le_bytes 8 f.shard_key_expiry
    ∷ replicate 56 0
    ∷ to_le_bytes 8 f.stored_bytes_on_disk
    ∷ to_le_bytes 8 f.materialized_bytes
    ∷ to_le_bytes 8 f.stored_bytes
    ∷ to_le_bytes 8 f.footer_offset
    ∷ [])

unfoldable pub deserialize : Reader MdbShardFileFooter
deserialize = do
  version ← read_u64
  file_info_offset ← read_u64
  xorb_info_offset ← read_u64
  file_lookup_offset ← read_u64
  file_lookup_num_entry ← read_u64
  xorb_lookup_offset ← read_u64
  xorb_lookup_num_entry ← read_u64
  chunk_lookup_offset ← read_u64
  chunk_lookup_num_entry ← read_u64
  chunk_hash_hmac_key ← read_exact 32
  shard_creation_timestamp ← read_u64
  shard_key_expiry ← read_u64
  _buffer ← read_exact 56
  stored_bytes_on_disk ← read_u64
  materialized_bytes ← read_u64
  stored_bytes ← read_u64
  footer_offset ← read_u64
  pure (record {
    version = version;
    file_info_offset = file_info_offset;
    xorb_info_offset = xorb_info_offset;
    file_lookup_offset = file_lookup_offset;
    file_lookup_num_entry = file_lookup_num_entry;
    xorb_lookup_offset = xorb_lookup_offset;
    xorb_lookup_num_entry = xorb_lookup_num_entry;
    chunk_lookup_offset = chunk_lookup_offset;
    chunk_lookup_num_entry = chunk_lookup_num_entry;
    chunk_hash_hmac_key = chunk_hash_hmac_key;
    shard_creation_timestamp = shard_creation_timestamp;
    shard_key_expiry = shard_key_expiry;
    stored_bytes_on_disk = stored_bytes_on_disk;
    materialized_bytes = materialized_bytes;
    stored_bytes = stored_bytes;
    footer_offset = footer_offset;
  })
