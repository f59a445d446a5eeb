-- ===== src/ShardValidation.antt =====
-- src/shard_validation.rs: a shard is checked against the stored xorbs before it is indexed.
pub mod Xorbs
pub mod Files
pub mod Stored
pub mod Reconstructed
use xet_server.Prelude.{
  ℕ, String, Bool, true, false, ◌||◌, ◌&&◌, ◌==◌, not, ◌++◌, ◌∷◌, [], List, Option, none, some, ◌+◌,
  ◌-◌, ltb, length, map, checked_add, if◌then◌else◌,
}
use xet_server.Hash.{MerkleHash, eq_hash}
use xet_server.Hash.Keyed.{Blake3}
use xet_server.Hash.Hex.{Hex, to_hex}
use xet_server.Compression.{Lz4}
use xet_server.Reply.{Reply}
use xet_server.Xorb.VerifyFile.{VerifiedXorbInfo}

-- `Sha256::digest` of the `sha2` crate. `update` appends to the data.
pub record Sha256 : Type 0 where
  pub digest : List ℕ → List ℕ

-- `storage::download_to_path_with_retries` to a new file: the object's bytes, or a message.
pub record StorageBackend : Type 0 where
  pub download : List ℕ → Reply (List ℕ)

-- What the validation uses.
pub record Services : Type 0 where
  pub blake3 : Blake3
  pub hex : Hex
  pub sha256 : Sha256
  pub codec : Lz4
  pub storage : StorageBackend

-- The temporary file's content, which only this call writes, and what was verified of it.
pub record ValidatedXorb : Type 0 where
  pub content : List ℕ
  pub info : VerifiedXorbInfo

pub record VerifiedFileMapping : Type 0 where
  pub file_hash : MerkleHash
  pub file_index : ℕ
  pub file_size : ℕ

pub record VerifiedChunkMapping : Type 0 where
  pub chunk_hash : MerkleHash
  pub xorb_hash : MerkleHash
  pub chunk_index : ℕ

pub record VerifiedShardRegistration : Type 0 where
  pub shard_id : List ℕ
  pub files : List VerifiedFileMapping
  pub chunks : List VerifiedChunkMapping

-- The map of validated xorbs, as its list of insertions.
abbrev pub ValidatedXorbs : Type 0
ValidatedXorbs = List (MerkleHash × ValidatedXorb)

unfoldable pub get_validated : MerkleHash → ValidatedXorbs → Option ValidatedXorb
get_validated hash [] = none
get_validated hash ((key, x) ∷ xs) =
    let rest = get_validated hash xs in if eq_hash key hash then some x else rest

-- format!("xorbs/{}", xorb_hash_hex)
abbrev pub xorb_key : Services → MerkleHash → List ℕ
xorb_key s hash = 120 ∷ 111 ∷ 114 ∷ 98 ∷ 115 ∷ 47 ∷ to_hex s.hex hash
