-- ===== src/ReconstructionIo/Content.antt =====
-- What the content of a reconstructed file of src/reconstruction_io.rs consists of.
use xet_server.Prelude.{ℕ, ◌%◌, ◌^◌, ◌≡◌, true, some, ◌⊎◌, inr, List, [], ◌∷◌, length}
use xet_server.Outcome.{ok}
use xet_server.Bytes.{eq_bytes}
use xet_server.Hash.{MerkleHash}
use xet_server.Hash.Keyed.{compute_data_hash}
use xet_server.Hash.Hex.{to_hex}
use xet_server.MerkleTree.{file_hash}
use xet_server.Shard.Parse.{MdbShardFile}
use xet_server.ReconstructionPlan.{PlannedChunk, PlannedFile, build_file_chunk_plan}
use xet_server.Reply.{reply}
use xet_server.XorbReader.{extract_chunk_verified_from_file}
use xet_server.ShardValidation.{Services, xorb_key}
use xet_server.ShardValidation.Files.{contents, raw_nodes}
use xet_server.Index.{FileShardRef}
use xet_server.ReconstructionIo.{Sources, shard_key, VerifiedReconstruction}

-- The bytes of a planned chunk: they are extracted from the stored xorb and have the raw hash.
pub record IsFetched (s : Services) (sources : Sources) (planned : PlannedChunk) (bytes : List ℕ)
    : Type 0 where
  pub content : List ℕ
  pub downloaded : sources.download (xorb_key s planned.xorb_hash) ≡ inr content
  pub extracted :
      extract_chunk_verified_from_file s.blake3 s.codec content planned.chunk_byte_range_start
        planned.unpacked_segment_bytes planned.serialized_chunk_hash
      ≡ reply bytes
  pub raw_hash : compute_data_hash s.blake3 bytes ≡ planned.raw_chunk_hash

abbrev pub AreFetched : Services → Sources → List PlannedChunk → List (List ℕ) → Type 0
AreFetched s sources [] [] = Unit
AreFetched s sources [] (b ∷ bs) = ⊥
AreFetched s sources (p ∷ ps) [] = ⊥
AreFetched s sources (p ∷ ps) (b ∷ bs) = IsFetched s sources p b × AreFetched s sources ps bs

-- A reference that leads to the file: its shard, the plan and the chunks' bytes, which are the
-- content, and one of the three hashes of which has the digits of the file's.
pub record IsReconstruction (s : Services) (sources : Sources) (target : MerkleHash)
    (file_ref : FileShardRef) (r : VerifiedReconstruction) : Type 0 where
  pub shard : MdbShardFile
  pub plan : PlannedFile
  pub chunks : List (List ℕ)
  pub tree_hash : MerkleHash
  pub fetched : sources.parse_shard (shard_key file_ref.shard_id) ≡ inr shard
  pub planned : build_file_chunk_plan shard target (some file_ref.file_index) ≡ ok plan
  pub chunks_fetched : AreFetched s sources plan.chunks chunks
  pub joined : r.content ≡ contents chunks
  pub sized : r.size ≡ length r.content % 2 ^ 64
  pub hashed : file_hash s.blake3 s.hex (raw_nodes s chunks) ≡ ok tree_hash
  pub named :
      (eq_bytes (to_hex s.hex target) (s.hex.encode (s.sha256.digest r.content)) ≡ true)
      ⊎ ((eq_bytes (to_hex s.hex target) (to_hex s.hex (compute_data_hash s.blake3 r.content))
            ≡ true)
          ⊎ (eq_bytes (to_hex s.hex target) (to_hex s.hex tree_hash) ≡ true))

-- Each reference that is tried is one of those that are given.
pub data OneOf : FileShardRef → List FileShardRef → Type 0 where
  here : {r : FileShardRef} {rs : List FileShardRef} → OneOf r (r ∷ rs)
  there : {r x : FileShardRef} {rs : List FileShardRef} → OneOf r rs → OneOf r (x ∷ rs)
