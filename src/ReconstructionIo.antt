-- ===== src/ReconstructionIo.antt =====
-- src/reconstruction_io.rs: a file is reconstructed from the stored shards and xorbs into a temporary
-- file, which is its content here.
pub mod Laws
pub mod Content
pub mod Verified
use xet_server.Prelude.{
  ℕ, String, ◌+◌, ◌%◌, ◌^◌, ◌&&◌, not, ◌||◌, Bool, true, false, Option, none, some, ◌⊎◌, inl, inr,
  List, [], ◌∷◌, ◌++◌, length, map,
}
use xet_server.Outcome.{Outcome, ok, err, panicked, out_of_fuel, XetError, io_error, not_found}
use xet_server.Bytes.{eq_bytes}
use xet_server.Hash.{MerkleHash, eq_hash}
use xet_server.Hash.Keyed.{compute_data_hash}
use xet_server.Hash.Hex.{to_hex, from_hex}
use xet_server.HashMap.{HashMap, get, insert}
use xet_server.MerkleTree.{file_hash}
use xet_server.Shard.Parse.{MdbShardFile}
use xet_server.ReconstructionPlan.{PlannedChunk, build_file_chunk_plan}
use xet_server.Reply.{Reply, reply, failed, aborted}
use xet_server.XorbReader.{extract_chunk_verified_from_file}
use xet_server.ShardValidation.{Services, xorb_key}
use xet_server.ShardValidation.Files.{contents, raw_nodes}
use xet_server.Index.{FileShardRef}

-- An error is its kind, without the message.
pub data ReconstructionError : Type 0 where
  invalid_input stale storage_error temp_io parse integrity : ReconstructionError

abbrev pub is_stale : ReconstructionError → Bool
is_stale invalid_input = false
is_stale stale = true
is_stale storage_error = false
is_stale temp_io = false
is_stale parse = false
is_stale integrity = false

-- `StorageError` of src/storage/mod.rs.
pub data StorageError : Type 0 where
  object_not_found internal invalid_argument quota : StorageError

-- `ShardIoError` of src/shard_io.rs.
pub data ShardIoError : Type 0 where
  from_storage : StorageError → ShardIoError
  from_parse : XetError → ShardIoError
  from_temp_io from_parse_task : ShardIoError

-- A call that returns a value or an error, or does not return.
pub data Attempt {ℓ} (A : Type ℓ) : Type ℓ where
  done : A → Attempt A
  rejected : ReconstructionError → Attempt A
  crashed : Attempt A

infixl 5 ◌>>=◌
abbrev pub ◌>>=◌ {ℓ κ} : {A : Type ℓ} {B : Type κ} → Attempt A → (A → Attempt B) → Attempt B
done a >>= f = f a
rejected e >>= f = rejected e
crashed >>= f = crashed

-- `.map_err(ReconstructionError::Integrity)`, of both kinds of calls.
abbrev pub or_integrity {ℓ} : {A : Type ℓ} → Reply A → Attempt A
or_integrity (reply a) = done a
or_integrity (failed e) = rejected integrity
or_integrity aborted = crashed

abbrev pub outcome_or {ℓ} : {A : Type ℓ} → Outcome A → ReconstructionError → Attempt A
outcome_or (ok a) x = done a
outcome_or (err e) x = rejected x
outcome_or panicked x = crashed
outcome_or out_of_fuel x = crashed

abbrev pub some_or {ℓ} : {A : Type ℓ} → Option A → ReconstructionError → Attempt A
some_or none x = rejected x
some_or (some a) x = done a

abbrev pub reject_if : Bool → ReconstructionError → Attempt (Unit {0})
reject_if true x = rejected x
reject_if false x = done tt

unfoldable pub map_storage_error : StorageError → ReconstructionError
map_storage_error object_not_found = stale
map_storage_error internal = storage_error
map_storage_error invalid_argument = storage_error
map_storage_error quota = temp_io

-- A shard file that is gone when it is parsed is a stale reference.
abbrev pub map_parse_error : XetError → ReconstructionError
map_parse_error (io_error not_found) = stale
map_parse_error e = parse

unfoldable pub map_shard_error : ShardIoError → ReconstructionError
map_shard_error (from_storage e) = map_storage_error e
map_shard_error (from_parse e) = map_parse_error e
map_shard_error from_temp_io = temp_io
map_shard_error from_parse_task = parse

-- The calls of src/storage and src/shard_io.rs, on keys.
pub record Sources : Type 0 where
  pub download : List ℕ → StorageError ⊎ List ℕ
  pub parse_shard : List ℕ → ShardIoError ⊎ MdbShardFile

-- format!("shards/{}", shard_id)
abbrev pub shard_key : List ℕ → List ℕ
shard_key shard_id = 115 ∷ 104 ∷ 97 ∷ 114 ∷ 100 ∷ 115 ∷ 47 ∷ shard_id

unfoldable pub fetch_shard : Sources → List ℕ → Attempt MdbShardFile
fetch_shard sources shard_id = elim (sources.parse_shard (shard_key shard_id)) [
  | inl e ↦ rejected (map_shard_error e)
  | inr shard ↦ done shard
]

-- The downloaded xorbs behind a vacant or an occupied entry.
unfoldable pub fill_cache :
    Services → Sources → HashMap (List ℕ) → MerkleHash → Attempt (HashMap (List ℕ))
fill_cache s sources xorb_cache xorb_hash = elim (get xorb_hash xorb_cache) [
  | some content ↦ done xorb_cache
  | none ↦ elim (sources.download (xorb_key s xorb_hash)) [
    | inl e ↦ rejected (map_storage_error e)
    | inr content ↦ done (insert xorb_hash content xorb_cache)
  ]
]

-- A round of the loop over the planned chunks: the cache and the chunk's bytes.
unfoldable pub reconstruct_chunk :
    Services → Sources → HashMap (List ℕ) → PlannedChunk → Attempt (HashMap (List ℕ) × List ℕ)
reconstruct_chunk s sources xorb_cache planned = do
  cache ← fill_cache s sources xorb_cache planned.xorb_hash
  content ← some_or (get planned.xorb_hash cache) integrity
  bytes ← or_integrity (
      extract_chunk_verified_from_file s.blake3 s.codec content planned.chunk_byte_range_start
        planned.unpacked_segment_bytes planned.serialized_chunk_hash)
  u ← reject_if (not (eq_hash (compute_data_hash s.blake3 bytes) planned.raw_chunk_hash)) integrity
  done (cache, bytes)

-- The loop: the bytes of the chunks, which are written and hashed in order.
unfoldable pub reconstruct_chunks :
    Services → Sources → HashMap (List ℕ) → List PlannedChunk → Attempt (List (List ℕ))
reconstruct_chunks s sources xorb_cache [] = done []
reconstruct_chunks s sources xorb_cache (planned ∷ chunks) = do
  (cache, bytes) ← reconstruct_chunk s sources xorb_cache planned
  rest ← reconstruct_chunks s sources cache chunks
  done (bytes ∷ rest)

-- Whether none of the three hashes has the digits of the file's.
abbrev pub is_other : Services → List ℕ → List ℕ → MerkleHash → Bool
is_other s canonical_file_id bs xet_file_hash =
    not (eq_bytes canonical_file_id (s.hex.encode (s.sha256.digest bs)))
    && (not (eq_bytes canonical_file_id (to_hex s.hex (compute_data_hash s.blake3 bs)))
        && not (eq_bytes canonical_file_id (to_hex s.hex xet_file_hash)))

-- The output file's content, and its size, a sum of 64 bits.
pub record VerifiedReconstruction : Type 0 where
  pub content : List ℕ
  pub size : ℕ

unfoldable pub reconstruct_single_file_ref_to_temp :
    Services → Sources → List ℕ → MerkleHash → FileShardRef → Attempt VerifiedReconstruction
reconstruct_single_file_ref_to_temp s sources canonical_file_id target_hash file_ref = do
  shard ← fetch_shard sources file_ref.shard_id
  plan ← outcome_or (build_file_chunk_plan shard target_hash (some file_ref.file_index)) integrity
  raw_chunks ← reconstruct_chunks s sources [] plan.chunks
  xet_file_hash ← outcome_or (file_hash s.blake3 s.hex (raw_nodes s raw_chunks)) integrity
  u ← reject_if (is_other s canonical_file_id (contents raw_chunks) xet_file_hash) integrity
  done (record { content = contents raw_chunks; size = length (contents raw_chunks) % 2 ^ 64 })

-- `unwrap_or_else`
abbrev pub last_error : Option ReconstructionError → ReconstructionError
last_error none = stale
last_error (some e) = e

abbrev pub first_error :
    Option ReconstructionError → ReconstructionError → Option ReconstructionError
first_error none e = some e
first_error (some x) e = some x

-- The loop over the references: the first that is reconstructed, or the first error that is not of a
-- stale reference.
unfoldable pub try_refs :
    Services
    → Sources
    → List ℕ
    → MerkleHash
    → Option ReconstructionError
    → List FileShardRef
    → Attempt VerifiedReconstruction
try_refs s sources canonical_file_id target_hash first_non_stale_error [] =
    rejected (last_error first_non_stale_error)
try_refs s sources canonical_file_id target_hash first_non_stale_error (file_ref ∷ file_refs) =
    let skip = try_refs s sources canonical_file_id target_hash first_non_stale_error file_refs in
    elim (reconstruct_single_file_ref_to_temp s sources canonical_file_id target_hash file_ref) [
      | done r ↦ done r
      | rejected e ↦ elim (is_stale e) [
        | true ↦ skip
        | false ↦
            try_refs s sources canonical_file_id target_hash (first_error first_non_stale_error e)
              file_refs
      ]
      | crashed ↦ crashed
    ]

unfoldable pub reconstruct_verified_file_to_temp :
    Services → Sources → List ℕ → List FileShardRef → Attempt VerifiedReconstruction
reconstruct_verified_file_to_temp s sources file_id file_refs = do
  target_hash ← outcome_or (from_hex s.hex file_id) invalid_input
  try_refs s sources (to_hex s.hex target_hash) target_hash none file_refs
