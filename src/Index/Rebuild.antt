-- ===== src/Index/Rebuild.antt =====
-- `rebuild_from_storage` of src/index.rs: the index is built from the stored shards, in batches. The
-- tasks of a batch do not use the index, and their results are registered in the order of the keys.
pub mod Batches
pub mod Registrations
pub mod Complete
use xet_server.Prelude.{
  ℕ, zero, suc, ◌+◌, ◌||◌, ltb, Bool, true, false, Option, none, some, ◌⊎◌, inl, inr, List, [], ◌∷◌,
  length, take, drop, is_empty, if◌then◌else◌,
}
use xet_server.Bytes.{eq_bytes}
use xet_server.Shard.Parse.{MdbShardFile}
use xet_server.Reply.{Reply, reply, failed, aborted, ◌>>=◌, ◌>>◌, fail_if}
use xet_server.ShardValidation.{Services, VerifiedShardRegistration}
use xet_server.ShardValidation.Files.{validate_shard_for_index}
use xet_server.Index.{MetadataIndex, register_verified_shard}

abbrev pub batch_size : ℕ
batch_size = 10

-- What the listing yields: keys and errors.
abbrev pub Listing : Type 0
Listing = List (Option (List ℕ))

-- The loop that fills a batch: the keys, what is left of the listing, and whether it failed.
unfoldable pub fill_batch : ℕ → Listing → List (List ℕ) × Listing × Bool
fill_batch zero stream = ([], stream, false)
fill_batch (suc n) [] = ([], [], false)
fill_batch (suc n) (none ∷ stream) = ([], stream, true)
fill_batch (suc n) (some key ∷ stream) =
    let (keys, rest, listing_failed) = fill_batch n stream in (key ∷ keys, rest, listing_failed)

-- `key.strip_prefix("shards/").unwrap_or(&key)`
abbrev pub shard_id_of : List ℕ → List ℕ
shard_id_of key =
    if eq_bytes (take 7 key) (115 ∷ 104 ∷ 97 ∷ 114 ∷ 100 ∷ 115 ∷ 47 ∷ []) then drop 7 key else key

-- Where the loop over the batches stands.
pub record Progress : Type 0 where
  pub index : MetadataIndex
  pub total_count : ℕ
  pub failure_count : ℕ

module _ (s : Services) (parse_shard_from_storage : List ℕ → Reply MdbShardFile) where
  -- A spawned task. One that panics does not return.
  unfoldable pub run_task : List ℕ → Reply (Option VerifiedShardRegistration)
  run_task key = elim (parse_shard_from_storage key) [
    | reply shard ↦ elim (validate_shard_for_index s (shard_id_of key) shard) [
      | reply registration ↦ reply (some registration)
      | failed e ↦ reply none
      | aborted ↦ aborted
    ]
    | failed e ↦ reply none
    | aborted ↦ aborted
  ]

  -- A round of the loop over the handles.
  unfoldable pub register_result : Progress → Reply (Option VerifiedShardRegistration) → Progress
  register_result p (reply (some registration)) =
      elim (register_verified_shard p.index registration) [
        | inr index ↦ record {
          index = index;
          total_count = p.total_count + 1;
          failure_count = p.failure_count;
        }
        | inl error ↦ record {
          index = p.index;
          total_count = p.total_count;
          failure_count = p.failure_count + 1;
        }
      ]
  register_result p (reply none) = record {
    index = p.index;
    total_count = p.total_count;
    failure_count = p.failure_count + 1;
  }
  register_result p (failed e) = record {
    index = p.index;
    total_count = p.total_count;
    failure_count = p.failure_count + 1;
  }
  register_result p aborted = record {
    index = p.index;
    total_count = p.total_count;
    failure_count = p.failure_count + 1;
  }

  unfoldable pub register_batch : Progress → List (List ℕ) → Progress
  register_batch p [] = p
  register_batch p (key ∷ keys) = register_batch (register_result p (run_task key)) keys

  -- The loop over the batches. `none`: it is without fuel.
  unfoldable pub rebuild_loop : ℕ → Progress → Listing → Option (Progress × Bool)
  rebuild_loop zero p stream = none
  rebuild_loop (suc fuel) p stream =
      let (batch, rest, listing_failed) = fill_batch batch_size stream in
      let p' = register_batch p batch in
      let more = rebuild_loop fuel p' rest in
      if is_empty batch
      then some (p, listing_failed)
      else if listing_failed
      then some (p', true)
      else more

  abbrev pub rebuild_result : Option (Progress × Bool) → Option (Reply ℕ × MetadataIndex)
  rebuild_result none = none
  rebuild_result (some (p, listing_failed)) = some (
    if ltb 0 p.failure_count || listing_failed
        then failed "Index rebuild incomplete"
        else reply p.total_count,
    p.index,
  )

  -- A round takes one entry of the listing or more, but for the last.
  unfoldable pub rebuild_from_storage : MetadataIndex → Listing → Option (Reply ℕ × MetadataIndex)
  rebuild_from_storage index stream = rebuild_result (
      rebuild_loop (length stream + 1)
        (record { index = index; total_count = 0; failure_count = 0 }) stream)
