-- ===== src/Index.antt =====
-- src/index.rs: the index of the verified shards in memory.
pub mod Sizes
pub mod Register
pub mod Rebuild
use xet_server.Prelude.{
  ℕ, ◌+◌, Bool, true, false, ◌&&◌, ◌||◌, not, ◌==◌, ltb, Option, none, some, ◌⊎◌, inl, inr, List,
  [], ◌∷◌, ◌++◌, length, map, if◌then◌else◌,
}
use xet_server.Bytes.{eq_bytes}
use xet_server.Hash.{MerkleHash}
use xet_server.HashMap.{HashMap, get, insert}
use xet_server.ReconstructionPlan.{is_some}
use xet_server.ShardValidation.{
  VerifiedFileMapping, VerifiedChunkMapping, VerifiedShardRegistration,
}

pub record FileShardRef : Type 0 where
  pub shard_id : List ℕ
  pub file_index : ℕ
  pub file_size : ℕ

pub data IndexRegistrationError : Type 0 where
  file_size_conflict : MerkleHash → ℕ → ℕ → IndexRegistrationError

-- The two maps behind their locks.
pub record MetadataIndex : Type 0 where
  pub file_to_shards : HashMap (List FileShardRef)
  pub chunk_to_xorb : HashMap (MerkleHash × ℕ)

-- `MetadataIndex::new`
abbrev pub new : MetadataIndex
new = record { file_to_shards = []; chunk_to_xorb = [] }

-- `references.first()`, and its size.
abbrev pub first_size : Option (List FileShardRef) → Option ℕ
first_size none = none
first_size (some []) = none
first_size (some (r ∷ rs)) = some r.file_size

-- A size that is there and differs.
abbrev pub conflict : MerkleHash → Option ℕ → ℕ → Option IndexRegistrationError
conflict hash none size = none
conflict hash (some existing) size =
    if not (existing == size) then some (file_size_conflict hash existing size) else none

-- The loop that checks the sizes: the error that it returns.
unfoldable pub check_sizes :
    HashMap (List FileShardRef)
    → HashMap ℕ
    → List VerifiedFileMapping
    → Option IndexRegistrationError
check_sizes file_map registration_sizes [] = none
check_sizes file_map registration_sizes (f ∷ fs) =
    let rest = check_sizes file_map (insert f.file_hash f.file_size registration_sizes) fs in
    elim (conflict f.file_hash (get f.file_hash registration_sizes) f.file_size) [
      | some e ↦ some e
      | none ↦ elim (conflict f.file_hash (first_size (get f.file_hash file_map)) f.file_size) [
        | some e ↦ some e
        | none ↦ rest
      ]
    ]

-- The derived `PartialEq`, and `entry.contains`.
abbrev pub eq_ref : FileShardRef → FileShardRef → Bool
eq_ref a b =
    eq_bytes a.shard_id b.shard_id
    && ((a.file_index == b.file_index) && (a.file_size == b.file_size))

abbrev pub contains_ref : List FileShardRef → FileShardRef → Bool
contains_ref [] r = false
contains_ref (x ∷ xs) r = eq_ref x r || contains_ref xs r

-- `entry(file_hash).or_default()`
abbrev pub or_default : Option (List FileShardRef) → List FileShardRef
or_default none = []
or_default (some rs) = rs

abbrev pub file_ref : List ℕ → VerifiedFileMapping → FileShardRef
file_ref shard_id f = record {
  shard_id = shard_id;
  file_index = f.file_index;
  file_size = f.file_size;
}

-- The references of a file behind a round of the loop.
abbrev pub with_ref : List FileShardRef → FileShardRef → List FileShardRef
with_ref entry r = if not (contains_ref entry r) then entry ++ (r ∷ []) else entry

unfoldable pub add_files :
    List ℕ → HashMap (List FileShardRef) → List VerifiedFileMapping → HashMap (List FileShardRef)
add_files shard_id file_map [] = file_map
add_files shard_id file_map (f ∷ fs) =
    add_files shard_id
      (insert f.file_hash (with_ref (or_default (get f.file_hash file_map)) (file_ref shard_id f))
        file_map)
      fs

unfoldable pub add_chunks :
    HashMap (MerkleHash × ℕ) → List VerifiedChunkMapping → HashMap (MerkleHash × ℕ)
add_chunks chunk_map [] = chunk_map
add_chunks chunk_map (c ∷ cs) =
    add_chunks (insert c.chunk_hash (c.xorb_hash, c.chunk_index) chunk_map) cs

-- An error leaves the index as it was.
unfoldable pub register_verified_shard :
    MetadataIndex → VerifiedShardRegistration → IndexRegistrationError ⊎ MetadataIndex
register_verified_shard index registration =
    elim (check_sizes index.file_to_shards [] registration.files) [
      | some e ↦ inl e
      | none ↦ inr (record {
        file_to_shards = add_files registration.shard_id index.file_to_shards registration.files;
        chunk_to_xorb = add_chunks index.chunk_to_xorb registration.chunks;
      })
    ]

unfoldable pub get_file_refs : MetadataIndex → MerkleHash → Option (List FileShardRef)
get_file_refs index file_hash = get file_hash index.file_to_shards

unfoldable pub get_file_size : MetadataIndex → MerkleHash → Option ℕ
get_file_size index file_hash = first_size (get file_hash index.file_to_shards)

-- The order of strings, which is that of their bytes.
abbrev pub less : List ℕ → List ℕ → Bool
less bs [] = false
less [] (c ∷ cs) = true
less (b ∷ bs) (c ∷ cs) = ltb b c || ((b == c) && less bs cs)

-- `BTreeSet::insert`, into the sorted list of the elements.
abbrev pub insert_sorted : List ℕ → List (List ℕ) → List (List ℕ)
insert_sorted id [] = id ∷ []
insert_sorted id (x ∷ xs) =
    let rest = insert_sorted id xs in
    if less id x then id ∷ x ∷ xs else if less x id then x ∷ rest else x ∷ xs

unfoldable pub sorted_ids : List FileShardRef → List (List ℕ)
sorted_ids [] = []
sorted_ids (r ∷ rs) = insert_sorted r.shard_id (sorted_ids rs)

unfoldable pub get_shards_for_file : MetadataIndex → MerkleHash → Option (List (List ℕ))
get_shards_for_file index file_hash = elim (get_file_refs index file_hash) [
  | none ↦ none
  | some refs ↦ some (sorted_ids refs)
]

unfoldable pub get_xorb_for_chunk : MetadataIndex → MerkleHash → Option (MerkleHash × ℕ)
get_xorb_for_chunk index chunk_hash = get chunk_hash index.chunk_to_xorb

unfoldable pub chunk_exists : MetadataIndex → MerkleHash → Bool
chunk_exists index chunk_hash = is_some (get chunk_hash index.chunk_to_xorb)

pub record IndexStats : Type 0 where
  pub num_files : ℕ
  pub num_chunks : ℕ

unfoldable pub stats : MetadataIndex → IndexStats
stats index = record {
  num_files = length index.file_to_shards;
  num_chunks = length index.chunk_to_xorb;
}
