-- ===== src/ShardBuilder.antt =====
-- src/format/shard_builder.rs: the builder of shards.
pub mod Tables
pub mod RoundTrip
pub mod Registered
use xet_server.Prelude.{
  ℕ, zero, suc, ◌+◌, ◌*◌, ◌%◌, ◌^◌, ◌==◌, not, List, [], ◌∷◌, ◌++◌, map, length, flat_map, is_empty,
  sum_by, replicate, if◌then◌else◌,
}
use xet_server.Outcome.{Outcome, ok, err, panicked, out_of_fuel, parse_error, refuse, ◌>>=◌, ◌>>◌}
use xet_server.Hash.{MerkleHash}
use xet_server.Hash.Keyed.{Blake3}
use xet_server.Hash.Hex.{Hex}
use xet_server.Shard.Header
use xet_server.Shard.Header.{default_header}
use xet_server.Shard.Footer
use xet_server.Shard.Footer.{MdbShardFileFooter}
use xet_server.Shard.FileSequence
use xet_server.Shard.FileSequence.{FileDataSequenceHeader, FileDataSequenceEntry}
use xet_server.Shard.XorbSequence
use xet_server.Shard.XorbSequence.{XorbChunkSequenceHeader, XorbChunkSequenceEntry}
use xet_server.Shard.ChunkLookup
use xet_server.Shard.ChunkLookup.{ChunkLookupEntry}
use xet_server.Shard.Parse.{MdbShardFile, parse}

pub record FileSegment : Type 0 where
  pub xorb_hash : MerkleHash
  pub xorb_index : ℕ
  pub chunk_index_start : ℕ
  pub chunk_index_end : ℕ
  pub unpacked_segment_bytes : ℕ

pub record FileBuildEntry : Type 0 where
  pub file_hash : MerkleHash
  pub segments : List FileSegment

pub record XorbChunkBuildEntry : Type 0 where
  pub chunk_hash : MerkleHash
  pub chunk_byte_range_start : ℕ
  pub unpacked_segment_bytes : ℕ

pub record XorbBuildEntry : Type 0 where
  pub xorb_hash : MerkleHash
  pub num_bytes_in_xorb : ℕ
  pub num_bytes_on_disk : ℕ
  pub chunks : List XorbChunkBuildEntry

pub record ShardBuilder : Type 0 where
  pub files : List FileBuildEntry
  pub xorbs : List XorbBuildEntry
  pub chunk_lookup_entries : List ChunkLookupEntry

unfoldable pub new : ShardBuilder
new = record { files = []; xorbs = []; chunk_lookup_entries = [] }

-- The new builder, and the index of the xorb.
unfoldable pub add_xorb_unchecked :
    ShardBuilder → MerkleHash → ℕ → ℕ → List XorbChunkBuildEntry → ShardBuilder × ℕ
add_xorb_unchecked b xorb_hash num_bytes_in_xorb num_bytes_on_disk chunks = (
  record b {
    xorbs =
        b.xorbs
        ++ (record {
          xorb_hash = xorb_hash;
          num_bytes_in_xorb = num_bytes_in_xorb;
          num_bytes_on_disk = num_bytes_on_disk;
          chunks = chunks;
        }
            ∷ []);
  },
  length b.xorbs,
)

-- The lookup entries of a xorb's chunks, numbered from `i` on.
unfoldable pub lookup_entries_from : MerkleHash → ℕ → List MerkleHash → List ChunkLookupEntry
lookup_entries_from xorb_hash i [] = []
lookup_entries_from xorb_hash i (chunk_hash ∷ hashes) =
    record { chunk_hash = chunk_hash; xorb_hash = xorb_hash; chunk_index = i % 2 ^ 32 }
    ∷ lookup_entries_from xorb_hash (i + 1) hashes

unfoldable pub add_xorb_with_raw_chunk_hashes :
    ShardBuilder
    → MerkleHash
    → ℕ
    → ℕ
    → List XorbChunkBuildEntry
    → List MerkleHash
    → Outcome (ShardBuilder × ℕ)
unfolding add_xorb_unchecked
add_xorb_with_raw_chunk_hashes b xorb_hash in_xorb on_disk chunks raw_chunk_hashes = do
  refuse (not (length chunks == length raw_chunk_hashes))
      (parse_error "raw chunk hash count mismatch")
  let (b', index) = add_xorb_unchecked b xorb_hash in_xorb on_disk chunks
  ok (
    record b' {
      chunk_lookup_entries =
          b'.chunk_lookup_entries ++ lookup_entries_from xorb_hash 0 raw_chunk_hashes;
    },
    index,
  )

unfoldable pub add_file : ShardBuilder → MerkleHash → List FileSegment → ShardBuilder
add_file b file_hash segments = record b {
  files = b.files ++ (record { file_hash = file_hash; segments = segments } ∷ []);
}

-- The structures that `build` writes.
abbrev pub file_header : FileBuildEntry → FileDataSequenceHeader
file_header f = record {
  file_hash = f.file_hash;
  file_flags = 0;
  num_entries = length f.segments % 2 ^ 32;
}

abbrev pub file_entry : FileSegment → FileDataSequenceEntry
file_entry s = record {
  xorb_hash = s.xorb_hash;
  xorb_flags = 0;
  unpacked_segment_bytes = s.unpacked_segment_bytes;
  chunk_index_start = s.chunk_index_start;
  chunk_index_end = s.chunk_index_end;
}

abbrev pub xorb_header : XorbBuildEntry → XorbChunkSequenceHeader
xorb_header x = record {
  xorb_hash = x.xorb_hash;
  xorb_flags = 0;
  num_entries = length x.chunks % 2 ^ 32;
  num_bytes_in_xorb = x.num_bytes_in_xorb;
  num_bytes_on_disk = x.num_bytes_on_disk;
}

abbrev pub xorb_entry : XorbChunkBuildEntry → XorbChunkSequenceEntry
xorb_entry c = record {
  chunk_hash = c.chunk_hash;
  chunk_byte_range_start = c.chunk_byte_range_start;
  unpacked_segment_bytes = c.unpacked_segment_bytes;
  flags = 0;
}

-- Section sizes and offsets.
abbrev pub file_section_size : ShardBuilder → ℕ
file_section_size b = sum_by (λ f. 48 + length f.segments * 48) b.files

abbrev pub xorb_section_size : ShardBuilder → ℕ
xorb_section_size b = sum_by (λ x. 48 + length x.chunks * 48) b.xorbs

abbrev pub chunk_lookup_section_size : ShardBuilder → ℕ
chunk_lookup_section_size b = length b.chunk_lookup_entries * 68

abbrev pub xorb_info_offset : ShardBuilder → ℕ
xorb_info_offset b = 48 + file_section_size b

abbrev pub chunk_lookup_offset : ShardBuilder → ℕ
chunk_lookup_offset b = 48 + file_section_size b + xorb_section_size b

abbrev pub footer_offset : ShardBuilder → ℕ
footer_offset b = 48 + file_section_size b + xorb_section_size b + chunk_lookup_section_size b

abbrev pub total_size : ShardBuilder → ℕ
total_size b = 48 + file_section_size b + xorb_section_size b + chunk_lookup_section_size b + 208

-- `sum::<u64>()`, as a release build wraps it.
abbrev pub sum_u64 {ℓ} : {A : Type ℓ} → (A → ℕ) → List A → ℕ
sum_u64 f xs = sum_by f xs % 2 ^ 64

abbrev pub build_footer : ShardBuilder → MdbShardFileFooter
build_footer b = record {
  version = 2;
  file_info_offset = if is_empty b.files then 0 else 48;
  xorb_info_offset = if is_empty b.xorbs then 0 else xorb_info_offset b;
  file_lookup_offset = if is_empty b.files then 0 else xorb_info_offset b;
  file_lookup_num_entry = length b.files;
  xorb_lookup_offset =
      if is_empty b.xorbs
      then 0
      else if is_empty b.chunk_lookup_entries
      then footer_offset b
      else chunk_lookup_offset b;
  xorb_lookup_num_entry = length b.xorbs;
  chunk_lookup_offset = if is_empty b.chunk_lookup_entries then 0 else chunk_lookup_offset b;
  chunk_lookup_num_entry = length b.chunk_lookup_entries;
  chunk_hash_hmac_key = replicate 32 0;
  shard_creation_timestamp = 0;
  shard_key_expiry = 0;
  stored_bytes_on_disk = sum_u64 (λ x. x.num_bytes_on_disk) b.xorbs;
  materialized_bytes = sum_u64 (λ s. s.unpacked_segment_bytes) (flat_map (λ f. f.segments) b.files);
  stored_bytes = sum_u64 (λ x. x.num_bytes_in_xorb) b.xorbs;
  footer_offset = footer_offset b;
}

-- The buffer that `build` fills.
abbrev pub build_buffer : ShardBuilder → List ℕ
build_buffer b =
    Header.serialize default_header
    ++ (flat_map
          (λ f.
            FileSequence.serialize_header (file_header f)
            ++ flat_map (λ s. FileSequence.serialize_entry (file_entry s)) f.segments)
          b.files
        ++ (flat_map
              (λ x.
                XorbSequence.serialize_header (xorb_header x)
                ++ flat_map (λ c. XorbSequence.serialize_entry (xorb_entry c)) x.chunks)
              b.xorbs
            ++ (flat_map ChunkLookup.serialize b.chunk_lookup_entries
                ++ Footer.serialize (build_footer b))))

-- `MDBShardFile::parse(&buf).map_err(…)?`
abbrev verified : Outcome MdbShardFile → List ℕ → Outcome (List ℕ)
verified (ok parsed) buf = ok buf
verified (err e) buf = err (parse_error "ShardBuilder::build() produced invalid shard data")
verified panicked buf = panicked
verified out_of_fuel buf = out_of_fuel

unfoldable pub build : Blake3 → Hex → ShardBuilder → Outcome (List ℕ)
build blake3 hex b = do
  let buf = build_buffer b
  refuse (not (length buf == total_size b)) (parse_error "shard binary size mismatch")
  verified (parse blake3 hex buf) buf
