-- ===== src/ShardBuilder/Tables.antt =====
-- The tables that a builder writes: their bytes, sizes and records.
use xet_server.Prelude.{
  ℕ, ◌≡◌, ap, ◌∙◌, List, ◌++◌, arith, length, length-map, flat_map, map, map-map, flat_map-map,
  flat_map-cong, length-flat_map, sum_by, sum_by-cong, All, IsU32,
}
use xet_server.Hash.{IsHash}
use xet_server.Shard.Header
use xet_server.Shard.Header.{default_header}
use xet_server.Shard.Footer
use xet_server.Shard.Footer.{IsFooter}
use xet_server.Shard.FileSequence
use xet_server.Shard.FileSequence.{IsFileEntry}
use xet_server.Shard.XorbSequence
use xet_server.Shard.XorbSequence.{IsXorbEntry}
use xet_server.Shard.ChunkLookup.{IsChunkLookup}
use xet_server.Shard.Sections.WrittenFiles.{FileSeq, encode_file_seq, length-encode_file_seq}
use xet_server.Shard.Sections.WrittenXorbs.{XorbSeq, encode_xorb_seq, length-encode_xorb_seq}
use xet_server.Shard.Layout.{Tables, file_bytes, xorb_bytes, lookup_bytes, shard_bytes}
use xet_server.Shard.Parse.{MdbShardFile, mapping}
use xet_server.Shard.Parse.RoundTrip.{parsed}
use xet_server.ShardBuilder.{
  FileSegment, FileBuildEntry, XorbChunkBuildEntry, XorbBuildEntry, ShardBuilder, file_header,
  file_entry, xorb_header, xorb_entry, file_section_size, xorb_section_size, build_footer,
  build_buffer,
}

-- The integers of the Rust types, and counts that fit the 32-bit fields.
pub record IsSegment (s : FileSegment) : Type 0 where
  pub hash_fits : IsHash s.xorb_hash
  pub start_fits : IsU32 s.chunk_index_start
  pub end_fits : IsU32 s.chunk_index_end
  pub bytes_fits : IsU32 s.unpacked_segment_bytes

pub record IsBuildFile (f : FileBuildEntry) : Type 0 where
  pub hash_fits : IsHash f.file_hash
  pub segments_fit : All IsSegment f.segments
  pub count_fits : IsU32 (length f.segments)

pub record IsBuildChunk (c : XorbChunkBuildEntry) : Type 0 where
  pub hash_fits : IsHash c.chunk_hash
  pub start_fits : IsU32 c.chunk_byte_range_start
  pub bytes_fits : IsU32 c.unpacked_segment_bytes

pub record IsBuildXorb (x : XorbBuildEntry) : Type 0 where
  pub hash_fits : IsHash x.xorb_hash
  pub in_xorb_fits : IsU32 x.num_bytes_in_xorb
  pub on_disk_fits : IsU32 x.num_bytes_on_disk
  pub chunks_fit : All IsBuildChunk x.chunks
  pub count_fits : IsU32 (length x.chunks)

-- The builder's values fit, and it has one lookup entry for each chunk.
pub record IsBuilder (b : ShardBuilder) : Type 0 where
  pub files_fit : All IsBuildFile b.files
  pub xorbs_fit : All IsBuildXorb b.xorbs
  pub lookups_fit : All IsChunkLookup b.chunk_lookup_entries
  pub one_each : length b.chunk_lookup_entries ≡ sum_by (λ x. length x.chunks) b.xorbs

-- What `parse` is to find: one record for each registered file, segment, xorb and chunk.
abbrev pub registered : ShardBuilder → List ℕ → MdbShardFile
registered b hash = record {
  header = default_header;
  footer = build_footer b;
  file_entries = map file_header b.files;
  file_data_entries = flat_map (λ f. map file_entry f.segments) b.files;
  xorb_entries = map xorb_header b.xorbs;
  xorb_chunk_entries = flat_map (λ x. map xorb_entry x.chunks) b.xorbs;
  chunk_lookup_entries = b.chunk_lookup_entries;
  file_hashes = map (λ f. f.file_hash) b.files;
  chunk_mappings = map mapping b.chunk_lookup_entries;
  hash = hash;
}

abbrev pub file_seq : FileBuildEntry → FileSeq
file_seq f = record { header = file_header f; entries = map file_entry f.segments }

abbrev pub xorb_seq : XorbBuildEntry → XorbSeq
xorb_seq x = record { header = xorb_header x; entries = map xorb_entry x.chunks }

abbrev pub tables : ShardBuilder → Tables
tables b = record {
  files = map file_seq b.files;
  xorbs = map xorb_seq b.xorbs;
  lookups = b.chunk_lookup_entries;
}

-- The tables' records are those of the builder.
pub parsed-tables :
    (b : ShardBuilder) (hash : List ℕ) → parsed (tables b) (build_footer b) hash ≡ registered b hash
parsed-tables b hash = λ i. record {
  header = default_header;
  footer = build_footer b;
  file_entries = map-map (λ (q : FileSeq). q.header) file_seq b.files i;
  file_data_entries = flat_map-map (λ (q : FileSeq). q.entries) file_seq b.files i;
  xorb_entries = map-map (λ (q : XorbSeq). q.header) xorb_seq b.xorbs i;
  xorb_chunk_entries = flat_map-map (λ (q : XorbSeq). q.entries) xorb_seq b.xorbs i;
  chunk_lookup_entries = b.chunk_lookup_entries;
  file_hashes = map-map (λ (q : FileSeq). q.header.file_hash) file_seq b.files i;
  chunk_mappings = map mapping b.chunk_lookup_entries;
  hash = hash;
}

file_bytes-tables :
    (files : List FileBuildEntry)
    → flat_map encode_file_seq (map file_seq files)
      ≡ flat_map
          (λ f.
            FileSequence.serialize_header (file_header f)
            ++ flat_map (λ s. FileSequence.serialize_entry (file_entry s)) f.segments)
          files
file_bytes-tables files =
    flat_map-map encode_file_seq file_seq files
    ∙ flat_map-cong _ _ files (λ f.
      ap (λ bs. FileSequence.serialize_header (file_header f) ++ bs)
        (flat_map-map FileSequence.serialize_entry file_entry f.segments))

xorb_bytes-tables :
    (xorbs : List XorbBuildEntry)
    → flat_map encode_xorb_seq (map xorb_seq xorbs)
      ≡ flat_map
          (λ x.
            XorbSequence.serialize_header (xorb_header x)
            ++ flat_map (λ c. XorbSequence.serialize_entry (xorb_entry c)) x.chunks)
          xorbs
xorb_bytes-tables xorbs =
    flat_map-map encode_xorb_seq xorb_seq xorbs
    ∙ flat_map-cong _ _ xorbs (λ x.
      ap (λ bs. XorbSequence.serialize_header (xorb_header x) ++ bs)
        (flat_map-map XorbSequence.serialize_entry xorb_entry x.chunks))

pub shard_bytes-tables :
    (b : ShardBuilder) → shard_bytes (tables b) (build_footer b) ≡ build_buffer b
shard_bytes-tables b = λ i.
    Header.serialize default_header
    ++ (file_bytes-tables b.files i
        ++ (xorb_bytes-tables b.xorbs i
            ++ (lookup_bytes (tables b) ++ Footer.serialize (build_footer b))))

pub length-file_bytes : (b : ShardBuilder) → length (file_bytes (tables b)) ≡ file_section_size b
length-file_bytes b =
    ap length (flat_map-map encode_file_seq file_seq b.files)
    ∙ length-flat_map (λ f. encode_file_seq (file_seq f)) b.files
    ∙ sum_by-cong _ _ b.files
        (λ f. omega (arith, length-encode_file_seq (file_seq f), length-map file_entry f.segments))

pub length-xorb_bytes : (b : ShardBuilder) → length (xorb_bytes (tables b)) ≡ xorb_section_size b
length-xorb_bytes b =
    ap length (flat_map-map encode_xorb_seq xorb_seq b.xorbs)
    ∙ length-flat_map (λ x. encode_xorb_seq (xorb_seq x)) b.xorbs
    ∙ sum_by-cong _ _ b.xorbs
        (λ x. omega (arith, length-encode_xorb_seq (xorb_seq x), length-map xorb_entry x.chunks))
