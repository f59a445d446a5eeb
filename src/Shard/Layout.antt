-- ===== src/Shard/Layout.antt =====
-- A shard as tables, their bytes, and a footer that states where they stand.
use xet_server.Prelude.{
  ℕ, ◌+◌, ◌^◌, ◌<◌, ◌≡◌, List, ◌++◌, length, flat_map, All, is_empty, if◌then◌else◌,
}
use xet_server.Shard.Header
use xet_server.Shard.Header.{default_header}
use xet_server.Shard.Footer
use xet_server.Shard.Footer.{MdbShardFileFooter, IsFooter}
use xet_server.Shard.ChunkLookup
use xet_server.Shard.ChunkLookup.{ChunkLookupEntry, IsChunkLookup}
use xet_server.Shard.Sections.WrittenFiles.{FileSeq, IsFileSeq, encode_file_seq}
use xet_server.Shard.Sections.WrittenXorbs.{XorbSeq, IsXorbSeq, encode_xorb_seq}

-- What a shard holds: its sequences and its lookup entries.
pub record Tables : Type 0 where
  pub files : List FileSeq
  pub xorbs : List XorbSeq
  pub lookups : List ChunkLookupEntry

abbrev pub file_bytes : Tables → List ℕ
file_bytes t = flat_map encode_file_seq t.files

abbrev pub xorb_bytes : Tables → List ℕ
xorb_bytes t = flat_map encode_xorb_seq t.xorbs

abbrev pub lookup_bytes : Tables → List ℕ
lookup_bytes t = flat_map ChunkLookup.serialize t.lookups

-- The offsets behind the file section and the xorb section, and of the footer.
abbrev pub files_end : Tables → ℕ
files_end t = 48 + length (file_bytes t)

abbrev pub xorbs_end : Tables → ℕ
xorbs_end t = files_end t + length (xorb_bytes t)

abbrev pub lookups_end : Tables → ℕ
lookups_end t = xorbs_end t + length (lookup_bytes t)

-- The whole shard.
abbrev pub shard_bytes : Tables → MdbShardFileFooter → List ℕ
shard_bytes t f =
    Header.serialize default_header
    ++ (file_bytes t ++ (xorb_bytes t ++ (lookup_bytes t ++ Footer.serialize f)))

-- The values fit their types, and the lookup entries are as many as the chunks.
pub record IsTables (t : Tables) : Type 0 where
  pub files_fit : All IsFileSeq t.files
  pub xorbs_fit : All IsXorbSeq t.xorbs
  pub lookups_fit : All IsChunkLookup t.lookups
  pub one_each : length t.lookups ≡ length (flat_map (λ q. q.entries) t.xorbs)
  pub size_fits : lookups_end t + 208 < 2 ^ 64

-- The footer states where the sections stand; an empty section stands nowhere.
pub record Places (t : Tables) (f : MdbShardFileFooter) : Type 0 where
  pub footer_fits : IsFooter f
  pub version_is : f.version ≡ 2
  pub file_info : f.file_info_offset ≡ (if is_empty t.files then 0 else 48)
  pub file_lookup : f.file_lookup_offset ≡ (if is_empty t.files then 0 else files_end t)
  pub file_count : f.file_lookup_num_entry ≡ length t.files
  pub xorb_info : f.xorb_info_offset ≡ (if is_empty t.xorbs then 0 else files_end t)
  pub xorb_lookup : f.xorb_lookup_offset ≡ (if is_empty t.xorbs then 0 else xorbs_end t)
  pub xorb_count : f.xorb_lookup_num_entry ≡ length t.xorbs
  pub chunk_lookup : f.chunk_lookup_offset ≡ (if is_empty t.lookups then 0 else xorbs_end t)
  pub chunk_count : f.chunk_lookup_num_entry ≡ length t.lookups
  pub footer_at : f.footer_offset ≡ lookups_end t
