-- ===== src/Shard/Parse.antt =====
-- `MDBShardFile`, `parse` and `parse_reader` of src/format/shard.rs.
pub mod Written
pub mod RoundTrip
pub mod Total
pub mod Sound
use xet_server.Prelude.{
  ℕ, ◌+◌, ◌-◌, ◌*◌, ltb, ◌==◌, not, is_empty, ◌&&◌, ◌||◌, List, [], ◌∷◌, ◌++◌, Option, none, some,
  map, length, checked_add, checked_mul, if◌then◌else◌,
}
use xet_server.Outcome.{Outcome, parse_error, refuse, ok, err, ok_or}
use xet_server.Outcome
use xet_server.Bytes.{eq_bytes}
use xet_server.Reader.{Reader, Cursor, ◌>>=◌, ◌>>◌, pure, lift, seek, repeat}
use xet_server.Hash.{MerkleHash}
use xet_server.Hash.Keyed.{Blake3, compute_data_hash}
use xet_server.Hash.Hex.{Hex, to_hex}
use xet_server.Shard.Header
use xet_server.Shard.Header.{MdbShardFileHeader, default_header}
use xet_server.Shard.Footer
use xet_server.Shard.Footer.{MdbShardFileFooter}
use xet_server.Shard.FileSequence.{FileDataSequenceHeader, FileDataSequenceEntry}
use xet_server.Shard.XorbSequence.{XorbChunkSequenceHeader, XorbChunkSequenceEntry}
use xet_server.Shard.ChunkLookup
use xet_server.Shard.ChunkLookup.{ChunkLookupEntry}
use xet_server.Shard.Sections.{
  FileSection, XorbSection, no_files, no_xorbs, shard_header_size, validate_section_bounds,
  parse_file_section, parse_xorb_section,
}

abbrev pub shard_footer_size : ℕ
shard_footer_size = 208

abbrev pub chunk_lookup_entry_size : ℕ
chunk_lookup_entry_size = 68

pub record MdbShardFile : Type 0 where
  pub header : MdbShardFileHeader
  pub footer : MdbShardFileFooter
  pub file_entries : List FileDataSequenceHeader
  pub file_data_entries : List FileDataSequenceEntry
  pub xorb_entries : List XorbChunkSequenceHeader
  pub xorb_chunk_entries : List XorbChunkSequenceEntry
  pub chunk_lookup_entries : List ChunkLookupEntry
  pub file_hashes : List MerkleHash
  pub chunk_mappings : List (MerkleHash × MerkleHash × ℕ)
  pub hash : List ℕ

-- The header, checked against the default header.
unfoldable pub read_header : List ℕ → Reader MdbShardFileHeader
read_header content = do
  seek content 0
  header ← Header.deserialize
  lift (
      refuse (not (eq_bytes header.tag default_header.tag)) (parse_error "Invalid shard magic tag"))
  lift (
      refuse (not (header.version == default_header.version))
        (parse_error "Unsupported shard version"))
  lift (refuse (not (header.footer_size == shard_footer_size)) (parse_error "Invalid footer size"))
  pure header

-- The footer, checked against the header and its own place.
unfoldable pub read_footer : List ℕ → MdbShardFileHeader → ℕ → Reader MdbShardFileFooter
read_footer content header footer_start = do
  seek content footer_start
  footer ← Footer.deserialize
  lift (refuse (not (footer.version == header.version)) (parse_error "Shard version mismatch"))
  lift (refuse (not (footer.footer_offset == footer_start)) (parse_error "Invalid footer offset"))
  pure footer

-- A part of the body and the offset behind it (`next_offset`).
abbrev pub Placed : Type 0 → Type 0
Placed A = A × ℕ

-- The branches of `parse_reader` on `file_info_offset`.
unfoldable pub absent_files : MdbShardFileFooter → ℕ → Reader (Placed FileSection)
absent_files footer next_offset = do
  lift (
      refuse (not (footer.file_lookup_offset == 0) || not (footer.file_lookup_num_entry == 0))
        (parse_error "File section metadata is inconsistent"))
  pure (no_files, next_offset)

unfoldable pub present_files : List ℕ → MdbShardFileFooter → ℕ → ℕ → Reader (Placed FileSection)
present_files content footer footer_start next_offset = do
  lift (
      refuse (not (footer.file_info_offset == next_offset))
        (parse_error "File section must start at"))
  lift (validate_section_bounds footer.file_info_offset footer.file_lookup_offset footer_start)
  parsed ← parse_file_section content footer.file_info_offset footer.file_lookup_offset
  lift (
      refuse (not (length parsed.headers == footer.file_lookup_num_entry))
        (parse_error "File sequence count mismatch"))
  pure (parsed, footer.file_lookup_offset)

unfoldable pub read_files : List ℕ → MdbShardFileFooter → ℕ → ℕ → Reader (Placed FileSection)
read_files content footer footer_start next_offset =
    if footer.file_info_offset == 0
    then absent_files footer next_offset
    else present_files content footer footer_start next_offset

-- The branches of `parse_reader` on `xorb_info_offset`.
unfoldable pub absent_xorbs : MdbShardFileFooter → ℕ → Reader (Placed XorbSection)
absent_xorbs footer next_offset = do
  lift (
      refuse (not (footer.xorb_lookup_offset == 0) || not (footer.xorb_lookup_num_entry == 0))
        (parse_error "Xorb section metadata is inconsistent"))
  pure (no_xorbs, next_offset)

unfoldable pub present_xorbs : List ℕ → MdbShardFileFooter → ℕ → ℕ → Reader (Placed XorbSection)
present_xorbs content footer footer_start next_offset = do
  lift (
      refuse (not (footer.xorb_info_offset == next_offset))
        (parse_error "Xorb section must start at"))
  lift (validate_section_bounds footer.xorb_info_offset footer.xorb_lookup_offset footer_start)
  parsed ← parse_xorb_section content footer.xorb_info_offset footer.xorb_lookup_offset
  lift (
      refuse (not (length parsed.headers == footer.xorb_lookup_num_entry))
        (parse_error "Xorb sequence count mismatch"))
  pure (parsed, footer.xorb_lookup_offset)

unfoldable pub read_xorbs : List ℕ → MdbShardFileFooter → ℕ → ℕ → Reader (Placed XorbSection)
read_xorbs content footer footer_start next_offset =
    if footer.xorb_info_offset == 0
    then absent_xorbs footer next_offset
    else present_xorbs content footer footer_start next_offset

-- The branches of `parse_reader` on `chunk_lookup_offset`.
unfoldable pub absent_lookups :
    MdbShardFileFooter → ℕ → List XorbChunkSequenceEntry → Reader (Placed (List ChunkLookupEntry))
absent_lookups footer next_offset xorb_chunk_entries = do
  lift (
      refuse (not (footer.chunk_lookup_num_entry == 0))
        (parse_error "Chunk lookup count is non-zero but its offset is zero"))
  lift (
      refuse (not (is_empty xorb_chunk_entries))
        (parse_error "Shard missing required raw chunk lookup section"))
  pure ([], next_offset)

-- `try_reserve_exact` is taken to find the memory.
unfoldable pub present_lookups :
    List ℕ → MdbShardFileFooter → ℕ → ℕ → Reader (Placed (List ChunkLookupEntry))
present_lookups content footer footer_start next_offset = do
  lift (
      refuse (footer.chunk_lookup_num_entry == 0)
        (parse_error "Chunk lookup offset is non-zero but its count is zero"))
  lift (
      refuse (not (footer.chunk_lookup_offset == next_offset))
        (parse_error "Chunk lookup section must start at"))
  byte_len ← lift (
      ok_or (checked_mul footer.chunk_lookup_num_entry chunk_lookup_entry_size)
        (parse_error "Chunk lookup byte length overflow"))
  end ← lift (
      ok_or (checked_add footer.chunk_lookup_offset byte_len)
        (parse_error "Chunk lookup end offset overflow"))
  lift (refuse (not (end == footer_start)) (parse_error "Chunk lookup section ends at"))
  seek content footer.chunk_lookup_offset
  entries ← repeat footer.chunk_lookup_num_entry ChunkLookup.deserialize
  pure (entries, end)

unfoldable pub read_lookups :
    List ℕ
    → MdbShardFileFooter
    → ℕ
    → ℕ
    → List XorbChunkSequenceEntry
    → Reader (Placed (List ChunkLookupEntry))
read_lookups content footer footer_start next_offset xorb_chunk_entries =
    if footer.chunk_lookup_offset == 0
    then absent_lookups footer next_offset xorb_chunk_entries
    else present_lookups content footer footer_start next_offset

abbrev pub mapping : ChunkLookupEntry → MerkleHash × MerkleHash × ℕ
mapping entry = (entry.chunk_hash, entry.xorb_hash, entry.chunk_index)

-- `checked_sub` cannot fail behind the first test.
unfoldable pub parse_reader : List ℕ → ℕ → List ℕ → Reader MdbShardFile
parse_reader content file_len hash = do
  lift (
      refuse (ltb file_len (shard_header_size + shard_footer_size))
        (parse_error "Shard is too small"))
  let footer_start = file_len - shard_footer_size
  header ← read_header content
  footer ← read_footer content header footer_start
  (files, after_files) ← read_files content footer footer_start shard_header_size
  (xorbs, after_xorbs) ← read_xorbs content footer footer_start after_files
  (lookups, after_lookups) ← read_lookups content footer footer_start after_xorbs xorbs.entries
  lift (refuse (not (after_lookups == footer_start)) (parse_error "Unaccounted shard bytes"))
  lift (
      refuse (not (length lookups == length xorbs.entries))
        (parse_error "Shard chunk lookup count mismatch"))
  pure (record {
    header = header;
    footer = footer;
    file_entries = files.headers;
    file_data_entries = files.entries;
    xorb_entries = xorbs.headers;
    xorb_chunk_entries = xorbs.entries;
    chunk_lookup_entries = lookups;
    file_hashes = files.hashes;
    chunk_mappings = map mapping lookups;
    hash = hash;
  })

-- The value of a reader that starts in front of `content`.
abbrev pub run_reader {ℓ} : {A : Type ℓ} → Reader A → List ℕ → Outcome A
run_reader m content =
    Outcome.◌>>=◌ (m (record { position = 0; rest = content })) (λ r. Outcome.ok r.0)

-- A slice's length fits in `u64`.
unfoldable pub parse : Blake3 → Hex → List ℕ → Outcome MdbShardFile
parse blake3 hex content =
    run_reader
      (parse_reader content (length content) (to_hex hex (compute_data_hash blake3 content)))
      content
