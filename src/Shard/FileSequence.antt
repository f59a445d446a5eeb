-- ===== src/Shard/FileSequence.antt =====
-- `FileDataSequenceHeader` and `FileDataSequenceEntry` of src/format/shard.rs.
use xet_server.Prelude.{ℕ, List, [], ◌∷◌, flatten, replicate, IsU32}
use xet_server.Bytes.{to_le_bytes}
use xet_server.Reader.{Reader, ◌>>=◌, pure, read_exact, read_u32}
use xet_server.Hash.{MerkleHash, IsHash, as_bytes, read_hash}

pub record FileDataSequenceHeader : Type 0 where
  pub file_hash : MerkleHash
  pub file_flags : ℕ
  pub num_entries : ℕ

pub record IsFileHeader (h : FileDataSequenceHeader) : Type 0 where
  pub hash_fits : IsHash h.file_hash
  pub flags_fits : IsU32 h.file_flags
  pub num_entries_fits : IsU32 h.num_entries

unfoldable pub serialize_header : FileDataSequenceHeader → List ℕ
serialize_header h = flatten (
    as_bytes h.file_hash
    ∷ to_le_bytes 4 h.file_flags
    ∷ to_le_bytes 4 h.num_entries
    ∷ replicate 8 0
    ∷ [])

unfoldable pub deserialize_header : Reader FileDataSequenceHeader
deserialize_header = do
  file_hash ← read_hash
  file_flags ← read_u32
  num_entries ← read_u32
  _unused ← read_exact 8
  pure (record { file_hash = file_hash; file_flags = file_flags; num_entries = num_entries })

pub record FileDataSequenceEntry : Type 0 where
  pub xorb_hash : MerkleHash
  pub xorb_flags : ℕ
  pub unpacked_segment_bytes : ℕ
  pub chunk_index_start : ℕ
  pub chunk_index_end : ℕ

pub record IsFileEntry (e : FileDataSequenceEntry) : Type 0 where
  pub hash_fits : IsHash e.xorb_hash
  pub flags_fits : IsU32 e.xorb_flags
  pub bytes_fits : IsU32 e.unpacked_segment_bytes
  pub start_fits : IsU32 e.chunk_index_start
  pub end_fits : IsU32 e.chunk_index_end

unfoldable pub serialize_entry : FileDataSequenceEntry → List ℕ
serialize_entry e = flatten (
    as_bytes e.xorb_hash
    ∷ to_le_bytes 4 e.xorb_flags
    ∷ to_le_bytes 4 e.unpacked_segment_bytes
    ∷ to_le_bytes 4 e.chunk_index_start
    ∷ to_le_bytes 4 e.chunk_index_end
    ∷ [])

unfoldable pub deserialize_entry : Reader FileDataSequenceEntry
deserialize_entry = do
  xorb_hash ← read_hash
  xorb_flags ← read_u32
  unpacked_segment_bytes ← read_u32
  chunk_index_start ← read_u32
  chunk_index_end ← read_u32
  pure (record {
    xorb_hash = xorb_hash;
    xorb_flags = xorb_flags;
    unpacked_segment_bytes = unpacked_segment_bytes;
    chunk_index_start = chunk_index_start;
    chunk_index_end = chunk_index_end;
  })
