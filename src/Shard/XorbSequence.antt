-- ===== src/Shard/XorbSequence.antt =====
-- `XorbChunkSequenceHeader` and `XorbChunkSequenceEntry` of src/format/shard.rs.
use xet_server.Prelude.{ℕ, List, [], ◌∷◌, flatten, replicate, IsU32}
use xet_server.Bytes.{to_le_bytes}
use xet_server.Reader.{Reader, ◌>>=◌, pure, read_exact, read_u32}
use xet_server.Hash.{MerkleHash, IsHash, as_bytes, read_hash}

pub record XorbChunkSequenceHeader : Type 0 where
  pub xorb_hash : MerkleHash
  pub xorb_flags : ℕ
  pub num_entries : ℕ
  pub num_bytes_in_xorb : ℕ
  pub num_bytes_on_disk : ℕ

pub record IsXorbHeader (h : XorbChunkSequenceHeader) : Type 0 where
  pub hash_fits : IsHash h.xorb_hash
  pub flags_fits : IsU32 h.xorb_flags
  pub num_entries_fits : IsU32 h.num_entries
  pub in_xorb_fits : IsU32 h.num_bytes_in_xorb
  pub on_disk_fits : IsU32 h.num_bytes_on_disk

unfoldable pub serialize_header : XorbChunkSequenceHeader → List ℕ
serialize_header h = flatten (
    as_bytes h.xorb_hash
    ∷ to_le_bytes 4 h.xorb_flags
    ∷ to_le_bytes 4 h.num_entries
    ∷ to_le_bytes 4 h.num_bytes_in_xorb
    ∷ to_le_bytes 4 h.num_bytes_on_disk
    ∷ [])

unfoldable pub deserialize_header : Reader XorbChunkSequenceHeader
deserialize_header = do
  xorb_hash ← read_hash
  xorb_flags ← read_u32
  num_entries ← read_u32
  num_bytes_in_xorb ← read_u32
  num_bytes_on_disk ← read_u32
  pure (record {
    xorb_hash = xorb_hash;
    xorb_flags = xorb_flags;
    num_entries = num_entries;
    num_bytes_in_xorb = num_bytes_in_xorb;
    num_bytes_on_disk = num_bytes_on_disk;
  })

pub record XorbChunkSequenceEntry : Type 0 where
  pub chunk_hash : MerkleHash
  pub chunk_byte_range_start : ℕ
  pub unpacked_segment_bytes : ℕ
  pub flags : ℕ

pub record IsXorbEntry (e : XorbChunkSequenceEntry) : Type 0 where
  pub hash_fits : IsHash e.chunk_hash
  pub start_fits : IsU32 e.chunk_byte_range_start
  pub bytes_fits : IsU32 e.unpacked_segment_bytes
  pub flags_fits : IsU32 e.flags

unfoldable pub serialize_entry : XorbChunkSequenceEntry → List ℕ
serialize_entry e = flatten (
    as_bytes e.chunk_hash
    ∷ to_le_bytes 4 e.chunk_byte_range_start
    ∷ to_le_bytes 4 e.unpacked_segment_bytes
    ∷ to_le_bytes 4 e.flags
    ∷ replicate 4 0
    ∷ [])

unfoldable pub deserialize_entry : Reader XorbChunkSequenceEntry
deserialize_entry = do
  chunk_hash ← read_hash
  chunk_byte_range_start ← read_u32
  unpacked_segment_bytes ← read_u32
  flags ← read_u32
  _unused ← read_exact 4
  pure (record {
    chunk_hash = chunk_hash;
    chunk_byte_range_start = chunk_byte_range_start;
    unpacked_segment_bytes = unpacked_segment_bytes;
    flags = flags;
  })
