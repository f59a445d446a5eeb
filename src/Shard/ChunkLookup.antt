-- ===== src/Shard/ChunkLookup.antt =====
-- `ChunkLookupEntry` of src/format/shard.rs.
use xet_server.Prelude.{ℕ, List, [], ◌∷◌, flatten, IsU32}
use xet_server.Bytes.{to_le_bytes}
use xet_server.Reader.{Reader, ◌>>=◌, pure, read_u32}
use xet_server.Hash.{MerkleHash, IsHash, as_bytes, read_hash}

pub record ChunkLookupEntry : Type 0 where
  pub chunk_hash : MerkleHash
  pub xorb_hash : MerkleHash
  pub chunk_index : ℕ

pub record IsChunkLookup (e : ChunkLookupEntry) : Type 0 where
  pub chunk_fits : IsHash e.chunk_hash
  pub xorb_fits : IsHash e.xorb_hash
  pub index_fits : IsU32 e.chunk_index

unfoldable pub serialize : ChunkLookupEntry → List ℕ
serialize e =
    flatten (as_bytes e.chunk_hash ∷ as_bytes e.xorb_hash ∷ to_le_bytes 4 e.chunk_index ∷ [])

unfoldable pub deserialize : Reader ChunkLookupEntry
deserialize = do
  chunk_hash ← read_hash
  xorb_hash ← read_hash
  chunk_index ← read_u32
  pure (record { chunk_hash = chunk_hash; xorb_hash = xorb_hash; chunk_index = chunk_index })
