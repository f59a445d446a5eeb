-- ===== src/XorbBuilder/Invariant.antt =====
-- The invariant of the builder of src/format/xorb_builder.rs: where its chunks stand.
use xet_server.Prelude.{
  ℕ, ◌+◌, ◌*◌, ◌≡◌, refl, arith, List, [], ◌∷◌, length, length-append, sum_by, IsU32,
}
use xet_server.Hash.Keyed.{Blake3, compute_data_hash}
use xet_server.Compression.{CompressionScheme}
use xet_server.Xorb.ChunkHeader.{chunk_header_size}
use xet_server.XorbBuilder.{ChunkData, XorbBuilder, new, chunk_bytes}

-- A chunk whose bytes begin at `start`, and whose data begins at `unpacked`.
pub record IsLaid (blake3 : Blake3) (start unpacked : ℕ) (c : ChunkData) : Type 0 where
  pub hashed : c.chunk_hash ≡ compute_data_hash blake3 c.serialized_chunk
  pub framed : length c.serialized_chunk ≡ chunk_header_size + c.compressed_len
  pub bounded : c.boundary_offset ≡ start + length c.serialized_chunk
  pub boundary_fits : IsU32 c.boundary_offset
  pub unpacked_at : c.unpacked_offset ≡ unpacked
  pub unpacked_fits : IsU32 unpacked

-- Chunks one behind the other.
abbrev pub AreLaid : Blake3 → ℕ → ℕ → List ChunkData → ℕ → ℕ → Type 0
AreLaid blake3 start unpacked [] end unpacked_end = (start ≡ end) × (unpacked ≡ unpacked_end)
AreLaid blake3 start unpacked (c ∷ cs) end unpacked_end =
    IsLaid blake3 start unpacked c
    × AreLaid blake3 (start + length c.serialized_chunk) (unpacked + c.uncompressed_size) cs end
        unpacked_end

-- The builder's chunks stand one behind the other from 0 to its next offsets.
pub record IsXorbBuilder (blake3 : Blake3) (b : XorbBuilder) : Type 0 where
  pub laid : AreLaid blake3 0 0 b.chunks b.next_boundary_offset b.next_unpacked_offset
  pub next_fits : IsU32 b.next_unpacked_offset

-- The sums of the sizes; a chunk has a header and the compressed data.
pub AreLaid-sums :
    (blake3 : Blake3) (start unpacked : ℕ) (cs : List ChunkData) (end unpacked_end : ℕ)
    → AreLaid blake3 start unpacked cs end unpacked_end
    → (start + length (chunk_bytes cs) ≡ end)
      × (unpacked + sum_by (λ (c : ChunkData). c.uncompressed_size) cs ≡ unpacked_end)
      × (start + sum_by (λ (c : ChunkData). c.compressed_len) cs + chunk_header_size * length cs
          ≡ end)
AreLaid-sums blake3 start unpacked [] end unpacked_end (p, q) =
    (omega (arith, p), omega (arith, q), omega (arith, p))
AreLaid-sums blake3 start unpacked (c ∷ cs) end unpacked_end (w, h) =
    let s =
      AreLaid-sums blake3 (start + length c.serialized_chunk) (unpacked + c.uncompressed_size) cs
        end unpacked_end h in
    (
      omega (arith, s.0, length-append c.serialized_chunk (chunk_bytes cs)),
      omega (arith, s.1),
      omega (arith, s.2, w.framed),
    )

-- Where the chunks end fits its type.
pub AreLaid-fits :
    (blake3 : Blake3) (start unpacked : ℕ) (cs : List ChunkData) (end unpacked_end : ℕ)
    → AreLaid blake3 start unpacked cs end unpacked_end
    → IsU32 start
    → IsU32 end
AreLaid-fits blake3 start unpacked [] end unpacked_end (p, q) h = omega (arith, p, h)
AreLaid-fits blake3 start unpacked (c ∷ cs) end unpacked_end (w, v) h =
    AreLaid-fits blake3 (start + length c.serialized_chunk) (unpacked + c.uncompressed_size) cs end
      unpacked_end v (omega (arith, w.bounded, w.boundary_fits))

-- A new builder, of no chunks.
pub new-IsXorbBuilder :
    (blake3 : Blake3) (scheme : CompressionScheme) → IsXorbBuilder blake3 (new scheme)
new-IsXorbBuilder blake3 scheme = record { laid = (refl, refl); next_fits = omega arith }
