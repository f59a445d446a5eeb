-- ===== src/Xorb/ChunkHeader.antt =====
-- `XorbChunkHeader` of src/format/xorb.rs.
use xet_server.Prelude.{
  ℕ, ◌<◌, ◌^◌, ◌≡◌, refl, arith, List, [], ◌∷◌, ◌++◌, length, append-nil, IsByte,
}
use xet_server.Outcome.{Outcome, ok, err, panicked, out_of_fuel, io_error, invalid_data}
use xet_server.Bytes.{to_le_bytes, from_le_bytes}
use xet_server.Bytes.RoundTrip.{from_le_bytes-to_le_bytes, length-to_le_bytes}
use xet_server.Reader.{Reader, ◌>>=◌, pure, lift, read_exact}
use xet_server.Reader.Reads.{
  Reads, Reads-bind, Reads-pure, Reads-lift, Reads-exact_of, Reads-value, Reads-bytes,
}
use xet_server.Compression.{
  CompressionScheme, none_scheme, lz4, byte_grouping4_lz4, scheme_byte, try_from,
}

pub record XorbChunkHeader : Type 0 where
  pub version : ℕ
  pub compressed_length : ℕ
  pub compression_scheme : CompressionScheme
  pub uncompressed_length : ℕ

abbrev pub chunk_header_size : ℕ
chunk_header_size = 8

-- The lengths are written as the lowest three bytes of four.
unfoldable pub serialize : XorbChunkHeader → List ℕ
serialize h =
    (h.version ∷ [])
    ++ (to_le_bytes 3 h.compressed_length
        ++ ((scheme_byte h.compression_scheme ∷ []) ++ to_le_bytes 3 h.uncompressed_length))

-- `.map_err(|e| std::io::Error::new(InvalidData, …))`
abbrev pub as_invalid_data : Outcome CompressionScheme → Outcome CompressionScheme
as_invalid_data (ok s) = ok s
as_invalid_data (err e) = err (io_error invalid_data)
as_invalid_data panicked = panicked
as_invalid_data out_of_fuel = out_of_fuel

-- A buffer of one byte is read as a number of one byte, and one of three bytes with a fourth that
-- is 0.
unfoldable pub deserialize : Reader XorbChunkHeader
deserialize = do
  version_buf ← read_exact 1
  cl_buf ← read_exact 3
  scheme_buf ← read_exact 1
  compression_scheme ← lift (as_invalid_data (try_from (from_le_bytes scheme_buf)))
  ul_buf ← read_exact 3
  pure (record {
    version = from_le_bytes version_buf;
    compressed_length = from_le_bytes cl_buf;
    compression_scheme = compression_scheme;
    uncompressed_length = from_le_bytes ul_buf;
  })

-- The version is a byte, and the lengths have three.
pub record IsChunkHeader (h : XorbChunkHeader) : Type 0 where
  pub version_fits : IsByte h.version
  pub compressed_fits : h.compressed_length < 2 ^ 24
  pub uncompressed_fits : h.uncompressed_length < 2 ^ 24

scheme_read :
    (s : CompressionScheme) → as_invalid_data (try_from (from_le_bytes (scheme_byte s ∷ []))) ≡ ok s
unfolding try_from from_le_bytes
scheme_read none_scheme = refl
scheme_read lz4 = refl
scheme_read byte_grouping4_lz4 = refl

one_byte : (b : ℕ) → from_le_bytes (b ∷ []) ≡ b
unfolding from_le_bytes
one_byte b = omega arith

-- A chunk header whose lengths fit three bytes is read back from its bytes, whatever follows them,
-- and the reader stands behind them.
pub Reads-chunk_header : (h : XorbChunkHeader) → IsChunkHeader h → Reads deserialize (serialize h) h
unfolding deserialize serialize
Reads-chunk_header h v =
    Reads-value
      (λ i. record {
        version = one_byte h.version i;
        compressed_length = from_le_bytes-to_le_bytes 3 h.compressed_length v.compressed_fits i;
        compression_scheme = h.compression_scheme;
        uncompressed_length =
            from_le_bytes-to_le_bytes 3 h.uncompressed_length v.uncompressed_fits i;
      })
      (Reads-bind _ (Reads-exact_of (h.version ∷ []) refl) (
        Reads-bind _ (Reads-exact_of (to_le_bytes 3 h.compressed_length) (length-to_le_bytes 3 _)) (
          Reads-bind _ (Reads-exact_of (scheme_byte h.compression_scheme ∷ []) refl) (
            Reads-bind {bs = []} _ (Reads-lift (scheme_read h.compression_scheme)) (
              Reads-bytes (append-nil _) (
                Reads-bind _
                  (Reads-exact_of (to_le_bytes 3 h.uncompressed_length) (length-to_le_bytes 3 _))
                  (Reads-pure _)))))))

pub length-serialize : (h : XorbChunkHeader) → length (serialize h) ≡ 8
unfolding serialize to_le_bytes
length-serialize h = refl
