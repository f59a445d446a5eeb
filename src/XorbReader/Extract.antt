-- ===== src/XorbReader/Extract.antt =====
-- What `extract_chunk_verified_from_file` of src/xorb_reader.rs takes from a file.
use xet_server.Prelude.{
  ℕ, ◌+◌, ◌/◌, ◌^◌, ◌≤◌, ◌<◌, ◌≡◌, refl, sym, ap, ◌∙◌, arith, ◌==◌, ==_refl, le→ltb, List, [], ◌∷◌,
  ◌++◌, length, length-append, drop-drop, take, drop, take-append, drop-append, append_assoc,
  append-nil, All, IsByte,
}
use native.Mathlib.Nat.{mod-eq_of_lt}
use xet_server.Outcome
use xet_server.Outcome.{Outcome, ok, err, panicked, out_of_fuel, ok-injective}
use xet_server.Hash.Laws.{eq_hash_iff}
use xet_server.Hash.Keyed.{Blake3, compute_data_hash}
use xet_server.Chunking.{default_config, max_chunk_size}
use xet_server.Compression.{
  CompressionScheme, none_scheme, lz4, byte_grouping4_lz4, Lz4, compress, decompress, bg4_split,
}
use xet_server.Compression.RoundTrip.{IsLz4, decompress-compress}
use xet_server.Compression.Regroup.{length-bg4_split}
use xet_server.Xorb.ChunkHeader.{
  XorbChunkHeader, chunk_header_size, serialize, deserialize, length-serialize, Reads-chunk_header,
}
use xet_server.Xorb.VerifyFile.{read_exact_at, parse_header}
use xet_server.Xorb.VerifyFile.Reading.{read_exact_at-ok}
use xet_server.XorbBuilder.{ChunkData, XorbBuilder, chunk_header, chunk_data, push_chunk, add_chunk}
use xet_server.Reply.{reply}
use xet_server.XorbReader.{max_compressed_len_for_chunk, extract_chunk_verified_from_file}

-- What `lz4_flex` documents: the size of a block, with its prefix of four bytes.
pub record IsBounded (codec : Lz4) : Type 0 where
  pub compressed_bound :
      (bs : List ℕ) → length (codec.compress_prepend_size bs) ≤ length bs + length bs / 255 + 20

compress-bound :
    (codec : Lz4) (scheme : CompressionScheme) (bs out : List ℕ)
    → IsBounded codec
    → compress codec scheme bs ≡ ok out
    → length out ≤ max_compressed_len_for_chunk scheme (length bs)
unfolding compress max_compressed_len_for_chunk
compress-bound codec none_scheme bs out c e = omega (arith, ap length (ok-injective e))
compress-bound codec lz4 bs out c e =
    omega (arith, ap length (ok-injective e), c.compressed_bound bs)
compress-bound codec byte_grouping4_lz4 bs out c e = omega (
  arith,
  ap length (ok-injective e),
  c.compressed_bound (bg4_split bs),
  length-bg4_split bs,
  ap (λ n. n / 255) (length-bg4_split bs),
)

max_compressed-small :
    (scheme : CompressionScheme) (n : ℕ)
    → n ≤ max_chunk_size default_config
    → max_compressed_len_for_chunk scheme n < 2 ^ 24
unfolding max_compressed_len_for_chunk
max_compressed-small none_scheme n h = omega (arith, h)
max_compressed-small lz4 n h = omega (arith, h)
max_compressed-small byte_grouping4_lz4 n h = omega (arith, h)

parse_header-serialize :
    (h : XorbChunkHeader)
    → h.version < 256
    → h.compressed_length < 2 ^ 24
    → h.uncompressed_length < 2 ^ 24
    → parse_header (serialize h) ≡ ok h
parse_header-serialize h v c u =
    let r =
      (Reads-chunk_header h
          (record { version_fits = v; compressed_fits = c; uncompressed_fits = u })).run
        0 [] in
    ap (λ xs. Outcome.◌>>=◌ (deserialize (record { position = 0; rest = xs })) (λ q. ok q.0))
      (sym (append-nil (serialize h)))
    ∙ ap (λ o. Outcome.◌>>=◌ o (λ q. ok q.0)) r

-- A framed chunk behind `front`: the reads, the checks and the decompression pass.
extract-framed :
    (blake3 : Blake3) (codec : Lz4) (h : XorbChunkHeader) (out front more bs : List ℕ)
    → h.version < 256
    → h.compressed_length ≡ length out
    → h.uncompressed_length ≡ length bs
    → length bs ≤ max_chunk_size default_config
    → length out ≤ max_compressed_len_for_chunk h.compression_scheme (length bs)
    → decompress codec h.compression_scheme out (length bs) ≡ ok bs
    → extract_chunk_verified_from_file blake3 codec
        (front ++ ((serialize h ++ out) ++ more))
        (length front)
        (length bs)
        (compute_data_hash blake3 (serialize h ++ out))
      ≡ reply bs
unfolding extract_chunk_verified_from_file
extract-framed blake3 codec h out front more bs v c u small bound dec =
    let content : List ℕ = front ++ ((serialize h ++ out) ++ more) in
    let s = length-serialize h in
    let assoc : (serialize h ++ out) ++ more ≡ serialize h ++ (out ++ more) =
      append_assoc (serialize h) out more in
    let n : length content ≡ length front + (8 + (length out + length more)) = omega (
      arith,
      length-append front ((serialize h ++ out) ++ more),
      ap length assoc,
      length-append (serialize h) (out ++ more),
      length-append out more,
      s,
    ) in
    let at : drop (length front) content ≡ serialize h ++ (out ++ more) =
      drop-append front ((serialize h ++ out) ++ more) ∙ assoc in
    let header_read : read_exact_at content (length front) chunk_header_size ≡ ok (serialize h) =
      read_exact_at-ok content (length front) 8 (omega (arith, n))
      ∙ ap ok (
          ap (take 8) at
          ∙ (ap (λ k. take k (serialize h ++ (out ++ more))) (sym s)
              ∙ take-append (serialize h) (out ++ more))) in
    let behind : drop (length front + 8) content ≡ out ++ more =
      sym (drop-drop (length front) 8 content)
      ∙ (ap (drop 8) at
          ∙ (ap (λ k. drop k (serialize h ++ (out ++ more))) (sym s)
              ∙ drop-append (serialize h) (out ++ more))) in
    let data_read : read_exact_at content (length front + chunk_header_size) h.compressed_length
        ≡ ok out =
      ap (read_exact_at content (length front + chunk_header_size)) c
      ∙ (read_exact_at-ok content (length front + 8) (length out) (omega (arith, n))
          ∙ ap ok (ap (take (length out)) behind ∙ take-append out more)) in
    let room = max_compressed-small h.compression_scheme (length bs) small in
    let parsed =
      parse_header-serialize h v (omega (arith, c, bound, room)) (omega (arith, u, small)) in
    let in_limit =
      le→ltb (max_compressed_len_for_chunk h.compression_scheme (length bs)) h.compressed_length
        (omega (arith, c, bound)) in
    let expanded : decompress codec h.compression_scheme out h.uncompressed_length ≡ ok bs =
      ap (decompress codec h.compression_scheme out) u ∙ dec in
    rw (
      header_read,
      parsed,
      le→ltb (max_chunk_size default_config) (length bs) small,
      ap (λ k. k == length bs) u ∙ ==_refl (length bs),
      in_limit,
      data_read,
      (eq_hash_iff (compute_data_hash blake3 (serialize h ++ out))
            (compute_data_hash blake3 (serialize h ++ out))).1
          refl,
      expanded,
    )

compress-total :
    (codec : Lz4) (scheme : CompressionScheme) (bs : List ℕ)
    → (out : List ℕ) × (compress codec scheme bs ≡ ok out)
unfolding compress
compress-total codec none_scheme bs = (bs, refl)
compress-total codec lz4 bs = (codec.compress_prepend_size bs, refl)
compress-total codec byte_grouping4_lz4 bs = (codec.compress_prepend_size (bg4_split bs), refl)

-- With an LZ4 codec as its crate documents it, a chunk of data of at most the largest chunk's size,
-- added to a builder, is extracted again, verified against the hash that `add_chunk` returns, from
-- wherever its bytes stand in a file.
pub extract_chunk_verified_from_file-add_chunk :
    (blake3 : Blake3) (codec : Lz4) (b : XorbBuilder) (bs : List ℕ)
    → IsLz4 codec
    → IsBounded codec
    → All IsByte bs
    → length bs ≤ max_chunk_size default_config
    → (b' : XorbBuilder) × (c : ChunkData) × (n : ℕ) × (add_chunk blake3 codec b bs
        ≡ ok (b', (c.chunk_hash, n)))
      × (b'.chunks ≡ b.chunks ++ (c ∷ []))
      × ((front more : List ℕ)
          → extract_chunk_verified_from_file blake3 codec
              (front ++ (c.serialized_chunk ++ more))
              (length front)
              (length bs)
              c.chunk_hash
            ≡ reply bs)
unfolding add_chunk
extract_chunk_verified_from_file-add_chunk blake3 codec b bs lz bounded bytes small =
    let (out, e) = compress-total codec b.compression_scheme bs in
    let trip = decompress-compress codec b.compression_scheme bs lz bytes (omega (arith, small)) in
    let dec : decompress codec b.compression_scheme out (length bs) ≡ ok bs = rw e at trip in
    let bound = compress-bound codec b.compression_scheme bs out bounded e in
    let room = max_compressed-small b.compression_scheme (length bs) small in
    let c : ChunkData = chunk_data blake3 b bs out in
    (
      push_chunk b c,
      c,
      c.compressed_len,
      rw e,
      refl,
      λ front more.
          extract-framed blake3 codec (chunk_header b bs out) out front more bs (omega arith)
            (mod-eq_of_lt (omega (arith, bound, room))) (mod-eq_of_lt (omega (arith, small))) small
            bound dec,
    )
