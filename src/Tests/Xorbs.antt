-- ===== src/Tests/Xorbs.antt =====
-- Xorbs.
use xet_server.Prelude.{ℕ, ◌+◌, ◌≡◌, refl, arith, false, List, [], ◌∷◌, ◌++◌, length, drop}
use xet_server.Outcome.{ok, panicked, Ends}
use xet_server.Bytes.{to_le_bytes, from_le_bytes, eq_bytes}
use xet_server.Hash
use xet_server.Hash.{MerkleHash, as_bytes, read_hash}
use xet_server.MerkleTree
use xet_server.MerkleTree.{aggregated_node_hash, collapse}
use xet_server.Reader
use xet_server.Reader.{split_exact, read_exact, pure, lift, repeat, read_u32}
use xet_server.Hash.Keyed.{compute_data_hash}
use xet_server.Compression.{none_scheme, lz4, try_from}
use xet_server.Reader.Reads.{Reads}
use xet_server.Xorb.ChunkHeader.{XorbChunkHeader, serialize, Reads-chunk_header}
use xet_server.Xorb.ChunkHeader
use xet_server.Xorb.ObjectInfo.{
  XorbObjectInfoV1, to_bytes, from_bytes, expect_bytes, serialized_len,
}
use xet_server.Xorb.ObjectInfo
use xet_server.Xorb.Footer.{IsObjectInfo, Reads-object_info}
use xet_server.Xorb.Verify.{find_footer, verify_xorb}
use xet_server.Xorb.Verify.Total.{verify_xorb-Ends}
use xet_server.Xorb.VerifyFile.{
  VerifiedXorbInfo, locate_footer, verify_file_chunks, verify_file_chunk, read_payload,
  read_exact_at, verify_xorb_from_file_with_info,
}
use xet_server.Xorb.VerifyFile.Accepted.{
  IsVerifiedXorb, verify_xorb_from_file_with_info-IsVerifiedXorb,
}
use xet_server.Xorb.VerifyFile.Agrees.{verify_xorb-verify_xorb_from_file_with_info}
use xet_server.XorbBuilder.{
  ChunkData, XorbBuilder, XorbBuildResult, new, chunk_data, push_chunk, add_chunk, chunk_bytes,
  built_footer, xorb_hash, build,
}
use xet_server.XorbBuilder.Invariant.{IsXorbBuilder}
use xet_server.XorbBuilder.Ident.{has_ident}
use xet_server.XorbBuilder.Build.{build-verify_xorb, build-Ends}
use xet_server.XorbReader.{extract_chunk_verified_from_file}
use xet_server.XorbReader.Extract.{extract_chunk_verified_from_file-add_chunk}
use xet_server.Reply.{reply}
use xet_server.Tests.Data.{
  some_blake3, some_blake3-HasDigests, lower_hex, some_hash, some_hash-IsHash,
}
use xet_server.Tests.Compressions.{stored, stored-IsLz4, stored-IsBounded}

abbrev some_header : XorbChunkHeader
some_header = record {
  version = 1;
  compressed_length = 3;
  compression_scheme = lz4;
  uncompressed_length = 70000;
}

Reads-chunk_header_example : Reads ChunkHeader.deserialize (serialize some_header) some_header
Reads-chunk_header_example = Reads-chunk_header some_header (record {
  version_fits = omega arith;
  compressed_fits = omega arith;
  uncompressed_fits = omega arith;
})

abbrev some_info : XorbObjectInfoV1
some_info = record {
  xorb_hash = some_hash;
  chunk_hashes = some_hash ∷ some_hash ∷ [];
  chunk_boundary_offsets = 11 ∷ 22 ∷ [];
  unpacked_chunk_offsets = 0 ∷ 3 ∷ [];
}

some_info-IsObjectInfo : IsObjectInfo some_info
some_info-IsObjectInfo = record {
  xorb_fits = some_hash-IsHash;
  hashes_fit = (some_hash-IsHash, (some_hash-IsHash, tt));
  boundaries_fit = (omega arith, (omega arith, tt));
  unpacked_fit = (omega arith, (omega arith, tt));
  boundary_each = refl;
  unpacked_each = refl;
  few = omega arith;
}

Reads-object_info_example : Reads ObjectInfo.deserialize (to_bytes some_info) some_info
Reads-object_info_example = Reads-object_info some_info some_info-IsObjectInfo

verify_xorb-Ends_example :
    Ends (verify_xorb some_blake3 lower_hex (1 ∷ 2 ∷ 3 ∷ 4 ∷ 5 ∷ 6 ∷ 7 ∷ []))
    × (verify_xorb some_blake3 lower_hex (1 ∷ []) ≡ panicked)
verify_xorb-Ends_example =
    verify_xorb-Ends some_blake3 lower_hex (1 ∷ 2 ∷ 3 ∷ 4 ∷ 5 ∷ 6 ∷ 7 ∷ []) (1 ∷ []) (omega arith)
      (omega arith)

abbrev pub three : List ℕ
three = 1 ∷ 2 ∷ 3 ∷ []

abbrev empty_builder : XorbBuilder
empty_builder = new none_scheme

-- A builder of one chunk.
abbrev pub one_chunk : ChunkData
one_chunk = chunk_data some_blake3 empty_builder three three

abbrev some_builder : XorbBuilder
some_builder = push_chunk empty_builder one_chunk

some_builder-IsXorbBuilder : IsXorbBuilder some_blake3 some_builder
unfolding serialize to_le_bytes
some_builder-IsXorbBuilder = record {
  laid = (
    record {
      hashed = refl;
      framed = refl;
      bounded = refl;
      boundary_fits = omega arith;
      unpacked_at = refl;
      unpacked_fits = omega arith;
    },
    (refl, refl),
  );
  next_fits = omega arith;
}

hash_of_builder : xorb_hash some_blake3 lower_hex some_builder ≡ ok one_chunk.chunk_hash
unfolding xorb_hash MerkleTree.xorb_hash aggregated_node_hash collapse
hash_of_builder = refl

one_ident :
    has_ident (drop 1 (to_bytes (built_footer some_builder.chunks one_chunk.chunk_hash))) ≡ false
unfolding to_bytes to_le_bytes as_bytes serialize eq_bytes compute_data_hash Hash.from_bytes
    from_le_bytes
one_ident = refl

build-verify_xorb_example :
    (r : XorbBuildResult) × (build some_blake3 lower_hex some_builder ≡ ok r)
    × (verify_xorb some_blake3 lower_hex r.«data» ≡ ok tt)
    × (from_bytes (drop some_builder.next_boundary_offset r.«data»)
        ≡ ok (built_footer some_builder.chunks one_chunk.chunk_hash))
    × (r.«data»
        ≡ chunk_bytes some_builder.chunks
          ++ to_bytes (built_footer some_builder.chunks one_chunk.chunk_hash))
    × (r.xorb_hash ≡ one_chunk.chunk_hash)
    × (r.chunk_hashes ≡ one_chunk.chunk_hash ∷ [])
    × (r.total_uncompressed_size ≡ some_builder.next_unpacked_offset)
    × (r.total_compressed_size + 8 ≡ some_builder.next_boundary_offset)
build-verify_xorb_example =
    build-verify_xorb some_blake3 some_blake3-HasDigests lower_hex some_builder one_chunk.chunk_hash
      some_builder-IsXorbBuilder (omega arith) hash_of_builder one_ident

build-Ends_example :
    Ends (build some_blake3 lower_hex some_builder)
    × ((r : XorbBuildResult)
        → build some_blake3 lower_hex some_builder ≡ ok r
        → verify_xorb some_blake3 lower_hex r.«data» ≡ ok tt)
build-Ends_example = build-Ends some_blake3 lower_hex some_builder

-- The xorb that is built.
abbrev pub one_xorb : List ℕ
one_xorb =
    chunk_bytes some_builder.chunks
    ++ to_bytes (built_footer some_builder.chunks one_chunk.chunk_hash)

abbrev pub one_info : VerifiedXorbInfo
one_info = record {
  xorb_hash = one_chunk.chunk_hash;
  file_len = 111;
  footer_start = 11;
  chunks =
      record {
        serialized_chunk_hash = one_chunk.chunk_hash;
        serialized_start = 0;
        serialized_end = 11;
        serialized_len = 11;
        unpacked_start = 0;
        unpacked_len = 3;
        compressed_payload_len = 3;
      }
      ∷ [];
  total_unpacked_bytes = 3;
  total_compressed_payload_bytes = 3;
}

pub one_xorb_verified : verify_xorb_from_file_with_info some_blake3 lower_hex one_xorb ≡ ok one_info
unfolding verify_xorb_from_file_with_info locate_footer verify_file_chunks verify_file_chunk
    read_payload read_exact_at split_exact find_footer eq_bytes to_bytes to_le_bytes from_le_bytes
    as_bytes serialize ChunkHeader.deserialize ObjectInfo.deserialize from_bytes expect_bytes
    read_exact pure lift repeat read_u32 read_hash Hash.from_bytes try_from serialized_len
    compute_data_hash MerkleTree.xorb_hash aggregated_node_hash collapse Reader.◌>>=◌
one_xorb_verified = refl

verify_xorb_from_file_with_info-IsVerifiedXorb_example :
    IsVerifiedXorb some_blake3 lower_hex one_xorb one_info
verify_xorb_from_file_with_info-IsVerifiedXorb_example =
    verify_xorb_from_file_with_info-IsVerifiedXorb some_blake3 lower_hex one_xorb one_info
      one_xorb_verified

verify_xorb-verify_xorb_from_file_with_info_example :
    verify_xorb some_blake3 lower_hex one_xorb ≡ ok tt
verify_xorb-verify_xorb_from_file_with_info_example =
    verify_xorb-verify_xorb_from_file_with_info some_blake3 lower_hex one_xorb one_info
      one_xorb_verified

extract_chunk_verified_from_file-add_chunk_example :
    (b' : XorbBuilder) × (c : ChunkData) × (n : ℕ) × (add_chunk some_blake3 stored (new lz4) three
      ≡ ok (b', (c.chunk_hash, n)))
    × (b'.chunks ≡ (new lz4).chunks ++ (c ∷ []))
    × ((front more : List ℕ)
        → extract_chunk_verified_from_file some_blake3 stored
            (front ++ (c.serialized_chunk ++ more))
            (length front)
            (length three)
            c.chunk_hash
          ≡ reply three)
extract_chunk_verified_from_file-add_chunk_example =
    extract_chunk_verified_from_file-add_chunk some_blake3 stored (new lz4) three stored-IsLz4
      stored-IsBounded (omega arith, (omega arith, (omega arith, tt))) (omega arith)
