-- ===== src/Xorb/ObjectInfo.antt =====
-- `XorbObjectInfoV1` of src/format/xorb.rs: the footer of a xorb.
use xet_server.Prelude.{
  ℕ, String, ◌+◌, ◌*◌, ◌^◌, ◌%◌, not, ltb, List, [], ◌∷◌, ◌++◌, length, flat_map,
}
use xet_server.Outcome
use xet_server.Outcome.{Outcome, ok, parse_error, refuse}
use xet_server.Bytes.{to_le_bytes, eq_bytes}
use xet_server.Reader.{Reader, ◌>>=◌, ◌>>◌, pure, lift, read_exact, read_u32, repeat}
use xet_server.Hash.{MerkleHash, as_bytes, read_hash}

pub record XorbObjectInfoV1 : Type 0 where
  pub xorb_hash : MerkleHash
  pub chunk_hashes : List MerkleHash
  pub chunk_boundary_offsets : List ℕ
  pub unpacked_chunk_offsets : List ℕ

-- "XETBLOB", "XBLBHSH" and "XBLBBND"
abbrev pub ident_main : List ℕ
ident_main = 88 ∷ 69 ∷ 84 ∷ 66 ∷ 76 ∷ 79 ∷ 66 ∷ []

abbrev pub ident_hashes : List ℕ
ident_hashes = 88 ∷ 66 ∷ 76 ∷ 66 ∷ 72 ∷ 83 ∷ 72 ∷ []

abbrev pub ident_boundaries : List ℕ
ident_boundaries = 88 ∷ 66 ∷ 76 ∷ 66 ∷ 66 ∷ 78 ∷ 68 ∷ []

abbrev pub max_chunks_per_xorb : ℕ
max_chunks_per_xorb = 100000

abbrev pub serialized_len_for_num_chunks : ℕ → ℕ
serialized_len_for_num_chunks num_chunks = 60 + 40 * num_chunks

abbrev pub max_serialized_len : ℕ
max_serialized_len = serialized_len_for_num_chunks max_chunks_per_xorb

unfoldable pub serialized_len : XorbObjectInfoV1 → ℕ
serialized_len info = serialized_len_for_num_chunks (length info.chunk_hashes)

-- `serialize` into a vector, which is `to_bytes`.
unfoldable pub to_bytes : XorbObjectInfoV1 → List ℕ
to_bytes info =
    ident_hashes
    ++ ((0 ∷ [])
        ++ (to_le_bytes 4 (length info.chunk_hashes % 2 ^ 32)
            ++ (flat_map as_bytes info.chunk_hashes
                ++ (ident_boundaries
                    ++ ((1 ∷ [])
                        ++ (flat_map (to_le_bytes 4) info.chunk_boundary_offsets
                            ++ (flat_map (to_le_bytes 4) info.unpacked_chunk_offsets
                                ++ (ident_main ++ ((1 ∷ []) ++ as_bytes info.xorb_hash)))))))))

-- An identifier, and a version of one byte.
unfoldable pub expect_bytes : List ℕ → ℕ → String → Reader (Unit {0})
expect_bytes expected n message = do
  buf ← read_exact n
  lift (refuse (not (eq_bytes buf expected)) (parse_error message))

unfoldable pub deserialize : Reader XorbObjectInfoV1
deserialize = do
  expect_bytes ident_hashes 7 "Expected hashes section"
  expect_bytes (0 ∷ []) 1 "Unsupported hashes section version"
  num_chunks ← read_u32
  lift (refuse (ltb max_chunks_per_xorb num_chunks) (parse_error "Too many chunks"))
  chunk_hashes ← repeat num_chunks read_hash
  expect_bytes ident_boundaries 7 "Expected boundaries section"
  expect_bytes (1 ∷ []) 1 "Unsupported boundaries section version"
  chunk_boundary_offsets ← repeat num_chunks read_u32
  unpacked_chunk_offsets ← repeat num_chunks read_u32
  expect_bytes ident_main 7 "Expected main ident"
  expect_bytes (1 ∷ []) 1 "Unsupported xorb footer version"
  xorb_hash ← read_hash
  pure (record {
    xorb_hash = xorb_hash;
    chunk_hashes = chunk_hashes;
    chunk_boundary_offsets = chunk_boundary_offsets;
    unpacked_chunk_offsets = unpacked_chunk_offsets;
  })

-- `from_bytes`
unfoldable pub from_bytes : List ℕ → Outcome XorbObjectInfoV1
from_bytes bs = Outcome.◌>>=◌ (deserialize (record { position = 0; rest = bs })) (λ r. ok r.0)
