-- ===== src/Hash/Keyed.antt =====
-- src/hash/blake3_hash.rs: the three keyed hashes. BLAKE3 itself is the `blake3` crate.
use xet_server.Prelude.{ℕ, ◌≡◌, List, [], ◌∷◌, length, All, IsByte}
use xet_server.Hash.{MerkleHash, from_bytes, as_bytes}

-- `blake3::keyed_hash`: a key and data to the bytes of a digest.
pub record Blake3 : Type 0 where
  pub keyed_hash : List ℕ → List ℕ → List ℕ

-- What the crate documents of a digest: it is an array of 32 bytes.
pub record HasDigests (blake3 : Blake3) : Type 0 where
  pub digest_length : (key bs : List ℕ) → length (blake3.keyed_hash key bs) ≡ 32
  pub digest_bytes : (key bs : List ℕ) → All IsByte (blake3.keyed_hash key bs)

abbrev pub data_key : List ℕ
data_key =
    102 ∷ 151 ∷ 245 ∷ 119 ∷ 91 ∷ 149 ∷ 80 ∷ 222 ∷ 49 ∷ 53 ∷ 203 ∷ 172 ∷ 165 ∷ 151 ∷ 24 ∷ 28 ∷ 157
    ∷ 228 ∷ 33 ∷ 16 ∷ 155 ∷ 235 ∷ 43 ∷ 88 ∷ 180 ∷ 208 ∷ 176 ∷ 75 ∷ 147 ∷ 173 ∷ 242 ∷ 41 ∷ []

abbrev pub internal_node_key : List ℕ
internal_node_key =
    1 ∷ 126 ∷ 197 ∷ 199 ∷ 165 ∷ 71 ∷ 41 ∷ 150 ∷ 253 ∷ 148 ∷ 102 ∷ 102 ∷ 180 ∷ 138 ∷ 2 ∷ 230 ∷ 93
    ∷ 221 ∷ 83 ∷ 111 ∷ 55 ∷ 199 ∷ 109 ∷ 210 ∷ 248 ∷ 99 ∷ 82 ∷ 230 ∷ 74 ∷ 83 ∷ 113 ∷ 63 ∷ []

unfoldable pub compute_data_hash : Blake3 → List ℕ → MerkleHash
compute_data_hash blake3 bs = from_bytes (blake3.keyed_hash data_key bs)

unfoldable pub compute_internal_node_hash : Blake3 → List ℕ → MerkleHash
compute_internal_node_hash blake3 bs = from_bytes (blake3.keyed_hash internal_node_key bs)

unfoldable pub hmac_hash : Blake3 → MerkleHash → MerkleHash → MerkleHash
hmac_hash blake3 key message = from_bytes (blake3.keyed_hash (as_bytes key) (as_bytes message))
