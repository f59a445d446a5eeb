-- ===== src/MerkleTree/Words.antt =====
-- The hashes of src/hash/merkle_tree.rs are 64-bit words, where the digests have 32 bytes.
use xet_server.Prelude.{ℕ, ◌≡◌, subst, arith, List, [], ◌∷◌, length, map, All}
use xet_server.Outcome.{ok, ok-injective}
use xet_server.Hash.{MerkleHash, IsHash}
use xet_server.Hash.Laws.{from_bytes-IsHash}
use xet_server.Hash.Keyed.{Blake3, HasDigests, compute_data_hash, compute_internal_node_hash}
use xet_server.Hash.Hex.{Hex}
use xet_server.MerkleTree.{Node, merged_hash_of_sequence, xorb_hash, aggregated_node_hash}
use xet_server.MerkleTree.Root.{IsRoot, single, level, collapse-IsRoot}

pub compute_data_hash-IsHash :
    (blake3 : Blake3) (bs : List ℕ) → HasDigests blake3 → IsHash (compute_data_hash blake3 bs)
unfolding compute_data_hash
compute_data_hash-IsHash blake3 bs d =
    from_bytes-IsHash _ (d.digest_length _ _) (d.digest_bytes _ _)

abbrev pub NodeFits : Node → Type 0
NodeFits n = IsHash n.0

merged-fits :
    (blake3 : Blake3) (hex : Hex)
    → HasDigests blake3
    → (gs : List (List Node)) → All NodeFits (map (merged_hash_of_sequence blake3 hex) gs)
unfolding merged_hash_of_sequence compute_internal_node_hash
merged-fits blake3 hex d [] = tt
merged-fits blake3 hex d (g ∷ gs) =
    (from_bytes-IsHash _ (d.digest_length _ _) (d.digest_bytes _ _), merged-fits blake3 hex d gs)

IsRoot-fits :
    (blake3 : Blake3) (hex : Hex)
    → HasDigests blake3
    → {nodes : List Node} {root : Node} → IsRoot blake3 hex nodes root
    → All NodeFits nodes
    → NodeFits root
IsRoot-fits blake3 hex d (single {n}) (h, k) = h
IsRoot-fits blake3 hex d (level {nodes} {root} gs more q groups r) h =
    IsRoot-fits blake3 hex d r (merged-fits blake3 hex d gs)

pub xorb_hash-IsHash :
    (blake3 : Blake3) (hex : Hex) (nodes : List Node) (h : MerkleHash)
    → HasDigests blake3
    → All NodeFits nodes
    → xorb_hash blake3 hex nodes ≡ ok h
    → IsHash h
unfolding xorb_hash aggregated_node_hash
xorb_hash-IsHash blake3 hex [] h d v e =
    subst IsHash (ok-injective e) (record {
      fits0 = omega arith;
      fits1 = omega arith;
      fits2 = omega arith;
      fits3 = omega arith;
    })
xorb_hash-IsHash blake3 hex (n ∷ ns) h d v e =
    let (root, p, r) =
      collapse-IsRoot blake3 hex (length (n ∷ ns)) (n ∷ ns) (omega arith) (omega arith) in
    let root_is : root.0 ≡ h = ok-injective (rw p at e) in
    subst IsHash root_is (IsRoot-fits blake3 hex d r v)
