-- ===== src/MerkleTree/Root.antt =====
-- What the hashes of src/hash/merkle_tree.rs are: the root of a tree over the chunks in order.
use xet_server.Prelude.{
  ℕ, zero, suc, ◌+◌, ◌%◌, ◌^◌, ◌≤◌, ◌<◌, lt→ltb, List, [], ◌∷◌, ◌++◌, map, flatten, length,
  length-map, sum_by-append, ◌≡◌, refl, ap, arith,
}
use native.Mathlib.Nat.{mod-eq_of_lt}
use xet_server.Outcome.{ok}
use xet_server.Hash.{MerkleHash, zero_hash}
use xet_server.Hash.Keyed.{Blake3}
use xet_server.Hash.Hex.{Hex}
use xet_server.MerkleTree.{Node, merged_hash_of_sequence, collapse, aggregated_node_hash, xorb_hash}
use xet_server.MerkleTree.Levels.{
  IsGroups, IsGroups-fewer, IsGroups-some, sum_of_sizes, merge_pass-IsGroups,
}

-- A tree over the nodes, with its root: a level merges the groups of the nodes, in order.
pub data IsRoot (blake3 : Blake3) (hex : Hex) : List Node → Node → Type 0 where
  single : {n : Node} → IsRoot blake3 hex (n ∷ []) n
  level :
      {nodes : List Node} {root : Node} (gs : List (List Node))
      → 1 < length nodes
      → flatten gs ≡ nodes
      → IsGroups gs
      → IsRoot blake3 hex (map (merged_hash_of_sequence blake3 hex) gs) root
      → IsRoot blake3 hex nodes root

module _ (blake3 : Blake3) (hex : Hex) where
  sum_of_sizes-map :
      (gs : List (List Node))
      → sum_of_sizes (flatten gs) < 2 ^ 64
      → sum_of_sizes (map (merged_hash_of_sequence blake3 hex) gs) ≡ sum_of_sizes (flatten gs)
  unfolding merged_hash_of_sequence
  sum_of_sizes-map [] h = refl
  sum_of_sizes-map (g ∷ gs) h =
      let s : sum_of_sizes (g ++ flatten gs) ≡ sum_of_sizes g + sum_of_sizes (flatten gs) =
        sum_by-append (λ (n : Node). n.1) g (flatten gs) in
      let m : sum_of_sizes g % 2 ^ 64 ≡ sum_of_sizes g = mod-eq_of_lt (omega arith) in
      omega (arith, m, s, sum_of_sizes-map gs (omega arith))

  pub collapse-IsRoot :
      (fuel : ℕ) (nodes : List Node)
      → 0 < length nodes
      → length nodes ≤ fuel
      → (root : Node) × (collapse blake3 hex fuel nodes ≡ ok (root ∷ []))
        × IsRoot blake3 hex nodes root
  unfolding collapse
  collapse-IsRoot zero nodes p f = absurd (omega (arith, p, f))
  collapse-IsRoot (suc fuel) [] p f = absurd (omega (arith, p))
  collapse-IsRoot (suc fuel) (n ∷ []) p f = (n, refl, single)
  collapse-IsRoot (suc fuel) (n ∷ m ∷ ns) p f =
      let nodes : List Node = n ∷ m ∷ ns in
      let more : 1 < length nodes = omega arith in
      let (gs, e, q, r) = merge_pass-IsGroups blake3 hex (length nodes) nodes (omega arith) in
      let same : length (flatten gs) ≡ length nodes = ap length q in
      let fewer : length gs < length (flatten gs) = IsGroups-fewer r (omega arith) in
      let some : 0 < length gs = IsGroups-some r (omega arith) in
      let l : length (map (merged_hash_of_sequence blake3 hex) gs) ≡ length gs = length-map _ gs in
      let (root, e', r') =
        collapse-IsRoot fuel (map (merged_hash_of_sequence blake3 hex) gs) (omega arith)
          (omega arith) in
      (root, rw (lt→ltb 1 (length nodes) more, e) e', level gs more q r r')

  -- The size of the root is the sum of the sizes, when that is below 2 ^ 64.
  pub IsRoot-sum_of_sizes :
      {nodes : List Node} {root : Node}
      → IsRoot blake3 hex nodes root
      → sum_of_sizes nodes < 2 ^ 64
      → root.1 ≡ sum_of_sizes nodes
  IsRoot-sum_of_sizes (single {n}) h = omega arith
  IsRoot-sum_of_sizes (level {nodes} {root} gs more q groups r) h =
      let t : sum_of_sizes (flatten gs) ≡ sum_of_sizes nodes = ap sum_of_sizes q in
      let s = sum_of_sizes-map gs (omega arith) in
      let i = IsRoot-sum_of_sizes r (omega arith) in omega (arith, s, t, i)

  -- For one chunk or more, with sizes that sum to less than 2 ^ 64, `xorb_hash` ends, with the hash
  -- of the root of a tree over the chunks in order, every level of which has groups of 3 to 9 nodes
  -- but for a last one of 1 to 9, and the size of the root is the sum of the sizes.
  pub xorb_hash-IsRoot :
      (chunks : List Node)
      → 0 < length chunks
      → sum_of_sizes chunks < 2 ^ 64
      → (root : Node) × (xorb_hash blake3 hex chunks ≡ ok root.0)
        × IsRoot blake3 hex chunks root
        × (root.1 ≡ sum_of_sizes chunks)
  unfolding xorb_hash aggregated_node_hash
  xorb_hash-IsRoot [] p small = absurd (omega (arith, p))
  xorb_hash-IsRoot (n ∷ ns) p small =
      let (root, e, r) = collapse-IsRoot (length (n ∷ ns)) (n ∷ ns) p (omega arith) in
      (root, rw e, r, IsRoot-sum_of_sizes r small)

  -- `xorb_hash` ends on every list of chunks.
  pub xorb_hash-ok : (chunks : List Node) → (h : MerkleHash) × (xorb_hash blake3 hex chunks ≡ ok h)
  unfolding xorb_hash aggregated_node_hash
  xorb_hash-ok [] = (zero_hash, refl)
  xorb_hash-ok (n ∷ ns) =
      let (root, e, r) = collapse-IsRoot (length (n ∷ ns)) (n ∷ ns) (omega arith) (omega arith) in
      (root.0, rw e)
