-- ===== src/MerkleTree.antt =====
-- src/hash/merkle_tree.rs: the hash of a sequence of chunks, as the root of a tree.
pub mod Cut
pub mod Levels
pub mod Root
pub mod Words
use xet_server.Prelude.{
  ℕ, zero, suc, ◌+◌, ◌*◌, ◌/◌, ◌%◌, ◌^◌, min, Bool, ◌==◌, ltb, leb, Option, none, some, List, [],
  ◌∷◌, ◌++◌, length, take, drop, flat_map, sum_by, if◌then◌else◌,
}
use xet_server.Outcome.{Outcome, ok, panicked, out_of_fuel, ◌>>=◌}
use xet_server.Hash.{MerkleHash, zero_hash, rem}
use xet_server.Hash.Keyed.{Blake3, compute_internal_node_hash, hmac_hash}
use xet_server.Hash.Hex.{Hex, to_hex}

abbrev pub mean_branching_factor : ℕ
mean_branching_factor = 4

abbrev pub min_group_size : ℕ
min_group_size = 2

abbrev pub max_group_size : ℕ
max_group_size = 2 * mean_branching_factor + 1

-- A hash and a size.
abbrev pub Node : Type 0
Node = MerkleHash × ℕ

unfoldable pub is_natural_cut : MerkleHash → Bool
unfolding rem
is_natural_cut hash = rem hash mean_branching_factor == 0

-- The loop of `next_merge_cut`, over the nodes from index `i` on.
unfoldable pub natural_cut_from : ℕ → List Node → Option ℕ
natural_cut_from i [] = none
natural_cut_from i ((hash, size) ∷ hashes) =
    let rest = natural_cut_from (i + 1) hashes in if is_natural_cut hash then some (i + 1) else rest

abbrev or_end : Option ℕ → ℕ → ℕ
or_end none end = end
or_end (some i) end = i

unfoldable pub next_merge_cut : List Node → ℕ
next_merge_cut hashes =
    if leb (length hashes) min_group_size
    then length hashes
    else let end = min max_group_size (length hashes) in
      or_end (natural_cut_from min_group_size (drop min_group_size (take end hashes))) end

-- `u64::to_string`, for numbers of at most `suc fuel` digits.
unfoldable pub decimal : ℕ → ℕ → List ℕ
decimal zero n = (48 + n % 10) ∷ []
decimal (suc fuel) n =
    let front = decimal fuel (n / 10) in
    if ltb n 10 then (48 + n) ∷ [] else front ++ ((48 + n % 10) ∷ [])

-- "{hash_hex} : {size_decimal}\n"
unfoldable pub node_line : Hex → Node → List ℕ
unfolding decimal
node_line hex (hash, size) =
    to_hex hex hash ++ ((32 ∷ 58 ∷ 32 ∷ []) ++ (decimal 19 size ++ (10 ∷ [])))

-- The sum wraps, as in a release build.
unfoldable pub merged_hash_of_sequence : Blake3 → Hex → List Node → Node
unfolding node_line
merged_hash_of_sequence blake3 hex hashes = (
  compute_internal_node_hash blake3 (flat_map (node_line hex) hashes),
  sum_by (λ (n : Node). n.1) hashes % 2 ^ 64,
)

module _ (blake3 : Blake3) (hex : Hex) where
  -- The inner loop of `aggregated_node_hash`, on `nodes[read_idx..]`: the new nodes.
  unfoldable pub merge_pass : ℕ → List Node → Outcome (List Node)
  merge_pass fuel [] = ok []
  merge_pass zero (n ∷ ns) = out_of_fuel
  merge_pass (suc fuel) (n ∷ ns) =
      let cut = next_merge_cut (n ∷ ns) in
      let rest = merge_pass fuel (drop cut (n ∷ ns)) in
      rest >>= λ new_nodes. ok (merged_hash_of_sequence blake3 hex (take cut (n ∷ ns)) ∷ new_nodes)

  -- The outer loop. A pass of `n` nodes has at most `n` rounds.
  unfoldable pub collapse : ℕ → List Node → Outcome (List Node)
  collapse zero nodes = out_of_fuel
  collapse (suc fuel) nodes =
      let next = merge_pass (length nodes) nodes >>= λ new_nodes. collapse fuel new_nodes in
      if ltb 1 (length nodes) then next else ok nodes

  -- `nodes[0].0`
  abbrev first_hash : List Node → Outcome MerkleHash
  first_hash [] = panicked
  first_hash (n ∷ ns) = ok n.0

  unfoldable pub aggregated_node_hash : List Node → Outcome MerkleHash
  aggregated_node_hash [] = ok zero_hash
  aggregated_node_hash (n ∷ ns) = collapse (length (n ∷ ns)) (n ∷ ns) >>= first_hash

  unfoldable pub xorb_hash : List Node → Outcome MerkleHash
  xorb_hash chunks = aggregated_node_hash chunks

  unfoldable pub file_hash : List Node → Outcome MerkleHash
  file_hash [] = ok zero_hash
  file_hash (n ∷ ns) = do
    base_hash ← aggregated_node_hash (n ∷ ns)
    let salt = zero_hash
    ok (hmac_hash blake3 salt base_hash)

  unfoldable pub file_hash_with_salt : List Node → MerkleHash → Outcome MerkleHash
  file_hash_with_salt [] salt = ok zero_hash
  file_hash_with_salt (n ∷ ns) salt = do
    base_hash ← aggregated_node_hash (n ∷ ns)
    ok (hmac_hash blake3 salt base_hash)
