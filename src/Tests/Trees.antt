-- ===== src/Tests/Trees.antt =====
-- Trees of hashes: eleven nodes.
use xet_server.Prelude.{◌≤◌, ◌≡◌, List, [], ◌∷◌, ◌++◌, map, flatten, replicate, arith}
use xet_server.Outcome.{ok}
use xet_server.Hash.{zero_hash}
use xet_server.MerkleTree.{Node, next_merge_cut, merged_hash_of_sequence, merge_pass, xorb_hash}
use xet_server.MerkleTree.Cut.{next_merge_cut-within, next_merge_cut-append}
use xet_server.MerkleTree.Levels.{IsGroups, sum_of_sizes, merge_pass-IsGroups}
use xet_server.MerkleTree.Root.{IsRoot, xorb_hash-IsRoot}
use xet_server.Tests.Data.{some_blake3, lower_hex, some_hash}

abbrev eleven : List Node
eleven = (zero_hash, 7) ∷ replicate 10 (some_hash, 100)

next_merge_cut-within_example :
    (3 ≤ next_merge_cut eleven) × (next_merge_cut eleven ≤ 9) × (next_merge_cut eleven ≤ 11)
next_merge_cut-within_example = next_merge_cut-within eleven (omega arith)

next_merge_cut-append_example :
    next_merge_cut (eleven ++ ((zero_hash, 3) ∷ [])) ≡ next_merge_cut eleven
next_merge_cut-append_example = next_merge_cut-append eleven ((zero_hash, 3) ∷ []) (omega arith)

merge_pass-IsGroups_example :
    (gs : List (List Node)) × (merge_pass some_blake3 lower_hex 11 eleven
      ≡ ok (map (merged_hash_of_sequence some_blake3 lower_hex) gs))
    × (flatten gs ≡ eleven)
    × IsGroups gs
merge_pass-IsGroups_example = merge_pass-IsGroups some_blake3 lower_hex 11 eleven (omega arith)

xorb_hash-IsRoot_example :
    (root : Node) × (xorb_hash some_blake3 lower_hex eleven ≡ ok root.0)
    × IsRoot some_blake3 lower_hex eleven root
    × (root.1 ≡ sum_of_sizes eleven)
xorb_hash-IsRoot_example = xorb_hash-IsRoot some_blake3 lower_hex eleven (omega arith) (omega arith)
