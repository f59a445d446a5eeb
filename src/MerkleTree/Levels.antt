-- ===== src/MerkleTree/Levels.antt =====
-- The loops of `aggregated_node_hash` of src/hash/merkle_tree.rs: the groups of a pass, and the
-- passes down to one node.
use xet_server.Prelude.{
  ℕ, zero, suc, ◌≤◌, ◌<◌, lt-cases, inl, inr, List, [], ◌∷◌, map, flatten, length, length-append,
  take, drop, take-append-drop, take-all, drop-all, length-take, length-drop, append-nil, sum_by,
  ◌≡◌, refl, ◌∙◌, arith,
}
use xet_server.Outcome.{ok}
use xet_server.Hash.Keyed.{Blake3}
use xet_server.Hash.Hex.{Hex}
use xet_server.MerkleTree.{Node, next_merge_cut, merged_hash_of_sequence, merge_pass}
use xet_server.MerkleTree.Cut.{next_merge_cut-within, next_merge_cut-short}

-- The groups of a pass: 3 to 9 nodes in each but the last, and 1 to 9 in the last.
pub data IsGroups : List (List Node) → Type 0 where
  no_group : IsGroups []
  last_group : {g : List Node} → 0 < length g → length g ≤ 9 → IsGroups (g ∷ [])
  group :
      {g : List Node} {gs : List (List Node)}
      → 3 ≤ length g
      → length g ≤ 9
      → IsGroups gs
      → IsGroups (g ∷ gs)

IsGroups-length : {gs : List (List Node)} → IsGroups gs → length gs ≤ length (flatten gs)
IsGroups-length no_group = omega arith
IsGroups-length (last_group {g} l u) = omega (arith, length-append g [])
IsGroups-length (group {g} {gs} l u r) =
    omega (arith, IsGroups-length r, length-append g (flatten gs))

-- A pass leaves fewer nodes when it has more than one.
pub IsGroups-fewer :
    {gs : List (List Node)}
    → IsGroups gs
    → 1 < length (flatten gs)
    → length gs < length (flatten gs)
IsGroups-fewer no_group h = omega (arith, h)
IsGroups-fewer (last_group {g} l u) h = omega (arith, h)
IsGroups-fewer (group {g} {gs} l u r) h = elim (lt-cases 1 (length (flatten gs))) [
  | inl more ↦ omega (arith, IsGroups-fewer r more, length-append g (flatten gs))
  | inr few ↦ omega (arith, l, IsGroups-length r, length-append g (flatten gs))
]

pub IsGroups-some : {gs : List (List Node)} → IsGroups gs → 0 < length (flatten gs) → 0 < length gs
IsGroups-some no_group h = h
IsGroups-some (last_group l u) h = omega arith
IsGroups-some (group l u r) h = omega arith

abbrev pub sum_of_sizes : List Node → ℕ
sum_of_sizes nodes = sum_by (λ (n : Node). n.1) nodes

module _ (blake3 : Blake3) (hex : Hex) where
  -- On as much fuel as there are nodes, a pass ends; its new nodes are merged from groups that make
  -- up the nodes in order, 3 to 9 in each group but the last, which has 1 to 9.
  pub merge_pass-IsGroups :
      (fuel : ℕ) (nodes : List Node)
      → length nodes ≤ fuel
      → (gs : List (List Node)) × (merge_pass blake3 hex fuel nodes
          ≡ ok (map (merged_hash_of_sequence blake3 hex) gs))
        × (flatten gs ≡ nodes)
        × IsGroups gs
  unfolding merge_pass
  merge_pass-IsGroups fuel [] f = ([], refl, refl, no_group)
  merge_pass-IsGroups zero (n ∷ ns) f = absurd (omega (arith, f))
  merge_pass-IsGroups (suc fuel) (n ∷ ns) f =
      let nodes : List Node = n ∷ ns in
      let cut : ℕ = next_merge_cut nodes in
      let lt : length (take cut nodes) ≡ _ = length-take cut nodes in
      elim (lt-cases 2 (length nodes)) [
        | inl more ↦
            let w = next_merge_cut-within nodes more in
            let (gs, e, p, r) =
              merge_pass-IsGroups fuel (drop cut nodes)
                (omega (arith, length-drop cut nodes, w.0)) in
            (
              take cut nodes ∷ gs,
              rw e,
              rw p (take-append-drop cut nodes),
              group (omega (arith, lt, w.0, w.2)) (omega (arith, lt, w.1)) r,
            )
        | inr few ↦
            let s : cut ≡ length nodes = next_merge_cut-short nodes few in
            let t : take cut nodes ≡ nodes = take-all cut nodes (omega arith) in
            let d : drop cut nodes ≡ [] = drop-all cut nodes (omega arith) in
            (
              take cut nodes ∷ [],
              rw d,
              append-nil (take cut nodes) ∙ t,
              last_group (omega (arith, lt)) (omega (arith, lt)),
            )
      ]
