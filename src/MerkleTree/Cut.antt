-- ===== src/MerkleTree/Cut.antt =====
-- `next_merge_cut` of src/hash/merkle_tree.rs: the size of a group.
use xet_server.Prelude.{
  ℕ, ◌+◌, ◌-◌, ◌≤◌, ◌<◌, min, leb, inl, inr, Bool-cases, false, le→leb, Option-cases, Option, some,
  List, [], ◌∷◌, ◌++◌, length, length-append, take, drop, length-take, length-drop, take-within,
  ◌≡◌, arith,
}
use xet_server.MerkleTree.{Node, is_natural_cut, natural_cut_from, next_merge_cut}

natural_cut_from-within :
    (i : ℕ) (hashes : List Node) (k : ℕ)
    → natural_cut_from i hashes ≡ some k
    → (i < k) × (k ≤ i + length hashes)
unfolding natural_cut_from
natural_cut_from-within i [] k e = cc
natural_cut_from-within i ((hash, size) ∷ hashes) k e = elim (Bool-cases (is_natural_cut hash)) [
  | inl cut ↦ ground (arith, cut)
  | inr goes ↦
      let w = natural_cut_from-within (i + 1) hashes k (ground (arith, goes, e)) in
      (omega (arith, w.0), omega (arith, w.1))
]

-- With more than 2 nodes left, the cut takes 3 to 9 of them, and no more than there are.
pub next_merge_cut-within :
    (hashes : List Node)
    → 2 < length hashes
    → (3 ≤ next_merge_cut hashes)
      × (next_merge_cut hashes ≤ 9)
      × (next_merge_cut hashes ≤ length hashes)
unfolding next_merge_cut
next_merge_cut-within hashes h =
    let end : ℕ = min 9 (length hashes) in
    let found : Option ℕ = natural_cut_from 2 (drop 2 (take end hashes)) in
    let l : length (drop 2 (take end hashes)) ≡ end - 2 =
      omega (arith, length-drop 2 (take end hashes), length-take end hashes) in
    elim (Option-cases found) [
      | inl n ↦ ground (arith, n)
      | inr (k, e) ↦
          let w = natural_cut_from-within 2 (drop 2 (take end hashes)) k e in
          ground (arith, e, w, l)
    ]

-- With 2 nodes or fewer left, the group takes them all.
pub next_merge_cut-short :
    (hashes : List Node) → length hashes ≤ 2 → next_merge_cut hashes ≡ length hashes
unfolding next_merge_cut
next_merge_cut-short hashes h = rw (le→leb (length hashes) 2 h)

-- Nodes behind the ninth do not move a cut: with 9 nodes or more, the cut is that of these nodes,
-- whatever follows them.
pub next_merge_cut-append :
    (hashes more : List Node)
    → 9 ≤ length hashes
    → next_merge_cut (hashes ++ more) ≡ next_merge_cut hashes
unfolding next_merge_cut
next_merge_cut-append hashes more h =
    let l : length (hashes ++ more) ≡ length hashes + length more = length-append hashes more in
    let a : leb (length (hashes ++ more)) 2 ≡ false = ground (arith, l) in
    let b : leb (length hashes) 2 ≡ false = ground arith in
    let m : min 9 (length (hashes ++ more)) ≡ 9 = omega arith in
    let n : min 9 (length hashes) ≡ 9 = omega arith in rw (a, b, m, n, take-within 9 hashes more h)
