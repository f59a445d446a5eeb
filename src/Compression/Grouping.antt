-- ===== src/Compression/Grouping.antt =====
-- The loops of `bg4_split` and `bg4_regroup` of src/format/compression.rs, position by position.
use xet_server.Prelude.{
  ℕ, zero, suc, ◌+◌, ◌*◌, ◌/◌, ◌%◌, ◌≤◌, ◌<◌, ◌≡◌, ◌⊎◌, inl, inr, refl, sym, ap, ◌∙◌, subst, arith,
  lt→ltb, lt-cases, some, List, ◌∷◌, length, get_elem?,
}
use xet_server.Outcome.{ok}
use xet_server.Slices.{Written, set-Written, index-ok, get_elem?-some}
use xet_server.Compression.{split_group, restore_group}

-- The group is as long as its loop, and holds the bytes of its positions.
pub record IsGroup (bs : List ℕ) (count i k : ℕ) (g : List ℕ) : Type 0 where
  pub full : length g ≡ count
  pub holds : (j : ℕ) → j < count → get_elem? g j ≡ get_elem? bs ((i + j) * 4 + k)

pub split_group-IsGroup :
    (count i k : ℕ) (bs : List ℕ)
    → (i + count) * 4 + k < length bs + 4
    → IsGroup bs count i k (split_group count i k bs)
unfolding split_group
split_group-IsGroup zero i k bs h = record { full = refl; holds = λ j l. absurd (omega (arith, l)) }
split_group-IsGroup (suc count) i k bs h =
    let (b, e) = get_elem?-some bs (i * 4 + k) (omega arith) in
    let r = split_group-IsGroup count (suc i) k bs (omega arith) in
    rw (e, split_group) (record { full = omega (arith, r.full); holds = held b e r })
  where
    held :
        (b : ℕ)
        → get_elem? bs (i * 4 + k) ≡ some b
        → IsGroup bs count (suc i) k (split_group count (suc i) k bs)
        → (j : ℕ) → j < suc count
        → get_elem? (b ∷ split_group count (suc i) k bs) j ≡ get_elem? bs ((i + j) * 4 + k)
    held b e r zero l = sym e ∙ ap (get_elem? bs) (omega arith)
    held b e r (suc j) l = r.holds j (omega arith) ∙ ap (get_elem? bs) (omega arith)

-- The bytes of the groups before `k`, and the first `i` of group `k`, are in place.
pub record IsPlaced (orig : List ℕ) (k i : ℕ) (result : List ℕ) : Type 0 where
  pub same_length : length result ≡ length orig
  pub placed :
      (p : ℕ)
      → p < length orig
      → (p % 4 < k) ⊎ ((p % 4 ≡ k) × (p / 4 < i))
      → get_elem? result p ≡ get_elem? orig p

IsPlaced-next' :
    (orig : List ℕ) (k i : ℕ) (result ys : List ℕ) (b : ℕ)
    → k < 4
    → IsPlaced orig k i result
    → get_elem? orig (i * 4 + k) ≡ some b
    → Written result (i * 4 + k) b ys
    → IsPlaced orig k (suc i) ys
IsPlaced-next' orig k i result ys b kl a e w = record {
  same_length = w.same_length ∙ a.same_length;
  placed = at;
}
  where
    at :
        (p : ℕ)
        → p < length orig
        → (p % 4 < k) ⊎ ((p % 4 ≡ k) × (p / 4 < suc i))
        → get_elem? ys p ≡ get_elem? orig p
    at p l (inl h) = w.others p (λ q. omega (arith, q, h, kl)) ∙ a.placed p l (inl h)
    at p l (inr (h, u)) = elim (lt-cases (p / 4) i) [
      | inl v ↦ w.others p (λ q. omega (arith, q, h, v, kl)) ∙ a.placed p l (inr (h, v))
      | inr v ↦
          let q : p ≡ i * 4 + k = omega (arith, h, u, v) in
          ap (get_elem? ys) q ∙ (w.written ∙ (sym e ∙ ap (get_elem? orig) (sym q)))
    ]

pub restore_group-IsPlaced :
    (count i k : ℕ) (orig bs result : List ℕ) (offset : ℕ)
    → k < 4
    → IsPlaced orig k i result
    → (i + count) * 4 + k < length orig + 4
    → ((j : ℕ) → j < count → get_elem? bs (offset + j) ≡ get_elem? orig ((i + j) * 4 + k))
    → (r : List ℕ) × (restore_group count i k (length orig) bs result offset
        ≡ ok (r, offset + count))
      × IsPlaced orig k (i + count) r
unfolding restore_group
restore_group-IsPlaced zero i k orig bs result offset kl a h g = (
  result,
  ap (λ n. ok (result, n)) (omega arith),
  subst (λ n. IsPlaced orig k n result) (omega arith) a,
)
restore_group-IsPlaced (suc count) i k orig bs result offset kl a h g =
    let (b, e) = get_elem?-some orig (i * 4 + k) (omega arith) in
    let read : get_elem? bs offset ≡ some b =
      ap (get_elem? bs) (omega arith)
      ∙ (g 0 (omega arith) ∙ (ap (get_elem? orig) (omega arith) ∙ e)) in
    let (ys, s, w) = set-Written result (i * 4 + k) b (omega (arith, a.same_length)) in
    let (r, q, c) =
      restore_group-IsPlaced count (suc i) k orig bs ys (offset + 1) kl
        (IsPlaced-next' orig k i result ys b kl a e w) (omega arith)
        (λ j l.
          ap (get_elem? bs) (omega arith)
          ∙ (g (suc j) (omega arith) ∙ ap (get_elem? orig) (omega arith))) in
    (
      r,
      rw (lt→ltb (i * 4 + k) (length orig) (omega arith), index-ok bs offset read, s, q)
          (ap (λ n. ok (r, n)) (omega arith)),
      subst (λ n. IsPlaced orig k n r) (omega arith) c,
    )

-- A whole group is in place when the loop has gone through it.
pub IsPlaced-next :
    (orig : List ℕ) (k n : ℕ) (result : List ℕ)
    → k < 4
    → length orig ≤ n * 4 + k
    → IsPlaced orig k n result
    → IsPlaced orig (suc k) 0 result
IsPlaced-next orig k n result kl h a = record { same_length = a.same_length; placed = at }
  where
    at :
        (p : ℕ)
        → p < length orig
        → (p % 4 < suc k) ⊎ ((p % 4 ≡ suc k) × (p / 4 < 0))
        → get_elem? result p ≡ get_elem? orig p
    at p l (inr (e, u)) = absurd (omega (arith, u))
    at p l (inl u) = elim (lt-cases (p % 4) k) [
      | inl v ↦ a.placed p l (inl v)
      | inr v ↦ a.placed p l (inr (omega (arith, u, v), omega (arith, l, h, u, v)))
    ]
