-- ===== src/Compression/Regroup.antt =====
-- src/format/compression.rs: the regrouping of bytes undoes their grouping.
use xet_server.Prelude.{
  ℕ, ◌+◌, ◌*◌, ◌/◌, ◌<◌, ◌≡◌, inl, inr, refl, sym, ap, ◌∙◌, subst, arith, List, [], ◌∷◌, ◌++◌,
  length, length-append, length-replicate, replicate, get_elem?,
}
use xet_server.Outcome.{ok, parse_error, refuse_differs}
use xet_server.Slices.{get_elem?-left, get_elem?-right, get_elem?-ext}
use xet_server.Compression.{group_size, split_group, bg4_split, restore_group, bg4_regroup}
use xet_server.Compression.Grouping.{
  IsGroup, split_group-IsGroup, IsPlaced, restore_group-IsPlaced, IsPlaced-next,
}

module _ (bs : List ℕ) (some_byte : 0 < length bs) where
  abbrev n₀ : ℕ
  n₀ = group_size (length bs) 0

  abbrev n₁ : ℕ
  n₁ = group_size (length bs) 1

  abbrev n₂ : ℕ
  n₂ = group_size (length bs) 2

  abbrev n₃ : ℕ
  n₃ = length bs / 4

  abbrev g₀ : List ℕ
  g₀ = split_group n₀ 0 0 bs

  abbrev g₁ : List ℕ
  g₁ = split_group n₁ 0 1 bs

  abbrev g₂ : List ℕ
  g₂ = split_group n₂ 0 2 bs

  abbrev g₃ : List ℕ
  g₃ = split_group n₃ 0 3 bs

  first : IsGroup bs n₀ 0 0 g₀
  first = split_group-IsGroup n₀ 0 0 bs (ground arith)

  second : IsGroup bs n₁ 0 1 g₁
  second = split_group-IsGroup n₁ 0 1 bs (ground arith)

  third : IsGroup bs n₂ 0 2 g₂
  third = split_group-IsGroup n₂ 0 2 bs (ground arith)

  fourth : IsGroup bs n₃ 0 3 g₃
  fourth = split_group-IsGroup n₃ 0 3 bs (omega arith)

  abbrev gs : List ℕ
  gs = g₀ ++ (g₁ ++ (g₂ ++ g₃))

  sizes : n₀ + n₁ + n₂ + n₃ ≡ length bs
  sizes = ground arith

  length-gs : length gs ≡ length bs
  length-gs = omega (
    arith,
    length-append g₀ (g₁ ++ (g₂ ++ g₃)),
    length-append g₁ (g₂ ++ g₃),
    length-append g₂ g₃,
    first.full,
    second.full,
    third.full,
    fourth.full,
    sizes,
  )

  in₀ : (j : ℕ) → j < n₀ → get_elem? gs (0 + j) ≡ get_elem? bs ((0 + j) * 4 + 0)
  in₀ j l =
      ap (get_elem? gs) (omega arith)
      ∙ (get_elem?-left g₀ _ j (omega (arith, first.full)) ∙ first.holds j l)

  in₁ : (j : ℕ) → j < n₁ → get_elem? gs (0 + n₀ + j) ≡ get_elem? bs ((0 + j) * 4 + 1)
  in₁ j l =
      ap (get_elem? gs) (omega (arith, first.full))
      ∙ (get_elem?-right g₀ (g₁ ++ (g₂ ++ g₃)) j
          ∙ (get_elem?-left g₁ _ j (omega (arith, second.full)) ∙ second.holds j l))

  in₂ : (j : ℕ) → j < n₂ → get_elem? gs (0 + n₀ + n₁ + j) ≡ get_elem? bs ((0 + j) * 4 + 2)
  in₂ j l =
      ap (get_elem? gs) (omega (arith, first.full, second.full))
      ∙ (get_elem?-right g₀ (g₁ ++ (g₂ ++ g₃)) (length g₁ + j)
          ∙ (get_elem?-right g₁ (g₂ ++ g₃) j
              ∙ (get_elem?-left g₂ _ j (omega (arith, third.full)) ∙ third.holds j l)))

  in₃ : (j : ℕ) → j < n₃ → get_elem? gs (0 + n₀ + n₁ + n₂ + j) ≡ get_elem? bs ((0 + j) * 4 + 3)
  in₃ j l =
      ap (get_elem? gs) (omega (arith, first.full, second.full, third.full))
      ∙ (get_elem?-right g₀ (g₁ ++ (g₂ ++ g₃)) (length g₁ + (length g₂ + j))
          ∙ (get_elem?-right g₁ (g₂ ++ g₃) (length g₂ + j)
              ∙ (get_elem?-right g₂ g₃ j ∙ fourth.holds j l)))

  -- The four loops, one after the other.
  restored :
      (r₀ : List ℕ) × (r₁ : List ℕ) × (r₂ : List ℕ) × (restore_group n₀ 0 0
          (length bs)
          gs
          (replicate (length bs) 0)
          0
        ≡ ok (r₀, 0 + n₀))
      × (restore_group n₁ 0 1 (length bs) gs r₀ (0 + n₀) ≡ ok (r₁, 0 + n₀ + n₁))
      × (restore_group n₂ 0 2 (length bs) gs r₁ (0 + n₀ + n₁) ≡ ok (r₂, 0 + n₀ + n₁ + n₂))
      × (restore_group n₃ 0 3 (length bs) gs r₂ (0 + n₀ + n₁ + n₂) ≡ ok (bs, 0 + n₀ + n₁ + n₂ + n₃))
  restored =
      let start : IsPlaced bs 0 0 (replicate (length bs) 0) = record {
        same_length = length-replicate (length bs) 0;
        placed = λ p l h. elim h [
          | inl u ↦ absurd (omega (arith, u))
          | inr u ↦ absurd (omega (arith, u.1))
        ];
      } in
      let (r₀, e₀, a₀) =
        restore_group-IsPlaced n₀ 0 0 bs gs (replicate (length bs) 0) 0 (omega arith) start
          (ground arith) in₀ in
      let b₀ = IsPlaced-next bs 0 (0 + n₀) r₀ (omega arith) (ground arith) a₀ in
      let (r₁, e₁, a₁) =
        restore_group-IsPlaced n₁ 0 1 bs gs r₀ (0 + n₀) (omega arith) b₀ (ground arith) in₁ in
      let b₁ = IsPlaced-next bs 1 (0 + n₁) r₁ (omega arith) (ground arith) a₁ in
      let (r₂, e₂, a₂) =
        restore_group-IsPlaced n₂ 0 2 bs gs r₁ (0 + n₀ + n₁) (omega arith) b₁ (ground arith) in₂ in
      let b₂ = IsPlaced-next bs 2 (0 + n₂) r₂ (omega arith) (ground arith) a₂ in
      let (r₃, e₃, a₃) =
        restore_group-IsPlaced n₃ 0 3 bs gs r₂ (0 + n₀ + n₁ + n₂) (omega arith) b₂ (omega arith)
          in₃ in
      let b₃ = IsPlaced-next bs 3 (0 + n₃) r₃ (omega arith) (omega arith) a₃ in
      let same : r₃ ≡ bs =
        get_elem?-ext r₃ bs b₃.same_length (λ i l. b₃.placed i l (inl (omega arith))) in
      (
        r₀,
        r₁,
        r₂,
        e₀,
        e₁,
        e₂,
        subst
            (λ r.
              restore_group n₃ 0 3 (length bs) gs r₂ (0 + n₀ + n₁ + n₂)
              ≡ ok (r, 0 + n₀ + n₁ + n₂ + n₃))
            same e₃,
      )

-- The grouped bytes of any data are regrouped to the data.
pub bg4_regroup-bg4_split : (bs : List ℕ) → bg4_regroup (bg4_split bs) (length bs) ≡ ok bs
unfolding bg4_regroup bg4_split
bg4_regroup-bg4_split [] = refl
bg4_regroup-bg4_split (b ∷ bs) =
    let some_byte : 0 < length (b ∷ bs) = omega arith in
    let (r₀, r₁, r₂, e₀, e₁, e₂, e₃) = restored (b ∷ bs) some_byte in
    let size = length-gs (b ∷ bs) some_byte in
    let sum = sizes (b ∷ bs) some_byte in
    let consumed : 0
          + n₀ (b ∷ bs) some_byte
          + n₁ (b ∷ bs) some_byte
          + n₂ (b ∷ bs) some_byte
          + n₃ (b ∷ bs) some_byte
        ≡ length (gs (b ∷ bs) some_byte) =
      omega (arith, size, sum) in
    rw (
      refuse_differs _ _ (parse_error "BG4 regroup: data length mismatch") (size ∙ sym sum),
      e₀,
      e₁,
      e₂,
      e₃,
      refuse_differs _ _ (parse_error "BG4 regroup: data consumption error") consumed,
    )

pub length-bg4_split : (bs : List ℕ) → length (bg4_split bs) ≡ length bs
unfolding bg4_split
length-bg4_split [] = refl
length-bg4_split (b ∷ bs) = length-gs (b ∷ bs) (omega arith)
