-- ===== src/Compression/Sizes.antt =====
-- src/format/compression.rs: decompression of any bytes ends, with the declared size.
use xet_server.Prelude.{
  ℕ, zero, suc, ◌+◌, ◌*◌, ◌/◌, ◌≤◌, ◌<◌, ◌≡◌, inl, inr, refl, sym, ap, ◌∙◌, arith, false,
  Bool-cases, not, ◌==◌, lt→ltb, ltb, List, [], ◌∷◌, length, length-replicate, replicate,
}
use xet_server.Outcome.{
  ok, err, XetError, refuse, ok_or, parse_error, refuse_differs, bind-eq-ok, ok-injective, Ends,
}
use xet_server.Outcome.Safe.{Safe, Safe-bind, Safe-ok, Safe-ok_or, Safe-refuse}
use xet_server.Slices.{set-Written, index-ok, get_elem?-some}
use xet_server.Compression.{
  CompressionScheme, none_scheme, lz4, byte_grouping4_lz4, group_size, restore_group, bg4_regroup,
  Lz4, max_decompressed_size, check_lz4_prefix, decompress,
}

restore_group-ok :
    (count i k len : ℕ) (bs result : List ℕ) (offset : ℕ)
    → length result ≡ len
    → (i + count) * 4 + k < len + 4
    → offset + count ≤ length bs
    → (r : List ℕ) × (restore_group count i k len bs result offset ≡ ok (r, offset + count))
      × (length r ≡ len)
unfolding restore_group
restore_group-ok zero i k len bs result offset e h l =
    (result, ap (λ n. ok (result, n)) (omega arith), e)
restore_group-ok (suc count) i k len bs result offset e h l =
    let (b, q) = get_elem?-some bs offset (omega arith) in
    let (ys, s, w) = set-Written result (i * 4 + k) b (omega (arith, e)) in
    let (r, p, m) =
      restore_group-ok count (suc i) k len bs ys (offset + 1) (w.same_length ∙ e) (omega arith)
        (omega arith) in
    (
      r,
      rw (lt→ltb (i * 4 + k) len (omega arith), index-ok bs offset q, s, p)
          (ap (λ n. ok (r, n)) (omega arith)),
      m,
    )

module _ (bs : List ℕ) (n : ℕ) (e : length bs ≡ suc n) where
  abbrev o₀ : ℕ
  o₀ = 0 + group_size (suc n) 0

  abbrev o₁ : ℕ
  o₁ = o₀ + group_size (suc n) 1

  abbrev o₂ : ℕ
  o₂ = o₁ + group_size (suc n) 2

  abbrev o₃ : ℕ
  o₃ = o₂ + suc n / 4

  all : o₃ ≡ suc n
  all = ground arith

  bg4_regroup-runs :
      (r₀ r₁ r₂ r₃ : List ℕ)
      → restore_group (group_size (suc n) 0) 0 0 (suc n) bs (replicate (suc n) 0) 0 ≡ ok (r₀, o₀)
      → restore_group (group_size (suc n) 1) 0 1 (suc n) bs r₀ o₀ ≡ ok (r₁, o₁)
      → restore_group (group_size (suc n) 2) 0 2 (suc n) bs r₁ o₁ ≡ ok (r₂, o₂)
      → restore_group (suc n / 4) 0 3 (suc n) bs r₂ o₂ ≡ ok (r₃, o₃)
      → bg4_regroup bs (suc n) ≡ ok r₃
  unfolding bg4_regroup
  bg4_regroup-runs r₀ r₁ r₂ r₃ e₀ e₁ e₂ e₃ =
      let sum : length bs
          ≡ group_size (suc n) 0 + group_size (suc n) 1 + group_size (suc n) 2 + suc n / 4 =
        omega (arith, e, all) in
      let used : o₃ ≡ length bs = omega (arith, e, all) in
      rw (
        refuse_differs _ _ (parse_error "BG4 regroup: data length mismatch") sum,
        e₀,
        e₁,
        e₂,
        e₃,
        refuse_differs _ _ (parse_error "BG4 regroup: data consumption error") used,
      )

  regrouped : (r : List ℕ) × (bg4_regroup bs (suc n) ≡ ok r) × (length r ≡ suc n)
  regrouped =
      let fits : o₃ ≤ length bs = omega (arith, e, all) in
      let (r₀, e₀, m₀) =
        restore_group-ok (group_size (suc n) 0) 0 0 (suc n) bs (replicate (suc n) 0) 0
          (length-replicate (suc n) 0) (ground arith) (omega (arith, fits)) in
      let (r₁, e₁, m₁) =
        restore_group-ok (group_size (suc n) 1) 0 1 (suc n) bs r₀ o₀ m₀ (ground arith)
          (omega (arith, fits)) in
      let (r₂, e₂, m₂) =
        restore_group-ok (group_size (suc n) 2) 0 2 (suc n) bs r₁ o₁ m₁ (ground arith)
          (omega (arith, fits)) in
      let (r₃, e₃, m₃) = restore_group-ok (suc n / 4) 0 3 (suc n) bs r₂ o₂ m₂ (omega arith) fits in
      (r₃, bg4_regroup-runs r₀ r₁ r₂ r₃ e₀ e₁ e₂ e₃, m₃)

-- As many bytes as the original had are regrouped, into as many.
bg4_regroup-ok :
    (bs : List ℕ) (n : ℕ)
    → length bs ≡ n
    → (r : List ℕ) × (bg4_regroup bs n ≡ ok r) × (length r ≡ n)
unfolding bg4_regroup
bg4_regroup-ok [] zero e = ([], refl, refl)
bg4_regroup-ok (b ∷ bs) zero e = absurd (omega (arith, e))
bg4_regroup-ok bs (suc n) e = regrouped bs n e

bg4_regroup-err :
    (bs : List ℕ) (n : ℕ) → (length bs == n) ≡ false → (x : XetError) × (bg4_regroup bs n ≡ err x)
unfolding bg4_regroup
bg4_regroup-err [] zero e = cc
bg4_regroup-err (b ∷ bs) zero e = (parse_error "BG4 regroup: expected empty data", refl)
bg4_regroup-err bs (suc n) e =
    let sum : group_size (suc n) 0 + group_size (suc n) 1 + group_size (suc n) 2 + suc n / 4
        ≡ suc n =
      ground arith in
    (parse_error "BG4 regroup: data length mismatch", rw (sum, e))

same : (a b : ℕ) (x : XetError) (u : Unit {0}) → refuse (not (a == b)) x ≡ ok u → a ≡ b
same a b x u e = ground arith

bg4_regroup-Safe : (bs : List ℕ) (n : ℕ) → Safe (bg4_regroup bs n)
bg4_regroup-Safe bs n = elim (Bool-cases (length bs == n)) [
  | inl e ↦ let (r, p, m) = bg4_regroup-ok bs n (ground (arith, e)) in rw p (Safe-ok r)
  | inr e ↦ let (x, p) = bg4_regroup-err bs n e in rw p (record { ends = tt })
]

bg4_regroup-length :
    (bs : List ℕ) (n : ℕ) (out : List ℕ) → bg4_regroup bs n ≡ ok out → length out ≡ n
bg4_regroup-length bs n out h = elim (Bool-cases (length bs == n)) [
  | inl e ↦
      let (r, p, m) = bg4_regroup-ok bs n (ground (arith, e)) in
      ap length (ok-injective (sym h ∙ p)) ∙ m
  | inr e ↦ let (x, p) = bg4_regroup-err bs n e in cc
]

check_lz4_prefix-Safe : (bs : List ℕ) (n : ℕ) → Safe (check_lz4_prefix bs n)
unfolding check_lz4_prefix
check_lz4_prefix-Safe bs n =
    Safe-bind (refuse (ltb max_decompressed_size n) _) (Safe-refuse _ _)
      (λ _ _. Safe-bind (refuse (ltb (length bs) 4) _) (Safe-refuse _ _) (λ _ _. Safe-refuse _ _))

-- On any bytes and any declared size, whatever the codec makes of them, `decompress` returns data
-- or an error: no index is out of bounds.
pub decompress-Ends :
    (codec : Lz4) (scheme : CompressionScheme) (bs : List ℕ) (n : ℕ)
    → Ends (decompress codec scheme bs n)
unfolding decompress
decompress-Ends codec none_scheme bs n =
    (Safe-bind (refuse (not (length bs == n)) _) (Safe-refuse _ _) (λ _ _. Safe-ok bs)).ends
decompress-Ends codec lz4 bs n =
    (Safe-bind (check_lz4_prefix bs n) (check_lz4_prefix-Safe bs n) (λ _ _.
      Safe-bind (ok_or (codec.decompress_size_prepended bs) _) (Safe-ok_or _ _) (λ out _.
        Safe-bind (refuse (not (length out == n)) _) (Safe-refuse _ _) (λ _ _. Safe-ok out)))).ends
decompress-Ends codec byte_grouping4_lz4 bs n =
    (Safe-bind (check_lz4_prefix bs n) (check_lz4_prefix-Safe bs n) (λ _ _.
      Safe-bind (ok_or (codec.decompress_size_prepended bs) _) (Safe-ok_or _ _)
        (λ out _. bg4_regroup-Safe out n))).ends

-- Data that `decompress` returns has the declared size, whatever the codec returns.
pub length-decompress :
    (codec : Lz4) (scheme : CompressionScheme) (bs : List ℕ) (n : ℕ) (out : List ℕ)
    → decompress codec scheme bs n ≡ ok out
    → length out ≡ n
unfolding decompress
length-decompress codec none_scheme bs n out e =
    let (u, e₁, r₁) = bind-eq-ok (refuse (not (length bs == n)) _) _ e in
    ap length (sym (ok-injective r₁)) ∙ same (length bs) n _ u e₁
length-decompress codec lz4 bs n out e =
    let (u, e₁, r₁) = bind-eq-ok (check_lz4_prefix bs n) _ e in
    let (o, e₂, r₂) = bind-eq-ok (ok_or (codec.decompress_size_prepended bs) _) _ r₁ in
    let (v, e₃, r₃) = bind-eq-ok (refuse (not (length o == n)) _) _ r₂ in
    ap length (sym (ok-injective r₃)) ∙ same (length o) n _ v e₃
length-decompress codec byte_grouping4_lz4 bs n out e =
    let (u, e₁, r₁) = bind-eq-ok (check_lz4_prefix bs n) _ e in
    let (o, e₂, r₂) = bind-eq-ok (ok_or (codec.decompress_size_prepended bs) _) _ r₁ in
    bg4_regroup-length o n out r₂
