-- ===== src/XorbBuilder/Ident.antt =====
-- The search of `verify_xorb` of src/format/xorb.rs finds the footer that ends a xorb.
use xet_server.Prelude.{
  ℕ, suc, zero, ◌+◌, ◌-◌, ◌≤◌, ◌<◌, ◌≡◌, sym, ap, ◌∙◌, arith, Bool, true, false, ◌||◌, some, List,
  [], ◌∷◌, ◌++◌, length, length-append, length-drop, drop-drop, take, drop, drop-append,
}
use xet_server.Outcome.{ok}
use xet_server.Bytes.{eq_bytes}
use xet_server.Xorb.ObjectInfo.{XorbObjectInfoV1, to_bytes, ident_hashes}
use xet_server.Xorb.Verify.{find_footer}
use xet_server.Xorb.Verify.Search.{ident_at, find_footer-last}

-- Whether the identifier of a footer stands anywhere in some bytes.
abbrev pub has_ident : List ℕ → Bool
has_ident [] = false
has_ident (b ∷ bs) = eq_bytes (take 7 (b ∷ bs)) ident_hashes || has_ident bs

has_ident-no : (bs : List ℕ) (j : ℕ) → has_ident bs ≡ false → j < length bs → ident_at bs j ≡ false
has_ident-no [] j e h = absurd (omega (arith, h))
has_ident-no (b ∷ bs) zero e h = ground (arith, e)
has_ident-no (b ∷ bs) (suc j) e h = has_ident-no bs j (ground (arith, e)) (omega arith)

-- In a xorb that ends with a footer, the search finds the footer, if it holds no second identifier.
pub find_footer-footer :
    (front : List ℕ) (info : XorbObjectInfoV1)
    → 60 ≤ length (to_bytes info)
    → has_ident (drop 1 (to_bytes info)) ≡ false
    → find_footer (length (front ++ to_bytes info) - 7) (front ++ to_bytes info)
      ≡ ok (some (length front))
unfolding to_bytes eq_bytes
find_footer-footer front info long once =
    let footer : List ℕ = to_bytes info in
    let bs : List ℕ = front ++ footer in
    let n = length-append front footer in
    let at : ident_at bs (length front) ≡ true =
      ap (λ xs. eq_bytes (take 7 xs) ident_hashes) (drop-append front footer) in
    let later : (j : ℕ)
        → length front < j
        → j ≤ length front + (length footer - 7)
        → ident_at bs j ≡ false =
      (λ j a b.
        let k : ℕ = j - (length front + 1) in
        let q : length front + (1 + k) ≡ j = omega (arith, a) in
        let l = length-drop 1 footer in
        ap (ident_at bs) (sym q)
        ∙ (ap (λ xs. eq_bytes (take 7 xs) ident_hashes)
              (sym (drop-drop (length front) (1 + k) bs)
                ∙ (ap (drop (1 + k)) (drop-append front footer) ∙ sym (drop-drop 1 k footer)))
            ∙ has_ident-no (drop 1 footer) k once (omega (arith, a, b, l, long)))) in
    let q : length front + (length footer - 7) ≡ length bs - 7 = omega (arith, n, long) in
    ap (λ i. find_footer i bs) (sym q)
    ∙ find_footer-last (length footer - 7) (length front) bs (omega (arith, n, long)) at later
