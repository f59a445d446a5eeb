-- ===== src/Xorb/Verify/Search.antt =====
-- The search for the footer, from the end of a xorb backwards.
use xet_server.Prelude.{
  ℕ, zero, suc, ◌+◌, ◌-◌, ◌≤◌, ◌<◌, ◌≡◌, sym, ap, ◌∙◌, arith, Bool, true, false, Bool-cases, inl,
  inr, le→leb, Option, none, some, List, length, take, drop, drop-drop, length-drop, if◌then◌else◌,
}
use xet_server.Outcome.{ok}
use xet_server.Slices.{slice}
use xet_server.Bytes.{eq_bytes}
use xet_server.Xorb.ObjectInfo.{ident_hashes}
use xet_server.Xorb.Verify.{find_footer}
use native.Mathlib.Nat.{add-zero}

-- Whether the identifier stands at a place.
abbrev pub ident_at : List ℕ → ℕ → Bool
ident_at bs i = eq_bytes (take 7 (drop i bs)) ident_hashes

pub slice-window :
    (bs : List ℕ) (s n : ℕ) → s + n ≤ length bs → slice bs s (s + n) ≡ ok (take n (drop s bs))
slice-window bs s n h =
    let e : s + n - s ≡ n = omega arith in
    rw (le→leb s (s + n) (omega arith), le→leb (s + n) (length bs) h, e)

find_footer-zero :
    (bs : List ℕ) → 7 ≤ length bs → find_footer 0 bs ≡ ok (if ident_at bs 0 then some 0 else none)
unfolding find_footer
find_footer-zero bs h = rw (slice-window bs 0 7 h)

find_footer-suc :
    (i : ℕ) (bs : List ℕ)
    → suc i + 7 ≤ length bs
    → find_footer (suc i) bs ≡ (if ident_at bs (suc i) then ok (some (suc i)) else find_footer i bs)
unfolding find_footer
find_footer-suc i bs h = rw (slice-window bs (suc i) 7 h)

-- In a xorb of 7 bytes or more the search ends, and what it finds is in bounds.
pub find_footer-ok :
    (i : ℕ) (bs : List ℕ)
    → i + 7 ≤ length bs
    → (o : Option ℕ) × (find_footer i bs ≡ ok o) × ((k : ℕ) → o ≡ some k → k ≤ i)
find_footer-ok zero bs h = elim (Bool-cases (ident_at bs 0)) [
  | inl e ↦ (some 0, rw (find_footer-zero bs h, e), λ k q. ground (arith, q))
  | inr e ↦ (none, rw (find_footer-zero bs h, e), λ k q. cc)
]
find_footer-ok (suc i) bs h =
    let (o, p, l) = find_footer-ok i bs (omega arith) in
    elim (Bool-cases (ident_at bs (suc i))) [
      | inl e ↦ (some (suc i), rw (find_footer-suc i bs h, e), λ k q. ground (arith, q))
      | inr e ↦ (o, rw (find_footer-suc i bs h, e, p), λ k q. omega (arith, l k q))
    ]

find_footer-hit :
    (i : ℕ) (bs : List ℕ)
    → i + 7 ≤ length bs
    → ident_at bs i ≡ true
    → find_footer i bs ≡ ok (some i)
find_footer-hit zero bs h e = rw (find_footer-zero bs h, e)
find_footer-hit (suc i) bs h e = rw (find_footer-suc i bs h, e)

find_footer-miss :
    (i : ℕ) (bs : List ℕ)
    → suc i + 7 ≤ length bs
    → ident_at bs (suc i) ≡ false
    → find_footer (suc i) bs ≡ find_footer i bs
find_footer-miss i bs h e = rw (find_footer-suc i bs h, e)

ident_at-drop : (t i : ℕ) (bs : List ℕ) → ident_at (drop t bs) i ≡ ident_at bs (t + i)
ident_at-drop t i bs = ap (λ xs. eq_bytes (take 7 xs) ident_hashes) (drop-drop t i bs)

-- What is found in a tail is found in the whole.
pub find_footer-drop :
    (i t k : ℕ) (bs : List ℕ)
    → t + i + 7 ≤ length bs
    → find_footer i (drop t bs) ≡ ok (some k)
    → find_footer (t + i) bs ≡ ok (some (t + k))
find_footer-drop zero t k bs h e =
    let l : 0 + 7 ≤ length (drop t bs) = omega (arith, length-drop t bs) in
    elim (Bool-cases (ident_at (drop t bs) 0)) [
      | inl hit ↦
          let z : k ≡ 0 = ground (arith, sym (find_footer-hit 0 (drop t bs) l hit) ∙ e) in
          find_footer-hit (t + 0) bs h (sym (ident_at-drop t 0 bs) ∙ hit)
          ∙ ap (λ n. ok (some (t + n))) (sym z)
      | inr miss ↦
          let none_found : find_footer 0 (drop t bs) ≡ ok none =
            rw (find_footer-zero (drop t bs) l, miss) in
          cc
    ]
find_footer-drop (suc i) t k bs h e =
    let l : suc i + 7 ≤ length (drop t bs) = omega (arith, length-drop t bs) in
    elim (Bool-cases (ident_at (drop t bs) (suc i))) [
      | inl hit ↦
          let z : k ≡ suc i = ground (arith, sym (find_footer-hit (suc i) (drop t bs) l hit) ∙ e) in
          find_footer-hit (t + suc i) bs h (sym (ident_at-drop t (suc i) bs) ∙ hit)
          ∙ ap (λ n. ok (some (t + n))) (sym z)
      | inr miss ↦
          let q : t + suc i ≡ suc (t + i) = omega arith in
          let below : find_footer (t + i) bs ≡ ok (some (t + k)) =
            find_footer-drop i t k bs (omega arith)
              (sym (find_footer-miss i (drop t bs) l miss) ∙ e) in
          ap (λ n. find_footer n bs) q
          ∙ (find_footer-miss (t + i) bs (omega arith)
                (ap (ident_at bs) (sym q) ∙ (sym (ident_at-drop t (suc i) bs) ∙ miss))
              ∙ below)
    ]

-- The search finds the place after which the identifier does not stand again.
pub find_footer-last :
    (d p : ℕ) (bs : List ℕ)
    → p + d + 7 ≤ length bs
    → ident_at bs p ≡ true
    → ((j : ℕ) → p < j → j ≤ p + d → ident_at bs j ≡ false)
    → find_footer (p + d) bs ≡ ok (some p)
find_footer-last zero p bs h e n =
    ap (λ i. find_footer i bs) (add-zero p) ∙ find_footer-hit p bs (omega arith) e
find_footer-last (suc d) p bs h e n =
    let q : p + suc d ≡ suc (p + d) = omega arith in
    ap (λ i. find_footer i bs) q
    ∙ (find_footer-miss (p + d) bs (omega arith) (n (suc (p + d)) (omega arith) (omega arith))
        ∙ find_footer-last d p bs (omega arith) e (λ j a b. n j a (omega arith)))
