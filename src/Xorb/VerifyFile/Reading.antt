-- ===== src/Xorb/VerifyFile/Reading.antt =====
-- The reads of `verify_xorb_from_file_with_info` of src/format/xorb.rs: what they take from the file.
use xet_server.Prelude.{
  ℕ, zero, suc, ◌+◌, ◌-◌, ◌≤◌, ◌<◌, ◌≡◌, refl, sym, ap, ◌∙◌, arith, min, lt-cases, inl, inr, true,
  false, none, some, List, [], ◌∷◌, ◌++◌, length, take, drop, length-take, length-drop, is_empty,
}
use xet_server.Outcome.{ok, refuse, bind-eq-ok, ok-injective}
use native.Mathlib.Nat.{zero-add, suc-add}
use xet_server.Reader.{split_exact}
use xet_server.Xorb.VerifyFile.{read_exact_at, read_buf_size, read_payload}

split_exact-take :
    (n : ℕ) (xs : List ℕ) → n ≤ length xs → split_exact n xs ≡ some (take n xs, drop n xs)
unfolding split_exact
split_exact-take zero xs h = refl
split_exact-take (suc n) [] h = absurd (omega (arith, h))
split_exact-take (suc n) (x ∷ xs) h = rw (split_exact-take n xs (omega arith))

split_exact-short : (n : ℕ) (xs : List ℕ) → length xs < n → split_exact n xs ≡ none
unfolding split_exact
split_exact-short zero xs h = absurd (omega (arith, h))
split_exact-short (suc n) [] h = refl
split_exact-short (suc n) (x ∷ xs) h = rw (split_exact-short n xs (omega arith))

pub read_exact_at-ok :
    (content : List ℕ) (at n : ℕ)
    → at + n ≤ length content
    → read_exact_at content at n ≡ ok (take n (drop at content))
unfolding read_exact_at
read_exact_at-ok content at n h =
    rw (split_exact-take n (drop at content) (omega (arith, length-drop at content)), read_exact_at)

pub read_exact_at-take :
    (content : List ℕ) (at n : ℕ) (bs : List ℕ)
    → read_exact_at content at (suc n) ≡ ok bs
    → (bs ≡ take (suc n) (drop at content)) × (at + suc n ≤ length content)
unfolding read_exact_at
read_exact_at-take content at n bs e = elim (lt-cases (length (drop at content)) (suc n)) [
  | inl short ↦ let q = split_exact-short (suc n) (drop at content) short in ground (arith, q)
  | inr full ↦
      let q = split_exact-take (suc n) (drop at content) full in
      (ground (arith, q), omega (arith, length-drop at content))
]

pub take-take : (a b : ℕ) (xs : List ℕ) → take a xs ++ take b (drop a xs) ≡ take (a + b) xs
take-take zero b xs = rw zero-add
take-take (suc a) zero [] = rw suc-add
take-take (suc a) (suc b) [] = rw suc-add
take-take (suc a) b (x ∷ xs) = rw suc-add (rw (take-take a b xs))

take-min : (n : ℕ) (xs : List ℕ) → take n xs ≡ take (length (take n xs)) xs
take-min zero xs = refl
take-min (suc n) [] = refl
take-min (suc n) (x ∷ xs) = ap (λ ys. x ∷ ys) (take-min n xs)

is_empty-false : (xs : List ℕ) → 0 < length xs → is_empty xs ≡ false
is_empty-false [] h = absurd (omega (arith, h))
is_empty-false (x ∷ xs) h = refl

is_empty-true : (xs : List ℕ) → length xs ≡ 0 → is_empty xs ≡ true
is_empty-true [] h = refl
is_empty-true (x ∷ xs) h = absurd (omega (arith, h))

-- The payload is read if the file goes on so far, and whole, in however many blocks.
pub read_payload-ok :
    (fuel remaining : ℕ) (rest : List ℕ)
    → remaining ≤ fuel
    → remaining ≤ length rest
    → read_payload fuel remaining rest ≡ ok (take remaining rest)
unfolding read_payload
read_payload-ok fuel zero rest f h = refl
read_payload-ok zero (suc r) rest f h = absurd (omega (arith, f))
read_payload-ok (suc fuel) (suc r) rest f h =
    let block : List ℕ = take (min (suc r) read_buf_size) rest in
    let n : length block ≡ min (min (suc r) read_buf_size) (length rest) =
      length-take (min (suc r) read_buf_size) rest in
    let e = is_empty-false block (omega arith) in
    let whole : length block + (suc r - length block) ≡ suc r = omega arith in
    let m =
      read_payload-ok fuel (suc r - length block) (drop (length block) rest) (omega arith)
        (omega (arith, length-drop (length block) rest)) in
    rw (e, m)
      (ap ok (
        ap (λ b. b ++ take (suc r - length block) (drop (length block) rest))
          (take-min (min (suc r) read_buf_size) rest)
        ∙ (take-take (length block) (suc r - length block) rest ∙ ap (λ k. take k rest) whole)))

pub read_payload-take :
    (fuel remaining : ℕ) (rest bs : List ℕ)
    → remaining ≤ fuel
    → read_payload fuel remaining rest ≡ ok bs
    → (bs ≡ take remaining rest) × (remaining ≤ length rest)
unfolding read_payload
read_payload-take fuel zero rest bs f e = (sym (ok-injective e), omega arith)
read_payload-take zero (suc r) rest bs f e = absurd (omega (arith, f))
read_payload-take (suc fuel) (suc r) rest bs f e = elim (lt-cases (length rest) (suc r)) [
  | inr full ↦ (ok-injective (sym e ∙ read_payload-ok (suc fuel) (suc r) rest f full), full)
  | inl short ↦
      let block : List ℕ = take (min (suc r) read_buf_size) rest in
      let n : length block ≡ min (min (suc r) read_buf_size) (length rest) =
        length-take (min (suc r) read_buf_size) rest in
      let (u, e₁, r₁) = bind-eq-ok (refuse (is_empty block) _) _ e in
      let (more, e₂, r₂) =
        bind-eq-ok (read_payload fuel (suc r - length block) (drop (length block) rest)) _ r₁ in
      elim (lt-cases 0 (length block)) [
        | inl some_byte ↦
            let w =
              read_payload-take fuel (suc r - length block) (drop (length block) rest) more
                (omega arith) e₂ in
            absurd (omega (arith, w.1, length-drop (length block) rest))
        | inr none_left ↦ let t = is_empty-true block (omega arith) in ground (arith, t, e₁)
      ]
]
