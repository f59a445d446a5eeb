-- ===== src/Slices.antt =====
-- Indexing and slicing of `Vec`s and slices, which panic out of bounds.
use xet_server.Prelude.{
  ℕ, zero, suc, ◌+◌, ◌-◌, ◌≤◌, ◌<◌, ◌≡◌, ◌≢◌, refl, sym, ap, ◌∙◌, arith, ◌&&◌, leb, le→leb,
  Bool-cases, inl, inr, none, some, List, [], ◌∷◌, ◌++◌, length, take, drop, get_elem?,
  if◌then◌else◌,
}
use xet_server.Outcome.{Outcome, ok, panicked, ok-injective, ◌>>=◌}
use native.Mathlib.Nat.{zero-add, suc-add}
use xet_server.Outcome.Safe.{Safe, Safe-ok}

-- `xs[i]`
abbrev pub index {ℓ} : {A : Type ℓ} → List A → ℕ → Outcome A
index [] i = panicked
index (x ∷ xs) zero = ok x
index (x ∷ xs) (suc i) = index xs i

-- `&xs[start..end]`
abbrev pub slice {ℓ} : {A : Type ℓ} → List A → ℕ → ℕ → Outcome (List A)
slice xs start end =
    if leb start end && leb end (length xs)
    then ok (take (end - start) (drop start xs))
    else panicked

pub index-Safe {ℓ} : {A : Type ℓ} (xs : List A) (i : ℕ) → i < length xs → Safe (index xs i)
index-Safe [] i h = absurd (omega (arith, h))
index-Safe (x ∷ xs) zero h = Safe-ok _
index-Safe (x ∷ xs) (suc i) h = index-Safe xs i (omega arith)

pub slice-Safe {ℓ} :
    {A : Type ℓ} (xs : List A) (start end : ℕ)
    → start ≤ end
    → end ≤ length xs
    → Safe (slice xs start end)
slice-Safe xs start end h l = rw (le→leb start end h, le→leb end (length xs) l) (Safe-ok _)

pub get_elem?-lt {ℓ} :
    {A : Type ℓ} (xs : List A) (i : ℕ) {a : A} → get_elem? xs i ≡ some a → i < length xs
get_elem?-lt [] i e = cc
get_elem?-lt (x ∷ xs) zero e = omega arith
get_elem?-lt (x ∷ xs) (suc i) e = omega (arith, get_elem?-lt xs i e)

pub index-get_elem? {ℓ} :
    {A : Type ℓ} (xs : List A) (i : ℕ) {a : A} → index xs i ≡ ok a → get_elem? xs i ≡ some a
index-get_elem? [] i e = cc
index-get_elem? (x ∷ xs) zero e = cc
index-get_elem? (x ∷ xs) (suc i) e = index-get_elem? xs i e

pub slice-take {ℓ} :
    {A : Type ℓ} (xs : List A) (i : ℕ) (ys : List A) → slice xs 0 i ≡ ok ys → ys ≡ take i xs
slice-take xs i ys e = elim (Bool-cases (leb 0 i && leb i (length xs))) [
  | inl fits ↦
      let z : i - 0 ≡ i = omega arith in
      let w : ok (take (i - 0) xs) ≡ ok ys = rw fits at e in
      sym (ok-injective w) ∙ ap (λ n. take n xs) z
  | inr over ↦ let w : panicked ≡ ok ys = rw over at e in cc
]

-- `xs[i] = v`
abbrev pub set {ℓ} : {A : Type ℓ} → List A → ℕ → A → Outcome (List A)
set [] i v = panicked
set (x ∷ xs) zero v = ok (v ∷ xs)
set (x ∷ xs) (suc i) v = set xs i v >>= λ ys. ok (x ∷ ys)

-- What a write leaves: one element is new, the others are as they were.
pub record Written {ℓ} {A : Type ℓ} (xs : List A) (i : ℕ) (v : A) (ys : List A) : Type ℓ where
  pub same_length : length ys ≡ length xs
  pub written : get_elem? ys i ≡ some v
  pub others : (j : ℕ) → j ≢ i → get_elem? ys j ≡ get_elem? xs j

module _ {ℓ} {A : Type ℓ} where
  pub set-Written :
      (xs : List A) (i : ℕ) (v : A)
      → i < length xs
      → (ys : List A) × (set xs i v ≡ ok ys) × Written xs i v ys
  set-Written [] i v h = absurd (omega (arith, h))
  set-Written (x ∷ xs) zero v h =
      (v ∷ xs, refl, record { same_length = refl; written = refl; others = other })
    where
      other : (j : ℕ) → j ≢ 0 → get_elem? (v ∷ xs) j ≡ get_elem? (x ∷ xs) j
      other zero n = absurd (n refl)
      other (suc j) n = refl
  set-Written (x ∷ xs) (suc i) v h =
      let (ys, e, w) = set-Written xs i v (omega arith) in
      (
        x ∷ ys,
        rw e,
        record { same_length = ap suc w.same_length; written = w.written; others = other ys w },
      )
    where
      other :
          (ys : List A)
          → Written xs i v ys
          → (j : ℕ) → j ≢ suc i
          → get_elem? (x ∷ ys) j ≡ get_elem? (x ∷ xs) j
      other ys w zero n = refl
      other ys w (suc j) n = w.others j (λ e. n (ap suc e))

  pub index-ok : (xs : List A) (i : ℕ) {a : A} → get_elem? xs i ≡ some a → index xs i ≡ ok a
  index-ok [] i e = cc
  index-ok (x ∷ xs) zero e = cc
  index-ok (x ∷ xs) (suc i) e = index-ok xs i e

  pub get_elem?-some : (xs : List A) (i : ℕ) → i < length xs → (a : A) × (get_elem? xs i ≡ some a)
  get_elem?-some [] i h = absurd (omega (arith, h))
  get_elem?-some (x ∷ xs) zero h = (x, refl)
  get_elem?-some (x ∷ xs) (suc i) h = get_elem?-some xs i (omega arith)

  pub get_elem?-none : (xs : List A) (i : ℕ) → length xs ≤ i → get_elem? xs i ≡ none
  get_elem?-none [] i h = refl
  get_elem?-none (x ∷ xs) zero h = absurd (omega (arith, h))
  get_elem?-none (x ∷ xs) (suc i) h = get_elem?-none xs i (omega arith)

  pub get_elem?-left :
      (xs ys : List A) (i : ℕ) → i < length xs → get_elem? (xs ++ ys) i ≡ get_elem? xs i
  get_elem?-left [] ys i h = absurd (omega (arith, h))
  get_elem?-left (x ∷ xs) ys zero h = refl
  get_elem?-left (x ∷ xs) ys (suc i) h = get_elem?-left xs ys i (omega arith)

  pub get_elem?-right :
      (xs ys : List A) (i : ℕ) → get_elem? (xs ++ ys) (length xs + i) ≡ get_elem? ys i
  get_elem?-right [] ys i = ap (get_elem? ys) (zero-add i)
  get_elem?-right (x ∷ xs) ys i = rw suc-add (get_elem?-right xs ys i)

  -- Lists of one length with the same elements are equal.
  pub get_elem?-ext :
      (xs ys : List A)
      → length xs ≡ length ys
      → ((i : ℕ) → i < length ys → get_elem? xs i ≡ get_elem? ys i)
      → xs ≡ ys
  get_elem?-ext [] [] e h = refl
  get_elem?-ext [] (y ∷ ys) e h = absurd (omega (arith, e))
  get_elem?-ext (x ∷ xs) [] e h = absurd (omega (arith, e))
  get_elem?-ext (x ∷ xs) (y ∷ ys) e h =
      let head : some x ≡ some y = h 0 (omega arith) in
      let tail : xs ≡ ys =
        get_elem?-ext xs ys (omega (arith, e)) (λ i l. h (suc i) (omega arith)) in
      cc
