-- ===== src/Reader/Total.antt =====
-- Readers that end with a value or an error wherever the cursor stands, and how much they take.
use xet_server.Prelude.{
  ℕ, zero, suc, ◌+◌, ◌≤◌, ◌<◌, Bool, true, false, Bool-cases, inl, inr, Option, some, none, List,
  [], ◌∷◌, arith, length, drop, length-drop, ltb, if◌then◌else◌,
}
use xet_server.Outcome.{
  Outcome, ok, err, panicked, out_of_fuel, Ends, io_error, unexpected_eof, XetError, refuse, ok_or,
}
use xet_server.Reader.{
  Cursor, Reader, ◌>>=◌, ◌>>◌, continue, pure, lift, stream_position, seek, split_exact, read_exact,
  read_u32, read_u64, repeat, while_before,
}

-- The outcome is no panic and no lack of fuel, and a success leaves `k` of `n` bytes behind.
abbrev pub Within {ℓ} : {A : Type ℓ} → ℕ → ℕ → Outcome (A × Cursor) → Type 0
Within k n (ok (a, c)) = length c.rest + k ≤ n
Within k n (err e) = Unit
Within k n panicked = ⊥
Within k n out_of_fuel = ⊥

-- `m` ends wherever it starts.
pub record Halts {ℓ} {A : Type ℓ} (m : Reader A) : Type ℓ where
  pub at : (c : Cursor) → Ends (m c)

-- Moreover, a successful run takes `k` bytes of the input at least.
pub record Takes {ℓ} {A : Type ℓ} (k : ℕ) (m : Reader A) : Type ℓ where
  pub at : (c : Cursor) → Within k (length c.rest) (m c)

Within→Ends {ℓ} : {A : Type ℓ} (k n : ℕ) (o : Outcome (A × Cursor)) → Within k n o → Ends o
Within→Ends k n (ok (a, c)) h = tt
Within→Ends k n (err e) h = tt
Within→Ends k n panicked h = h
Within→Ends k n out_of_fuel h = h

pub Takes-Halts {ℓ} : {A : Type ℓ} (k : ℕ) (m : Reader A) → Takes k m → Halts m
Takes-Halts k m t = record { at = λ c. Within→Ends k _ (m c) (t.at c) }

pub Takes-pure {ℓ} : {A : Type ℓ} (a : A) → Takes 0 (pure a)
unfolding pure
Takes-pure a = record { at = λ c. omega arith }

pub Takes-stream_position : Takes 0 stream_position
unfolding stream_position
Takes-stream_position = record { at = λ c. omega arith }

pub Takes-lift {ℓ} : {A : Type ℓ} (o : Outcome A) → Ends o → Takes 0 (lift o)
unfolding lift
Takes-lift (ok a) h = record { at = λ c. omega arith }
Takes-lift (err x) h = record { at = λ c. tt }
Takes-lift panicked h = absurd h
Takes-lift out_of_fuel h = absurd h

abbrev Leaves {ℓ} : {A : Type ℓ} → ℕ → ℕ → Option (List A × List A) → Type 0
Leaves k n none = Unit
Leaves k n (some (front, back)) = length back + k ≤ n

Leaves-one {ℓ} :
    {A : Type ℓ} (x : A) (k n : ℕ) (o : Option (List A × List A))
    → Leaves k n o
    → Leaves (suc k) (suc n) (elim o [ none ↦ none | some (front, back) ↦ some (x ∷ front, back) ])
Leaves-one x k n none h = tt
Leaves-one x k n (some (front, back)) h = omega (arith, h)

split_exact-Leaves {ℓ} :
    {A : Type ℓ} (n : ℕ) (xs : List A) → Leaves n (length xs) (split_exact n xs)
unfolding split_exact
split_exact-Leaves zero xs = omega arith
split_exact-Leaves (suc n) [] = tt
split_exact-Leaves (suc n) (x ∷ xs) = Leaves-one x n (length xs) _ (split_exact-Leaves n xs)

read-Within :
    (n k m : ℕ) (c : Cursor) (o : Option (List ℕ × List ℕ))
    → Leaves k m o
    → Within k m (elim o [
      | none ↦ err (io_error unexpected_eof)
      | some (front, back) ↦ ok (front, record { position = c.position + n; rest = back })
    ])
read-Within n k m c none h = tt
read-Within n k m c (some (front, back)) h = h

pub Takes-exact : (n : ℕ) → Takes n (read_exact n)
unfolding read_exact
Takes-exact n = record {
  at = λ c. read-Within n n (length c.rest) c _ (split_exact-Leaves n c.rest);
}

module _ {ℓ κ} {A : Type ℓ} {B : Type κ} (f : A → Reader B) where
  continue-Within :
      (k l n : ℕ) (o : Outcome (A × Cursor))
      → Within k n o
      → ((a : A) → Takes l (f a))
      → Within (k + l) n (continue o f)
  continue-Within k l n (ok (a, c)) h g = shift (f a c) ((g a).at c)
    where
      shift : (o : Outcome (B × Cursor)) → Within l (length c.rest) o → Within (k + l) n o
      shift (ok (b, c')) w = omega (arith, w, h)
      shift (err e) w = tt
      shift panicked w = w
      shift out_of_fuel w = w
  continue-Within k l n (err e) h g = tt
  continue-Within k l n panicked h g = h
  continue-Within k l n out_of_fuel h g = h

  pub Takes-bind :
      (k l : ℕ) {m : Reader A} → Takes k m → ((a : A) → Takes l (f a)) → Takes (k + l) (m >>= f)
  unfolding ◌>>=◌
  Takes-bind k l {m} h g = record { at = λ c. continue-Within k l (length c.rest) (m c) (h.at c) g }

  continue-Ends :
      (o : Outcome (A × Cursor)) → Ends o → ((a : A) → Halts (f a)) → Ends (continue o f)
  continue-Ends (ok (a, c)) h g = (g a).at c
  continue-Ends (err e) h g = tt
  continue-Ends panicked h g = h
  continue-Ends out_of_fuel h g = h

  pub Halts-bind : {m : Reader A} → Halts m → ((a : A) → Halts (f a)) → Halts (m >>= f)
  unfolding ◌>>=◌
  Halts-bind {m} h g = record { at = λ c. continue-Ends (m c) (h.at c) g }

pub Takes-u32 : Takes 4 read_u32
unfolding read_u32
Takes-u32 = Takes-bind _ 4 0 (Takes-exact 4) (λ b. Takes-pure _)

pub Takes-u64 : Takes 8 read_u64
unfolding read_u64
Takes-u64 = Takes-bind _ 8 0 (Takes-exact 8) (λ b. Takes-pure _)

pub Takes-repeat {ℓ} : {A : Type ℓ} (n : ℕ) {m : Reader A} → Takes 0 m → Takes 0 (repeat n m)
unfolding repeat
Takes-repeat zero h = Takes-pure []
Takes-repeat (suc n) h =
    Takes-bind _ 0 0 h (λ a. Takes-bind _ 0 0 (Takes-repeat n h) (λ as'. Takes-pure _))

Within-fewer {ℓ} :
    {A : Type ℓ} (k l n : ℕ) (o : Outcome (A × Cursor)) → l ≤ k → Within k n o → Within l n o
Within-fewer k l n (ok (a, c)) h w = omega (arith, w)
Within-fewer k l n (err e) h w = tt
Within-fewer k l n panicked h w = w
Within-fewer k l n out_of_fuel h w = w

pub Takes-fewer {ℓ} : {A : Type ℓ} (k l : ℕ) {m : Reader A} → l ≤ k → Takes k m → Takes l m
Takes-fewer k l {m} h t = record { at = λ c. Within-fewer k l _ (m c) h (t.at c) }

pub Halts-seek : (content : List ℕ) (p : ℕ) → Halts (seek content p)
unfolding seek
Halts-seek content p = record { at = λ c. tt }

pub Halts-pure {ℓ} : {A : Type ℓ} (a : A) → Halts (pure a)
Halts-pure a = Takes-Halts 0 _ (Takes-pure a)

pub Halts-lift {ℓ} : {A : Type ℓ} (o : Outcome A) → Ends o → Halts (lift o)
Halts-lift o h = Takes-Halts 0 _ (Takes-lift o h)

pub Halts-if {ℓ} :
    {A : Type ℓ} (b : Bool) {m n : Reader A} → Halts m → Halts n → Halts (if b then m else n)
Halts-if true h k = h
Halts-if false h k = k

-- Guards end.
pub Ends-refuse : (b : Bool) (e : XetError) → Ends (refuse b e)
Ends-refuse true e = tt
Ends-refuse false e = tt

pub Ends-ok_or {ℓ} : {A : Type ℓ} (o : Option A) (e : XetError) → Ends (ok_or o e)
Ends-ok_or none e = tt
Ends-ok_or (some a) e = tt

module _ {ℓ} {S : Type ℓ} (end : ℕ) (step : S → Reader S) (h : (s : S) → Takes 1 (step s)) where
  next-Ends :
      (fuel n : ℕ) (o : Outcome (S × Cursor))
      → n < suc fuel
      → ((s : S) (c : Cursor) → length c.rest < fuel → Ends (while_before fuel end step s c))
      → Within 1 n o
      → Ends (continue o (while_before fuel end step))
  next-Ends fuel n (ok (s, c)) lt rec w = rec s c (omega (arith, w))
  next-Ends fuel n (err e) lt rec w = tt
  next-Ends fuel n panicked lt rec w = w
  next-Ends fuel n out_of_fuel lt rec w = w

  -- A loop whose rounds take something ends, with more fuel than there are bytes.
  pub while_before-Ends :
      (fuel : ℕ) (s : S) (c : Cursor) → length c.rest < fuel → Ends (while_before fuel end step s c)
  unfolding while_before ◌>>=◌
  while_before-Ends zero s c lt = elim lt [ ]
  while_before-Ends (suc fuel) s c lt = elim (Bool-cases (ltb c.position end)) [
    | inl more ↦
        rw (more, while_before)
          (next-Ends fuel _ (step s c) lt (λ s' c' l. while_before-Ends fuel s' c' l) ((h s).at c))
    | inr done ↦ rw (done, while_before) tt
  ]

  -- So does a section loop behind a seek in `content`.
  pub section-Halts :
      (content : List ℕ) (start : ℕ) (s : S)
      → Halts (seek content start >> while_before (suc (length content)) end step s)
  unfolding ◌>>=◌
  section-Halts content start s = record {
    at = λ c.
        while_before-Ends (suc (length content)) s
          (record { position = start; rest = drop start content })
          (omega (arith, length-drop start content));
  }
