-- ===== src/Reader/Ensures.antt =====
-- What holds of the value that a reader returns: one rule for each way to build a reader.
use xet_server.Prelude.{
  ℕ, zero, suc, ◌≡◌, refl, ap, Bool, true, false, [], ◌∷◌, length, ltb, if◌then◌else◌,
}
use xet_server.Outcome.{Outcome, ok, err, panicked, out_of_fuel, XetError, refuse}
use xet_server.Reader.{
  Cursor, Reader, ◌>>=◌, continue, pure, lift, stream_position, repeat, while_before,
}

abbrev pub After {ℓ κ} : {A : Type ℓ} → (A → Type κ) → Outcome (A × Cursor) → Type κ
After Q (ok (a, c)) = Q a
After Q (err e) = Unit
After Q panicked = Unit
After Q out_of_fuel = Unit

-- Every value that `m` returns has the property.
pub record Ensures {ℓ κ} {A : Type ℓ} (Q : A → Type κ) (m : Reader A) : Type (ℓ ⊔ κ) where
  pub at : (c : Cursor) → After Q (m c)

module _ {ℓ κ} {A : Type ℓ} (Q : A → Type κ) where
  pub Ensures-pure : (a : A) → Q a → Ensures Q (pure a)
  unfolding pure
  Ensures-pure a q = record { at = λ c. q }

  pub Ensures-lift : (o : Outcome A) → ((a : A) → o ≡ ok a → Q a) → Ensures Q (lift o)
  unfolding lift
  Ensures-lift (ok a) q = record { at = λ c. q a refl }
  Ensures-lift (err e) q = record { at = λ c. tt }
  Ensures-lift panicked q = record { at = λ c. tt }
  Ensures-lift out_of_fuel q = record { at = λ c. tt }

  pub Ensures-if :
      (b : Bool) {m n : Reader A}
      → (b ≡ true → Ensures Q m)
      → (b ≡ false → Ensures Q n)
      → Ensures Q (if b then m else n)
  Ensures-if true h k = h refl
  Ensures-if false h k = k refl

-- Nothing is known of the value.
abbrev pub Anything {ℓ} : {A : Type ℓ} → A → Type 0
Anything a = Unit

After-any {ℓ} : {A : Type ℓ} (o : Outcome (A × Cursor)) → After Anything o
After-any (ok (a, c)) = tt
After-any (err e) = tt
After-any panicked = tt
After-any out_of_fuel = tt

pub Ensures-any {ℓ} : {A : Type ℓ} (m : Reader A) → Ensures Anything m
Ensures-any m = record { at = λ c. After-any (m c) }

pub Ensures-refuse : (b : Bool) (e : XetError) → Ensures (λ _. b ≡ false) (lift (refuse b e))
Ensures-refuse true e = Ensures-lift _ _ (λ a h. cc)
Ensures-refuse false e = Ensures-lift _ _ (λ a h. refl)

module _ {ℓ κ μ ν} {A : Type ℓ} {B : Type κ} {Q : A → Type μ} {R : B → Type ν}
    (f : A → Reader B) where
  continue-After :
      (o : Outcome (A × Cursor))
      → After Q o
      → ((a : A) → Q a → Ensures R (f a))
      → After R (continue o f)
  continue-After (ok (a, c)) h g = (g a h).at c
  continue-After (err e) h g = tt
  continue-After panicked h g = tt
  continue-After out_of_fuel h g = tt

  pub Ensures-bind :
      {m : Reader A} → Ensures Q m → ((a : A) → Q a → Ensures R (f a)) → Ensures R (m >>= f)
  unfolding ◌>>=◌
  Ensures-bind {m} h g = record { at = λ c. continue-After (m c) (h.at c) g }

pub Ensures-repeat {ℓ} :
    {A : Type ℓ} (n : ℕ) (m : Reader A) → Ensures (λ xs. length xs ≡ n) (repeat n m)
unfolding repeat
Ensures-repeat zero m = Ensures-pure _ [] refl
Ensures-repeat (suc n) m =
    Ensures-bind _ (Ensures-any m)
      (λ a _. Ensures-bind _ (Ensures-repeat n m) (λ xs e. Ensures-pure _ (a ∷ xs) (ap suc e)))

-- A loop keeps what its rounds keep.
pub while_before-Ensures {ℓ κ} :
    {S : Type ℓ} (I : S → Type κ) (end : ℕ) (step : S → Reader S)
    → ((s : S) → I s → Ensures I (step s))
    → (fuel : ℕ) (s : S) → I s
    → Ensures I (while_before fuel end step s)
unfolding while_before
while_before-Ensures I end step keep zero s h = record { at = λ c. tt }
while_before-Ensures I end step keep (suc fuel) s h =
    Ensures-bind _ (Ensures-any stream_position) (λ p _.
      Ensures-if I (ltb p end)
        (λ _. Ensures-bind _ (keep s h) (λ s' h'. while_before-Ensures I end step keep fuel s' h'))
        (λ _. Ensures-pure I s h))
