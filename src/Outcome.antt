-- ===== src/Outcome.antt =====
-- src/error.rs: the error type, and what a call of a fallible function comes to.
pub mod Safe
use xet_server.Prelude.{
  ℕ, ◌<◌, ◌==◌, ==_refl, ==_false, not, String, ◌≡◌, refl, Bool, true, false, Option, none, some,
}

-- `std::io::ErrorKind`, as far as the code tells its values apart.
pub data IoErrorKind : Type 0 where
  unexpected_eof invalid_data not_found other : IoErrorKind

-- A message is its fixed text, without the values that `format!` inserts.
pub data XetError : Type 0 where
  invalid_hash_format : String → XetError
  invalid_chunk_size : ℕ → ℕ → ℕ → XetError
  hash_mismatch : String → String → XetError
  parse_error : String → XetError
  io_error : IoErrorKind → XetError

-- `panicked` is a Rust panic. `out_of_fuel` is no outcome of the program: a loop of the model ran
-- through its fuel.
pub data Outcome {ℓ} (A : Type ℓ) : Type ℓ where
  ok : A → Outcome A
  err : XetError → Outcome A
  panicked : Outcome A
  out_of_fuel : Outcome A

infixl 5 ◌>>=◌ ◌>>◌
abbrev pub ◌>>=◌ {ℓ κ} : {A : Type ℓ} {B : Type κ} → Outcome A → (A → Outcome B) → Outcome B
ok a >>= f = f a
err e >>= f = err e
panicked >>= f = panicked
out_of_fuel >>= f = out_of_fuel

abbrev pub ◌>>◌ {ℓ} : {B : Type ℓ} → Outcome (Unit {0}) → Outcome B → Outcome B
m >> k = m >>= λ _. k

-- `if test { return Err(e) }`
abbrev pub refuse : Bool → XetError → Outcome (Unit {0})
refuse true e = err e
refuse false e = ok tt

-- `ok_or`, `ok_or_else`
abbrev pub ok_or {ℓ} : {A : Type ℓ} → Option A → XetError → Outcome A
ok_or none e = err e
ok_or (some a) e = ok a

-- The call ends with a value or an error: no panic, and no loop left without fuel.
abbrev pub Ends {ℓ} : {A : Type ℓ} → Outcome A → Type 0
Ends (ok a) = Unit
Ends (err e) = Unit
Ends panicked = ⊥
Ends out_of_fuel = ⊥

module _ {ℓ κ} {A : Type ℓ} {B : Type κ} where
  pub bind-eq-ok :
      (m : Outcome A) (f : A → Outcome B) {b : B}
      → (m >>= f) ≡ ok b
      → (a : A) × (m ≡ ok a) × (f a ≡ ok b)
  bind-eq-ok (ok a) f h = (a, refl, h)
  bind-eq-ok (err e) f h = cc
  bind-eq-ok panicked f h = cc
  bind-eq-ok out_of_fuel f h = cc

  pub Ends-bind :
      (m : Outcome A) (f : A → Outcome B)
      → Ends m
      → ((a : A) → m ≡ ok a → Ends (f a))
      → Ends (m >>= f)
  Ends-bind (ok a) f h k = k a refl
  Ends-bind (err e) f h k = tt
  Ends-bind panicked f h k = h
  Ends-bind out_of_fuel f h k = h

-- Guards that pass.
pub refuse_differs : (a b : ℕ) (e : XetError) → a ≡ b → refuse (not (a == b)) e ≡ ok tt
refuse_differs a b e h = rw (h, ==_refl b)

pub refuse_equals : (a b : ℕ) (e : XetError) → b < a → refuse (a == b) e ≡ ok tt
refuse_equals a b e h = rw (==_false b a h)

pub ok-injective {ℓ} : {A : Type ℓ} {a b : A} → ok a ≡ ok b → a ≡ b
ok-injective e = cc
