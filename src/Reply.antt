-- ===== src/Reply.antt =====
-- What a call of a function with messages as its errors comes to: `Result<_, String>`.
pub mod Laws
use xet_server.Prelude.{String, Bool, true, false, Option, none, some}
use xet_server.Outcome.{Outcome, ok, err, panicked, out_of_fuel}

-- A call whose errors are messages. `aborted`: it does not return.
pub data Reply {ℓ} (A : Type ℓ) : Type ℓ where
  reply : A → Reply A
  failed : String → Reply A
  aborted : Reply A

infixl 5 ◌>>=◌ ◌>>◌
abbrev pub ◌>>=◌ {ℓ κ} : {A : Type ℓ} {B : Type κ} → Reply A → (A → Reply B) → Reply B
reply a >>= f = f a
failed e >>= f = failed e
aborted >>= f = aborted

abbrev pub ◌>>◌ {ℓ} : {B : Type ℓ} → Reply (Unit {0}) → Reply B → Reply B
m >> k = m >>= λ _. k

-- `.map_err(|e| format!(…))`
abbrev pub map_err {ℓ} : {A : Type ℓ} → Outcome A → String → Reply A
map_err (ok a) message = reply a
map_err (err e) message = failed message
map_err panicked message = aborted
map_err out_of_fuel message = aborted

-- `if test { return Err(message) }`
abbrev pub fail_if : Bool → String → Reply (Unit {0})
fail_if true message = failed message
fail_if false message = reply tt

-- `.ok_or_else(|| format!(…))`
abbrev pub some_or {ℓ} : {A : Type ℓ} → Option A → String → Reply A
some_or none message = failed message
some_or (some a) message = reply a
