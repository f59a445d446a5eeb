-- ===== src/Outcome/Safe.antt =====
-- Calls that end: one rule for each way to build a call.
use xet_server.Prelude.{Bool, true, false, Option, none, some, ◌≡◌}
use xet_server.Outcome.{Outcome, ok, XetError, refuse, ok_or, Ends, Ends-bind, ◌>>=◌}

-- `Ends` as a record, so that a rule is found by the form of the call.
pub record Safe {ℓ} {A : Type ℓ} (m : Outcome A) : Type 0 where
  pub ends : Ends m

module _ {ℓ κ} {A : Type ℓ} {B : Type κ} where
  pub Safe-bind :
      (m : Outcome A) {f : A → Outcome B}
      → Safe m
      → ((a : A) → m ≡ ok a → Safe (f a))
      → Safe (m >>= f)
  Safe-bind m {f} h k = record { ends = Ends-bind m f h.ends (λ a e. (k a e).ends) }

pub Safe-ok {ℓ} : {A : Type ℓ} (a : A) → Safe (ok a)
Safe-ok a = record { ends = tt }

pub Safe-ok_or {ℓ} : {A : Type ℓ} (o : Option A) (e : XetError) → Safe (ok_or o e)
Safe-ok_or none e = record { ends = tt }
Safe-ok_or (some a) e = record { ends = tt }

pub Safe-refuse : (b : Bool) (e : XetError) → Safe (refuse b e)
Safe-refuse true e = record { ends = tt }
Safe-refuse false e = record { ends = tt }
