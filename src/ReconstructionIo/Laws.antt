-- ===== src/ReconstructionIo/Laws.antt =====
-- Calls of src/reconstruction_io.rs that return.
use xet_server.Prelude.{◌≡◌, refl, ap, Bool, true, false, Option, none, some}
use xet_server.Outcome.{Outcome, ok, err, panicked, out_of_fuel}
use xet_server.Reply.{Reply, reply, failed, aborted}
use xet_server.ReconstructionIo.{
  ReconstructionError, Attempt, done, rejected, crashed, ◌>>=◌, or_integrity, outcome_or, some_or,
  reject_if,
}

module _ {ℓ κ} {A : Type ℓ} {B : Type κ} where
  pub bind-eq-done :
      (m : Attempt A) (f : A → Attempt B) {b : B}
      → (m >>= f) ≡ done b
      → (a : A) × (m ≡ done a) × (f a ≡ done b)
  bind-eq-done (done a) f h = (a, refl, h)
  bind-eq-done (rejected e) f h = cc
  bind-eq-done crashed f h = cc

pub done-injective {ℓ} : {A : Type ℓ} {a b : A} → done a ≡ done b → a ≡ b
done-injective e = cc

pub outcome_or-done {ℓ} :
    {A : Type ℓ} (o : Outcome A) (x : ReconstructionError) {a : A}
    → outcome_or o x ≡ done a
    → o ≡ ok a
outcome_or-done (ok b) x e = ap ok (done-injective e)
outcome_or-done (err y) x e = cc
outcome_or-done panicked x e = cc
outcome_or-done out_of_fuel x e = cc

pub or_integrity-done {ℓ} :
    {A : Type ℓ} (o : Reply A) {a : A} → or_integrity o ≡ done a → o ≡ reply a
or_integrity-done (reply b) e = ap reply (done-injective e)
or_integrity-done (failed y) e = cc
or_integrity-done aborted e = cc

pub some_or-done {ℓ} :
    {A : Type ℓ} (o : Option A) (x : ReconstructionError) {a : A}
    → some_or o x ≡ done a
    → o ≡ some a
some_or-done none x e = cc
some_or-done (some b) x e = ap some (done-injective e)

pub reject_if-done :
    (b : Bool) (x : ReconstructionError) {u : Unit {0}} → reject_if b x ≡ done u → b ≡ false
reject_if-done true x e = cc
reject_if-done false x e = refl
