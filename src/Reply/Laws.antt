-- ===== src/Reply/Laws.antt =====
-- Calls with messages as errors that return.
use xet_server.Prelude.{
  ℕ, String, Bool, true, false, Option, none, some, not, ◌==◌, ◌≡◌, refl, ap, arith,
}
use xet_server.Outcome.{Outcome, ok, err, panicked, out_of_fuel}
use xet_server.Hash.{MerkleHash, eq_hash}
use xet_server.Hash.Laws.{eq_hash_iff}
use xet_server.Reply.{Reply, reply, failed, aborted, ◌>>=◌, map_err, fail_if, some_or}

module _ {ℓ κ} {A : Type ℓ} {B : Type κ} where
  pub bind-eq-reply :
      (m : Reply A) (f : A → Reply B) {b : B}
      → (m >>= f) ≡ reply b
      → (a : A) × (m ≡ reply a) × (f a ≡ reply b)
  bind-eq-reply (reply a) f h = (a, refl, h)
  bind-eq-reply (failed e) f h = cc
  bind-eq-reply aborted f h = cc

pub reply-injective {ℓ} : {A : Type ℓ} {a b : A} → reply a ≡ reply b → a ≡ b
reply-injective e = cc

pub map_err-reply {ℓ} :
    {A : Type ℓ} (o : Outcome A) (m : String) {a : A} → map_err o m ≡ reply a → o ≡ ok a
map_err-reply (ok b) m e = ap ok (reply-injective e)
map_err-reply (err x) m e = cc
map_err-reply panicked m e = cc
map_err-reply out_of_fuel m e = cc

pub some_or-reply {ℓ} :
    {A : Type ℓ} (o : Option A) (m : String) {a : A} → some_or o m ≡ reply a → o ≡ some a
some_or-reply none m e = cc
some_or-reply (some b) m e = ap some (reply-injective e)

pub fail_if-reply : (b : Bool) (m : String) {u : Unit {0}} → fail_if b m ≡ reply u → b ≡ false
fail_if-reply true m e = cc
fail_if-reply false m e = refl

pub fail_if-same :
    (a b : ℕ) (m : String) {u : Unit {0}} → fail_if (not (a == b)) m ≡ reply u → a ≡ b
fail_if-same a b m e = let q = fail_if-reply (not (a == b)) m e in ground (arith, q)

pub fail_if-same_hash :
    (a b : MerkleHash) (m : String) {u : Unit {0}} → fail_if (not (eq_hash a b)) m ≡ reply u → a ≡ b
fail_if-same_hash a b m e =
    let q = fail_if-reply (not (eq_hash a b)) m e in (eq_hash_iff a b).0 (ground (arith, q))
