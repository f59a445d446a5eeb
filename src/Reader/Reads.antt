-- ===== src/Reader/Reads.antt =====
-- What a reader takes from its input: one rule for each way to build a reader.
use xet_server.Prelude.{
  ℕ, ◌+◌, ◌≡◌, refl, some, List, [], ◌∷◌, ◌++◌, append_assoc, append-nil, length, length-append,
  flat_map, IsU32, IsU64, All,
}
use xet_server.Outcome.{Outcome, ok}
use xet_server.Bytes.{to_le_bytes}
use xet_server.Bytes.RoundTrip.{length-to_le_bytes, from_le_bytes-to_le_bytes}
use xet_server.Reader.{
  Reader, ◌>>=◌, pure, lift, split_exact, read_exact, read_u32, read_u64, repeat,
}
use mathlib.Core.Path.{subst}
use native.Mathlib.Nat.{add_assoc, add-zero}

-- In front of the bytes `bs`, whatever follows them, `m` returns `a` and stands behind them.
pub record Reads {ℓ} {A : Type ℓ} (m : Reader A) (bs : List ℕ) (a : A) : Type ℓ where
  pub run :
      (p : ℕ) (r : List ℕ)
      → m (record { position = p; rest = bs ++ r })
        ≡ ok (a, record { position = p + length bs; rest = r })

split_exact-append {ℓ} :
    {A : Type ℓ} (xs ys : List A) → split_exact (length xs) (xs ++ ys) ≡ some (xs, ys)
unfolding split_exact
split_exact-append [] ys = refl
split_exact-append (x ∷ xs) ys = rw (split_exact-append xs ys)

module _ {ℓ} {A : Type ℓ} where
  pub Reads-pure : (a : A) → Reads (pure a) [] a
  unfolding pure
  Reads-pure a = record { run = λ p r. rw add-zero }

  pub Reads-lift : {o : Outcome A} {a : A} → o ≡ ok a → Reads (lift o) [] a
  unfolding lift
  Reads-lift e = record { run = λ p r. rw (e, add-zero, lift) }

pub Reads-bind {ℓ κ} :
    {A : Type ℓ} {B : Type κ} {m : Reader A} {bs cs : List ℕ} {a : A} {b : B} (f : A → Reader B)
    → Reads m bs a
    → Reads (f a) cs b
    → Reads (m >>= f) (bs ++ cs) b
unfolding ◌>>=◌
Reads-bind {bs = bs} {cs = cs} f h k = record {
  run = λ p r. rw (append_assoc, length-append, h.run p (cs ++ r), ← add_assoc) (k.run _ r);
}

pub Reads-exact : (bs : List ℕ) → Reads (read_exact (length bs)) bs bs
unfolding read_exact
Reads-exact bs = record { run = λ p r. rw (split_exact-append bs r, read_exact) }

-- The same where the length is known.
pub Reads-exact_of : {n : ℕ} (bs : List ℕ) → length bs ≡ n → Reads (read_exact n) bs bs
Reads-exact_of bs e = rw (← e) (Reads-exact bs)

pub Reads-value {ℓ} :
    {A : Type ℓ} {m : Reader A} {bs : List ℕ} {a b : A} → a ≡ b → Reads m bs a → Reads m bs b
Reads-value {m = m} {bs = bs} e h = subst (λ x. Reads m bs x) e h

pub Reads-bytes {ℓ} :
    {A : Type ℓ} {m : Reader A} {bs cs : List ℕ} {a : A} → bs ≡ cs → Reads m bs a → Reads m cs a
Reads-bytes {m = m} {a = a} e h = subst (λ x. Reads m x a) e h

pub Reads-u32 : {n : ℕ} → IsU32 n → Reads read_u32 (to_le_bytes 4 n) n
unfolding read_u32
Reads-u32 {n} h = Reads-value (from_le_bytes-to_le_bytes 4 n h) (
    Reads-bytes (append-nil _)
      (Reads-bind _ (Reads-exact_of _ (length-to_le_bytes 4 n)) (Reads-pure _)))

pub Reads-u64 : {n : ℕ} → IsU64 n → Reads read_u64 (to_le_bytes 8 n) n
unfolding read_u64
Reads-u64 {n} h = Reads-value (from_le_bytes-to_le_bytes 8 n h) (
    Reads-bytes (append-nil _)
      (Reads-bind _ (Reads-exact_of _ (length-to_le_bytes 8 n)) (Reads-pure _)))

-- Records that are read one after the other, each from its own bytes.
pub Reads-repeat {ℓ} :
    {A : Type ℓ} (m : Reader A) (encode : A → List ℕ) (xs : List A)
    → All (λ x. Reads m (encode x) x) xs
    → Reads (repeat (length xs) m) (flat_map encode xs) xs
unfolding repeat
Reads-repeat m encode [] h = Reads-pure []
Reads-repeat m encode (x ∷ xs) (hx, h) =
    Reads-bind _ hx
      (Reads-bytes (append-nil _) (Reads-bind _ (Reads-repeat m encode xs h) (Reads-pure _)))

-- The same where the count is known.
pub Reads-repeat_of {ℓ} :
    {A : Type ℓ} (m : Reader A) (encode : A → List ℕ) {n : ℕ} (xs : List A)
    → n ≡ length xs
    → All (λ x. Reads m (encode x) x) xs
    → Reads (repeat n m) (flat_map encode xs) xs
Reads-repeat_of m encode xs e h = rw e (Reads-repeat m encode xs h)
