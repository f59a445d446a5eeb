-- ===== src/Reader/Loops.antt =====
-- Runs of readers step by step, and the rules of the loop `while_before`.
use xet_server.Prelude.{
  ℕ, zero, suc, ◌+◌, ◌≤◌, ◌<◌, ◌≡◌, ap, ◌∙◌, if◌then◌else◌, List, [], ◌∷◌, ◌++◌, drop-append,
  append_assoc, arith, length, length-append, flat_map, lt→ltb, le→ltb, All,
}
use xet_server.Outcome.{Outcome, ok}
use xet_server.Reader.{Cursor, Reader, ◌>>=◌, lift, pure, seek, while_before}

module _ {ℓ κ} {A : Type ℓ} {B : Type κ} where
  -- One step of a `do` block, and the rest of it.
  pub runs :
      (m : Reader A) (f : A → Reader B) {c c' : Cursor} {a : A} {o : Outcome (B × Cursor)}
      → m c ≡ ok (a, c')
      → f a c' ≡ o
      → (m >>= f) c ≡ o
  unfolding ◌>>=◌
  runs m f e k = rw (e, ◌>>=◌) k

  pub runs_lift :
      (o : Outcome A) (f : A → Reader B) {c : Cursor} {a : A} {r : Outcome (B × Cursor)}
      → o ≡ ok a
      → f a c ≡ r
      → (lift o >>= f) c ≡ r
  unfolding ◌>>=◌
  runs_lift o f e k = rw (e, ◌>>=◌) k

pub pure_at {ℓ} :
    {A : Type ℓ} {a : A} {m n : ℕ} (r : List ℕ)
    → m ≡ n
    → pure a (record { position = m; rest = r }) ≡ ok (a, record { position = n; rest = r })
unfolding pure
pure_at {a = a} r e = ap (λ k. ok (a, record { position = k; rest = r })) e

-- Seeking to the end of what stands in front of `back`.
pub seek_to :
    (content front back : List ℕ) (c : Cursor)
    → content ≡ front ++ back
    → seek content (length front) c ≡ ok (tt, record { position = length front; rest = back })
unfolding seek
seek_to content front back c e = rw (e, drop-append front back)

-- The same where the offset is known.
pub seek_at :
    (content front back : List ℕ) (p : ℕ) (c : Cursor)
    → content ≡ front ++ back
    → p ≡ length front
    → seek content p c ≡ ok (tt, record { position = p; rest = back })
unfolding seek
seek_at content front back p c e h = rw (e, h, drop-append front back)

-- The variables of a loop after the records `qs`.
abbrev pub foldl {ℓ κ} : {S : Type ℓ} {Q : Type κ} → (S → Q → S) → S → List Q → S
foldl push s [] = s
foldl push s (q ∷ qs) = foldl push (push s q) qs

module _ {ℓ} {S : Type ℓ} (end : ℕ) (step : S → Reader S) (fuel : ℕ) (s : S) (c : Cursor) where
  pub while_before_stop : end ≤ c.position → while_before (suc fuel) end step s c ≡ ok (s, c)
  unfolding while_before ◌>>=◌
  while_before_stop h = rw (le→ltb c.position end h, while_before, if◌then◌else◌)

  pub while_before_next :
      {s' : S} {c' : Cursor}
      → c.position < end
      → step s c ≡ ok (s', c')
      → while_before (suc fuel) end step s c ≡ while_before fuel end step s' c'
  unfolding while_before ◌>>=◌
  while_before_next h e = rw (lt→ltb c.position end h, e, while_before)

module _ {ℓ κ} {S : Type ℓ} {Q : Type κ} (end : ℕ) (step : S → Reader S) (encode : Q → List ℕ)
    (push : S → Q → S) where
  -- In front of the record `q`, which ends in the section, the step pushes it.
  abbrev pub Steps : Q → Type ℓ
  Steps q =
      (s : S) (p : ℕ) (r : List ℕ)
      → p + length (encode q) ≤ end
      → step s (record { position = p; rest = encode q ++ r })
        ≡ ok (push s q, record { position = p + length (encode q); rest = r })

  -- The loop pushes all records of the section and stops at its end.
  pub while_before_reads :
      (qs : List Q) (fuel : ℕ) (s : S) (p : ℕ) (r : List ℕ)
      → All Steps qs
      → All (λ q. 0 < length (encode q)) qs
      → length qs < fuel
      → p + length (flat_map encode qs) ≡ end
      → while_before fuel end step s (record { position = p; rest = flat_map encode qs ++ r })
        ≡ ok (foldl push s qs, record { position = end; rest = r })
  while_before_reads qs zero s p r hs hp hf e = elim hf [ ]
  while_before_reads [] (suc fuel) s p r hs hp hf e =
      while_before_stop end step fuel s (record { position = p; rest = r }) (omega (arith, e))
      ∙ ap (λ n. ok (s, record { position = n; rest = r })) (omega (arith, e))
  while_before_reads (q ∷ qs) (suc fuel) s p r (hq, hs) (hl, hp) hf e = rw append_assoc (
      while_before_next end step fuel s _ (omega (arith, split))
        (hq s p (flat_map encode qs ++ r) (omega (arith, split)))
      ∙ while_before_reads qs fuel (push s q) (p + length (encode q)) r hs hp (omega arith) split)
    where
      split : p + length (encode q) + length (flat_map encode qs) ≡ end
      split = omega (arith, e, length-append (encode q) (flat_map encode qs))
