-- ===== src/HashMap.antt =====
-- `HashMap<MerkleHash, V>` of the standard library, as the list of its entries.
use xet_server.Prelude.{
  true, false, Bool-cases, inl, inr, Option, none, some, List, [], ◌∷◌, ◌≡◌, ◌≢◌, refl, sym, ◌∙◌,
  if◌then◌else◌,
}
use xet_server.Hash.{MerkleHash, eq_hash}
use xet_server.Hash.Laws.{eq_hash_iff}

abbrev pub HashMap {ℓ} : Type ℓ → Type ℓ
HashMap A = List (MerkleHash × A)

pub eq_hash-true : (a b : MerkleHash) → a ≡ b → eq_hash a b ≡ true
eq_hash-true a b e = (eq_hash_iff a b).1 e

pub eq_hash-false : (a b : MerkleHash) → a ≢ b → eq_hash a b ≡ false
eq_hash-false a b n = elim (Bool-cases (eq_hash a b)) [
  | inl t ↦ absurd (n ((eq_hash_iff a b).0 t))
  | inr f ↦ f
]

module _ {ℓ} {A : Type ℓ} where
  -- `get(key).cloned()`
  unfoldable pub get : MerkleHash → HashMap A → Option A
  get key [] = none
  get key ((k, v) ∷ m) = let rest = get key m in if eq_hash k key then some v else rest

  -- `insert(key, value)`
  unfoldable pub insert : MerkleHash → A → HashMap A → HashMap A
  insert key value [] = (key, value) ∷ []
  insert key value ((k, v) ∷ m) =
      let rest = insert key value m in if eq_hash k key then (k, value) ∷ m else (k, v) ∷ rest

  pub get-insert_same :
      (key : MerkleHash) (v : A) (m : HashMap A) → get key (insert key v m) ≡ some v
  unfolding get insert
  get-insert_same key v [] = rw (eq_hash-true key key refl)
  get-insert_same key v ((k, w) ∷ m) = elim (Bool-cases (eq_hash k key)) [
    | inl t ↦ rw (t, get, t)
    | inr f ↦ rw (f, get, f) (get-insert_same key v m)
  ]

  pub get-insert_other :
      (key key' : MerkleHash) (v : A) (m : HashMap A)
      → key ≢ key'
      → get key' (insert key v m) ≡ get key' m
  unfolding get insert
  get-insert_other key key' v [] n = rw (eq_hash-false key key' n)
  get-insert_other key key' v ((k, w) ∷ m) n = elim (Bool-cases (eq_hash k key)) [
    | inl t ↦
        let differs : eq_hash k key' ≡ false =
          eq_hash-false k key' (λ e. n (sym ((eq_hash_iff k key).0 t) ∙ e)) in
        rw (t, get, differs)
    | inr f ↦ elim (Bool-cases (eq_hash k key')) [
      | inl t' ↦ rw (f, get, t')
      | inr f' ↦ rw (f, get, f') (get-insert_other key key' v m n)
    ]
  ]
