-- ===== src/Index/Sizes.antt =====
-- Registration in src/index.rs: a file has one size, which stays.
use xet_server.Prelude.{
  ℕ, ◌≡◌, ◌≢◌, refl, sym, ap, ◌∙◌, subst, arith, Bool-cases, Option, none, some, ◌⊎◌, inl, inr,
  List, [], ◌∷◌, All, All-append,
}
use mathlib.Core.Option.{some-injective}
use xet_server.Hash.{MerkleHash, eq_hash}
use xet_server.Hash.Laws.{eq_hash_iff}
use xet_server.HashMap.{HashMap, get, insert, get-insert_same, get-insert_other}
use xet_server.ShardValidation.{VerifiedFileMapping}
use xet_server.Index.{
  FileShardRef, first_size, conflict, contains_ref, or_default, file_ref, with_ref,
}

-- References of one size, and one at least.
abbrev pub HaveOneSize : List FileShardRef → Type 0
HaveOneSize [] = ⊥
HaveOneSize (r ∷ rs) = All (λ (x : FileShardRef). x.file_size ≡ r.file_size) rs

-- Every file of the index has a reference, and all its references have one size.
pub record IsIndex (m : HashMap (List FileShardRef)) : Type 0 where
  pub one_size : (h : MerkleHash) (rs : List FileShardRef) → get h m ≡ some rs → HaveOneSize rs

-- A file that is not in the map or has its size there.
abbrev pub Fits : HashMap (List FileShardRef) → VerifiedFileMapping → Type 0
Fits m f = (n : ℕ) → first_size (get f.file_hash m) ≡ some n → n ≡ f.file_size

-- A round of the loop over the files.
abbrev pub added :
    List ℕ → HashMap (List FileShardRef) → VerifiedFileMapping → HashMap (List FileShardRef)
added id m f = insert f.file_hash (with_ref (or_default (get f.file_hash m)) (file_ref id f)) m

pub hash_cases : (a b : MerkleHash) → (a ≡ b) ⊎ (a ≢ b)
hash_cases a b = elim (Bool-cases (eq_hash a b)) [
  | inl t ↦ inl ((eq_hash_iff a b).0 t)
  | inr f ↦ inr (λ e. let t = (eq_hash_iff a b).1 e in cc)
]

with_ref-first :
    (x : FileShardRef) (xs : List FileShardRef) (r : FileShardRef)
    → first_size (some (with_ref (x ∷ xs) r)) ≡ some x.file_size
with_ref-first x xs r = elim (Bool-cases (contains_ref (x ∷ xs) r)) [ inl t ↦ rw t | inr f ↦ rw f ]

with_ref-HaveOneSize :
    (x : FileShardRef) (xs : List FileShardRef) (r : FileShardRef)
    → HaveOneSize (x ∷ xs)
    → r.file_size ≡ x.file_size
    → HaveOneSize (with_ref (x ∷ xs) r)
with_ref-HaveOneSize x xs r h e = elim (Bool-cases (contains_ref (x ∷ xs) r)) [
  | inl t ↦ rw t h
  | inr f ↦
      rw f (All-append (λ (y : FileShardRef). y.file_size ≡ x.file_size) xs (r ∷ []) h (e, tt))
]

-- The references of the file behind a round.
added-refs :
    (o : Option (List FileShardRef)) (r : FileShardRef)
    → ((rs : List FileShardRef) → o ≡ some rs → HaveOneSize rs)
    → ((n : ℕ) → first_size o ≡ some n → n ≡ r.file_size)
    → (first_size (some (with_ref (or_default o) r)) ≡ some r.file_size)
      × HaveOneSize (with_ref (or_default o) r)
added-refs none r one fits = (refl, tt)
added-refs (some []) r one fits = absurd (one [] refl)
added-refs (some (x ∷ xs)) r one fits =
    let e : x.file_size ≡ r.file_size = fits x.file_size refl in
    (with_ref-first x xs r ∙ ap some e, with_ref-HaveOneSize x xs r (one (x ∷ xs) refl) (sym e))

module _ (id : List ℕ) (m : HashMap (List FileShardRef)) (f : VerifiedFileMapping) (v : IsIndex m)
    (fits : Fits m f) where
  pub added-size : first_size (get f.file_hash (added id m f)) ≡ some f.file_size
  added-size =
      ap first_size (get-insert_same f.file_hash _ m)
      ∙ (added-refs (get f.file_hash m) (file_ref id f) (λ rs e. v.one_size f.file_hash rs e)
          fits).0

  pub added-IsIndex : IsIndex (added id m f)
  added-IsIndex = record {
    one_size = λ h rs e. elim (hash_cases f.file_hash h) [
      | inl same ↦
          let one =
            (added-refs (get f.file_hash m) (file_ref id f) (λ rs e. v.one_size f.file_hash rs e)
              fits).1 in
          subst HaveOneSize
            (some-injective _ _
              (sym (get-insert_same f.file_hash _ m) ∙ (ap (λ k. get k (added id m f)) same ∙ e)))
            one
      | inr other ↦ v.one_size h rs (sym (get-insert_other f.file_hash h _ m other) ∙ e)
    ];
  }

  -- The sizes that were there stay.
  pub added-stable :
      (h : MerkleHash) (n : ℕ)
      → first_size (get h m) ≡ some n
      → first_size (get h (added id m f)) ≡ some n
  added-stable h n e = elim (hash_cases f.file_hash h) [
    | inl same ↦
        let q : n ≡ f.file_size = fits n (ap (λ k. first_size (get k m)) same ∙ e) in
        ap (λ k. first_size (get k (added id m f))) (sym same) ∙ (added-size ∙ ap some (sym q))
    | inr other ↦ ap first_size (get-insert_other f.file_hash h _ m other) ∙ e
  ]

  -- What stands there is of the file, or was there.
  pub added-known :
      (h : MerkleHash) (n : ℕ)
      → first_size (get h (added id m f)) ≡ some n
      → ((f.file_hash ≡ h) × (n ≡ f.file_size))
        ⊎ ((f.file_hash ≢ h) × (first_size (get h m) ≡ some n))
  added-known h n e = elim (hash_cases f.file_hash h) [
    | inl same ↦ inl (
      same,
      some-injective _ _
          (sym e ∙ (ap (λ k. first_size (get k (added id m f))) (sym same) ∙ added-size)),
    )
    | inr other ↦ inr (other, ap first_size (sym (get-insert_other f.file_hash h _ m other)) ∙ e)
  ]

pub no_conflict :
    (h : MerkleHash) (o : Option ℕ) (size n : ℕ) → conflict h o size ≡ none → o ≡ some n → n ≡ size
no_conflict h none size n e q = cc
no_conflict h (some k) size n e q = let w : k ≡ n = some-injective _ _ q in ground (arith, e)
