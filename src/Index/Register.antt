-- ===== src/Index/Register.antt =====
-- `register_verified_shard` of src/index.rs: when it succeeds, and what it leaves.
use xet_server.Prelude.{
  ℕ, ◌≡◌, refl, sym, ap, ◌∙◌, subst, Option, none, some, Option-cases, ◌⊎◌, inl, inr, List, [], ◌∷◌,
  All,
}
use xet_server.Hash.{MerkleHash}
use xet_server.HashMap.{HashMap, get, insert, get-insert_same, get-insert_other}
use xet_server.ShardValidation.{VerifiedFileMapping, VerifiedShardRegistration}
use xet_server.Index.{
  FileShardRef, IndexRegistrationError, MetadataIndex, first_size, conflict, check_sizes, add_files,
  add_chunks, register_verified_shard, get_file_size,
}
use xet_server.Index.Sizes.{
  IsIndex, Fits, added, added-size, added-IsIndex, added-stable, added-known, no_conflict,
}

-- The files fit one after the other.
abbrev FitInTurn : List ℕ → HashMap (List FileShardRef) → List VerifiedFileMapping → Type 0
FitInTurn id m [] = Unit
FitInTurn id m (f ∷ fs) = Fits m f × FitInTurn id (added id m f) fs

-- The check of the sizes looks at the map before the loop and at the sizes of the files before.
Known : HashMap (List FileShardRef) → HashMap ℕ → HashMap (List FileShardRef) → Type 0
Known old sizes m =
    (h : MerkleHash) (n : ℕ)
    → first_size (get h m) ≡ some n
    → (get h sizes ≡ some n) ⊎ (first_size (get h old) ≡ some n)

passed :
    (a b : Option IndexRegistrationError) {c : Option IndexRegistrationError}
    → elim a [ some e ↦ some e | none ↦ elim b [ some e ↦ some e | none ↦ c ] ] ≡ none
    → (a ≡ none) × (b ≡ none) × (c ≡ none)
passed none none e = (refl, refl, e)
passed none (some x) e = cc
passed (some x) b e = cc

Known-added :
    (id : List ℕ) (old : HashMap (List FileShardRef)) (sizes : HashMap ℕ)
    (m : HashMap (List FileShardRef)) (f : VerifiedFileMapping)
    → IsIndex m
    → Fits m f
    → Known old sizes m
    → Known old (insert f.file_hash f.file_size sizes) (added id m f)
unfolding Known
Known-added id old sizes m f v fits k = λ h n e. elim (added-known id m f v fits h n e) [
  | inl (same, size) ↦ inl (
      ap (λ x. get x (insert f.file_hash f.file_size sizes)) (sym same)
      ∙ (get-insert_same f.file_hash f.file_size sizes ∙ ap some (sym size)))
  | inr (other, before) ↦ elim (k h n before) [
    | inl q ↦ inl (get-insert_other f.file_hash h f.file_size sizes other ∙ q)
    | inr q ↦ inr q
  ]
]

check_sizes-FitInTurn :
    (id : List ℕ) (old : HashMap (List FileShardRef)) (sizes : HashMap ℕ)
    (m : HashMap (List FileShardRef)) (fs : List VerifiedFileMapping)
    → IsIndex m
    → Known old sizes m
    → check_sizes old sizes fs ≡ none
    → FitInTurn id m fs
unfolding check_sizes Known
check_sizes-FitInTurn id old sizes m [] v k e = tt
check_sizes-FitInTurn id old sizes m (f ∷ fs) v k e =
    let (c₁, c₂, c₃) =
      passed (conflict f.file_hash (get f.file_hash sizes) f.file_size)
        (conflict f.file_hash (first_size (get f.file_hash old)) f.file_size) e in
    let fits : Fits m f = λ n q. elim (k f.file_hash n q) [
      | inl w ↦ no_conflict f.file_hash _ f.file_size n c₁ w
      | inr w ↦ no_conflict f.file_hash _ f.file_size n c₂ w
    ] in
    (
      fits,
      check_sizes-FitInTurn id old (insert f.file_hash f.file_size sizes) (added id m f) fs
          (added-IsIndex id m f v fits) (Known-added id old sizes m f v fits k) c₃,
    )

-- What the loop over the files leaves: the invariant, the sizes that were there, and the files'.
record Added (m : HashMap (List FileShardRef)) (fs : List VerifiedFileMapping)
    (m' : HashMap (List FileShardRef)) : Type 0 where
  good : IsIndex m'
  stable : (h : MerkleHash) (n : ℕ) → first_size (get h m) ≡ some n → first_size (get h m') ≡ some n
  sizes : All (λ (f : VerifiedFileMapping). first_size (get f.file_hash m') ≡ some f.file_size) fs

add_files-Added :
    (id : List ℕ) (m : HashMap (List FileShardRef)) (fs : List VerifiedFileMapping)
    → IsIndex m
    → FitInTurn id m fs
    → Added m fs (add_files id m fs)
unfolding add_files
add_files-Added id m [] v w = record { good = v; stable = λ h n e. e; sizes = tt }
add_files-Added id m (f ∷ fs) v (fits, w) =
    let a = add_files-Added id (added id m f) fs (added-IsIndex id m f v fits) w in
    record {
      good = a.good;
      stable = λ h n e. a.stable h n (added-stable id m f v fits h n e);
      sizes = (a.stable f.file_hash f.file_size (added-size id m f v fits), a.sizes);
    }

-- On an index whose files have one size each, a registration that succeeds keeps that, registers each
-- of its files with its size, and changes the size of no file that was there.
pub register_verified_shard-IsIndex :
    (index index' : MetadataIndex) (registration : VerifiedShardRegistration)
    → IsIndex index.file_to_shards
    → register_verified_shard index registration ≡ inr index'
    → IsIndex index'.file_to_shards
      × All
          (λ (f : VerifiedFileMapping). get_file_size index' f.file_hash ≡ some f.file_size)
          registration.files
      × ((h : MerkleHash) (n : ℕ)
          → get_file_size index h ≡ some n
          → get_file_size index' h ≡ some n)
unfolding register_verified_shard get_file_size Known
register_verified_shard-IsIndex index index' registration v e =
    elim (Option-cases (check_sizes index.file_to_shards [] registration.files)) [
      | inl c ↦
          let w =
            check_sizes-FitInTurn registration.shard_id index.file_to_shards [] index.file_to_shards
              registration.files v (λ h n q. inr q) c in
          let a =
            add_files-Added registration.shard_id index.file_to_shards registration.files v w in
          let after : MetadataIndex = record {
            file_to_shards =
                add_files registration.shard_id index.file_to_shards registration.files;
            chunk_to_xorb = add_chunks index.chunk_to_xorb registration.chunks;
          } in
          let q : inr after ≡ inr index' = rw (c, register_verified_shard) at e in
          let index_is : after ≡ index' = cc in
          subst
            (λ (i : MetadataIndex).
              IsIndex i.file_to_shards
              × All
                  (λ (f : VerifiedFileMapping).
                    first_size (get f.file_hash i.file_to_shards) ≡ some f.file_size)
                  registration.files
              × ((h : MerkleHash) (n : ℕ)
                  → first_size (get h index.file_to_shards) ≡ some n
                  → first_size (get h i.file_to_shards) ≡ some n))
            index_is (a.good, a.sizes, a.stable)
      | inr (x, c) ↦ let q : inl x ≡ inr index' = rw (c, register_verified_shard) at e in cc
    ]
