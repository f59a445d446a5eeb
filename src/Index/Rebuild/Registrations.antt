-- ===== src/Index/Rebuild/Registrations.antt =====
-- What the shards of the listed keys of src/index.rs give, registered one after the other, and what
-- the rebuild does for one key.
use xet_server.Prelude.{
  ℕ, ◌+◌, ◌≡◌, refl, sym, ap, String, ◌∙◌, Option, none, some, ◌⊎◌, inl, inr, List, [], ◌∷◌,
}
use xet_server.Shard.Parse.{MdbShardFile}
use xet_server.Reply.{Reply, reply, failed, aborted}
use xet_server.ShardValidation.{Services, VerifiedShardRegistration}
use xet_server.ShardValidation.Files.{validate_shard_for_index}
use xet_server.Index.{MetadataIndex, IndexRegistrationError, register_verified_shard}
use xet_server.Index.Rebuild.{Listing, Progress, shard_id_of, run_task, register_result}

-- A key of the listing whose shard is parsed and validated, as `registration`.
pub record IsValidated (s : Services) (parse : List ℕ → Reply MdbShardFile) (key : List ℕ)
    (registration : VerifiedShardRegistration) : Type 0 where
  pub shard : MdbShardFile
  pub parsed : parse key ≡ reply shard
  pub validated : validate_shard_for_index s (shard_id_of key) shard ≡ reply registration

-- The index that the shards of all listed keys give when they are registered one after the other,
-- with no error of the listing.
pub data Registrations (s : Services) (parse : List ℕ → Reply MdbShardFile)
    : MetadataIndex → Listing → MetadataIndex → Type 0 where
  no_key : {index : MetadataIndex} → Registrations s parse index [] index
  a_key :
      {index index' end : MetadataIndex} {key : List ℕ} {stream : Listing}
      (registration : VerifiedShardRegistration)
      → IsValidated s parse key registration
      → register_verified_shard index registration ≡ inr index'
      → Registrations s parse index' stream end
      → Registrations s parse index (some key ∷ stream) end

Reply-cases {ℓ} :
    {A : Type ℓ} (r : Reply A)
    → ((a : A) × (r ≡ reply a)) ⊎ (((e : String) × (r ≡ failed e)) ⊎ (r ≡ aborted))
Reply-cases (reply a) = inl (a, refl)
Reply-cases (failed e) = inr (inl (e, refl))
Reply-cases aborted = inr (inr refl)

module _ (s : Services) (parse : List ℕ → Reply MdbShardFile) where
  pub run_task-validated :
      (key : List ℕ) (g : VerifiedShardRegistration)
      → IsValidated s parse key g
      → run_task s parse key ≡ reply (some g)
  unfolding run_task
  run_task-validated key g v = rw (v.parsed, v.validated, run_task)

  pub run_task-IsValidated :
      (key : List ℕ) (g : VerifiedShardRegistration)
      → run_task s parse key ≡ reply (some g)
      → IsValidated s parse key g
  unfolding run_task
  run_task-IsValidated key g e = elim (Reply-cases (parse key)) [
    | inl (shard, p) ↦ elim (Reply-cases (validate_shard_for_index s (shard_id_of key) shard)) [
      | inl (h, q) ↦
          let w : reply (some h) ≡ reply (some g) = rw (p, q, run_task) at e in
          let same : h ≡ g = cc in
          record { shard = shard; parsed = p; validated = q ∙ ap reply same }
      | inr (inl (x, q)) ↦ let w : reply none ≡ reply (some g) = rw (p, q, run_task) at e in cc
      | inr (inr q) ↦ let w : aborted ≡ reply (some g) = rw (p, q, run_task) at e in cc
    ]
    | inr (inl (x, p)) ↦ let w : reply none ≡ reply (some g) = rw (p, run_task) at e in cc
    | inr (inr p) ↦ let w : aborted ≡ reply (some g) = rw (p, run_task) at e in cc
  ]

  registration-cases :
      (index : MetadataIndex) (g : VerifiedShardRegistration)
      → ((e : IndexRegistrationError) × (register_verified_shard index g ≡ inl e))
        ⊎ ((i : MetadataIndex) × (register_verified_shard index g ≡ inr i))
  registration-cases index g =
      elim (register_verified_shard index g)
        as (λ o.
          ((e : IndexRegistrationError) × (o ≡ inl e)) ⊎ ((i : MetadataIndex) × (o ≡ inr i))) [
            | inl e ↦ inl (e, refl)
            | inr i ↦ inr (i, refl)
          ]

  -- A shard that is registered.
  pub record Accepts (p p' : Progress) (r : Reply (Option VerifiedShardRegistration)) : Type 0 where
    pub registration : VerifiedShardRegistration
    pub result_is : r ≡ reply (some registration)
    pub registered : register_verified_shard p.index registration ≡ inr p'.index
    pub one_more : p'.total_count ≡ p.total_count + 1
    pub no_failure : p'.failure_count ≡ p.failure_count

  pub record Fails (p p' : Progress) : Type 0 where
    pub index_stays : p'.index ≡ p.index
    pub one_failure : p'.failure_count ≡ p.failure_count + 1

  pub registers :
      (p : Progress) (g : VerifiedShardRegistration) (i : MetadataIndex)
      → register_verified_shard p.index g ≡ inr i
      → register_result s parse p (reply (some g))
        ≡ record { index = i; total_count = p.total_count + 1; failure_count = p.failure_count }
  unfolding register_result
  registers p g i q = rw (q, register_result)

  pub register_result-cases :
      (p : Progress) (r : Reply (Option VerifiedShardRegistration))
      → Accepts p (register_result s parse p r) r ⊎ Fails p (register_result s parse p r)
  unfolding register_result
  register_result-cases p (reply (some g)) = elim (registration-cases p.index g) [
    | inl (e, q) ↦
        let r : register_result s parse p (reply (some g)) ≡ record {
          index = p.index;
          total_count = p.total_count;
          failure_count = p.failure_count + 1;
        } =
          rw (q, register_result) in
        inr (record {
          index_stays = ap (λ (x : Progress). x.index) r;
          one_failure = ap (λ (x : Progress). x.failure_count) r;
        })
    | inr (i, q) ↦
        let r = registers p g i q in
        inl (record {
          registration = g;
          result_is = refl;
          registered = q ∙ ap (λ (x : Progress). inr x.index) (sym r);
          one_more = ap (λ (x : Progress). x.total_count) r;
          no_failure = ap (λ (x : Progress). x.failure_count) r;
        })
  ]
  register_result-cases p (reply none) = inr (record { index_stays = refl; one_failure = refl })
  register_result-cases p (failed e) = inr (record { index_stays = refl; one_failure = refl })
  register_result-cases p aborted = inr (record { index_stays = refl; one_failure = refl })
