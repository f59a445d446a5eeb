-- ===== src/Index/Rebuild/Complete.antt =====
-- What a rebuild of the index of src/index.rs comes to, by the shards that are listed.
use xet_server.Prelude.{
  ℕ, ◌+◌, ◌≤◌, ◌≡◌, refl, sym, ap, subst, ◌∙◌, arith, ◌||◌, ltb, Bool, true, false, Bool-cases,
  none, some, ◌⊎◌, inl, inr, List, [], ◌∷◌, length, if◌then◌else◌,
}
use xet_server.Shard.Parse.{MdbShardFile}
use xet_server.Reply.{Reply, reply, failed}
use xet_server.ShardValidation.{Services}
use xet_server.Index.{MetadataIndex, register_verified_shard}
use xet_server.Index.Sizes.{IsIndex}
use xet_server.Index.Register.{register_verified_shard-IsIndex}
use xet_server.Index.Rebuild.{
  Listing, Progress, run_task, register_result, rebuild_result, rebuild_from_storage,
}
use xet_server.Index.Rebuild.Batches.{one_by_one, rebuild_loop-one_by_one}
use xet_server.Index.Rebuild.Registrations.{
  Registrations, no_key, a_key, run_task-validated, run_task-IsValidated, registers,
  register_result-cases,
}

module _ (s : Services) (parse : List ℕ → Reply MdbShardFile) where
  record Listed (p : Progress) (stream : Listing) : Type 0 where
    good : IsIndex (one_by_one s parse p stream).0.index.file_to_shards
    no_fewer : p.failure_count ≤ (one_by_one s parse p stream).0.failure_count
    sound :
        (one_by_one s parse p stream).0.failure_count ≡ 0
        → (one_by_one s parse p stream).1 ≡ false
        → Registrations s parse p.index stream (one_by_one s parse p stream).0.index
          × ((one_by_one s parse p stream).0.total_count ≡ p.total_count + length stream)

  one_by_one-Listed :
      (p : Progress) (stream : Listing) → IsIndex p.index.file_to_shards → Listed p stream
  unfolding one_by_one
  one_by_one-Listed p [] v = record {
    good = v;
    no_fewer = omega arith;
    sound = λ z f. (no_key, omega arith);
  }
  one_by_one-Listed p (none ∷ stream) v = record {
    good = v;
    no_fewer = omega arith;
    sound = λ z f. cc;
  }
  one_by_one-Listed p (some key ∷ stream) v =
      let q : Progress = register_result s parse p (run_task s parse key) in
      elim (register_result-cases s parse p (run_task s parse key)) [
        | inl a ↦
            let rest =
              one_by_one-Listed q stream
                (register_verified_shard-IsIndex p.index q.index a.registration v a.registered).0 in
            record {
              good = rest.good;
              no_fewer = omega (arith, rest.no_fewer, a.no_failure);
              sound = λ z l.
                  let (chain, n) = rest.sound z l in
                  (
                    a_key a.registration
                        (run_task-IsValidated s parse key a.registration a.result_is) a.registered
                        chain,
                    omega (arith, n, a.one_more),
                  );
            }
        | inr f ↦
            let rest =
              one_by_one-Listed q stream
                (subst (λ i. IsIndex i.file_to_shards) (sym f.index_stays) v) in
            record {
              good = rest.good;
              no_fewer = omega (arith, rest.no_fewer, f.one_failure);
              sound = λ z l. absurd (omega (arith, rest.no_fewer, f.one_failure, z));
            }
      ]

  -- A listing whose shards can all be registered makes no failure.
  Registrations-one_by_one :
      {index end : MetadataIndex} {stream : Listing} (p : Progress)
      → p.index ≡ index
      → Registrations s parse index stream end
      → ((one_by_one s parse p stream).1 ≡ false)
        × ((one_by_one s parse p stream).0.failure_count ≡ p.failure_count)
  unfolding one_by_one
  Registrations-one_by_one p q no_key = (refl, refl)
  Registrations-one_by_one p q (a_key {index' = j} {key = key} g v r rest) =
      let step =
        ap (register_result s parse p) (run_task-validated s parse key g v)
        ∙ registers s parse p g j (ap (λ i. register_verified_shard i g) q ∙ r) in
      let (whole, none_more) =
        Registrations-one_by_one (register_result s parse p (run_task s parse key))
          (ap (λ (x : Progress). x.index) step) rest in
      (whole, none_more ∙ ap (λ (x : Progress). x.failure_count) step)

  -- On an index whose files have one size each, a rebuild ends, and keeps that. It succeeds when no
  -- error is listed and the shard of every key is parsed, validated and then registered on the index
  -- that those of the keys before have given, and only then; what it leaves is the index behind the
  -- last, and it returns the number of the keys. Otherwise it reports that it is incomplete.
  pub rebuild_from_storage_complete :
      (index : MetadataIndex) (stream : Listing)
      → IsIndex index.file_to_shards
      → (r : Reply ℕ) × (index' : MetadataIndex) × (rebuild_from_storage s parse index stream
          ≡ some (r, index'))
        × IsIndex index'.file_to_shards
        × (((r ≡ reply (length stream)) × Registrations s parse index stream index')
            ⊎ ((r ≡ failed "Index rebuild incomplete")
                × ((end : MetadataIndex) → ¬ Registrations s parse index stream end)))
  unfolding rebuild_from_storage
  rebuild_from_storage_complete index stream v =
      let p : Progress = record { index = index; total_count = 0; failure_count = 0 } in
      let done = one_by_one-Listed p stream v in
      let out : Progress × Bool = one_by_one s parse p stream in
      let e = rebuild_loop-one_by_one s parse (length stream + 1) p stream (omega arith) in
      (
        if ltb 0 out.0.failure_count || out.1
            then failed "Index rebuild incomplete"
            else reply out.0.total_count,
        out.0.index,
        ap (rebuild_result s parse) e,
        done.good,
        elim (Bool-cases (ltb 0 out.0.failure_count || out.1)) [
          | inl t ↦ inr (
            rw t,
            λ end chain.
                let (whole, no_failure) = Registrations-one_by_one p refl chain in
                let w : true ≡ false =
                  sym t ∙ succeeds out.0.failure_count out.1 no_failure whole in
                cc,
          )
          | inr f ↦
              let (none_failed, listed) = succeeded out.0.failure_count out.1 f in
              let (chain, m) = done.sound none_failed listed in
              inl (rw f (ap reply (m ∙ omega arith)), chain)
        ],
      )
    where
      succeeded : (a : ℕ) (b : Bool) → (ltb 0 a || b) ≡ false → (a ≡ 0) × (b ≡ false)
      succeeded a b e = (ground (arith, e), ground (arith, e))

      succeeds : (a : ℕ) (b : Bool) → a ≡ 0 → b ≡ false → (ltb 0 a || b) ≡ false
      succeeds a b e f = ground (arith, e, f)
