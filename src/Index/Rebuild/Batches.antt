-- ===== src/Index/Rebuild/Batches.antt =====
-- The rebuilt index of src/index.rs: the batches make no difference, and what success means.
use xet_server.Prelude.{
  ℕ, zero, suc, ◌+◌, ◌≤◌, ◌<◌, ◌≡◌, refl, sym, ap, ◌∙◌, arith, Bool, true, false, none, some, ◌⊎◌,
  inl, inr, List, [], ◌∷◌, length, is_empty, if◌then◌else◌,
}
use xet_server.Shard.Parse.{MdbShardFile}
use xet_server.Reply.{Reply}
use xet_server.ShardValidation.{Services}
use xet_server.Index.Rebuild.{
  Listing, batch_size, fill_batch, Progress, run_task, register_result, register_batch,
  rebuild_loop,
}

module _ (s : Services) (parse : List ℕ → Reply MdbShardFile) where
  -- One key after the other, up to the first error of the listing.
  unfoldable pub one_by_one : Progress → Listing → Progress × Bool
  one_by_one p [] = (p, false)
  one_by_one p (none ∷ stream) = (p, true)
  one_by_one p (some key ∷ stream) =
      one_by_one (register_result s parse p (run_task s parse key)) stream

  -- What a batch leaves to do.
  after_batch : Bool → Progress → Listing → Progress × Bool
  after_batch true p rest = (p, true)
  after_batch false p rest = one_by_one p rest

  fill_batch-one_by_one :
      (n : ℕ) (p : Progress) (stream : Listing)
      → one_by_one p stream
        ≡ after_batch
            (fill_batch n stream).2
            (register_batch s parse p (fill_batch n stream).0)
            (fill_batch n stream).1
  unfolding fill_batch one_by_one after_batch register_batch
  fill_batch-one_by_one zero p stream = refl
  fill_batch-one_by_one (suc n) p [] = refl
  fill_batch-one_by_one (suc n) p (none ∷ stream) = refl
  fill_batch-one_by_one (suc n) p (some key ∷ stream) =
      fill_batch-one_by_one n (register_result s parse p (run_task s parse key)) stream

  fill_batch-fewer :
      (n : ℕ) (stream : Listing)
      → length (fill_batch n stream).0 + length (fill_batch n stream).1 ≤ length stream
  unfolding fill_batch
  fill_batch-fewer zero stream = omega arith
  fill_batch-fewer (suc n) [] = omega arith
  fill_batch-fewer (suc n) (none ∷ stream) = omega arith
  fill_batch-fewer (suc n) (some key ∷ stream) = omega (arith, fill_batch-fewer n stream)

  -- An empty batch is the end of the listing, or an error.
  fill_batch-empty :
      (n : ℕ) (stream : Listing)
      → (fill_batch (suc n) stream).0 ≡ []
      → ((fill_batch (suc n) stream).2 ≡ true)
        ⊎ (((fill_batch (suc n) stream).2 ≡ false) × ((fill_batch (suc n) stream).1 ≡ []))
  unfolding fill_batch
  fill_batch-empty n [] e = inr (refl, refl)
  fill_batch-empty n (none ∷ stream) e = inl refl
  fill_batch-empty n (some key ∷ stream) e = cc

  rounds :
      (fuel : ℕ) (p : Progress) (batch : List (List ℕ)) (rest : Listing) (listing_failed : Bool)
      → ((p' : Progress)
          → 0 < length batch
          → rebuild_loop s parse fuel p' rest ≡ some (one_by_one p' rest))
      → (batch ≡ [] → (listing_failed ≡ true) ⊎ ((listing_failed ≡ false) × (rest ≡ [])))
      → (if is_empty batch
          then some (p, listing_failed)
          else if listing_failed
          then some (register_batch s parse p batch, true)
          else rebuild_loop s parse fuel (register_batch s parse p batch) rest)
        ≡ some (after_batch listing_failed (register_batch s parse p batch) rest)
  unfolding after_batch register_batch one_by_one
  rounds fuel p [] rest true ih empty = refl
  rounds fuel p [] rest false ih empty = elim (empty refl) [
    | inl t ↦ cc
    | inr (f, none_left) ↦ rw none_left
  ]
  rounds fuel p (key ∷ keys) rest true ih empty = refl
  rounds fuel p (key ∷ keys) rest false ih empty =
      ih (register_batch s parse p (key ∷ keys)) (omega arith)

  -- With fuel for the listing, the loop over the batches is the loop over the keys.
  pub rebuild_loop-one_by_one :
      (fuel : ℕ) (p : Progress) (stream : Listing)
      → length stream < fuel
      → rebuild_loop s parse fuel p stream ≡ some (one_by_one p stream)
  unfolding rebuild_loop
  rebuild_loop-one_by_one zero p stream h = absurd (omega (arith, h))
  rebuild_loop-one_by_one (suc fuel) p stream h =
      let fewer = fill_batch-fewer batch_size stream in
      rounds fuel p (fill_batch batch_size stream).0 (fill_batch batch_size stream).1
        (fill_batch batch_size stream).2
        (λ p' some_key.
          rebuild_loop-one_by_one fuel p' (fill_batch batch_size stream).1
            (omega (arith, h, fewer, some_key)))
        (fill_batch-empty 9 stream)
      ∙ ap some (sym (fill_batch-one_by_one batch_size p stream))
