-- ===== src/ReconstructionIo/Verified.antt =====
-- The files that src/reconstruction_io.rs reconstructs come from the stored shards and xorbs.
use xet_server.Prelude.{
  ℕ, ◌≡◌, refl, sym, ap, ◌∙◌, subst, arith, Bool, true, false, Bool-cases, not, ◌&&◌, Option, none,
  some, Option-cases, ◌⊎◌, inl, inr, List, [], ◌∷◌,
}
use mathlib.Core.Option.{some-injective}
use xet_server.Outcome.{ok}
use xet_server.Bytes.{eq_bytes}
use xet_server.Hash.{MerkleHash, eq_hash}
use xet_server.Hash.Laws.{eq_hash_iff}
use xet_server.Hash.Keyed.{compute_data_hash}
use xet_server.Hash.Hex.{to_hex, from_hex}
use xet_server.HashMap.{HashMap, get, insert, get-insert_same, get-insert_other}
use xet_server.MerkleTree.{file_hash}
use xet_server.Shard.Parse.{MdbShardFile}
use xet_server.ReconstructionPlan.{PlannedChunk, build_file_chunk_plan}
use xet_server.XorbReader.{extract_chunk_verified_from_file}
use xet_server.ShardValidation.{Services, xorb_key}
use xet_server.ShardValidation.Files.{contents, raw_nodes}
use xet_server.Index.{FileShardRef}
use xet_server.Index.Sizes.{hash_cases}
use xet_server.ReconstructionIo.{
  ReconstructionError, is_stale, StorageError, ShardIoError, Attempt, done, rejected, crashed,
  or_integrity, outcome_or, some_or, reject_if, map_shard_error, map_storage_error, Sources,
  fetch_shard, fill_cache, reconstruct_chunk, reconstruct_chunks, is_other, VerifiedReconstruction,
  reconstruct_single_file_ref_to_temp, first_error, try_refs, reconstruct_verified_file_to_temp,
}
use xet_server.ReconstructionIo.Laws.{
  bind-eq-done, done-injective, outcome_or-done, or_integrity-done, some_or-done, reject_if-done,
}
use xet_server.ReconstructionIo.Content.{
  IsFetched, AreFetched, IsReconstruction, OneOf, here, there,
}

module _ (s : Services) (sources : Sources) where
  -- What is in the cache is what is stored.
  Cached : HashMap (List ℕ) → Type 0
  Cached cache =
      (h : MerkleHash) (content : List ℕ)
      → get h cache ≡ some content
      → sources.download (xorb_key s h) ≡ inr content

  fill_cache-Cached :
      (cache cache' : HashMap (List ℕ)) (h : MerkleHash)
      → Cached cache
      → fill_cache s sources cache h ≡ done cache'
      → Cached cache'
  unfolding fill_cache Cached
  fill_cache-Cached cache cache' h v e = elim (Option-cases (get h cache)) [
    | inr (c, q) ↦
        let o : done cache ≡ done cache' = rw (q, fill_cache) at e in
        subst Cached (done-injective o) v
    | inl q ↦ elim (download_cases (sources.download (xorb_key s h))) [
      | inl (x, d) ↦
          let o : rejected (map_storage_error x) ≡ done cache' = rw (q, d, fill_cache) at e in cc
      | inr (c, d) ↦
          let o : done (insert h c cache) ≡ done cache' = rw (q, d, fill_cache) at e in
          subst Cached (done-injective o) (λ k content g. elim (hash_cases h k) [
            | inl same ↦
                let c_is : c ≡ content = some-injective _ _ (
                  sym (get-insert_same h c cache)
                  ∙ (ap (λ x. get x (insert h c cache)) same ∙ g)) in
                ap (λ x. sources.download (xorb_key s x)) (sym same) ∙ (d ∙ ap inr c_is)
            | inr other ↦ v k content (sym (get-insert_other h k c cache other) ∙ g)
          ])
    ]
  ]
    where
      download_cases :
          (o : StorageError ⊎ List ℕ)
          → ((x : StorageError) × (o ≡ inl x)) ⊎ ((c : List ℕ) × (o ≡ inr c))
      download_cases (inl x) = inl (x, refl)
      download_cases (inr c) = inr (c, refl)

  reconstruct_chunk-IsFetched :
      (cache cache' : HashMap (List ℕ)) (p : PlannedChunk) (bytes : List ℕ)
      → Cached cache
      → reconstruct_chunk s sources cache p ≡ done (cache', bytes)
      → Cached cache' × IsFetched s sources p bytes
  unfolding reconstruct_chunk Cached
  reconstruct_chunk-IsFetched cache cache' p bytes v e =
      let (filled, e₁, r₁) = bind-eq-done (fill_cache s sources cache p.xorb_hash) _ e in
      let (content, e₂, r₂) = bind-eq-done (some_or (get p.xorb_hash filled) _) _ r₁ in
      let (bs, e₃, r₃) =
        bind-eq-done
          (or_integrity (
            extract_chunk_verified_from_file s.blake3 s.codec content p.chunk_byte_range_start
              p.unpacked_segment_bytes p.serialized_chunk_hash))
          _ r₂ in
      let (u, e₄, r₄) =
        bind-eq-done (reject_if (not (eq_hash (compute_data_hash s.blake3 bs) p.raw_chunk_hash)) _)
          _ r₃ in
      let good = fill_cache-Cached cache filled p.xorb_hash v e₁ in
      subst (λ q. Cached q.0 × IsFetched s sources p q.1) (done-injective r₄)
        (
          good,
          record {
            content = content;
            downloaded = good p.xorb_hash content (some_or-done _ _ e₂);
            extracted = or_integrity-done _ e₃;
            raw_hash = (eq_hash_iff _ p.raw_chunk_hash).0 (not_false _ (reject_if-done _ _ e₄));
          },
        )
    where
      not_false : (b : Bool) → not b ≡ false → b ≡ true
      not_false b q = ground (arith, q)

  reconstruct_chunks-AreFetched :
      (cache : HashMap (List ℕ)) (ps : List PlannedChunk) (chunks : List (List ℕ))
      → Cached cache
      → reconstruct_chunks s sources cache ps ≡ done chunks
      → AreFetched s sources ps chunks
  unfolding reconstruct_chunks
  reconstruct_chunks-AreFetched cache [] chunks v e =
      subst (AreFetched s sources []) (done-injective e) tt
  reconstruct_chunks-AreFetched cache (p ∷ ps) chunks v e =
      let ((cache', bytes), e₁, r₁) = bind-eq-done (reconstruct_chunk s sources cache p) _ e in
      let (rest, e₂, r₂) = bind-eq-done (reconstruct_chunks s sources cache' ps) _ r₁ in
      let (good, one) = reconstruct_chunk-IsFetched cache cache' p bytes v e₁ in
      subst (AreFetched s sources (p ∷ ps)) (done-injective r₂)
        (one, reconstruct_chunks-AreFetched cache' ps rest good e₂)

  parsed :
      (o : ShardIoError ⊎ MdbShardFile) (shard : MdbShardFile)
      → elim o [ inl x ↦ rejected (map_shard_error x) | inr y ↦ done y ] ≡ done shard
      → o ≡ inr shard
  parsed (inl x) shard e = cc
  parsed (inr y) shard e = ap inr (done-injective e)

  is_other-named :
      (a b c d : List ℕ)
      → (not (eq_bytes a b) && (not (eq_bytes a c) && not (eq_bytes a d))) ≡ false
      → (eq_bytes a b ≡ true) ⊎ ((eq_bytes a c ≡ true) ⊎ (eq_bytes a d ≡ true))
  is_other-named a b c d e = elim (Bool-cases (eq_bytes a b)) [
    | inl t ↦ inl t
    | inr f ↦ elim (Bool-cases (eq_bytes a c)) [
      | inl t ↦ inr (inl t)
      | inr g ↦ elim (Bool-cases (eq_bytes a d)) [
        | inl t ↦ inr (inr t)
        | inr h ↦ let o : true ≡ false = rw (f, g, h) at e in cc
      ]
    ]
  ]

  single-IsReconstruction :
      (target : MerkleHash) (ref : FileShardRef) (r : VerifiedReconstruction)
      → reconstruct_single_file_ref_to_temp s sources (to_hex s.hex target) target ref ≡ done r
      → IsReconstruction s sources target ref r
  unfolding reconstruct_single_file_ref_to_temp fetch_shard Cached get
  single-IsReconstruction target ref r e =
      let (shard, e₁, r₁) = bind-eq-done (fetch_shard sources ref.shard_id) _ e in
      let (plan, e₂, r₂) =
        bind-eq-done (outcome_or (build_file_chunk_plan shard target (some ref.file_index)) _) _
          r₁ in
      let (chunks, e₃, r₃) = bind-eq-done (reconstruct_chunks s sources [] plan.chunks) _ r₂ in
      let (h, e₄, r₄) =
        bind-eq-done (outcome_or (file_hash s.blake3 s.hex (raw_nodes s chunks)) _) _ r₃ in
      let (u, e₅, r₅) =
        bind-eq-done (reject_if (is_other s (to_hex s.hex target) (contents chunks) h) _) _ r₄ in
      subst (IsReconstruction s sources target ref) (done-injective r₅) (record {
        shard = shard;
        plan = plan;
        chunks = chunks;
        tree_hash = h;
        fetched = parsed _ shard e₁;
        planned = outcome_or-done _ _ e₂;
        chunks_fetched = reconstruct_chunks-AreFetched [] plan.chunks chunks (λ k c g. cc) e₃;
        joined = refl;
        sized = refl;
        hashed = outcome_or-done _ _ e₄;
        named = is_other-named _ _ _ _ (reject_if-done _ _ e₅);
      })

  attempt-cases :
      (o : Attempt VerifiedReconstruction)
      → ((r : VerifiedReconstruction) × (o ≡ done r))
        ⊎ (((x : ReconstructionError) × (o ≡ rejected x)) ⊎ (o ≡ crashed))
  attempt-cases (done r) = inl (r, refl)
  attempt-cases (rejected x) = inr (inl (x, refl))
  attempt-cases crashed = inr (inr refl)

  try_refs-IsReconstruction :
      (target : MerkleHash) (first : Option ReconstructionError) (refs : List FileShardRef)
      (r : VerifiedReconstruction)
      → try_refs s sources (to_hex s.hex target) target first refs ≡ done r
      → (ref : FileShardRef) × OneOf ref refs × IsReconstruction s sources target ref r
  unfolding try_refs
  try_refs-IsReconstruction target first [] r e = cc
  try_refs-IsReconstruction target first (ref ∷ refs) r e =
      elim (attempt-cases
        (reconstruct_single_file_ref_to_temp s sources (to_hex s.hex target) target ref)) [
          | inl (x, q) ↦
              let o : done x ≡ done r = rw (q, try_refs) at e in
              (ref, here, single-IsReconstruction target ref r (q ∙ o))
          | inr (inr q) ↦ let o : crashed ≡ done r = rw (q, try_refs) at e in cc
          | inr (inl (x, q)) ↦ elim (Bool-cases (is_stale x)) [
            | inl t ↦
                let o : try_refs s sources (to_hex s.hex target) target first refs ≡ done r =
                  rw (q, t, try_refs) at e in
                let (found, m, w) = try_refs-IsReconstruction target first refs r o in
                (found, there m, w)
            | inr f ↦
                let o : try_refs s sources (to_hex s.hex target) target (first_error first x) refs
                    ≡ done r =
                  rw (q, f, try_refs) at e in
                let (found, m, w) =
                  try_refs-IsReconstruction target (first_error first x) refs r o in
                (found, there m, w)
          ]
        ]

  -- A reconstruction that succeeds does so for a file id of hexadecimal digits and one of the given
  -- references: its shard is stored and has a plan for the file, each planned chunk is extracted
  -- from the stored xorb and has its raw hash, the content is the chunks joined, and the file id has
  -- the digits of its SHA-256, of its keyed hash, or of the hash of the tree over the chunks.
  pub reconstruct_verified_file_to_temp-IsReconstruction :
      (file_id : List ℕ) (refs : List FileShardRef) (r : VerifiedReconstruction)
      → reconstruct_verified_file_to_temp s sources file_id refs ≡ done r
      → (target : MerkleHash) × (from_hex s.hex file_id ≡ ok target)
        × ((ref : FileShardRef) × OneOf ref refs × IsReconstruction s sources target ref r)
  unfolding reconstruct_verified_file_to_temp
  reconstruct_verified_file_to_temp-IsReconstruction file_id refs r e =
      let (target, e₁, r₁) = bind-eq-done (outcome_or (from_hex s.hex file_id) _) _ e in
      (target, outcome_or-done _ _ e₁, try_refs-IsReconstruction target none refs r r₁)
