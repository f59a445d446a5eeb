-- ===== src/ShardValidation/Reconstructed.antt =====
-- What a shard that `validate_shard_for_index` of src/shard_validation.rs accepts comes to: its files
-- are reconstructed from the stored xorbs.
use xet_server.Prelude.{
  ℕ, ◌+◌, ◌<◌, ◌≡◌, refl, sym, ap, ◌∙◌, subst, arith, Bool, true, false, Bool-cases, ◌⊎◌, inl, inr,
  not, leb, ◌==◌, List, [], ◌∷◌, length, length-append, checked_add, some,
}
use xet_server.Outcome.{ok}
use xet_server.Bytes.{eq_bytes}
use xet_server.Hash.{MerkleHash, eq_hash}
use xet_server.Hash.Laws.{eq_hash_iff}
use xet_server.Hash.Keyed.{compute_data_hash}
use xet_server.Hash.Hex.{to_hex}
use xet_server.MerkleTree.{file_hash}
use xet_server.Shard.FileSequence.{FileDataSequenceHeader}
use xet_server.Shard.Parse.{MdbShardFile}
use xet_server.ReconstructionPlan.{PlannedChunk, PlannedFile, build_file_chunk_plan}
use xet_server.Reply.{reply, map_err, fail_if, some_or}
use xet_server.Reply.Laws.{
  bind-eq-reply, reply-injective, map_err-reply, some_or-reply, fail_if-reply, fail_if-same_hash,
}
use xet_server.XorbReader.{extract_chunk_verified_from_file}
use xet_server.ShardValidation.{
  Services, ValidatedXorb, ValidatedXorbs, get_validated, VerifiedFileMapping,
  VerifiedShardRegistration,
}
use xet_server.ShardValidation.Xorbs.{validate_xorbs}
use xet_server.ShardValidation.Files.{
  validate_chunk, validate_chunks, contents, raw_nodes, is_declared, validate_file, validate_files,
  validate_shard_for_index,
}
use xet_server.ShardValidation.Stored.{
  IsStored, AreStored, validate_xorbs-AreStored, get_validated-IsStored,
}

is_true : (b : Bool) → not b ≡ false → b ≡ true
is_true b e = ground (arith, e)

-- The data of a planned chunk: it is extracted from the stored xorb, which was verified, and has the
-- chunk's raw hash.
pub record IsExtracted (s : Services) (planned : PlannedChunk) (raw_chunk : List ℕ) : Type 0 where
  pub xorb : ValidatedXorb
  pub stored : IsStored s planned.xorb_hash xorb
  pub in_xorb : planned.xorb_chunk_index < length xorb.info.chunks
  pub extracted :
      extract_chunk_verified_from_file s.blake3 s.codec xorb.content planned.chunk_byte_range_start
        planned.unpacked_segment_bytes planned.serialized_chunk_hash
      ≡ reply raw_chunk
  pub raw_hash : compute_data_hash s.blake3 raw_chunk ≡ planned.raw_chunk_hash

abbrev pub AreExtracted : Services → List PlannedChunk → List (List ℕ) → Type 0
AreExtracted s [] [] = Unit
AreExtracted s [] (r ∷ rs) = ⊥
AreExtracted s (p ∷ ps) [] = ⊥
AreExtracted s (p ∷ ps) (r ∷ rs) = IsExtracted s p r × AreExtracted s ps rs

-- The declared hash is the SHA-256, in hexadecimal digits, or the keyed hash of the bytes, or the
-- hash of the tree over the chunks.
abbrev pub IsDeclared : Services → MerkleHash → List (List ℕ) → Type 0
IsDeclared s declared raw_chunks =
    (eq_bytes (to_hex s.hex declared) (s.hex.encode (s.sha256.digest (contents raw_chunks))) ≡ true)
    ⊎ ((declared ≡ compute_data_hash s.blake3 (contents raw_chunks))
        ⊎ (file_hash s.blake3 s.hex (raw_nodes s raw_chunks) ≡ ok declared))

-- The file at an index of the shard: its plan, and the data of the planned chunks, which together
-- have the declared hash and the registered size.
pub record IsReconstructed (s : Services) (shard : MdbShardFile) (file_index : ℕ)
    (entry : FileDataSequenceHeader) (f : VerifiedFileMapping) : Type 0 where
  pub plan : PlannedFile
  pub raw_chunks : List (List ℕ)
  pub planned : build_file_chunk_plan shard entry.file_hash (some file_index) ≡ ok plan
  pub chunks_extracted : AreExtracted s plan.chunks raw_chunks
  pub hash_declared : IsDeclared s entry.file_hash raw_chunks
  pub same_hash : f.file_hash ≡ entry.file_hash
  pub same_index : f.file_index ≡ file_index
  pub whole_size : f.file_size ≡ length (contents raw_chunks)

abbrev pub AreReconstructed :
    Services → MdbShardFile → ℕ → List FileDataSequenceHeader → List VerifiedFileMapping → Type 0
AreReconstructed s shard file_index [] [] = Unit
AreReconstructed s shard file_index [] (f ∷ fs) = ⊥
AreReconstructed s shard file_index (e ∷ es) [] = ⊥
AreReconstructed s shard file_index (e ∷ es) (f ∷ fs) =
    IsReconstructed s shard file_index e f × AreReconstructed s shard (file_index + 1) es fs

module _ (s : Services) (xs : ValidatedXorbs) (v : AreStored s xs) where
  validate_chunk-IsExtracted :
      (p : PlannedChunk) (r : List ℕ) → validate_chunk s xs p ≡ reply r → IsExtracted s p r
  unfolding validate_chunk
  validate_chunk-IsExtracted p r e =
      let (x, e₁, r₁) = bind-eq-reply (some_or (get_validated p.xorb_hash xs) _) _ e in
      let (u₂, e₂, r₂) =
        bind-eq-reply (fail_if (leb (length x.info.chunks) p.xorb_chunk_index) _) _ r₁ in
      let (raw, e₃, r₃) =
        bind-eq-reply
          (extract_chunk_verified_from_file s.blake3 s.codec x.content p.chunk_byte_range_start
            p.unpacked_segment_bytes p.serialized_chunk_hash)
          _ r₂ in
      let (u₄, e₄, r₄) =
        bind-eq-reply (fail_if (not (eq_hash (compute_data_hash s.blake3 raw) p.raw_chunk_hash)) _)
          _ r₃ in
      let inside = fail_if-reply _ _ e₂ in
      subst (IsExtracted s p) (reply-injective r₄) (record {
        xorb = x;
        stored = get_validated-IsStored s p.xorb_hash xs x v (some_or-reply _ _ e₁);
        in_xorb = ground (arith, inside);
        extracted = e₃;
        raw_hash = fail_if-same_hash _ _ _ e₄;
      })

  added : (a b c : ℕ) → checked_add a b ≡ some c → c ≡ a + b
  added a b c e = ground arith

  validate_chunks-AreExtracted :
      (size : ℕ) (ps : List PlannedChunk) (rs : List (List ℕ)) (total : ℕ)
      → validate_chunks s xs size ps ≡ reply (rs, total)
      → AreExtracted s ps rs × (total ≡ size + length (contents rs))
  unfolding validate_chunks
  validate_chunks-AreExtracted size [] rs total e =
      subst (λ q. AreExtracted s [] q.0 × (q.1 ≡ size + length (contents q.0))) (reply-injective e)
        (tt, omega arith)
  validate_chunks-AreExtracted size (p ∷ ps) rs total e =
      let (r, e₁, r₁) = bind-eq-reply (validate_chunk s xs p) _ e in
      let (size', e₂, r₂) = bind-eq-reply (some_or (checked_add size (length r)) _) _ r₁ in
      let ((more, sum), e₃, r₃) = bind-eq-reply (validate_chunks s xs size' ps) _ r₂ in
      let (w, t) = validate_chunks-AreExtracted size' ps more sum e₃ in
      let a : size' ≡ size + length r = added size (length r) size' (some_or-reply _ _ e₂) in
      subst (λ q. AreExtracted s (p ∷ ps) q.0 × (q.1 ≡ size + length (contents q.0)))
        (reply-injective r₃)
        (
          (validate_chunk-IsExtracted p r e₁, w),
          omega (arith, a, t, length-append r (contents more)),
        )

  is_declared-IsDeclared :
      (declared h : MerkleHash) (rs : List (List ℕ))
      → file_hash s.blake3 s.hex (raw_nodes s rs) ≡ ok h
      → is_declared s declared (contents rs) h ≡ true
      → IsDeclared s declared rs
  is_declared-IsDeclared declared h rs e t =
      elim (Bool-cases
        (eq_bytes (to_hex s.hex declared) (s.hex.encode (s.sha256.digest (contents rs))))) [
          | inl sha ↦ inl sha
          | inr not_sha ↦
              elim (Bool-cases (eq_hash declared (compute_data_hash s.blake3 (contents rs)))) [
                | inl keyed ↦ inr (inl ((eq_hash_iff declared _).0 keyed))
                | inr not_keyed ↦
                    let q : eq_hash declared h ≡ true = rw (not_sha, not_keyed) at t in
                    inr (inr (e ∙ ap ok (sym ((eq_hash_iff declared h).0 q))))
              ]
        ]

  validate_file-IsReconstructed :
      (shard : MdbShardFile) (i : ℕ) (entry : FileDataSequenceHeader) (f : VerifiedFileMapping)
      (chunks : List PlannedChunk)
      → validate_file s shard xs i entry ≡ reply (f, chunks)
      → IsReconstructed s shard i entry f
  unfolding validate_file
  validate_file-IsReconstructed shard i entry f chunks e =
      let (plan, e₁, r₁) =
        bind-eq-reply (map_err (build_file_chunk_plan shard entry.file_hash (some i)) _) _ e in
      let ((rs, size), e₂, r₂) = bind-eq-reply (validate_chunks s xs 0 plan.chunks) _ r₁ in
      let (h, e₃, r₃) =
        bind-eq-reply (map_err (file_hash s.blake3 s.hex (raw_nodes s rs)) _) _ r₂ in
      let (u₄, e₄, r₄) =
        bind-eq-reply (fail_if (not (is_declared s entry.file_hash (contents rs) h)) _) _ r₃ in
      let (w, t) = validate_chunks-AreExtracted 0 plan.chunks rs size e₂ in
      let good = fail_if-reply _ _ e₄ in
      subst (λ q. IsReconstructed s shard i entry q.0) (reply-injective r₄)
        (record {
          plan = plan;
          raw_chunks = rs;
          planned = map_err-reply _ _ e₁;
          chunks_extracted = w;
          hash_declared =
              is_declared-IsDeclared entry.file_hash h rs (map_err-reply _ _ e₃) (is_true _ good);
          same_hash = refl;
          same_index = refl;
          whole_size = omega (arith, t);
        })

  validate_files-AreReconstructed :
      (shard : MdbShardFile) (i : ℕ) (es : List FileDataSequenceHeader)
      (fs : List VerifiedFileMapping) (chunks : List PlannedChunk)
      → validate_files s shard xs i es ≡ reply (fs, chunks)
      → AreReconstructed s shard i es fs
  unfolding validate_files
  validate_files-AreReconstructed shard i [] fs chunks e =
      subst (λ q. AreReconstructed s shard i [] q.0) (reply-injective e) tt
  validate_files-AreReconstructed shard i (entry ∷ es) fs chunks e =
      let ((f, cs), e₁, r₁) = bind-eq-reply (validate_file s shard xs i entry) _ e in
      let ((gs, more), e₂, r₂) = bind-eq-reply (validate_files s shard xs (i + 1) es) _ r₁ in
      subst (λ q. AreReconstructed s shard i (entry ∷ es) q.0) (reply-injective r₂)
        (
          validate_file-IsReconstructed shard i entry f cs e₁,
          validate_files-AreReconstructed shard (i + 1) es gs more e₂,
        )

-- Of an accepted shard, each declared file, in order, is registered with its hash, its index and its
-- size, and there is data for each chunk of its plan, extracted from the stored xorb of the chunk's
-- hash, which was verified, with the chunk's raw hash; joined, the data has the file's size, and its
-- SHA-256, its keyed hash or the hash of the tree over its chunks is the declared one.
pub validate_shard_for_index-AreReconstructed :
    (s : Services) (shard_id : List ℕ) (shard : MdbShardFile)
    (registration : VerifiedShardRegistration)
    → validate_shard_for_index s shard_id shard ≡ reply registration
    → AreReconstructed s shard 0 shard.file_entries registration.files
unfolding validate_shard_for_index
validate_shard_for_index-AreReconstructed s shard_id shard registration e =
    let ((xs, offset), e₁, r₁) =
      bind-eq-reply (validate_xorbs s shard.xorb_chunk_entries [] 0 shard.xorb_entries) _ e in
    let (u₂, e₂, r₂) =
      bind-eq-reply (fail_if (not (offset == length shard.xorb_chunk_entries)) _) _ r₁ in
    let ((fs, chunks), e₃, r₃) =
      bind-eq-reply (validate_files s shard xs 0 shard.file_entries) _ r₂ in
    let stored =
      validate_xorbs-AreStored s shard.xorb_chunk_entries [] 0 shard.xorb_entries xs offset tt e₁ in
    subst (λ (q : VerifiedShardRegistration). AreReconstructed s shard 0 shard.file_entries q.files)
      (reply-injective r₃)
      (validate_files-AreReconstructed s xs stored shard 0 shard.file_entries fs chunks e₃)
