-- ===== src/ShardValidation/Stored.antt =====
-- The xorbs that `validate_shard_for_index` of src/shard_validation.rs validates are the stored ones.
use xet_server.Prelude.{
  ℕ, ◌≡◌, ap, subst, Bool-cases, inl, inr, not, ◌==◌, ltb, List, [], ◌∷◌, length, checked_add, All,
  some,
}
use xet_server.Outcome.{Outcome, ok, err, panicked, out_of_fuel}
use mathlib.Core.Option.{some-injective}
use xet_server.Slices.{slice}
use xet_server.Hash.{MerkleHash, eq_hash}
use xet_server.Hash.Laws.{eq_hash_iff}
use xet_server.Shard.XorbSequence.{XorbChunkSequenceHeader, XorbChunkSequenceEntry}
use xet_server.ReconstructionPlan.{is_some}
use xet_server.Reply.{reply, map_err, fail_if, some_or}
use xet_server.Reply.Laws.{bind-eq-reply, reply-injective, fail_if-same_hash}
use xet_server.Xorb.VerifyFile.{verify_xorb_from_file_with_info}
use xet_server.ShardValidation.{Services, ValidatedXorb, ValidatedXorbs, get_validated, xorb_key}
use xet_server.ShardValidation.Xorbs.{joined, check_chunks, validate_xorb, validate_xorbs}

-- A validated xorb is the stored object of its hash, and it was verified.
pub record IsStored (s : Services) (hash : MerkleHash) (x : ValidatedXorb) : Type 0 where
  pub downloaded : s.storage.download (xorb_key s hash) ≡ reply x.content
  pub verified : verify_xorb_from_file_with_info s.blake3 s.hex x.content ≡ ok x.info
  pub named : x.info.xorb_hash ≡ hash

abbrev pub AreStored : Services → ValidatedXorbs → Type 0
AreStored s xs = All (λ e. IsStored s e.0 e.1) xs

joined-reply {ℓ} : {A : Type ℓ} (o : Outcome A) {a : A} → joined o ≡ reply a → o ≡ ok a
joined-reply (ok b) e = ap ok (reply-injective e)
joined-reply (err x) e = cc
joined-reply panicked e = cc
joined-reply out_of_fuel e = cc

validate_xorb-IsStored :
    (s : Services) (entries : List XorbChunkSequenceEntry) (xs : ValidatedXorbs) (offset : ℕ)
    (e : XorbChunkSequenceHeader) (x : ValidatedXorb) (end : ℕ)
    → validate_xorb s entries xs offset e ≡ reply (x, end)
    → IsStored s e.xorb_hash x
unfolding validate_xorb
validate_xorb-IsStored s entries xs offset e x end eq =
    let (u₁, e₁, r₁) = bind-eq-reply (fail_if (is_some (get_validated e.xorb_hash xs)) _) _ eq in
    let (stop, e₂, r₂) = bind-eq-reply (some_or (checked_add offset e.num_entries) _) _ r₁ in
    let (u₃, e₃, r₃) = bind-eq-reply (fail_if (ltb (length entries) stop) _) _ r₂ in
    let (content, e₄, r₄) = bind-eq-reply (s.storage.download (xorb_key s e.xorb_hash)) _ r₃ in
    let (info, e₅, r₅) =
      bind-eq-reply (joined (verify_xorb_from_file_with_info s.blake3 s.hex content)) _ r₄ in
    let (u₆, e₆, r₆) = bind-eq-reply (fail_if (not (eq_hash info.xorb_hash e.xorb_hash)) _) _ r₅ in
    let (u₇, e₇, r₇) = bind-eq-reply (fail_if (not (e.num_entries == length info.chunks)) _) _ r₆ in
    let (u₈, e₈, r₈) =
      bind-eq-reply (fail_if (not (e.num_bytes_in_xorb == info.total_unpacked_bytes)) _) _ r₇ in
    let (u₉, e₉, r₉) =
      bind-eq-reply (fail_if (not (e.num_bytes_on_disk == info.total_compressed_payload_bytes)) _) _
        r₈ in
    let (chunks, e₁₀, r₁₀) = bind-eq-reply (map_err (slice entries offset stop) _) _ r₉ in
    let (u₁₁, e₁₁, r₁₁) = bind-eq-reply (check_chunks chunks info.chunks) _ r₁₀ in
    let stored : IsStored s e.xorb_hash (record { content = content; info = info }) = record {
      downloaded = e₄;
      verified = joined-reply _ e₅;
      named = fail_if-same_hash info.xorb_hash e.xorb_hash _ e₆;
    } in
    subst (λ r. IsStored s e.xorb_hash r.0) (reply-injective r₁₁) stored

pub validate_xorbs-AreStored :
    (s : Services) (entries : List XorbChunkSequenceEntry) (xs : ValidatedXorbs) (offset : ℕ)
    (es : List XorbChunkSequenceHeader) (ys : ValidatedXorbs) (end : ℕ)
    → AreStored s xs
    → validate_xorbs s entries xs offset es ≡ reply (ys, end)
    → AreStored s ys
unfolding validate_xorbs
validate_xorbs-AreStored s entries xs offset [] ys end v eq =
    subst (λ r. AreStored s r.0) (reply-injective eq) v
validate_xorbs-AreStored s entries xs offset (e ∷ es) ys end v eq =
    let ((x, stop), e₁, r₁) = bind-eq-reply (validate_xorb s entries xs offset e) _ eq in
    validate_xorbs-AreStored s entries ((e.xorb_hash, x) ∷ xs) stop es ys end
      (validate_xorb-IsStored s entries xs offset e x stop e₁, v) r₁

pub get_validated-IsStored :
    (s : Services) (hash : MerkleHash) (xs : ValidatedXorbs) (x : ValidatedXorb)
    → AreStored s xs
    → get_validated hash xs ≡ some x
    → IsStored s hash x
unfolding get_validated
get_validated-IsStored s hash [] x v e = cc
get_validated-IsStored s hash ((key, y) ∷ xs) x (w, v) e = elim (Bool-cases (eq_hash key hash)) [
  | inl same ↦
      let k : key ≡ hash = (eq_hash_iff key hash).0 same in
      let q : some y ≡ some x = rw same at e in
      subst (λ h. IsStored s h x) k (subst (IsStored s key) (some-injective _ _ q) w)
  | inr other ↦
      let q : get_validated hash xs ≡ some x = rw other at e in
      get_validated-IsStored s hash xs x v q
]
