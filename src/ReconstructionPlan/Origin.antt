-- ===== src/ReconstructionPlan/Origin.antt =====
-- src/reconstruction_plan.rs: where the chunks of a plan come from.
use xet_server.Prelude.{
  ℕ, suc, ◌<◌, ◌++◌, sym, sum_by, sum_by-append, append_assoc, ◌+◌, ◌%◌, ◌^◌, ◌==◌, ==_iff, ◌≡◌,
  refl, subst, ◌∙◌, arith, Option, none, some, List, [], ◌∷◌, get_elem?, Bool-cases, ◌&&◌, inl, inr,
  All, checked_add,
}
use xet_server.Outcome.{ok, XetError, refuse, ok_or, bind-eq-ok, ok-injective}
use xet_server.Hash.{MerkleHash, eq_hash}
use xet_server.Hash.Laws.{eq_hash_iff}
use xet_server.Shard.XorbSequence.{XorbChunkSequenceHeader, XorbChunkSequenceEntry}
use xet_server.Shard.ChunkLookup.{ChunkLookupEntry}
use xet_server.ReconstructionPlan.{
  PlannedChunk, get_xorb, get_raw, is_some, exceeds, XorbOffsets, locate_xorbs, RawChunks,
  raw_chunk_lookup,
}

-- One of the elements.
abbrev pub In {ℓ} : {A : Type ℓ} → List A → A → Type ℓ
In xs a = (i : ℕ) × (get_elem? xs i ≡ some a)

pub All-In {ℓ} : {A : Type ℓ} (xs ys : List A) → ((a : A) → In ys a → In xs a) → All (In xs) ys
All-In xs [] f = tt
All-In xs (y ∷ ys) f = (f y (0, refl), All-In xs ys (λ a p. f a (suc p.0, p.1)))

-- A raw hash that is looked up is that of a lookup entry.
pub record IsRaw (lookups : List ChunkLookupEntry) (h : MerkleHash) (i : ℕ) (v : MerkleHash)
    : Type 0 where
  pub entry : ChunkLookupEntry
  pub listed : In lookups entry
  pub of_xorb : entry.xorb_hash ≡ h
  pub at_index : entry.chunk_index ≡ i
  pub hash_is : entry.chunk_hash ≡ v

abbrev pub AllRaw : List ChunkLookupEntry → RawChunks → Type 0
AllRaw lookups raws = All (λ (r : MerkleHash × ℕ × MerkleHash). IsRaw lookups r.0 r.1 r.2) raws

pub raw_chunk_lookup-AllRaw :
    (lookups : List ChunkLookupEntry) (raws : RawChunks) (es : List ChunkLookupEntry)
    (out : RawChunks)
    → AllRaw lookups raws
    → All (In lookups) es
    → raw_chunk_lookup raws es ≡ ok out
    → AllRaw lookups out
unfolding raw_chunk_lookup
raw_chunk_lookup-AllRaw lookups raws [] out a b e = subst (AllRaw lookups) (ok-injective e) a
raw_chunk_lookup-AllRaw lookups raws (x ∷ es) out a (p, b) e =
    let (u, e₁, r₁) =
      bind-eq-ok (refuse (is_some (get_raw x.xorb_hash x.chunk_index raws)) _) _ e in
    raw_chunk_lookup-AllRaw lookups ((x.xorb_hash, x.chunk_index, x.chunk_hash) ∷ raws) es out
      (record { entry = x; listed = p; of_xorb = refl; at_index = refl; hash_is = refl }, a) b r₁

pub get_raw-IsRaw :
    (lookups : List ChunkLookupEntry) (h : MerkleHash) (i : ℕ) (raws : RawChunks) (v : MerkleHash)
    → AllRaw lookups raws
    → get_raw h i raws ≡ some v
    → IsRaw lookups h i v
unfolding get_raw
get_raw-IsRaw lookups h i [] v a e = cc
get_raw-IsRaw lookups h i ((k, j, w) ∷ raws) v (r, a) e =
    elim (Bool-cases (eq_hash k h && (j == i))) [
      | inl hit ↦
          let x : some w ≡ some v = rw hit at e in
          let hk : k ≡ h = (eq_hash_iff k h).0 (ground (arith, hit)) in
          let ji : j ≡ i = (==_iff j i).0 (ground (arith, hit)) in
          record {
            entry = r.entry;
            listed = r.listed;
            of_xorb = r.of_xorb ∙ hk;
            at_index = r.at_index ∙ ji;
            hash_is = r.hash_is ∙ cc;
          }
      | inr miss ↦ get_raw-IsRaw lookups h i raws v a (rw miss at e)
    ]

-- The header of a xorb, and where the xorb's entries stand in the chunk table: behind those of the
-- headers before it.
pub record IsLocated (xorbs : List XorbChunkSequenceHeader) (h : MerkleHash) (start count : ℕ)
    : Type 0 where
  pub before : List XorbChunkSequenceHeader
  pub header : XorbChunkSequenceHeader
  pub behind : List XorbChunkSequenceHeader
  pub in_order : xorbs ≡ before ++ (header ∷ behind)
  pub of_xorb : header.xorb_hash ≡ h
  pub starts : start ≡ sum_by (λ (x : XorbChunkSequenceHeader). x.num_entries) before
  pub counted : count ≡ header.num_entries

abbrev pub AllLocated : List XorbChunkSequenceHeader → XorbOffsets → Type 0
AllLocated xorbs offsets = All (λ (r : MerkleHash × ℕ × ℕ). IsLocated xorbs r.0 r.1 r.2) offsets

pub added : (a b : ℕ) (x : XetError) (k : ℕ) → ok_or (checked_add a b) x ≡ ok k → k ≡ a + b
added a b x k e = ground arith

pub locate_xorbs-AllLocated :
    (xorbs : List XorbChunkSequenceHeader) (len : ℕ) (before xs : List XorbChunkSequenceHeader)
    (offset : ℕ) (offsets out : XorbOffsets)
    → xorbs ≡ before ++ xs
    → offset ≡ sum_by (λ (x : XorbChunkSequenceHeader). x.num_entries) before
    → AllLocated xorbs offsets
    → locate_xorbs len offset offsets xs ≡ ok out
    → AllLocated xorbs out
unfolding locate_xorbs
locate_xorbs-AllLocated xorbs len before [] offset offsets out q p a e =
    subst (AllLocated xorbs) (ok-injective e) a
locate_xorbs-AllLocated xorbs len before (x ∷ xs) offset offsets out q p a e =
    let (u₁, e₁, r₁) = bind-eq-ok (refuse (is_some (get_xorb x.xorb_hash offsets)) _) _ e in
    let (u₂, e₂, r₂) =
      bind-eq-ok (refuse (exceeds (checked_add offset x.num_entries) len) _) _ r₁ in
    let (next, e₃, r₃) = bind-eq-ok (ok_or (checked_add offset x.num_entries) _) _ r₂ in
    locate_xorbs-AllLocated xorbs len (before ++ (x ∷ [])) xs next
      ((x.xorb_hash, offset, x.num_entries) ∷ offsets) out
      (q ∙ sym (append_assoc before (x ∷ []) xs))
      (omega (
        arith,
        added offset x.num_entries _ next e₃,
        p,
        sum_by-append (λ (y : XorbChunkSequenceHeader). y.num_entries) before (x ∷ []),
      ))
      (
        record {
          before = before;
          header = x;
          behind = xs;
          in_order = q;
          of_xorb = refl;
          starts = p;
          counted = refl;
        },
        a,
      )
      r₃

pub get_xorb-IsLocated :
    (xorbs : List XorbChunkSequenceHeader) (h : MerkleHash) (offsets : XorbOffsets) (v : ℕ × ℕ)
    → AllLocated xorbs offsets
    → get_xorb h offsets ≡ some v
    → IsLocated xorbs h v.0 v.1
unfolding get_xorb
get_xorb-IsLocated xorbs h [] v a e = cc
get_xorb-IsLocated xorbs h ((k, start, count) ∷ offsets) v (r, a) e =
    elim (Bool-cases (eq_hash k h)) [
      | inl hit ↦
          let x : some (start, count) ≡ some v = rw hit at e in
          let pair : (start, count) ≡ v = cc in
          let hk : k ≡ h = (eq_hash_iff k h).0 hit in
          subst (λ (w : ℕ × ℕ). IsLocated xorbs h w.0 w.1) pair
            (subst (λ g. IsLocated xorbs g start count) hk r)
      | inr miss ↦ get_xorb-IsLocated xorbs h offsets v a (rw miss at e)
    ]

-- The planned chunk of a number in a xorb has the place, the size and the hash of the entry that the
-- shard's chunk table has for it, behind those of the xorb's chunks before it, and the raw hash of the
-- lookup entry for its xorb and its index.
pub record IsTaken (xorbs : List XorbChunkSequenceHeader) (entries : List XorbChunkSequenceEntry)
    (lookups : List ChunkLookupEntry) (h : MerkleHash) (number : ℕ) (c : PlannedChunk)
    : Type 0 where
  pub start : ℕ
  pub count : ℕ
  pub entry : XorbChunkSequenceEntry
  pub xorb_is : c.xorb_hash ≡ h
  pub located : IsLocated xorbs h start count
  pub of_xorb : number < count
  pub index_is : c.xorb_chunk_index ≡ number % 2 ^ 32
  pub listed : get_elem? entries (start + number) ≡ some entry
  pub start_is : c.chunk_byte_range_start ≡ entry.chunk_byte_range_start
  pub bytes_are : c.unpacked_segment_bytes ≡ entry.unpacked_segment_bytes
  pub hash_is : c.serialized_chunk_hash ≡ entry.chunk_hash
  pub raw : IsRaw lookups c.xorb_hash c.xorb_chunk_index c.raw_chunk_hash

pub ok_or-some {ℓ} :
    {A : Type ℓ} (o : Option A) (x : XetError) {a : A} → ok_or o x ≡ ok a → o ≡ some a
ok_or-some none x e = cc
ok_or-some (some b) x e = cc
