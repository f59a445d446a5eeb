-- ===== src/ReconstructionPlan/Sound.antt =====
-- src/reconstruction_plan.rs: what a plan promises of the file and the bytes.
use xet_server.Prelude.{
  ℕ, zero, suc, ◌+◌, not, ◌≡◌, refl, sym, subst, ap, ◌∙◌, take, arith, true, ltb, Option, none,
  some, List, [], ◌∷◌, length, get_elem?, Option-cases, inl, inr, sum_by, checked_add,
}
use xet_server.Outcome.{ok, XetError, refuse, ok_or, bind-eq-ok, ok-injective}
use xet_server.Slices.{index, slice, index-get_elem?, slice-take}
use xet_server.Hash.{MerkleHash, eq_hash}
use xet_server.Hash.Laws.{eq_hash_iff}
use native.Mathlib.Nat.{zero-add}
use xet_server.Shard.FileSequence.{FileDataSequenceHeader, FileDataSequenceEntry}
use xet_server.Shard.Parse.{MdbShardFile}
use xet_server.ReconstructionPlan.{
  PlannedChunk, PlannedFile, position, find_file, entries_before, XorbOffsets, locate_xorbs,
  RawChunks, raw_chunk_lookup, plan_segments, build_file_chunk_plan,
}
use xet_server.ReconstructionPlan.Sums.{
  planned_bytes, declared_bytes, declared_chunks, checked_add-eq, plan_segments-sum,
}

position-file_hash :
    (h : MerkleHash) (es : List FileDataSequenceHeader) (i : ℕ) (x : FileDataSequenceHeader)
    → position h es ≡ some i
    → get_elem? es i ≡ some x
    → eq_hash x.file_hash h ≡ true
unfolding position
position-file_hash h [] i x e g = cc
position-file_hash h (y ∷ es) zero x e g = elim (Option-cases (position h es)) [
  | inl n ↦ ground (arith, n)
  | inr (j, p) ↦ ground (arith, p)
]
position-file_hash h (y ∷ es) (suc i) x e g = elim (Option-cases (position h es)) [
  | inl n ↦ ground (arith, n)
  | inr (j, p) ↦ position-file_hash h es i x (ground (arith, p)) g
]

find_file-file_hash :
    (shard : MdbShardFile) (h : MerkleHash) (o : Option ℕ) (i : ℕ) (x : FileDataSequenceHeader)
    → find_file shard h o ≡ ok i
    → get_elem? shard.file_entries i ≡ some x
    → x.file_hash ≡ h
unfolding find_file
find_file-file_hash shard h (some j) i x e g =
    let (y, e₁, r₁) = bind-eq-ok (ok_or (get_elem? shard.file_entries j) _) _ e in
    let (u, e₂, r₂) = bind-eq-ok (refuse (not (eq_hash y.file_hash h)) _) _ r₁ in
    (eq_hash_iff x.file_hash h).0 (ground (arith, e₁, e₂, r₂))
find_file-file_hash shard h none i x e g = elim (Option-cases (position h shard.file_entries)) [
  | inl n ↦ ground (arith, n)
  | inr (j, p) ↦
      (eq_hash_iff x.file_hash h).0
        (position-file_hash h shard.file_entries i x (ground (arith, p)) g)
]

entries_before-sum :
    (acc : ℕ) (es : List FileDataSequenceHeader) (n : ℕ)
    → entries_before acc es ≡ ok n
    → n ≡ acc + sum_by (λ (x : FileDataSequenceHeader). x.num_entries) es
unfolding entries_before
entries_before-sum acc [] n e = ground arith
entries_before-sum acc (x ∷ es) n e =
    let (a, e₁, r₁) = bind-eq-ok (ok_or (checked_add acc x.num_entries) _) _ e in
    let w = entries_before-sum a es n r₁ in
    let c = checked_add-eq acc x.num_entries a _ e₁ in omega (arith, w, c)

-- What a plan promises: the file's header in the shard has the asked hash, and `segments` are the
-- entries that it announces, behind those of the headers before it. The chunks are as many as the
-- segments' ranges hold, and the total is both the sum of the bytes of the chunks and the sum of
-- the bytes that the segments declare.
pub record IsPlan (shard : MdbShardFile) (h : MerkleHash) (p : PlannedFile)
    (segments : List FileDataSequenceEntry) : Type 0 where
  pub header : FileDataSequenceHeader
  pub asked : p.file_hash ≡ h
  pub at : index shard.file_entries p.file_index ≡ ok header
  pub header_is : header.file_hash ≡ h
  pub start : ℕ
  pub behind :
      start
      ≡ sum_by
          (λ (x : FileDataSequenceHeader). x.num_entries)
          (take p.file_index shard.file_entries)
  pub taken : slice shard.file_data_entries start (start + header.num_entries) ≡ ok segments
  pub counted : length p.chunks ≡ declared_chunks segments
  pub planned : p.total_unpacked_bytes ≡ planned_bytes p.chunks
  pub declared : p.total_unpacked_bytes ≡ declared_bytes segments

pub IsPlan-of :
    (shard : MdbShardFile) (h : MerkleHash) (o : Option ℕ) (i start end : ℕ)
    (before : List FileDataSequenceHeader) (entry : FileDataSequenceHeader) (offsets : XorbOffsets)
    (raws : RawChunks) (gs : List FileDataSequenceEntry) (cs : List PlannedChunk) (total : ℕ)
    (x : XetError)
    → find_file shard h o ≡ ok i
    → slice shard.file_entries 0 i ≡ ok before
    → entries_before 0 before ≡ ok start
    → index shard.file_entries i ≡ ok entry
    → ok_or (checked_add start entry.num_entries) x ≡ ok end
    → slice shard.file_data_entries start end ≡ ok gs
    → plan_segments shard.xorb_chunk_entries offsets raws 0 gs ≡ ok (cs, total)
    → IsPlan shard h
        (record { file_hash = h; file_index = i; chunks = cs; total_unpacked_bytes = total })
        gs
IsPlan-of shard h o i start end before entry offsets raws gs cs total x find front sum at add taken
      plan =
    let w = plan_segments-sum shard.xorb_chunk_entries offsets raws 0 gs cs total plan in
    let b : before ≡ take i shard.file_entries = slice-take shard.file_entries i before front in
    record {
      header = entry;
      asked = refl;
      at = at;
      header_is =
          find_file-file_hash shard h o i entry find (index-get_elem? shard.file_entries i at);
      start = start;
      behind =
          entries_before-sum 0 before start sum
          ∙ (zero-add _ ∙ ap (λ es. sum_by (λ (y : FileDataSequenceHeader). y.num_entries) es) b);
      taken = rw (sym (checked_add-eq start entry.num_entries end x add)) taken;
      counted = w.2;
      planned = w.0 ∙ zero-add _;
      declared = w.1 ∙ zero-add _;
    }

-- A plan that `build_file_chunk_plan` returns is for the asked file and its segments in the shard,
-- has as many chunks as the segments' ranges hold, and its total is both the sum of the bytes of
-- its chunks and the sum of the bytes that the segments declare.
pub build_file_chunk_plan-IsPlan :
    (shard : MdbShardFile) (h : MerkleHash) (o : Option ℕ) (p : PlannedFile)
    → build_file_chunk_plan shard h o ≡ ok p
    → (segments : List FileDataSequenceEntry) × IsPlan shard h p segments
unfolding build_file_chunk_plan
build_file_chunk_plan-IsPlan shard h o p e =
    let (i, e₁, r₁) = bind-eq-ok (find_file shard h o) _ e in
    let (before, e₂, r₂) = bind-eq-ok (slice shard.file_entries 0 i) _ r₁ in
    let (start, e₃, r₃) = bind-eq-ok (entries_before 0 before) _ r₂ in
    let (entry, e₄, r₄) = bind-eq-ok (index shard.file_entries i) _ r₃ in
    let (end, e₅, r₅) = bind-eq-ok (ok_or (checked_add start entry.num_entries) _) _ r₄ in
    let (u₆, e₆, r₆) = bind-eq-ok (refuse (ltb (length shard.file_data_entries) end) _) _ r₅ in
    let (offsets, e₇, r₇) =
      bind-eq-ok (locate_xorbs (length shard.xorb_chunk_entries) 0 [] shard.xorb_entries) _ r₆ in
    let (raws, e₈, r₈) = bind-eq-ok (raw_chunk_lookup [] shard.chunk_lookup_entries) _ r₇ in
    let (gs, e₉, r₉) = bind-eq-ok (slice shard.file_data_entries start end) _ r₈ in
    let (r, e₀, r₀) = bind-eq-ok (plan_segments shard.xorb_chunk_entries offsets raws 0 gs) _ r₉ in
    (
      gs,
      subst (λ q. IsPlan shard h q gs) (ok-injective r₀)
          (IsPlan-of shard h o i start end before entry offsets raws gs r.0 r.1 _ e₁ e₂ e₃ e₄ e₅ e₉
            e₀),
    )
