-- ===== src/ReconstructionPlan/Sums.antt =====
-- src/reconstruction_plan.rs: the bytes and the chunks of the segments, summed.
use xet_server.Prelude.{
  ℕ, zero, suc, ◌+◌, ◌-◌, ◌%◌, ◌^◌, not, ◌==◌, ◌≡◌, arith, ltb, List, [], ◌∷◌, length,
  length-append, get_elem?, sum_by, sum_by-append, checked_add,
}
use xet_server.Outcome.{ok, XetError, refuse, ok_or, bind-eq-ok}
use xet_server.Hash.{MerkleHash}
use xet_server.Shard.FileSequence.{FileDataSequenceEntry}
use xet_server.Shard.XorbSequence.{XorbChunkSequenceEntry}
use xet_server.ReconstructionPlan.{
  PlannedChunk, get_xorb, get_raw, XorbOffsets, RawChunks, plan_chunks, plan_segment, plan_segments,
}

abbrev pub planned_bytes : List PlannedChunk → ℕ
planned_bytes cs = sum_by (λ (c : PlannedChunk). c.unpacked_segment_bytes) cs

abbrev pub declared_bytes : List FileDataSequenceEntry → ℕ
declared_bytes gs = sum_by (λ (g : FileDataSequenceEntry). g.unpacked_segment_bytes) gs

abbrev pub declared_chunks : List FileDataSequenceEntry → ℕ
declared_chunks gs =
    sum_by (λ (g : FileDataSequenceEntry). g.chunk_index_end - g.chunk_index_start) gs

pub checked_add-eq : (a b c : ℕ) (e : XetError) → ok_or (checked_add a b) e ≡ ok c → c ≡ a + b
checked_add-eq a b c e h = ground arith

same : (a b : ℕ) (e : XetError) (u : Unit {0}) → refuse (not (a == b)) e ≡ ok u → a ≡ b
same a b e u h = ground arith

plan_chunks-sum :
    (count : ℕ) (entries : List XorbChunkSequenceEntry) (raws : RawChunks) (h : MerkleHash)
    (s i b : ℕ) (cs : List PlannedChunk) (sum : ℕ)
    → plan_chunks count entries raws h s i b ≡ ok (cs, sum)
    → (sum ≡ b + planned_bytes cs) × (length cs ≡ count)
unfolding plan_chunks
plan_chunks-sum zero entries raws h s i b cs sum e = ground arith
plan_chunks-sum (suc count) entries raws h s i b cs sum e =
    let (g, e₁, r₁) = bind-eq-ok (ok_or (checked_add s i) _) _ e in
    let (x, e₂, r₂) = bind-eq-ok (ok_or (get_elem? entries g) _) _ r₁ in
    let (raw, e₃, r₃) = bind-eq-ok (ok_or (get_raw h (i % 2 ^ 32) raws) _) _ r₂ in
    let (b', e₄, r₄) = bind-eq-ok (ok_or (checked_add b x.unpacked_segment_bytes) _) _ r₃ in
    let (r, e₅, r₅) = bind-eq-ok (plan_chunks count entries raws h s (i + 1) b') _ r₄ in
    let w = plan_chunks-sum count entries raws h s (i + 1) b' r.0 r.1 e₅ in
    let a = checked_add-eq b x.unpacked_segment_bytes b' _ e₄ in ground (arith, w, a, r₅)

plan_segment-sum :
    (entries : List XorbChunkSequenceEntry) (offsets : XorbOffsets) (raws : RawChunks)
    (g : FileDataSequenceEntry) (cs : List PlannedChunk) (sum : ℕ)
    → plan_segment entries offsets raws g ≡ ok (cs, sum)
    → (sum ≡ planned_bytes cs)
      × (sum ≡ g.unpacked_segment_bytes)
      × (length cs ≡ g.chunk_index_end - g.chunk_index_start)
unfolding plan_segment
plan_segment-sum entries offsets raws g cs sum e =
    let (u₁, e₁, r₁) = bind-eq-ok (refuse (ltb g.chunk_index_end g.chunk_index_start) _) _ e in
    let (x, e₂, r₂) = bind-eq-ok (ok_or (get_xorb g.xorb_hash offsets) _) _ r₁ in
    let (u₃, e₃, r₃) = bind-eq-ok (refuse (ltb x.1 g.chunk_index_end) _) _ r₂ in
    let (r, e₄, r₄) =
      bind-eq-ok
        (plan_chunks (g.chunk_index_end - g.chunk_index_start) entries raws g.xorb_hash x.0
          g.chunk_index_start 0)
        _ r₃ in
    let (u₅, e₅, r₅) = bind-eq-ok (refuse (not (r.1 == g.unpacked_segment_bytes)) _) _ r₄ in
    let w =
      plan_chunks-sum (g.chunk_index_end - g.chunk_index_start) entries raws g.xorb_hash x.0
        g.chunk_index_start 0 r.0 r.1 e₄ in
    let a = same r.1 g.unpacked_segment_bytes _ u₅ e₅ in ground (arith, w, a, r₅)

pub plan_segments-sum :
    (entries : List XorbChunkSequenceEntry) (offsets : XorbOffsets) (raws : RawChunks) (total : ℕ)
    (gs : List FileDataSequenceEntry) (cs : List PlannedChunk) (sum : ℕ)
    → plan_segments entries offsets raws total gs ≡ ok (cs, sum)
    → (sum ≡ total + planned_bytes cs)
      × (sum ≡ total + declared_bytes gs)
      × (length cs ≡ declared_chunks gs)
unfolding plan_segments
plan_segments-sum entries offsets raws total [] cs sum e = ground arith
plan_segments-sum entries offsets raws total (g ∷ gs) cs sum e =
    let (r, e₁, r₁) = bind-eq-ok (plan_segment entries offsets raws g) _ e in
    let (total', e₂, r₂) = bind-eq-ok (ok_or (checked_add total r.1) _) _ r₁ in
    let (r', e₃, r₃) = bind-eq-ok (plan_segments entries offsets raws total' gs) _ r₂ in
    let w = plan_segment-sum entries offsets raws g r.0 r.1 e₁ in
    let w' = plan_segments-sum entries offsets raws total' gs r'.0 r'.1 e₃ in
    let a = checked_add-eq total r.1 total' _ e₂ in
    let s = sum_by-append (λ (c : PlannedChunk). c.unpacked_segment_bytes) r.0 r'.0 in
    let l = length-append r.0 r'.0 in ground (arith, w, w', a, s, l, r₃)
