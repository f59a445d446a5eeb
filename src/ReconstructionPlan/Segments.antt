-- ===== src/ReconstructionPlan/Segments.antt =====
-- src/reconstruction_plan.rs: the chunks of a plan, segment by segment.
use xet_server.Prelude.{
  ℕ, zero, suc, ◌+◌, ◌-◌, ◌%◌, ◌^◌, ◌≤◌, not, ◌==◌, ◌≡◌, refl, sym, ap, ◌∙◌, subst, arith, ltb,
  Option, List, [], ◌∷◌, ◌++◌, length, get_elem?, checked_add,
}
use xet_server.Outcome.{ok, XetError, refuse, ok_or, bind-eq-ok, ok-injective}
use xet_server.Slices.{index, slice}
use xet_server.Hash.{MerkleHash}
use xet_server.Shard.FileSequence.{FileDataSequenceEntry}
use xet_server.Shard.XorbSequence.{XorbChunkSequenceHeader, XorbChunkSequenceEntry}
use xet_server.Shard.ChunkLookup.{ChunkLookupEntry}
use xet_server.Shard.Parse.{MdbShardFile}
use xet_server.ReconstructionPlan.{
  PlannedChunk, PlannedFile, find_file, entries_before, get_xorb, get_raw, XorbOffsets,
  locate_xorbs, RawChunks, raw_chunk_lookup, plan_chunks, plan_segment, plan_segments,
  build_file_chunk_plan,
}
use xet_server.ReconstructionPlan.Sound.{IsPlan, IsPlan-of}
use xet_server.ReconstructionPlan.Origin.{
  All-In, AllRaw, raw_chunk_lookup-AllRaw, get_raw-IsRaw, IsLocated, AllLocated, added,
  locate_xorbs-AllLocated, get_xorb-IsLocated, IsTaken, ok_or-some,
}

within :
    (a b n : ℕ) (x y : XetError) (u v : Unit {0})
    → refuse (ltb b a) x ≡ ok u
    → refuse (ltb n b) y ≡ ok v
    → a + (b - a) ≤ n
within a b n x y u v e f = ground (arith, e, f)

in_order : (a b : ℕ) (x : XetError) (u : Unit {0}) → refuse (ltb b a) x ≡ ok u → a + (b - a) ≡ b
in_order a b x u e = ground (arith, e)

module _ (xorbs : List XorbChunkSequenceHeader) (entries : List XorbChunkSequenceEntry)
    (lookups : List ChunkLookupEntry) where
  -- Planned chunks of one xorb, with the numbers from `i` on.
  abbrev pub AreTakenFrom : MerkleHash → ℕ → List PlannedChunk → Type 0
  AreTakenFrom h i [] = Unit {0}
  AreTakenFrom h i (c ∷ cs) = IsTaken xorbs entries lookups h i c × AreTakenFrom h (i + 1) cs

  -- The planned chunks of each segment, in order: those of its xorb in its range of numbers.
  pub data AreSegments : List FileDataSequenceEntry → List PlannedChunk → Type 0 where
    no_segment : AreSegments [] []
    a_segment :
        {g : FileDataSequenceEntry} {gs : List FileDataSequenceEntry} (cs more : List PlannedChunk)
        → g.chunk_index_start + length cs ≡ g.chunk_index_end
        → AreTakenFrom g.xorb_hash g.chunk_index_start cs
        → AreSegments gs more
        → AreSegments (g ∷ gs) (cs ++ more)

module _ (xorbs : List XorbChunkSequenceHeader) (entries : List XorbChunkSequenceEntry)
    (lookups : List ChunkLookupEntry) (raws : RawChunks) (all : AllRaw lookups raws) where
  plan_chunks-AreTakenFrom :
      (count : ℕ) (h : MerkleHash) (s i b n : ℕ) (out : List PlannedChunk × ℕ)
      → IsLocated xorbs h s n
      → i + count ≤ n
      → plan_chunks count entries raws h s i b ≡ ok out
      → (length out.0 ≡ count) × AreTakenFrom xorbs entries lookups h i out.0
  unfolding plan_chunks
  plan_chunks-AreTakenFrom zero h s i b n out v f e =
      subst
        (λ (r : List PlannedChunk × ℕ).
          (length r.0 ≡ 0) × AreTakenFrom xorbs entries lookups h i r.0)
        (ok-injective e) (refl, tt)
  plan_chunks-AreTakenFrom (suc count) h s i b n out v f e =
      let (g, e₁, r₁) = bind-eq-ok (ok_or (checked_add s i) _) _ e in
      let (x, e₂, r₂) = bind-eq-ok (ok_or (get_elem? entries g) _) _ r₁ in
      let (raw, e₃, r₃) = bind-eq-ok (ok_or (get_raw h (i % 2 ^ 32) raws) _) _ r₂ in
      let (b', e₄, r₄) = bind-eq-ok (ok_or (checked_add b x.unpacked_segment_bytes) _) _ r₃ in
      let (r, e₅, r₅) = bind-eq-ok (plan_chunks count entries raws h s (i + 1) b') _ r₄ in
      let (l, rest) = plan_chunks-AreTakenFrom count h s (i + 1) b' n r v (omega (arith, f)) e₅ in
      subst
        (λ (q : List PlannedChunk × ℕ).
          (length q.0 ≡ suc count) × AreTakenFrom xorbs entries lookups h i q.0)
        (ok-injective r₅)
        (
          omega (arith, l),
          (
            record {
              start = s;
              count = n;
              entry = x;
              xorb_is = refl;
              located = v;
              of_xorb = omega (arith, f);
              index_is = refl;
              listed =
                  ap (get_elem? entries) (sym (added s i _ g e₁))
                  ∙ ok_or-some (get_elem? entries g) _ e₂;
              start_is = refl;
              bytes_are = refl;
              hash_is = refl;
              raw =
                  get_raw-IsRaw lookups h (i % 2 ^ 32) raws raw all
                    (ok_or-some (get_raw h (i % 2 ^ 32) raws) _ e₃);
            },
            rest,
          ),
        )

  plan_segment-AreTakenFrom :
      (offsets : XorbOffsets) (g : FileDataSequenceEntry) (out : List PlannedChunk × ℕ)
      → AllLocated xorbs offsets
      → plan_segment entries offsets raws g ≡ ok out
      → (g.chunk_index_start + length out.0 ≡ g.chunk_index_end)
        × AreTakenFrom xorbs entries lookups g.xorb_hash g.chunk_index_start out.0
  unfolding plan_segment
  plan_segment-AreTakenFrom offsets g out v e =
      let (u₁, e₁, r₁) = bind-eq-ok (refuse (ltb g.chunk_index_end g.chunk_index_start) _) _ e in
      let (x, e₂, r₂) = bind-eq-ok (ok_or (get_xorb g.xorb_hash offsets) _) _ r₁ in
      let (u₃, e₃, r₃) = bind-eq-ok (refuse (ltb x.1 g.chunk_index_end) _) _ r₂ in
      let (r, e₄, r₄) =
        bind-eq-ok
          (plan_chunks (g.chunk_index_end - g.chunk_index_start) entries raws g.xorb_hash x.0
            g.chunk_index_start 0)
          _ r₃ in
      let (u₅, e₅, r₅) = bind-eq-ok (refuse (not (r.1 == g.unpacked_segment_bytes)) _) _ r₄ in
      let (l, taken) =
        plan_chunks-AreTakenFrom (g.chunk_index_end - g.chunk_index_start) g.xorb_hash x.0
          g.chunk_index_start 0 x.1 r
          (get_xorb-IsLocated xorbs g.xorb_hash offsets x v
            (ok_or-some (get_xorb g.xorb_hash offsets) _ e₂))
          (within g.chunk_index_start g.chunk_index_end x.1 _ _ u₁ u₃ e₁ e₃) e₄ in
      subst
        (λ (q : List PlannedChunk × ℕ).
          (g.chunk_index_start + length q.0 ≡ g.chunk_index_end)
          × AreTakenFrom xorbs entries lookups g.xorb_hash g.chunk_index_start q.0)
        (ok-injective r₅)
        (omega (arith, l, in_order g.chunk_index_start g.chunk_index_end _ u₁ e₁), taken)

  plan_segments-AreSegments :
      (offsets : XorbOffsets) (total : ℕ) (gs : List FileDataSequenceEntry)
      (out : List PlannedChunk × ℕ)
      → AllLocated xorbs offsets
      → plan_segments entries offsets raws total gs ≡ ok out
      → AreSegments xorbs entries lookups gs out.0
  unfolding plan_segments
  plan_segments-AreSegments offsets total [] out v e =
      subst (λ (r : List PlannedChunk × ℕ). AreSegments xorbs entries lookups [] r.0)
        (ok-injective e) no_segment
  plan_segments-AreSegments offsets total (g ∷ gs) out v e =
      let (r, e₁, r₁) = bind-eq-ok (plan_segment entries offsets raws g) _ e in
      let (total', e₂, r₂) = bind-eq-ok (ok_or (checked_add total r.1) _) _ r₁ in
      let (r', e₃, r₃) = bind-eq-ok (plan_segments entries offsets raws total' gs) _ r₂ in
      let (l, taken) = plan_segment-AreTakenFrom offsets g r v e₁ in
      subst (λ (q : List PlannedChunk × ℕ). AreSegments xorbs entries lookups (g ∷ gs) q.0)
        (ok-injective r₃)
        (a_segment r.0 r'.0 l taken (plan_segments-AreSegments offsets total' gs r' v e₃))

-- A plan that `build_file_chunk_plan` returns is for the asked file, and its chunks are those of the
-- file's segments, in order: for each segment, the chunks of its xorb with the numbers of its range.
-- Each has the place, the size and the hash of the entry that stands in the shard's chunk table as
-- far behind the entries of the xorbs before as its number says, which is below the xorb's number of
-- entries; its index is this number modulo 2 ^ 32; and it has the raw hash of a lookup entry of the
-- shard for the xorb and the index.
pub build_file_chunk_plan-AreSegments :
    (shard : MdbShardFile) (h : MerkleHash) (o : Option ℕ) (p : PlannedFile)
    → build_file_chunk_plan shard h o ≡ ok p
    → (segments : List FileDataSequenceEntry) × IsPlan shard h p segments
      × AreSegments shard.xorb_entries shard.xorb_chunk_entries shard.chunk_lookup_entries segments
          p.chunks
unfolding build_file_chunk_plan
build_file_chunk_plan-AreSegments shard h o p e =
    let (i, e₁, r₁) = bind-eq-ok (find_file shard h o) _ e in
    let (before, e₂, r₂) = bind-eq-ok (slice shard.file_entries 0 i) _ r₁ in
    let (start, e₃, r₃) = bind-eq-ok (entries_before 0 before) _ r₂ in
    let (entry, e₄, r₄) = bind-eq-ok (index shard.file_entries i) _ r₃ in
    let (end, e₅, r₅) = bind-eq-ok (ok_or (checked_add start entry.num_entries) _) _ r₄ in
    let (u₆, e₆, r₆) = bind-eq-ok (refuse (ltb (length shard.file_data_entries) end) _) _ r₅ in
    let (offsets, e₇, r₇) =
      bind-eq-ok (locate_xorbs (length shard.xorb_chunk_entries) 0 [] shard.xorb_entries) _ r₆ in
    let (raws, e₈, r₈) = bind-eq-ok (raw_chunk_lookup [] shard.chunk_lookup_entries) _ r₇ in
    let (gs, e₉, r₉) = bind-eq-ok (slice shard.file_data_entries start end) _ r₈ in
    let (r, e₀, r₀) = bind-eq-ok (plan_segments shard.xorb_chunk_entries offsets raws 0 gs) _ r₉ in
    let located : AllLocated shard.xorb_entries offsets =
      locate_xorbs-AllLocated shard.xorb_entries (length shard.xorb_chunk_entries) []
        shard.xorb_entries 0 [] offsets refl refl tt e₇ in
    let raw : AllRaw shard.chunk_lookup_entries raws =
      raw_chunk_lookup-AllRaw shard.chunk_lookup_entries [] shard.chunk_lookup_entries raws tt
        (All-In shard.chunk_lookup_entries shard.chunk_lookup_entries (λ a q. q)) e₈ in
    (
      gs,
      subst (λ q. IsPlan shard h q gs) (ok-injective r₀)
          (IsPlan-of shard h o i start end before entry offsets raws gs r.0 r.1 _ e₁ e₂ e₃ e₄ e₅ e₉
            e₀),
      subst
          (λ (q : PlannedFile).
            AreSegments shard.xorb_entries shard.xorb_chunk_entries shard.chunk_lookup_entries gs
              q.chunks)
          (ok-injective r₀)
          (plan_segments-AreSegments shard.xorb_entries shard.xorb_chunk_entries
            shard.chunk_lookup_entries raws raw offsets 0 gs r located e₀),
    )
