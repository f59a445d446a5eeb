-- ===== src/ReconstructionPlan/Total.antt =====
-- src/reconstruction_plan.rs: no index or slice is out of bounds.
use xet_server.Prelude.{
  ℕ, zero, suc, ◌+◌, ◌-◌, ◌%◌, ◌^◌, not, ◌==◌, ◌≤◌, ◌<◌, ◌≡◌, arith, ltb, Option, none, some, List,
  [], ◌∷◌, length, get_elem?, Option-cases, inl, inr, checked_add,
}
use xet_server.Outcome.{ok, XetError, refuse, ok_or, Ends}
use xet_server.Outcome.Safe.{Safe, Safe-bind, Safe-ok, Safe-ok_or, Safe-refuse}
use xet_server.Slices.{index, slice, index-Safe, slice-Safe, get_elem?-lt}
use xet_server.Hash.{MerkleHash, eq_hash}
use xet_server.Shard.FileSequence.{FileDataSequenceHeader, FileDataSequenceEntry}
use xet_server.Shard.XorbSequence.{XorbChunkSequenceHeader, XorbChunkSequenceEntry}
use xet_server.Shard.ChunkLookup.{ChunkLookupEntry}
use xet_server.Shard.Parse.{MdbShardFile}
use xet_server.ReconstructionPlan.{
  is_some, exceeds, get_xorb, get_raw, position, find_file, entries_before, XorbOffsets,
  locate_xorbs, RawChunks, raw_chunk_lookup, plan_chunks, plan_segment, plan_segments,
  build_file_chunk_plan,
}

position-lt :
    (h : MerkleHash) (es : List FileDataSequenceHeader) (i : ℕ)
    → position h es ≡ some i
    → i < length es
unfolding position
position-lt h [] i e = cc
position-lt h (x ∷ es) i e = elim (Option-cases (position h es)) [
  | inl n ↦ ground (arith, n)
  | inr (j, p) ↦ let w = position-lt h es j p in ground (arith, p, w)
]

find_file-Safe : (shard : MdbShardFile) (h : MerkleHash) (o : Option ℕ) → Safe (find_file shard h o)
unfolding find_file
find_file-Safe shard h (some i) =
    Safe-bind (ok_or (get_elem? shard.file_entries i) _) (Safe-ok_or _ _) (λ e _.
      Safe-bind (refuse (not (eq_hash e.file_hash h)) _) (Safe-refuse _ _) (λ r _. Safe-ok _))
find_file-Safe shard h none = Safe-ok_or _ _

pub find_file-lt :
    (shard : MdbShardFile) (h : MerkleHash) (o : Option ℕ) (i : ℕ)
    → find_file shard h o ≡ ok i
    → i < length shard.file_entries
unfolding find_file
find_file-lt shard h (some j) i e = elim (Option-cases (get_elem? shard.file_entries j)) [
  | inl n ↦ ground (arith, n)
  | inr (a, p) ↦ let w = get_elem?-lt shard.file_entries j p in ground (arith, p, w)
]
find_file-lt shard h none i e = elim (Option-cases (position h shard.file_entries)) [
  | inl n ↦ ground (arith, n)
  | inr (j, p) ↦ let w = position-lt h shard.file_entries j p in ground (arith, p, w)
]

entries_before-Safe : (acc : ℕ) (es : List FileDataSequenceHeader) → Safe (entries_before acc es)
unfolding entries_before
entries_before-Safe acc [] = Safe-ok _
entries_before-Safe acc (e ∷ es) =
    Safe-bind (ok_or (checked_add acc e.num_entries) _) (Safe-ok_or _ _)
      (λ a _. entries_before-Safe a es)

locate_xorbs-Safe :
    (len offset : ℕ) (t : XorbOffsets) (xs : List XorbChunkSequenceHeader)
    → Safe (locate_xorbs len offset t xs)
unfolding locate_xorbs
locate_xorbs-Safe len offset t [] = Safe-ok _
locate_xorbs-Safe len offset t (x ∷ xs) =
    Safe-bind (refuse (is_some (get_xorb x.xorb_hash t)) _) (Safe-refuse _ _) (λ _ _.
      Safe-bind (refuse (exceeds (checked_add offset x.num_entries) len) _) (Safe-refuse _ _)
        (λ _ _.
          Safe-bind (ok_or (checked_add offset x.num_entries) _) (Safe-ok_or _ _)
            (λ next _. locate_xorbs-Safe len next _ xs)))

raw_chunk_lookup-Safe : (t : RawChunks) (es : List ChunkLookupEntry) → Safe (raw_chunk_lookup t es)
unfolding raw_chunk_lookup
raw_chunk_lookup-Safe t [] = Safe-ok _
raw_chunk_lookup-Safe t (e ∷ es) =
    Safe-bind (refuse (is_some (get_raw e.xorb_hash e.chunk_index t)) _) (Safe-refuse _ _)
      (λ _ _. raw_chunk_lookup-Safe _ es)

plan_chunks-Safe :
    (count : ℕ) (entries : List XorbChunkSequenceEntry) (raws : RawChunks) (h : MerkleHash)
    (s i b : ℕ)
    → Safe (plan_chunks count entries raws h s i b)
unfolding plan_chunks
plan_chunks-Safe zero entries raws h s i b = Safe-ok _
plan_chunks-Safe (suc count) entries raws h s i b =
    Safe-bind (ok_or (checked_add s i) _) (Safe-ok_or _ _) (λ g _.
      Safe-bind (ok_or (get_elem? entries g) _) (Safe-ok_or _ _) (λ e _.
        Safe-bind (ok_or (get_raw h (i % 2 ^ 32) raws) _) (Safe-ok_or _ _) (λ raw _.
          Safe-bind (ok_or (checked_add b e.unpacked_segment_bytes) _) (Safe-ok_or _ _) (λ b' _.
            Safe-bind (plan_chunks count entries raws h s (i + 1) b')
              (plan_chunks-Safe count entries raws h s (i + 1) b') (λ r _. Safe-ok _)))))

plan_segment-Safe :
    (entries : List XorbChunkSequenceEntry) (offsets : XorbOffsets) (raws : RawChunks)
    (g : FileDataSequenceEntry)
    → Safe (plan_segment entries offsets raws g)
unfolding plan_segment
plan_segment-Safe entries offsets raws g =
    Safe-bind (refuse (ltb g.chunk_index_end g.chunk_index_start) _) (Safe-refuse _ _) (λ _ _.
      Safe-bind (ok_or (get_xorb g.xorb_hash offsets) _) (Safe-ok_or _ _) (λ x _.
        Safe-bind (refuse (ltb x.1 g.chunk_index_end) _) (Safe-refuse _ _) (λ _ _.
          Safe-bind
            (plan_chunks (g.chunk_index_end - g.chunk_index_start) entries raws g.xorb_hash x.0
              g.chunk_index_start 0)
            (plan_chunks-Safe _ entries raws _ _ _ 0)
            (λ r _.
              Safe-bind (refuse (not (r.1 == g.unpacked_segment_bytes)) _) (Safe-refuse _ _)
                (λ _ _. Safe-ok _)))))

plan_segments-Safe :
    (entries : List XorbChunkSequenceEntry) (offsets : XorbOffsets) (raws : RawChunks) (total : ℕ)
    (gs : List FileDataSequenceEntry)
    → Safe (plan_segments entries offsets raws total gs)
unfolding plan_segments
plan_segments-Safe entries offsets raws total [] = Safe-ok _
plan_segments-Safe entries offsets raws total (g ∷ gs) =
    Safe-bind (plan_segment entries offsets raws g) (plan_segment-Safe entries offsets raws g)
      (λ r _. Safe-bind (ok_or (checked_add total r.1) _) (Safe-ok_or _ _) (λ total' _.
        Safe-bind (plan_segments entries offsets raws total' gs)
          (plan_segments-Safe entries offsets raws total' gs) (λ r' _. Safe-ok _)))

checked_add-le : (a b c : ℕ) (e : XetError) → ok_or (checked_add a b) e ≡ ok c → a ≤ c
checked_add-le a b c e h = ground arith

bound : (a b : ℕ) (e : XetError) (u : Unit {0}) → refuse (ltb a b) e ≡ ok u → b ≤ a
bound a b e u h = ground arith

-- On every shard and file hash, whether the shard was parsed or not, `build_file_chunk_plan` returns
-- a plan or an error: no index and no slice is out of bounds.
pub build_file_chunk_plan-Ends :
    (shard : MdbShardFile) (h : MerkleHash) (o : Option ℕ) → Ends (build_file_chunk_plan shard h o)
unfolding build_file_chunk_plan
build_file_chunk_plan-Ends shard h o =
    (Safe-bind (find_file shard h o) (find_file-Safe shard h o) (λ i at.
      let l : i < length shard.file_entries = find_file-lt shard h o i at in
      Safe-bind (slice shard.file_entries 0 i)
        (slice-Safe shard.file_entries 0 i (omega arith) (omega arith))
        (λ before _. Safe-bind (entries_before 0 before) (entries_before-Safe 0 before) (λ start _.
          Safe-bind (index shard.file_entries i) (index-Safe shard.file_entries i l) (λ entry _.
            Safe-bind (ok_or (checked_add start entry.num_entries) _) (Safe-ok_or _ _) (λ end e.
              Safe-bind (refuse (ltb (length shard.file_data_entries) end) _) (Safe-refuse _ _)
                (λ u fits.
                  Safe-bind (locate_xorbs (length shard.xorb_chunk_entries) 0 [] shard.xorb_entries)
                    (locate_xorbs-Safe _ 0 [] shard.xorb_entries)
                    (λ offsets _.
                      Safe-bind (raw_chunk_lookup [] shard.chunk_lookup_entries)
                        (raw_chunk_lookup-Safe [] shard.chunk_lookup_entries)
                        (λ raws _.
                          Safe-bind (slice shard.file_data_entries start end)
                            (slice-Safe shard.file_data_entries start end
                              (checked_add-le start entry.num_entries end _ e)
                              (bound (length shard.file_data_entries) end _ u fits))
                            (λ gs _.
                              Safe-bind (plan_segments shard.xorb_chunk_entries offsets raws 0 gs)
                                (plan_segments-Safe shard.xorb_chunk_entries offsets raws 0 gs)
                                (λ r _. Safe-ok _))))))))))).ends
