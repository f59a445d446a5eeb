-- ===== src/Chunking/Streaming.antt =====
-- src/chunking/cdc.rs: the chunks of a stream of blocks are those of all its bytes at once.
use xet_server.Prelude.{
  ℕ, zero, suc, ◌+◌, ◌-◌, ◌≤◌, ◌<◌, false, le→ltb, lt-cases, inl, inr, List, [], ◌∷◌, ◌++◌, flatten,
  append_assoc, append-nil, length, length-append, length-drop, drop, drop-within, ◌≡◌, refl, sym,
  ap, ◌∙◌, subst, arith,
}
use xet_server.Outcome.{Outcome, ok, ◌>>=◌}
use xet_server.Chunking.{
  GearHash, ChunkConfig, new_chunker, new_streaming, Chunker, Chunk, hasher_window_size, chunk_at,
  reset, chunk_data, drained_size, StreamingChunker, drain_loop, next_block, finalize, total_bytes,
}
use xet_server.Chunking.Cut.{IsGearHash, IsChunker, IsCut, new_chunker-IsChunker, chunk_at-IsCut}
use xet_server.Chunking.Local.{chunk_at-drained}
use xet_server.Chunking.Tiling.{Cuts, cut, Cuts-unique, chunk_loop-Cuts, chunk_data-Cuts}

drained_size-IsCut :
    (gear : GearHash) (c : Chunker) (buffer : List ℕ)
    → IsGearHash gear
    → IsChunker c
    → c.max_chunk ≤ length buffer
    → IsCut c (length buffer - 0) (drained_size gear c buffer) false
drained_size-IsCut gear c buffer g v h =
    subst (λ r. IsCut c (length buffer - 0) r.0 r.1)
      (ap (λ xs. chunk_at gear c xs 0) (sym (append-nil buffer))
        ∙ chunk_at-drained gear c buffer [] v h)
      (chunk_at-IsCut gear c buffer 0 g v (omega (arith, v.0)))

-- What a drained stream leaves: whatever bytes come next, the chunks of the old buffer with them
-- are those drained, then those of the new buffer with them.
pub record Drained (gear : GearHash) (s : StreamingChunker) (cs : List Chunk)
    (s' : StreamingChunker) : Type 0 where
  pub bounds_kept : IsChunker s'.chunker
  pub total_kept : total_bytes s' ≡ total_bytes s
  pub continued :
      (more : List ℕ) (ds : List Chunk)
      → Cuts gear s'.total_offset s'.chunker (s'.buffer ++ more) ds
      → Cuts gear s.total_offset s.chunker (s.buffer ++ more) (cs ++ ds)
  pub waits : length s'.buffer < s'.chunker.max_chunk

pub drain_loop-Drained :
    (fuel : ℕ) (gear : GearHash) (s : StreamingChunker)
    → IsGearHash gear
    → IsChunker s.chunker
    → length s.buffer < fuel
    → (cs : List Chunk) × (s' : StreamingChunker) × (drain_loop fuel gear s ≡ ok (cs, s'))
      × Drained gear s cs s'
unfolding drain_loop total_bytes
drain_loop-Drained zero gear s g v h = absurd (omega (arith, h))
drain_loop-Drained (suc fuel) gear s g v h =
    let c : Chunker = s.chunker in
    let size : ℕ = drained_size gear c s.buffer in
    elim (lt-cases (length s.buffer) c.max_chunk) [
      | inl short ↦ (
        [],
        s,
        ground arith,
        record { bounds_kept = v; total_kept = refl; continued = λ more ds r. r; waits = short },
      )
      | inr full ↦
          let w : IsCut c (length s.buffer - 0) size false =
            drained_size-IsCut gear c s.buffer g v full in
          let some_byte : 0 < size = w.some_byte in
          let in_range : size ≤ length s.buffer - 0 = w.in_range in
          let next : StreamingChunker = record {
            chunker = reset c;
            buffer = drop size s.buffer;
            total_offset = s.total_offset + size;
          } in
          let l : length (drop size s.buffer) ≡ length s.buffer - size =
            length-drop size s.buffer in
          let (cs, s', e, d) = drain_loop-Drained fuel gear next g v (omega arith) in
          (
            record { offset = s.total_offset; size = size } ∷ cs,
            s',
            rw (
              le→ltb (length s.buffer) c.min_chunk (omega (arith, v.1)),
              le→ltb (length s.buffer) c.max_chunk full,
              le→ltb c.max_chunk (c.min_chunk - (hasher_window_size + 1)) (omega (arith, v.1)),
              le→ltb (length s.buffer) size (omega arith),
              e,
            ),
            record {
              bounds_kept = d.bounds_kept;
              total_kept = omega (arith, d.total_kept);
              continued = λ more ds r.
                  cut (omega (arith, v.0, length-append s.buffer more))
                    (chunk_at-drained gear c s.buffer more v full)
                    (subst (λ xs. Cuts gear (s.total_offset + size) (reset c) xs (cs ++ ds))
                      (sym (drop-within size s.buffer more (omega arith))) (d.continued more ds r));
              waits = d.waits;
            },
          )
    ]

-- A caller's loop: the blocks are fed one after another, and the chunker is finalized.
unfoldable pub chunk_blocks : GearHash → StreamingChunker → List (List ℕ) → Outcome (List Chunk)
chunk_blocks gear s [] = finalize gear s
chunk_blocks gear s (block ∷ blocks) = do
  (cs, s') ← next_block gear s block
  ds ← chunk_blocks gear s' blocks
  ok (cs ++ ds)

next_block-Drained :
    (gear : GearHash) (s : StreamingChunker) (block : List ℕ)
    → IsGearHash gear
    → IsChunker s.chunker
    → (cs : List Chunk) × (s' : StreamingChunker) × (next_block gear s block ≡ ok (cs, s'))
      × Drained gear (record s { buffer = s.buffer ++ block }) cs s'
unfolding next_block
next_block-Drained gear s block g v =
    drain_loop-Drained (suc (length (s.buffer ++ block))) gear
      (record s { buffer = s.buffer ++ block }) g v (omega arith)

pub chunk_blocks-Cuts :
    (gear : GearHash) (s : StreamingChunker) (blocks : List (List ℕ))
    → IsGearHash gear
    → IsChunker s.chunker
    → (cs : List Chunk) × (chunk_blocks gear s blocks ≡ ok cs)
      × Cuts gear s.total_offset s.chunker (s.buffer ++ flatten blocks) cs
unfolding chunk_blocks finalize
chunk_blocks-Cuts gear s [] g v =
    let (cs, c, e, r) =
      chunk_loop-Cuts (length s.buffer) gear s.total_offset s.chunker s.buffer 0 g v (omega arith)
        (omega arith) in
    (
      cs,
      rw e,
      subst (λ xs. Cuts gear s.total_offset s.chunker xs cs) (sym (append-nil s.buffer))
          (subst (λ n. Cuts gear n s.chunker s.buffer cs) (omega arith) r),
    )
chunk_blocks-Cuts gear s (block ∷ blocks) g v =
    let (cs, s', e, d) = next_block-Drained gear s block g v in
    let (ds, e', r) = chunk_blocks-Cuts gear s' blocks g d.bounds_kept in
    (
      cs ++ ds,
      rw (e, e'),
      subst (λ xs. Cuts gear s.total_offset s.chunker xs (cs ++ ds))
          (append_assoc s.buffer block (flatten blocks)) (d.continued (flatten blocks) ds r),
    )

-- For a gear hash as documented and a configuration that `new` accepts, with a multiplier of at
-- least 1: however the data comes in blocks, the chunks that the streaming chunker returns for
-- them, with those of `finalize`, are the chunks that `chunk_data` returns for all of the data, and
-- both end.
pub chunk_blocks-chunk_data :
    (gear : GearHash) (config : ChunkConfig) (c : Chunker) (blocks : List (List ℕ))
    → IsGearHash gear
    → 0 < config.max_chunk_multiplier
    → new_chunker config ≡ ok c
    → (cs : List Chunk) × (c' : Chunker) × ((new_streaming config >>= λ s.
          chunk_blocks gear s blocks)
        ≡ ok cs)
      × (chunk_data gear c (flatten blocks) ≡ ok (cs, c'))
unfolding new_streaming
chunk_blocks-chunk_data gear config c blocks g m n =
    let v = new_chunker-IsChunker config c m n in
    let (cs, e, r) =
      chunk_blocks-Cuts gear (record { chunker = c; buffer = []; total_offset = 0 }) blocks g v in
    let (ds, c', e', r') = chunk_data-Cuts gear c (flatten blocks) g v in
    (cs, c', rw (n, e), rw (Cuts-unique r r') e')

-- For a gear hash as documented and a chunker whose minimum is at most its maximum, which is not 0:
-- a block that is fed adds its length to the
-- total, no byte is lost, and fewer than `max_chunk` bytes wait in the buffer after it.
pub next_block-total_bytes :
    (gear : GearHash) (s : StreamingChunker) (block : List ℕ)
    → IsGearHash gear
    → IsChunker s.chunker
    → (cs : List Chunk) × (s' : StreamingChunker) × (next_block gear s block ≡ ok (cs, s'))
      × (total_bytes s' ≡ total_bytes s + length block)
      × (length s'.buffer < s'.chunker.max_chunk)
unfolding total_bytes
next_block-total_bytes gear s block g v =
    let (cs, s', e, d) = next_block-Drained gear s block g v in
    (cs, s', e, omega (arith, d.total_kept, length-append s.buffer block), d.waits)
