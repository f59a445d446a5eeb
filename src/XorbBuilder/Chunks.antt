-- ===== src/XorbBuilder/Chunks.antt =====
-- The chunks of the builder of src/format/xorb_builder.rs, as the loop of `verify_xorb` meets them.
use xet_server.Prelude.{
  ℕ, ◌+◌, ◌≤◌, ◌≡◌, refl, sym, ap, ◌∙◌, arith, none, some, List, [], ◌∷◌, ◌++◌, length,
  length-append, append_assoc, take, drop, take-append, drop-append, get_elem?, map,
}
use xet_server.Outcome.{ok}
use xet_server.Slices.{get_elem?-right}
use xet_server.Hash.Keyed.{Blake3, compute_data_hash}
use xet_server.Xorb.Verify.{chunk_end, verify_chunks}
use xet_server.Xorb.VerifyFile.Agrees.{verify_chunks-chunk}
use xet_server.XorbBuilder.{ChunkData, chunk_bytes, serialized_node}
use xet_server.XorbBuilder.Invariant.{AreLaid}

abbrev pub boundary : ChunkData → ℕ
boundary c = c.boundary_offset

-- Behind `front` and the offsets `before`, the loop of `verify_xorb` accepts the chunks.
pub AreLaid-verify_chunks :
    (blake3 : Blake3) (footer_start start unpacked : ℕ) (cs : List ChunkData) (end unpacked_end : ℕ)
    (front more : List ℕ) (before : List ℕ)
    → AreLaid blake3 start unpacked cs end unpacked_end
    → length front ≡ start
    → verify_chunks blake3
        (front ++ (chunk_bytes cs ++ more))
        (before ++ map boundary cs)
        footer_start
        (map (λ (c : ChunkData). c.chunk_hash) cs)
        (length before)
        start
      ≡ ok (map serialized_node cs)
unfolding verify_chunks
AreLaid-verify_chunks blake3 footer_start start unpacked [] end unpacked_end front more before v f =
    refl
AreLaid-verify_chunks blake3 footer_start start unpacked (c ∷ cs) end unpacked_end front more before
      (w, v) f =
    let bs : List ℕ = front ++ (chunk_bytes (c ∷ cs) ++ more) in
    let offsets : List ℕ = before ++ map boundary (c ∷ cs) in
    let size : ℕ = length c.serialized_chunk in
    let shift : bs ≡ (front ++ c.serialized_chunk) ++ (chunk_bytes cs ++ more) =
      ap (λ xs. front ++ xs) (append_assoc c.serialized_chunk (chunk_bytes cs) more)
      ∙ sym (append_assoc front c.serialized_chunk (chunk_bytes cs ++ more)) in
    let shift_offsets : offsets ≡ (before ++ (c.boundary_offset ∷ [])) ++ map boundary cs =
      sym (append_assoc before (c.boundary_offset ∷ []) (map boundary cs)) in
    let grown : length (front ++ c.serialized_chunk) ≡ start + size =
      omega (arith, f, length-append front c.serialized_chunk) in
    let one_more : length (before ++ (c.boundary_offset ∷ [])) ≡ length before + 1 =
      omega (arith, length-append before (c.boundary_offset ∷ [])) in
    let rest =
      AreLaid-verify_chunks blake3 footer_start (start + size) (unpacked + c.uncompressed_size) cs
        end unpacked_end (front ++ c.serialized_chunk) more (before ++ (c.boundary_offset ∷ [])) v
        grown in
    let at : drop start bs ≡ c.serialized_chunk ++ (chunk_bytes cs ++ more) =
      ap (λ n. drop n bs) (sym f)
      ∙ (drop-append front (chunk_bytes (c ∷ cs) ++ more)
          ∙ append_assoc c.serialized_chunk (chunk_bytes cs) more) in
    let whole : take size (drop start bs) ≡ c.serialized_chunk =
      ap (take size) at ∙ take-append c.serialized_chunk (chunk_bytes cs ++ more) in
    let ends : chunk_end offsets footer_start (length before) ≡ start + size =
      ap (λ o. elim o [ none ↦ footer_start | some e ↦ e ])
        (ap (get_elem? offsets) (sym (add_zero (length before)))
          ∙ get_elem?-right before (map boundary (c ∷ cs)) 0)
      ∙ w.bounded in
    let fits : start + size ≤ length bs = omega (
      arith,
      ap length shift,
      grown,
      length-append (front ++ c.serialized_chunk) (chunk_bytes cs ++ more),
    ) in
    verify_chunks-chunk blake3 bs offsets footer_start c.chunk_hash
      (map (λ (c : ChunkData). c.chunk_hash) cs) (length before) start size (map serialized_node cs)
      fits ends (ap (compute_data_hash blake3) whole ∙ sym w.hashed)
      (ap
          (λ xs.
            verify_chunks blake3 xs offsets footer_start (map (λ (c : ChunkData). c.chunk_hash) cs)
              (length before + 1) (start + size))
          shift
        ∙ (ap
              (λ xs.
                verify_chunks blake3 ((front ++ c.serialized_chunk) ++ (chunk_bytes cs ++ more)) xs
                  footer_start (map (λ (c : ChunkData). c.chunk_hash) cs) (length before + 1)
                  (start + size))
              shift_offsets
            ∙ (ap
                  (λ i.
                    verify_chunks blake3 ((front ++ c.serialized_chunk) ++ (chunk_bytes cs ++ more))
                      ((before ++ (c.boundary_offset ∷ [])) ++ map boundary cs) footer_start
                      (map (λ (c : ChunkData). c.chunk_hash) cs) i (start + size))
                  (sym one_more)
                ∙ rest)))
  where
    add_zero : (n : ℕ) → n + 0 ≡ n
    add_zero n = omega arith
