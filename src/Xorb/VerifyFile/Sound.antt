-- ===== src/Xorb/VerifyFile/Sound.antt =====
-- What a file that `verify_xorb_from_file_with_info` of src/format/xorb.rs accepts consists of.
use xet_server.Prelude.{
  ℕ, ◌+◌, ◌-◌, ◌≤◌, ◌≡◌, refl, sym, ap, ◌∙◌, subst, arith, not, ◌||◌, ◌==◌, ltb, List, [], ◌∷◌,
  ◌++◌, length, take, drop, drop-drop, length-drop, get_elem?,
}
use xet_server.Outcome.{ok, XetError, refuse, ok_or, bind-eq-ok, ok-injective}
use xet_server.Hash.{MerkleHash, eq_hash}
use xet_server.Hash.Laws.{eq_hash_iff}
use xet_server.Hash.Keyed.{Blake3, compute_data_hash}
use xet_server.Xorb.ChunkHeader.{XorbChunkHeader, chunk_header_size}
use xet_server.Xorb.ObjectInfo.{XorbObjectInfoV1}
use xet_server.Xorb.Verify.{chunk_end}
use xet_server.Xorb.Verify.Total.{in_bounds}
use xet_server.Xorb.VerifyFile.{
  VerifiedXorbChunkInfo, read_exact_at, read_payload, parse_header, verify_file_chunk,
  verify_file_chunks,
}
use xet_server.Xorb.VerifyFile.Reading.{read_exact_at-take, read_payload-take, take-take}

-- A chunk that begins at `start`, behind `unpacked` bytes of data. Its bytes are those of a header,
-- which is parsed and says both lengths, and a payload as long as the header says, and they have the
-- expected hash.
pub record IsVerifiedChunk (blake3 : Blake3) (content : List ℕ) (footer_start start unpacked : ℕ)
    (h : MerkleHash) (c : VerifiedXorbChunkInfo) : Type 0 where
  pub header : XorbChunkHeader
  pub header_parsed : parse_header (take chunk_header_size (drop start content)) ≡ ok header
  pub payload_said : c.compressed_payload_len ≡ header.compressed_length
  pub data_said : c.unpacked_len ≡ header.uncompressed_length
  pub starts : c.serialized_start ≡ start
  pub ends : c.serialized_end ≡ start + c.serialized_len
  pub before_footer : c.serialized_end ≤ footer_start
  pub unpacked_at : c.unpacked_start ≡ unpacked
  pub framed : c.serialized_len ≡ chunk_header_size + c.compressed_payload_len
  pub in_file : start + c.serialized_len ≤ length content
  pub hashed :
      c.serialized_chunk_hash
      ≡ compute_data_hash blake3 (take c.serialized_len (drop start content))
  pub expected : c.serialized_chunk_hash ≡ h

pub same : (a b : ℕ) (x : XetError) (u : Unit {0}) → refuse (not (a == b)) x ≡ ok u → a ≡ b
same a b x u e = ground arith

pub same_hash :
    (a b : MerkleHash) (x : XetError) (u : Unit {0}) → refuse (not (eq_hash a b)) x ≡ ok u → a ≡ b
same_hash a b x u e = (eq_hash_iff a b).0 (ground (arith, e))

-- The checks and reads of a round that passes.
verified_chunk :
    (blake3 : Blake3) (content : List ℕ) (footer_start start end unpacked at : ℕ) (h : MerkleHash)
    (header_bytes payload : List ℕ) (header : XorbChunkHeader) (x₁ x₄ x₆ x₈ : XetError)
    (u₁ u₄ u₆ u₈ : Unit {0})
    → refuse (ltb footer_start end || ltb end start) x₁ ≡ ok u₁
    → read_exact_at content start chunk_header_size ≡ ok header_bytes
    → parse_header header_bytes ≡ ok header
    → refuse (not (end - start == chunk_header_size + header.compressed_length)) x₄ ≡ ok u₄
    → refuse (not (at == unpacked)) x₆ ≡ ok u₆
    → read_payload header.compressed_length header.compressed_length
        (drop (start + chunk_header_size) content)
      ≡ ok payload
    → refuse (not (eq_hash (compute_data_hash blake3 (header_bytes ++ payload)) h)) x₈ ≡ ok u₈
    → IsVerifiedChunk blake3 content footer_start start unpacked h (record {
      serialized_chunk_hash = compute_data_hash blake3 (header_bytes ++ payload);
      serialized_start = start;
      serialized_end = end;
      serialized_len = end - start;
      unpacked_start = at;
      unpacked_len = header.uncompressed_length;
      compressed_payload_len = header.compressed_length;
    })
verified_chunk blake3 content footer_start start end unpacked at h header_bytes payload header x₁ x₄
      x₆ x₈ u₁ u₄ u₆ u₈ e₁ e₂ e₃ e₄ e₆ e₇ e₈ =
    let w = in_bounds footer_start end start x₁ u₁ e₁ in
    let size : end - start ≡ chunk_header_size + header.compressed_length = same _ _ x₄ u₄ e₄ in
    let r = read_exact_at-take content start 7 header_bytes e₂ in
    let p =
      read_payload-take header.compressed_length header.compressed_length
        (drop (start + chunk_header_size) content) payload (omega arith) e₇ in
    let whole : header_bytes ++ payload ≡ take (end - start) (drop start content) =
      ap (λ b. b ++ payload) r.0
      ∙ (ap (λ b. take chunk_header_size (drop start content) ++ b)
            (p.0
              ∙ ap (take header.compressed_length)
                  (sym (drop-drop start chunk_header_size content)))
          ∙ (take-take chunk_header_size header.compressed_length (drop start content)
              ∙ ap (λ n. take n (drop start content)) (sym size))) in
    record {
      header = header;
      header_parsed = ap parse_header (sym r.0) ∙ e₃;
      payload_said = refl;
      data_said = refl;
      starts = refl;
      ends = omega (arith, w.0);
      before_footer = w.1;
      unpacked_at = same at unpacked x₆ u₆ e₆;
      framed = size;
      in_file = omega (arith, size, r.1, p.1, length-drop (start + chunk_header_size) content);
      hashed = ap (compute_data_hash blake3) whole;
      expected = same_hash _ h x₈ u₈ e₈;
    }

pub verify_file_chunk-IsVerifiedChunk :
    (blake3 : Blake3) (content : List ℕ) (footer : XorbObjectInfoV1) (footer_start : ℕ)
    (h : MerkleHash) (i start unpacked : ℕ) (c : VerifiedXorbChunkInfo)
    → verify_file_chunk blake3 content footer footer_start h i start unpacked ≡ ok c
    → IsVerifiedChunk blake3 content footer_start start unpacked h c
      × (c.serialized_end ≡ chunk_end footer.chunk_boundary_offsets footer_start i)
unfolding verify_file_chunk
verify_file_chunk-IsVerifiedChunk blake3 content footer footer_start h i start unpacked c e =
    let end : ℕ = chunk_end footer.chunk_boundary_offsets footer_start i in
    let (u₁, e₁, r₁) = bind-eq-ok (refuse (ltb footer_start end || ltb end start) _) _ e in
    let (header_bytes, e₂, r₂) = bind-eq-ok (read_exact_at content start chunk_header_size) _ r₁ in
    let (header, e₃, r₃) = bind-eq-ok (parse_header header_bytes) _ r₂ in
    let (u₄, e₄, r₄) =
      bind-eq-ok (refuse (not (end - start == chunk_header_size + header.compressed_length)) _) _
        r₃ in
    let (at, e₅, r₅) = bind-eq-ok (ok_or (get_elem? footer.unpacked_chunk_offsets i) _) _ r₄ in
    let (u₆, e₆, r₆) = bind-eq-ok (refuse (not (at == unpacked)) _) _ r₅ in
    let (payload, e₇, r₇) =
      bind-eq-ok
        (read_payload header.compressed_length header.compressed_length
          (drop (start + chunk_header_size) content))
        _ r₆ in
    let (u₈, e₈, r₈) =
      bind-eq-ok (refuse (not (eq_hash (compute_data_hash blake3 (header_bytes ++ payload)) h)) _) _
        r₇ in
    subst
      (λ q.
        IsVerifiedChunk blake3 content footer_start start unpacked h q × (q.serialized_end ≡ end))
      (ok-injective r₈)
      (
        verified_chunk blake3 content footer_start start end unpacked at h header_bytes payload
            header _ _ _ _ u₁ u₄ u₆ u₈ e₁ e₂ e₃ e₄ e₆ e₇ e₈,
        refl,
      )

-- The chunks from number `i` on, one behind the other from `start` to `end`, each where the footer
-- says and behind the data of those before it.
pub data Verified (blake3 : Blake3) (content : List ℕ) (footer : XorbObjectInfoV1)
    (footer_start : ℕ) : List MerkleHash → ℕ → ℕ → ℕ → List VerifiedXorbChunkInfo → ℕ → Type 0 where
  no_chunk :
      {i start unpacked : ℕ}
      → Verified blake3 content footer footer_start [] i start unpacked [] start
  a_chunk :
      {h : MerkleHash} {hs : List MerkleHash} {i start unpacked end : ℕ} {c : VerifiedXorbChunkInfo}
      {cs : List VerifiedXorbChunkInfo}
      → IsVerifiedChunk blake3 content footer_start start unpacked h c
      → c.serialized_end ≡ chunk_end footer.chunk_boundary_offsets footer_start i
      → Verified blake3 content footer footer_start hs
          (i + 1)
          c.serialized_end
          (unpacked + c.unpacked_len)
          cs
          end
      → Verified blake3 content footer footer_start (h ∷ hs) i start unpacked (c ∷ cs) end

pub verify_file_chunks-Verified :
    (blake3 : Blake3) (content : List ℕ) (footer : XorbObjectInfoV1) (footer_start : ℕ)
    (hs : List MerkleHash) (i start unpacked : ℕ) (cs : List VerifiedXorbChunkInfo) (end : ℕ)
    → verify_file_chunks blake3 content footer footer_start hs i start unpacked ≡ ok (cs, end)
    → Verified blake3 content footer footer_start hs i start unpacked cs end
unfolding verify_file_chunks
verify_file_chunks-Verified blake3 content footer footer_start [] i start unpacked cs end e =
    subst (λ r. Verified blake3 content footer footer_start [] i start unpacked r.0 r.1)
      (ok-injective e) no_chunk
verify_file_chunks-Verified blake3 content footer footer_start (h ∷ hs) i start unpacked cs end e =
    let (c, e₁, r₁) =
      bind-eq-ok (verify_file_chunk blake3 content footer footer_start h i start unpacked) _ e in
    let ((ds, stop), e₂, r₂) =
      bind-eq-ok
        (verify_file_chunks blake3 content footer footer_start hs (i + 1) c.serialized_end
          (unpacked + c.unpacked_len))
        _ r₁ in
    let (v, b) =
      verify_file_chunk-IsVerifiedChunk blake3 content footer footer_start h i start unpacked c
        e₁ in
    subst (λ r. Verified blake3 content footer footer_start (h ∷ hs) i start unpacked r.0 r.1)
      (ok-injective r₂)
      (a_chunk v b (
        verify_file_chunks-Verified blake3 content footer footer_start hs (i + 1) c.serialized_end
          (unpacked + c.unpacked_len) ds stop e₂))
