-- ===== src/XorbBuilder/Build.antt =====
-- `build` of src/format/xorb_builder.rs: the xorb that it writes is one that the server accepts.
use xet_server.Prelude.{
  ℕ, ◌+◌, ◌*◌, ◌%◌, ◌^◌, ◌≤◌, ◌≡◌, refl, sym, ap, ◌∙◌, subst, arith, false, List, [], ◌∷◌, ◌++◌,
  length, length-append, length-map, append-nil, drop, drop-append, map, sum_by, All, IsU32,
}
use native.Mathlib.Nat.{mod-eq_of_lt}
use xet_server.Outcome.{ok, Ends, bind-eq-ok, ok-injective}
use xet_server.Outcome.Safe.{Safe-bind, Safe-ok}
use xet_server.Hash.{MerkleHash, IsHash}
use xet_server.Hash.Keyed.{Blake3, HasDigests}
use xet_server.Hash.Hex.{Hex}
use xet_server.MerkleTree
use xet_server.MerkleTree.{Node}
use xet_server.MerkleTree.Words.{compute_data_hash-IsHash, xorb_hash-IsHash, NodeFits}
use xet_server.Xorb.ChunkHeader.{chunk_header_size}
use xet_server.Xorb.ObjectInfo.{
  XorbObjectInfoV1, to_bytes, serialized_len, from_bytes, max_chunks_per_xorb,
}
use xet_server.Xorb.Footer.{IsObjectInfo, from_bytes-to_bytes, length-to_bytes}
use xet_server.Xorb.Verify.{verify_xorb}
use xet_server.Xorb.Verify.Total.{xorb_hash-Safe, verify_xorb-Ends}
use xet_server.Xorb.VerifyFile.Agrees.{verify_xorb-accepts}
use xet_server.XorbBuilder.{
  ChunkData, XorbBuilder, XorbBuildResult, chunk_bytes, serialized_node, built_footer, xorb_hash,
  build,
}
use xet_server.XorbBuilder.Invariant.{AreLaid, AreLaid-sums, AreLaid-fits, IsXorbBuilder}
use xet_server.XorbBuilder.Chunks.{boundary, AreLaid-verify_chunks}
use xet_server.XorbBuilder.Ident.{has_ident, find_footer-footer}

long_footer : (info : XorbObjectInfoV1) → IsObjectInfo info → 60 ≤ length (to_bytes info)
unfolding serialized_len
long_footer info good = omega (arith, length-to_bytes info good.boundary_each good.unpacked_each)

module _ (blake3 : Blake3) (d : HasDigests blake3) where
  chunks-fit :
      (start unpacked : ℕ) (cs : List ChunkData) (end unpacked_end : ℕ)
      → AreLaid blake3 start unpacked cs end unpacked_end
      → All IsHash (map (λ (c : ChunkData). c.chunk_hash) cs)
        × All NodeFits (map serialized_node cs)
        × All IsU32 (map boundary cs)
        × All IsU32 (map (λ (c : ChunkData). c.unpacked_offset) cs)
  chunks-fit start unpacked [] end unpacked_end v = (tt, tt, tt, tt)
  chunks-fit start unpacked (c ∷ cs) end unpacked_end (w, v) =
      let (h, n, b, u) =
        chunks-fit (start + length c.serialized_chunk) (unpacked + c.uncompressed_size) cs end
          unpacked_end v in
      let hash : IsHash c.chunk_hash =
        subst IsHash (sym w.hashed) (compute_data_hash-IsHash blake3 c.serialized_chunk d) in
      (
        (hash, h),
        (hash, n),
        (w.boundary_fits, b),
        (subst IsU32 (sym w.unpacked_at) w.unpacked_fits, u),
      )

  built_footer-IsObjectInfo :
      (hex : Hex) (b : XorbBuilder) (h : MerkleHash)
      → IsXorbBuilder blake3 b
      → length b.chunks ≤ max_chunks_per_xorb
      → MerkleTree.xorb_hash blake3 hex (map serialized_node b.chunks) ≡ ok h
      → IsObjectInfo (built_footer b.chunks h)
  built_footer-IsObjectInfo hex b h v few e =
      let (hs, ns, bs, us) =
        chunks-fit 0 0 b.chunks b.next_boundary_offset b.next_unpacked_offset v.laid in
      let n = length-map (λ (c : ChunkData). c.chunk_hash) b.chunks in
      record {
        xorb_fits = xorb_hash-IsHash blake3 hex (map serialized_node b.chunks) h d ns e;
        hashes_fit = hs;
        boundaries_fit = bs;
        unpacked_fit = us;
        boundary_each = length-map boundary b.chunks ∙ sym n;
        unpacked_each = length-map (λ (c : ChunkData). c.unpacked_offset) b.chunks ∙ sym n;
        few = omega (arith, few, n);
      }

  -- For a builder with the invariant and at most 100 000 chunks, in whose footer the identifier
  -- stands only once, `build` returns the chunks' bytes, one behind the other, and the footer, with
  -- the builder's hash and the chunks' hashes; the total of the data is the builder's next unpacked
  -- offset, and the total of the compressed data is its next boundary less a header for each chunk.
  -- `verify_xorb` accepts what is returned, and the footer is read back from behind the chunks.
  pub build-verify_xorb :
      (hex : Hex) (b : XorbBuilder) (h : MerkleHash)
      → IsXorbBuilder blake3 b
      → length b.chunks ≤ max_chunks_per_xorb
      → xorb_hash blake3 hex b ≡ ok h
      → has_ident (drop 1 (to_bytes (built_footer b.chunks h))) ≡ false
      → (r : XorbBuildResult) × (build blake3 hex b ≡ ok r)
        × (verify_xorb blake3 hex r.«data» ≡ ok tt)
        × (from_bytes (drop b.next_boundary_offset r.«data») ≡ ok (built_footer b.chunks h))
        × (r.«data» ≡ chunk_bytes b.chunks ++ to_bytes (built_footer b.chunks h))
        × (r.xorb_hash ≡ h)
        × (r.chunk_hashes ≡ map (λ (c : ChunkData). c.chunk_hash) b.chunks)
        × (r.total_uncompressed_size ≡ b.next_unpacked_offset)
        × (r.total_compressed_size + chunk_header_size * length b.chunks ≡ b.next_boundary_offset)
  unfolding build xorb_hash
  build-verify_xorb hex b h v few e once =
      let info : XorbObjectInfoV1 = built_footer b.chunks h in
      let footer : List ℕ = to_bytes info in
      let front : List ℕ = chunk_bytes b.chunks in
      let good = built_footer-IsObjectInfo hex b h v few e in
      let (sum₁, sum₂, sum₃) =
        AreLaid-sums blake3 0 0 b.chunks b.next_boundary_offset b.next_unpacked_offset v.laid in
      let long : 60 ≤ length footer = long_footer info good in
      let at : drop (length front) (front ++ footer) ≡ footer ++ [] =
        drop-append front footer ∙ sym (append-nil footer) in
      let parsed : from_bytes (drop (length front) (front ++ footer)) ≡ ok info =
        ap from_bytes at ∙ from_bytes-to_bytes info [] good in
      let chunks =
        AreLaid-verify_chunks blake3 (length front) 0 0 b.chunks b.next_boundary_offset
          b.next_unpacked_offset [] footer [] v.laid refl in
      let accepted : verify_xorb blake3 hex (front ++ footer) ≡ ok tt =
        verify_xorb-accepts blake3 hex (front ++ footer) (length front) info
          (map serialized_node b.chunks) (omega (arith, length-append front footer))
          (find_footer-footer front info long once) parsed chunks e in
      (
        record {
          «data» = front ++ footer;
          xorb_hash = h;
          chunk_hashes = info.chunk_hashes;
          total_uncompressed_size =
              sum_by (λ (c : ChunkData). c.uncompressed_size) b.chunks % 2 ^ 64;
          total_compressed_size = sum_by (λ (c : ChunkData). c.compressed_len) b.chunks % 2 ^ 64;
        },
        rw (e, accepted),
        accepted,
        ap (λ n. from_bytes (drop n (front ++ footer))) (sym (omega (arith, sum₁))) ∙ parsed,
        refl,
        refl,
        refl,
        total (sum_by (λ (c : ChunkData). c.uncompressed_size) b.chunks) b.next_unpacked_offset sum₂
            v.next_fits,
        payloads (sum_by (λ (c : ChunkData). c.compressed_len) b.chunks) (length b.chunks)
            b.next_boundary_offset sum₃
            (AreLaid-fits blake3 0 0 b.chunks b.next_boundary_offset b.next_unpacked_offset v.laid
              (omega arith)),
      )
    where
      total : (s n : ℕ) → 0 + s ≡ n → IsU32 n → s % 2 ^ 64 ≡ n
      total s n p q = mod-eq_of_lt (omega (arith, p, q)) ∙ omega (arith, p)

      payloads :
          (s k n : ℕ)
          → 0 + s + chunk_header_size * k ≡ n
          → IsU32 n
          → s % 2 ^ 64 + chunk_header_size * k ≡ n
      payloads s k n p q =
          let m : s % 2 ^ 64 ≡ s = mod-eq_of_lt (omega (arith, p, q)) in omega (arith, m, p)

at_least_seven : (front : List ℕ) (info : XorbObjectInfoV1) → 7 ≤ length (front ++ to_bytes info)
unfolding to_bytes
at_least_seven front info = omega (arith, length-append front (to_bytes info))

-- Whatever the builder holds, `build` returns a xorb or an error, and what it returns `verify_xorb`
-- accepts.
pub build-Ends :
    (blake3 : Blake3) (hex : Hex) (b : XorbBuilder)
    → Ends (build blake3 hex b)
      × ((r : XorbBuildResult)
          → build blake3 hex b ≡ ok r
          → verify_xorb blake3 hex r.«data» ≡ ok tt)
unfolding build
build-Ends blake3 hex b = (
  (Safe-bind (MerkleTree.xorb_hash blake3 hex (map serialized_node b.chunks))
      (xorb_hash-Safe blake3 hex _)
      (λ h _.
        Safe-bind
          (verify_xorb blake3 hex (chunk_bytes b.chunks ++ to_bytes (built_footer b.chunks h)))
          (record {
            ends =
                (verify_xorb-Ends blake3 hex
                  (chunk_bytes b.chunks ++ to_bytes (built_footer b.chunks h)) []
                  (at_least_seven (chunk_bytes b.chunks) (built_footer b.chunks h))
                  (omega arith)).0;
          })
          (λ _ _. Safe-ok _))).ends,
  λ r e.
      let (h, e₁, r₁) =
        bind-eq-ok (MerkleTree.xorb_hash blake3 hex (map serialized_node b.chunks)) _ e in
      let (u, e₂, r₂) =
        bind-eq-ok
          (verify_xorb blake3 hex (chunk_bytes b.chunks ++ to_bytes (built_footer b.chunks h))) _
          r₁ in
      subst (λ (q : XorbBuildResult). verify_xorb blake3 hex q.«data» ≡ ok tt) (ok-injective r₂) e₂,
)
