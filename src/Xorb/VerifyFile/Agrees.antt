-- ===== src/Xorb/VerifyFile/Agrees.antt =====
-- A xorb whose file `verify_xorb_from_file_with_info` of src/format/xorb.rs accepts is one that
-- `verify_xorb` accepts in memory.
use xet_server.Prelude.{
  ℕ, ◌+◌, ◌-◌, ◌≤◌, ◌≡◌, refl, sym, ap, ◌∙◌, arith, not, ◌||◌, ltb, some, List, [], ◌∷◌, length,
  length-take, take, take-all, drop, length-drop, map,
}
use xet_server.Outcome.{ok, parse_error, XetError, refuse}
use xet_server.Slices.{slice}
use xet_server.Hash.{MerkleHash, eq_hash}
use xet_server.Hash.Laws.{eq_hash_iff}
use xet_server.Hash.Keyed.{Blake3, compute_data_hash}
use xet_server.Hash.Hex.{Hex}
use xet_server.MerkleTree.{Node, xorb_hash}
use xet_server.Xorb.ObjectInfo.{XorbObjectInfoV1, from_bytes}
use xet_server.Xorb.Verify.{chunk_end, find_footer, verify_chunks, verify_xorb}
use xet_server.Xorb.Verify.Search.{slice-window}
use xet_server.Xorb.VerifyFile.{
  VerifiedXorbInfo, VerifiedXorbChunkInfo, chunk_node, verify_xorb_from_file_with_info,
}
use xet_server.Xorb.VerifyFile.Sound.{Verified, no_chunk, a_chunk}
use xet_server.Xorb.VerifyFile.Accepted.{verify_xorb_from_file_with_info-IsVerifiedXorb}

pub refuse_same_hash :
    (a b : MerkleHash) (x : XetError) → a ≡ b → refuse (not (eq_hash a b)) x ≡ ok tt
refuse_same_hash a b x e = rw ((eq_hash_iff a b).1 e)

in_bounds-refuse :
    (n end current : ℕ) (x : XetError)
    → current ≤ end
    → end ≤ n
    → refuse (ltb n end || ltb end current) x ≡ ok tt
in_bounds-refuse n end current x a b = ground arith

-- The round of `verify_xorb` at a chunk.
pub verify_chunks-chunk :
    (blake3 : Blake3) (bs offsets : List ℕ) (footer_start : ℕ) (h : MerkleHash)
    (hs : List MerkleHash) (i start size : ℕ) (ns : List Node)
    → start + size ≤ length bs
    → chunk_end offsets footer_start i ≡ start + size
    → compute_data_hash blake3 (take size (drop start bs)) ≡ h
    → verify_chunks blake3 bs offsets footer_start hs (i + 1) (start + size) ≡ ok ns
    → verify_chunks blake3 bs offsets footer_start (h ∷ hs) i start ≡ ok ((h, size) ∷ ns)
unfolding verify_chunks
verify_chunks-chunk blake3 bs offsets footer_start h hs i start size ns fits ends hashed rest =
    let n : length (take size (drop start bs)) ≡ size =
      omega (arith, length-take size (drop start bs), length-drop start bs) in
    rw (
      ends,
      in_bounds-refuse (length bs) (start + size) start (parse_error "Invalid chunk boundary")
          (omega arith) fits,
      slice-window bs start size fits,
      hashed,
      refuse_same_hash h h (parse_error "Chunk hash mismatch") refl,
      rest,
      n,
    )

Verified-verify_chunks :
    (blake3 : Blake3) (content : List ℕ) (footer : XorbObjectInfoV1) (footer_start : ℕ)
    (hs : List MerkleHash) (i start unpacked : ℕ) (cs : List VerifiedXorbChunkInfo) (end : ℕ)
    → Verified blake3 content footer footer_start hs i start unpacked cs end
    → verify_chunks blake3 content footer.chunk_boundary_offsets footer_start hs i start
      ≡ ok (map chunk_node cs)
unfolding verify_chunks
Verified-verify_chunks blake3 content footer footer_start [] i start unpacked [] end no_chunk = refl
Verified-verify_chunks blake3 content footer footer_start [] i start unpacked (c ∷ cs) end w =
    elim w [ ]
Verified-verify_chunks blake3 content footer footer_start (h ∷ hs) i start unpacked [] end w =
    elim w [ ]
Verified-verify_chunks blake3 content footer footer_start (h ∷ hs) i start unpacked (c ∷ cs) end
      (a_chunk v b rest) =
    let more =
      Verified-verify_chunks blake3 content footer footer_start hs (i + 1) c.serialized_end
        (unpacked + c.unpacked_len) cs end rest in
    verify_chunks-chunk blake3 content footer.chunk_boundary_offsets footer_start h hs i start
      c.serialized_len (map chunk_node cs) v.in_file (sym b ∙ v.ends) (sym v.hashed ∙ v.expected)
      (ap (verify_chunks blake3 content footer.chunk_boundary_offsets footer_start hs (i + 1))
          (sym v.ends)
        ∙ more)
    ∙ ap (λ x. ok ((x, c.serialized_len) ∷ map chunk_node cs)) (sym v.expected)

slice-tail : (bs : List ℕ) (s : ℕ) → s ≤ length bs → slice bs s (length bs) ≡ ok (drop s bs)
slice-tail bs s h =
    let e : s + (length bs - s) ≡ length bs = omega arith in
    let w = slice-window bs s (length bs - s) (omega arith) in
    ap (slice bs s) (sym e)
    ∙ (w
        ∙ ap ok (
            ap (λ n. take n (drop s bs)) (sym (length-drop s bs))
            ∙ take-all (length (drop s bs)) (drop s bs) (omega arith)))

-- The steps of `verify_xorb`, one after the other.
pub verify_xorb-accepts :
    (blake3 : Blake3) (hex : Hex) (bs : List ℕ) (footer_start : ℕ) (footer : XorbObjectInfoV1)
    (ns : List Node)
    → footer_start ≤ length bs
    → find_footer (length bs - 7) bs ≡ ok (some footer_start)
    → from_bytes (drop footer_start bs) ≡ ok footer
    → verify_chunks blake3 bs footer.chunk_boundary_offsets footer_start footer.chunk_hashes 0 0
      ≡ ok ns
    → xorb_hash blake3 hex ns ≡ ok footer.xorb_hash
    → verify_xorb blake3 hex bs ≡ ok tt
unfolding verify_xorb
verify_xorb-accepts blake3 hex bs footer_start footer ns fits found parsed chunks hash = rw (
  found,
  slice-tail bs footer_start fits,
  parsed,
  chunks,
  hash,
  refuse_same_hash footer.xorb_hash footer.xorb_hash (parse_error "Xorb hash mismatch") refl,
)

-- What the check of a file accepts, the check in memory of its bytes accepts.
pub verify_xorb-verify_xorb_from_file_with_info :
    (blake3 : Blake3) (hex : Hex) (content : List ℕ) (info : VerifiedXorbInfo)
    → verify_xorb_from_file_with_info blake3 hex content ≡ ok info
    → verify_xorb blake3 hex content ≡ ok tt
verify_xorb-verify_xorb_from_file_with_info blake3 hex content info e =
    let v = verify_xorb_from_file_with_info-IsVerifiedXorb blake3 hex content info e in
    let ends = v.located.ends_file in
    verify_xorb-accepts blake3 hex content info.footer_start v.footer (map chunk_node info.chunks)
      (omega (arith, ends)) v.located.found v.located.parsed
      (Verified-verify_chunks blake3 content v.footer info.footer_start v.footer.chunk_hashes 0 0 0
        info.chunks info.footer_start v.chunks_fill)
      (v.hash_of_chunks ∙ ap ok v.hash_in_footer)
