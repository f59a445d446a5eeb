-- ===== src/Xorb/VerifyFile/Accepted.antt =====
-- What `verify_xorb_from_file_with_info` of src/format/xorb.rs says of a file that it accepts.
use xet_server.Prelude.{
  ℕ, ◌+◌, ◌-◌, ◌≤◌, ◌≡◌, refl, sym, ap, ◌∙◌, subst, arith, min, not, ◌&&◌, ◌==◌, ltb, leb,
  Bool-cases, inl, inr, ◌*◌, sum_by, Option, none, some, List, length, take, drop, take-all,
  drop-drop, length-drop, map, checked_add,
}
use xet_server.Outcome.{ok, panicked, XetError, refuse, ok_or, bind-eq-ok, ok-injective}
use xet_server.Slices.{slice}
use xet_server.Hash.{MerkleHash, eq_hash}
use xet_server.Xorb.ChunkHeader.{chunk_header_size}
use xet_server.Hash.Keyed.{Blake3}
use xet_server.Hash.Hex.{Hex}
use xet_server.MerkleTree.{xorb_hash}
use xet_server.Xorb.ObjectInfo.{XorbObjectInfoV1, max_serialized_len, serialized_len, from_bytes}
use xet_server.Xorb.Verify.{find_footer}
use xet_server.Xorb.Verify.Search.{find_footer-drop}
use xet_server.Xorb.VerifyFile.{
  VerifiedXorbChunkInfo, VerifiedXorbInfo, verify_file_chunks, chunk_node, locate_footer,
  verify_xorb_from_file_with_info,
}
use xet_server.Xorb.VerifyFile.Sound.{
  Verified, no_chunk, a_chunk, verify_file_chunks-Verified, same, same_hash,
}

-- The footer stands where the last identifier of the file does, and ends the file.
pub record Located (content : List ℕ) (footer : XorbObjectInfoV1) (footer_start : ℕ) : Type 0 where
  pub long_enough : 8 ≤ length content
  pub found : find_footer (length content - 7) content ≡ ok (some footer_start)
  pub parsed : from_bytes (drop footer_start content) ≡ ok footer
  pub ends_file : footer_start + serialized_len footer ≡ length content

slice-drop : (xs : List ℕ) (i : ℕ) (ys : List ℕ) → slice xs i (length xs) ≡ ok ys → ys ≡ drop i xs
slice-drop xs i ys e = elim (Bool-cases (leb i (length xs) && leb (length xs) (length xs))) [
  | inl fits ↦
      let w : ok (take (length xs - i) (drop i xs)) ≡ ok ys = rw fits at e in
      sym (ok-injective w)
      ∙ (ap (λ n. take n (drop i xs)) (sym (length-drop i xs))
          ∙ take-all (length (drop i xs)) (drop i xs) (omega arith))
  | inr over ↦ let w : panicked ≡ ok ys = rw over at e in cc
]

some_of : (o : Option ℕ) (x : XetError) (k : ℕ) → ok_or o x ≡ ok k → o ≡ some k
some_of none x k e = cc
some_of (some j) x k e = ap some (ok-injective e)

added : (a b : ℕ) (x : XetError) (k : ℕ) → ok_or (checked_add a b) x ≡ ok k → k ≡ a + b
added a b x k e = ground arith

-- The tail that is searched holds every place of the file's end where the footer can be.
located :
    (content : List ℕ) (x₁ x₂ x₆ x₇ : XetError) (u₁ u₇ : Unit {0}) (found : Option ℕ) (i end : ℕ)
    (tail : List ℕ) (footer : XorbObjectInfoV1) (t : ℕ)
    → t ≡ length content - min (length content) max_serialized_len
    → refuse (ltb (length content) 8) x₁ ≡ ok u₁
    → find_footer (length (drop t content) - 7) (drop t content) ≡ ok found
    → ok_or found x₂ ≡ ok i
    → slice (drop t content) i (length (drop t content)) ≡ ok tail
    → from_bytes tail ≡ ok footer
    → ok_or (checked_add (t + i) (serialized_len footer)) x₆ ≡ ok end
    → refuse (not (end == length content)) x₇ ≡ ok u₇
    → Located content footer (t + i)
located content x₁ x₂ x₆ x₇ u₁ u₇ found i end tail footer t t_is e₁ e₂ e₃ e₄ e₅ e₆ e₇ =
    let long : 8 ≤ length content = ground (arith, e₁) in
    let size = length-drop t content in
    let q : t + (length (drop t content) - 7) ≡ length content - 7 = omega (arith, t_is) in
    let hit : find_footer (length (drop t content) - 7) (drop t content) ≡ ok (some i) =
      e₂ ∙ ap ok (some_of found x₂ i e₃) in
    record {
      long_enough = long;
      found =
          ap (λ n. find_footer n content) (sym q)
          ∙ find_footer-drop (length (drop t content) - 7) t i content (omega (arith, t_is)) hit;
      parsed =
          ap from_bytes (sym (slice-drop (drop t content) i tail e₄ ∙ drop-drop t i content)) ∙ e₅;
      ends_file =
          sym (added (t + i) (serialized_len footer) x₆ end e₆)
          ∙ same end (length content) x₇ u₇ e₇;
    }

pub locate_footer-Located :
    (content : List ℕ) (footer : XorbObjectInfoV1) (footer_start : ℕ)
    → locate_footer content ≡ ok (footer, footer_start)
    → Located content footer footer_start
unfolding locate_footer
locate_footer-Located content footer footer_start e =
    let t : ℕ = length content - min (length content) max_serialized_len in
    let (u₁, e₁, r₁) = bind-eq-ok (refuse (ltb (length content) 8) _) _ e in
    let (found, e₂, r₂) =
      bind-eq-ok (find_footer (length (drop t content) - 7) (drop t content)) _ r₁ in
    let (i, e₃, r₃) = bind-eq-ok (ok_or found _) _ r₂ in
    let (tail, e₄, r₄) = bind-eq-ok (slice (drop t content) i (length (drop t content))) _ r₃ in
    let (f, e₅, r₅) = bind-eq-ok (from_bytes tail) _ r₄ in
    let (end, e₆, r₆) = bind-eq-ok (ok_or (checked_add (t + i) (serialized_len f)) _) _ r₅ in
    let (u₇, e₇, r₇) = bind-eq-ok (refuse (not (end == length content)) _) _ r₆ in
    subst (λ r. Located content r.0 r.1) (ok-injective r₇)
      (located content _ _ _ _ u₁ u₇ found i end tail f t refl e₁ e₂ e₃ e₄ e₅ e₆ e₇)

-- Each chunk has a header and its payload.
Verified-sum :
    (blake3 : Blake3) (content : List ℕ) (footer : XorbObjectInfoV1) (footer_start : ℕ)
    (hs : List MerkleHash) (i start unpacked : ℕ) (cs : List VerifiedXorbChunkInfo) (end : ℕ)
    → Verified blake3 content footer footer_start hs i start unpacked cs end
    → start
        + sum_by (λ (c : VerifiedXorbChunkInfo). c.compressed_payload_len) cs
        + chunk_header_size * length cs
      ≡ end
Verified-sum blake3 content footer footer_start hs i start unpacked cs end no_chunk = omega arith
Verified-sum blake3 content footer footer_start hs i start unpacked cs end
      (a_chunk {hs = hs'} {c = c} {cs = cs'} v b rest) =
    let s =
      Verified-sum blake3 content footer footer_start hs' (i + 1) c.serialized_end
        (unpacked + c.unpacked_len) cs' end rest in
    omega (arith, s, v.ends, v.framed)

-- A file that is accepted: its footer, and chunks that fill the file up to the footer and have the
-- hash that the footer names. The payloads and a header for each chunk fill the file up to the
-- footer.
pub record IsVerifiedXorb (blake3 : Blake3) (hex : Hex) (content : List ℕ) (info : VerifiedXorbInfo)
    : Type 0 where
  pub footer : XorbObjectInfoV1
  pub located : Located content footer info.footer_start
  pub chunks_fill :
      Verified blake3 content footer info.footer_start footer.chunk_hashes 0 0 0 info.chunks
        info.footer_start
  pub hash_of_chunks : xorb_hash blake3 hex (map chunk_node info.chunks) ≡ ok info.xorb_hash
  pub hash_in_footer : info.xorb_hash ≡ footer.xorb_hash
  pub whole_file : info.file_len ≡ length content
  pub data_in_all :
      info.total_unpacked_bytes ≡ sum_by (λ (c : VerifiedXorbChunkInfo). c.unpacked_len) info.chunks
  pub filled :
      info.total_compressed_payload_bytes + chunk_header_size * length info.chunks
      ≡ info.footer_start

-- What the function returns describes the file: the footer ends the file and is the last in it; the
-- chunks stand one behind the other from the file's start to the footer, each with the expected
-- hash, with the footer's boundary, and behind the data of those before it; each begins with bytes
-- that parse as a header, which frames it and says its two lengths; the chunks' hash is the returned
-- hash and the footer's; the returned length is the file's, the total of the data is the sum over the
-- chunks, and that of the payloads is what the file has before the footer less a header for each
-- chunk.
pub verify_xorb_from_file_with_info-IsVerifiedXorb :
    (blake3 : Blake3) (hex : Hex) (content : List ℕ) (info : VerifiedXorbInfo)
    → verify_xorb_from_file_with_info blake3 hex content ≡ ok info
    → IsVerifiedXorb blake3 hex content info
unfolding verify_xorb_from_file_with_info
verify_xorb_from_file_with_info-IsVerifiedXorb blake3 hex content info e =
    let ((footer, start), e₁, r₁) = bind-eq-ok (locate_footer content) _ e in
    let ((chunks, end), e₂, r₂) =
      bind-eq-ok (verify_file_chunks blake3 content footer start footer.chunk_hashes 0 0 0) _ r₁ in
    let (u₃, e₃, r₃) = bind-eq-ok (refuse (not (end == start)) _) _ r₂ in
    let (computed, e₄, r₄) = bind-eq-ok (xorb_hash blake3 hex (map chunk_node chunks)) _ r₃ in
    let (u₅, e₅, r₅) = bind-eq-ok (refuse (not (eq_hash computed footer.xorb_hash)) _) _ r₄ in
    let v =
      verify_file_chunks-Verified blake3 content footer start footer.chunk_hashes 0 0 0 chunks end
        e₂ in
    subst (IsVerifiedXorb blake3 hex content) (ok-injective r₅) (record {
      footer = footer;
      located = locate_footer-Located content footer start e₁;
      chunks_fill =
          subst (Verified blake3 content footer start footer.chunk_hashes 0 0 0 chunks)
            (same end start _ u₃ e₃) v;
      hash_of_chunks = e₄;
      hash_in_footer = same_hash computed footer.xorb_hash _ u₅ e₅;
      whole_file = refl;
      data_in_all = refl;
      filled =
          let s = Verified-sum blake3 content footer start footer.chunk_hashes 0 0 0 chunks end v in
          omega (arith, s, same end start _ u₃ e₃);
    })
