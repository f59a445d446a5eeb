-- ===== src/Xorb/Verify/Total.antt =====
-- `verify_xorb` of src/format/xorb.rs ends on every xorb of 7 bytes or more.
use xet_server.Prelude.{
  ℕ, ◌+◌, ◌-◌, ◌≤◌, ◌<◌, ◌≡◌, sym, ap, ◌∙◌, arith, not, ◌||◌, ltb, leb, Option, none, some, List,
  [], ◌∷◌, length, false, ◌&&◌,
}
use xet_server.Outcome.{ok, panicked, XetError, refuse, ok_or, ok-injective, Ends}
use xet_server.Outcome.Safe.{Safe, Safe-bind, Safe-ok, Safe-ok_or, Safe-refuse}
use xet_server.Slices.{slice, slice-Safe}
use xet_server.Hash.{MerkleHash, eq_hash}
use xet_server.Hash.Keyed.{Blake3, compute_data_hash}
use xet_server.Hash.Hex.{Hex}
use xet_server.MerkleTree.{Node, xorb_hash}
use xet_server.MerkleTree.Root.{xorb_hash-ok}
use xet_server.Xorb.ObjectInfo.{from_bytes}
use xet_server.Xorb.Footer.{from_bytes-Ends}
use xet_server.Xorb.Verify.{find_footer, chunk_end, verify_chunks, verify_xorb}
use xet_server.Xorb.Verify.Search.{find_footer-ok}

pub in_bounds :
    (len end current : ℕ) (x : XetError) (u : Unit {0})
    → refuse (ltb len end || ltb end current) x ≡ ok u
    → (current ≤ end) × (end ≤ len)
in_bounds len end current x u e = ground arith

verify_chunks-Safe :
    (blake3 : Blake3) (bs offsets : List ℕ) (footer_start : ℕ) (hashes : List MerkleHash)
    (i current : ℕ)
    → Safe (verify_chunks blake3 bs offsets footer_start hashes i current)
unfolding verify_chunks
verify_chunks-Safe blake3 bs offsets footer_start [] i current = Safe-ok _
verify_chunks-Safe blake3 bs offsets footer_start (h ∷ hs) i current =
    let end : ℕ = chunk_end offsets footer_start i in
    Safe-bind (refuse (ltb (length bs) end || ltb end current) _) (Safe-refuse _ _) (λ u e.
      let w = in_bounds (length bs) end current _ u e in
      Safe-bind (slice bs current end) (slice-Safe bs current end w.0 w.1) (λ chunk _.
        Safe-bind (refuse (not (eq_hash (compute_data_hash blake3 chunk) h)) _) (Safe-refuse _ _)
          (λ _ _.
            Safe-bind (verify_chunks blake3 bs offsets footer_start hs (i + 1) end)
              (verify_chunks-Safe blake3 bs offsets footer_start hs (i + 1) end)
              (λ rest _. Safe-ok _))))

pub xorb_hash-Safe : (blake3 : Blake3) (hex : Hex) (ns : List Node) → Safe (xorb_hash blake3 hex ns)
xorb_hash-Safe blake3 hex ns = let (h, e) = xorb_hash-ok blake3 hex ns in rw e (Safe-ok h)

find_footer-Safe : (i : ℕ) (bs : List ℕ) → i + 7 ≤ length bs → Safe (find_footer i bs)
find_footer-Safe i bs h = let (o, e, l) = find_footer-ok i bs h in rw e (Safe-ok o)

found_within :
    (i : ℕ) (bs : List ℕ) (o : Option ℕ) (k : ℕ) (x : XetError)
    → i + 7 ≤ length bs
    → find_footer i bs ≡ ok o
    → ok_or o x ≡ ok k
    → k ≤ i
found_within i bs none k x h e q = cc
found_within i bs (some j) k x h e q =
    let (o, p, l) = find_footer-ok i bs h in
    let j_is : j ≡ k = ok-injective q in l k (sym (ok-injective (sym e ∙ p)) ∙ ap some j_is)

-- On a xorb of 7 bytes or more, `verify_xorb` returns or fails with an error; on a shorter one it
-- panics, where it takes the first 7 bytes.
pub verify_xorb-Ends :
    (blake3 : Blake3) (hex : Hex) (bs short : List ℕ)
    → 7 ≤ length bs
    → length short < 7
    → Ends (verify_xorb blake3 hex bs) × (verify_xorb blake3 hex short ≡ panicked)
unfolding verify_xorb find_footer
verify_xorb-Ends blake3 hex bs short h s = (
  (Safe-bind (find_footer (length bs - 7) bs) (find_footer-Safe (length bs - 7) bs (omega arith))
      (λ o e. Safe-bind (ok_or o _) (Safe-ok_or _ _) (λ p q.
        let l : p ≤ length bs - 7 = found_within (length bs - 7) bs o p _ (omega arith) e q in
        Safe-bind (slice bs p (length bs)) (slice-Safe bs p (length bs) (omega arith) (omega arith))
          (λ tail _.
            Safe-bind (from_bytes tail) (record { ends = from_bytes-Ends tail })
              (λ f _.
                Safe-bind (verify_chunks blake3 bs f.chunk_boundary_offsets p f.chunk_hashes 0 0)
                  (verify_chunks-Safe blake3 bs f.chunk_boundary_offsets p f.chunk_hashes 0 0)
                  (λ info _.
                    Safe-bind (xorb_hash blake3 hex info) (xorb_hash-Safe blake3 hex info)
                      (λ c _. Safe-refuse _ _))))))).ends,
  rw (z, b),
)
  where
    z : length short - 7 ≡ 0
    z = omega (arith, s)

    b : (leb 0 7 && leb 7 (length short)) ≡ false
    b = ground (arith, s)
