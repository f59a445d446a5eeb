-- ===== src/Xorb/Verify.antt =====
-- `verify_xorb` of src/format/xorb.rs, on the bytes of a xorb.
pub mod Search
pub mod Total
use xet_server.Prelude.{
  ℕ, zero, suc, ◌+◌, ◌-◌, not, ◌||◌, ltb, Option, none, some, List, [], ◌∷◌, length, get_elem?,
  if◌then◌else◌,
}
use xet_server.Outcome.{
  Outcome, ok, err, panicked, out_of_fuel, parse_error, refuse, ok_or, ◌>>=◌, ◌>>◌,
}
use xet_server.Slices.{slice}
use xet_server.Bytes.{eq_bytes}
use xet_server.Hash.{MerkleHash, eq_hash}
use xet_server.Hash.Keyed.{Blake3, compute_data_hash}
use xet_server.Hash.Hex.{Hex}
use xet_server.MerkleTree.{Node, xorb_hash}
use xet_server.Xorb.ObjectInfo.{XorbObjectInfoV1, ident_hashes, from_bytes}

-- `for i in (0..=max_start).rev()`: the last place at most `i` where the identifier stands.
unfoldable pub find_footer : ℕ → List ℕ → Outcome (Option ℕ)
find_footer zero bs = do
  window ← slice bs 0 7
  ok (if eq_bytes window ident_hashes then some 0 else none)
find_footer (suc i) bs = do
  window ← slice bs (suc i) (suc i + 7)
  let rest = find_footer i bs
  if eq_bytes window ident_hashes then ok (some (suc i)) else rest

-- Where chunk `i` ends; a chunk without an offset ends at the footer.
abbrev pub chunk_end : List ℕ → ℕ → ℕ → ℕ
chunk_end offsets footer_start i = elim (get_elem? offsets i) [ none ↦ footer_start | some e ↦ e ]

-- The loop over the expected hashes, from chunk `i` at `current_offset` on: the chunks' hashes and
-- sizes.
unfoldable pub verify_chunks :
    Blake3 → List ℕ → List ℕ → ℕ → List MerkleHash → ℕ → ℕ → Outcome (List Node)
verify_chunks blake3 bs offsets footer_start [] i current_offset = ok []
verify_chunks blake3 bs offsets footer_start (expected_hash ∷ hashes) i current_offset = do
  let end = chunk_end offsets footer_start i
  refuse (ltb (length bs) end || ltb end current_offset) (parse_error "Invalid chunk boundary")
  chunk_data ← slice bs current_offset end
  let actual_hash = compute_data_hash blake3 chunk_data
  refuse (not (eq_hash actual_hash expected_hash)) (parse_error "Chunk hash mismatch")
  rest ← verify_chunks blake3 bs offsets footer_start hashes (i + 1) end
  ok ((actual_hash, length chunk_data) ∷ rest)

unfoldable pub verify_xorb : Blake3 → Hex → List ℕ → Outcome (Unit {0})
verify_xorb blake3 hex bs = do
  found ← find_footer (length bs - 7) bs
  footer_start ← ok_or found (parse_error "Could not find xorb footer")
  tail ← slice bs footer_start (length bs)
  footer ← from_bytes tail
  chunk_info ←
      verify_chunks blake3 bs footer.chunk_boundary_offsets footer_start footer.chunk_hashes 0 0
  computed_xorb_hash ← xorb_hash blake3 hex chunk_info
  refuse (not (eq_hash computed_xorb_hash footer.xorb_hash)) (parse_error "Xorb hash mismatch")
