-- ===== src/Xorb/VerifyFile.antt =====
-- `verify_xorb_from_file_with_info` of src/format/xorb.rs, on the content of a file that is open.
pub mod Reading
pub mod Sound
pub mod Accepted
pub mod Agrees
use xet_server.Prelude.{
  ℕ, zero, suc, ◌+◌, ◌-◌, ◌*◌, min, not, ◌||◌, ◌==◌, ltb, Option, none, some, List, [], ◌∷◌, ◌++◌,
  length, take, drop, get_elem?, is_empty, map, sum_by, checked_add, if◌then◌else◌,
}
use xet_server.Outcome.{
  Outcome, ok, err, panicked, out_of_fuel, XetError, parse_error, io_error, other, refuse, ok_or,
  ◌>>=◌, ◌>>◌,
}
use xet_server.Slices.{slice}
use xet_server.Hash.{MerkleHash, eq_hash}
use xet_server.Hash.Keyed.{Blake3, compute_data_hash}
use xet_server.Hash.Hex.{Hex}
use xet_server.Reader.{split_exact}
use xet_server.MerkleTree.{Node, xorb_hash}
use xet_server.Xorb.ChunkHeader.{XorbChunkHeader, chunk_header_size, deserialize}
use xet_server.Xorb.ObjectInfo.{XorbObjectInfoV1, max_serialized_len, serialized_len, from_bytes}
use xet_server.Xorb.Verify.{find_footer, chunk_end}

pub record VerifiedXorbChunkInfo : Type 0 where
  pub serialized_chunk_hash : MerkleHash
  pub serialized_start : ℕ
  pub serialized_end : ℕ
  pub serialized_len : ℕ
  pub unpacked_start : ℕ
  pub unpacked_len : ℕ
  pub compressed_payload_len : ℕ

pub record VerifiedXorbInfo : Type 0 where
  pub xorb_hash : MerkleHash
  pub file_len : ℕ
  pub footer_start : ℕ
  pub chunks : List VerifiedXorbChunkInfo
  pub total_unpacked_bytes : ℕ
  pub total_compressed_payload_bytes : ℕ

-- `file.seek(Start(at))` and `file.read_exact` into `n` bytes, with an error of the kind `Other`.
unfoldable pub read_exact_at : List ℕ → ℕ → ℕ → Outcome (List ℕ)
read_exact_at content at n = elim (split_exact n (drop at content)) [
  | none ↦ err (io_error other)
  | some (front, back) ↦ ok front
]

abbrev pub read_buf_size : ℕ
read_buf_size = 64 * 1024

-- The loop that reads the payload. Each `file.read` fills the buffer as far as the file goes on; the
-- bytes go to the hasher in the order in which they are read.
unfoldable pub read_payload : ℕ → ℕ → List ℕ → Outcome (List ℕ)
read_payload fuel zero rest = ok []
read_payload zero (suc remaining) rest = out_of_fuel
read_payload (suc fuel) (suc remaining) rest = do
  let block = take (min (suc remaining) read_buf_size) rest
  refuse (is_empty block) (parse_error "Unexpected EOF reading chunk")
  more ← read_payload fuel (suc remaining - length block) (drop (length block) rest)
  ok (block ++ more)

-- `XorbChunkHeader::deserialize` from the bytes of a header.
abbrev pub parse_header : List ℕ → Outcome XorbChunkHeader
parse_header bs = deserialize (record { position = 0; rest = bs }) >>= λ r. ok r.0

-- A round of the loop: the chunk and its header.
unfoldable pub verify_file_chunk :
    Blake3 → List ℕ → XorbObjectInfoV1 → ℕ → MerkleHash → ℕ → ℕ → ℕ → Outcome VerifiedXorbChunkInfo
verify_file_chunk blake3 content footer footer_start expected_hash i current_offset
      current_unpacked_offset =
    do
      let end = chunk_end footer.chunk_boundary_offsets footer_start i
      refuse (ltb footer_start end || ltb end current_offset) (parse_error "Invalid chunk boundary")
      let chunk_size = end - current_offset
      header_bytes ← read_exact_at content current_offset chunk_header_size
      header ← parse_header header_bytes
      refuse (not (chunk_size == chunk_header_size + header.compressed_length))
          (parse_error "Chunk serialized length mismatch")
      unpacked_start ←
          ok_or (get_elem? footer.unpacked_chunk_offsets i)
            (parse_error "Missing unpacked offset for chunk")
      refuse (not (unpacked_start == current_unpacked_offset))
          (parse_error "Chunk unpacked offset mismatch")
      payload ←
          read_payload header.compressed_length header.compressed_length
            (drop (current_offset + chunk_header_size) content)
      let actual_hash = compute_data_hash blake3 (header_bytes ++ payload)
      refuse (not (eq_hash actual_hash expected_hash)) (parse_error "Chunk hash mismatch")
      ok (record {
        serialized_chunk_hash = actual_hash;
        serialized_start = current_offset;
        serialized_end = end;
        serialized_len = chunk_size;
        unpacked_start = unpacked_start;
        unpacked_len = header.uncompressed_length;
        compressed_payload_len = header.compressed_length;
      })

-- The loop over the expected hashes: the chunks, and the offset behind them. The totals are sums
-- over the chunks; a sum of at most 100 000 lengths of 24 bits does not wrap.
unfoldable pub verify_file_chunks :
    Blake3
    → List ℕ
    → XorbObjectInfoV1
    → ℕ
    → List MerkleHash
    → ℕ
    → ℕ
    → ℕ
    → Outcome (List VerifiedXorbChunkInfo × ℕ)
verify_file_chunks blake3 content footer footer_start [] i current_offset unpacked =
    ok ([], current_offset)
verify_file_chunks blake3 content footer footer_start (h ∷ hashes) i current_offset unpacked = do
  c ← verify_file_chunk blake3 content footer footer_start h i current_offset unpacked
  (cs, end) ←
      verify_file_chunks blake3 content footer footer_start hashes (i + 1) c.serialized_end
        (unpacked + c.unpacked_len)
  ok (c ∷ cs, end)

abbrev pub chunk_node : VerifiedXorbChunkInfo → Node
chunk_node c = (c.serialized_chunk_hash, c.serialized_len)

-- The footer and where it starts, from the tail of the file.
unfoldable pub locate_footer : List ℕ → Outcome (XorbObjectInfoV1 × ℕ)
locate_footer content = do
  let file_len = length content
  refuse (ltb file_len 8) (parse_error "Xorb file too small")
  let tail_file_offset = file_len - min file_len max_serialized_len
  let tail_buf = drop tail_file_offset content
  found ← find_footer (length tail_buf - 7) tail_buf
  i ← ok_or found (parse_error "Could not find xorb footer in file")
  let footer_start = tail_file_offset + i
  tail ← slice tail_buf i (length tail_buf)
  footer ← from_bytes tail
  footer_end ←
      ok_or (checked_add footer_start (serialized_len footer))
        (parse_error "Xorb footer end offset overflow")
  refuse (not (footer_end == file_len)) (parse_error "Xorb footer/trailing bytes mismatch")
  ok (footer, footer_start)

unfoldable pub verify_xorb_from_file_with_info : Blake3 → Hex → List ℕ → Outcome VerifiedXorbInfo
verify_xorb_from_file_with_info blake3 hex content = do
  (footer, footer_start) ← locate_footer content
  (chunks, end) ← verify_file_chunks blake3 content footer footer_start footer.chunk_hashes 0 0 0
  refuse (not (end == footer_start)) (parse_error "Xorb has unverified bytes before footer")
  computed_xorb_hash ← xorb_hash blake3 hex (map chunk_node chunks)
  refuse (not (eq_hash computed_xorb_hash footer.xorb_hash)) (parse_error "Xorb hash mismatch")
  ok (record {
    xorb_hash = computed_xorb_hash;
    file_len = length content;
    footer_start = footer_start;
    chunks = chunks;
    total_unpacked_bytes = sum_by (λ (c : VerifiedXorbChunkInfo). c.unpacked_len) chunks;
    total_compressed_payload_bytes =
        sum_by (λ (c : VerifiedXorbChunkInfo). c.compressed_payload_len) chunks;
  })
