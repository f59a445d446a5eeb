-- ===== src/ShardValidation/Xorbs.antt =====
-- The first loop of `validate_shard_for_index` of src/shard_validation.rs: the declared xorbs.
use xet_server.Prelude.{ℕ, not, ◌==◌, ltb, List, [], ◌∷◌, length, checked_add}
use xet_server.Outcome.{Outcome, ok, err, panicked, out_of_fuel}
use xet_server.Slices.{slice}
use xet_server.Hash.{eq_hash}
use xet_server.Shard.XorbSequence.{XorbChunkSequenceHeader, XorbChunkSequenceEntry}
use xet_server.ReconstructionPlan.{is_some}
use xet_server.Reply.{Reply, reply, failed, aborted, ◌>>=◌, ◌>>◌, map_err, fail_if, some_or}
use xet_server.Xorb.VerifyFile.{VerifiedXorbChunkInfo, verify_xorb_from_file_with_info}
use xet_server.ShardValidation.{Services, ValidatedXorb, ValidatedXorbs, get_validated, xorb_key}

-- `spawn_blocking(…).await` and the two `map_err` behind it: a panic of the task is an error.
abbrev pub joined {ℓ} : {A : Type ℓ} → Outcome A → Reply A
joined (ok a) = reply a
joined (err e) = failed "Failed to verify xorb"
joined panicked = failed "xorb verify task failed"
joined out_of_fuel = aborted

-- A round of the loop over the chunks of a xorb.
unfoldable pub check_chunk : XorbChunkSequenceEntry → VerifiedXorbChunkInfo → Reply (Unit {0})
check_chunk shard_chunk verified_chunk = do
  fail_if (not (eq_hash shard_chunk.chunk_hash verified_chunk.serialized_chunk_hash))
      "Xorb chunk metadata mismatch: hash"
  fail_if (not (shard_chunk.chunk_byte_range_start == verified_chunk.serialized_start))
      "Xorb chunk metadata mismatch: start"
  fail_if (not (shard_chunk.unpacked_segment_bytes == verified_chunk.unpacked_len))
      "Xorb chunk metadata mismatch: unpacked length"

-- The loop over `zip`.
unfoldable pub check_chunks :
    List XorbChunkSequenceEntry → List VerifiedXorbChunkInfo → Reply (Unit {0})
check_chunks [] cs = reply tt
check_chunks (e ∷ es) [] = reply tt
check_chunks (e ∷ es) (c ∷ cs) = do check_chunk e c; check_chunks es cs

-- A round of the loop over the xorbs: the xorb, and the offset of the chunks behind its own.
unfoldable pub validate_xorb :
    Services
    → List XorbChunkSequenceEntry
    → ValidatedXorbs
    → ℕ
    → XorbChunkSequenceHeader
    → Reply (ValidatedXorb × ℕ)
validate_xorb s entries validated_xorbs xorb_chunk_offset xorb_entry = do
  fail_if (is_some (get_validated xorb_entry.xorb_hash validated_xorbs))
      "Duplicate xorb in shard validation"
  xorb_chunk_end ←
      some_or (checked_add xorb_chunk_offset xorb_entry.num_entries) "chunk table offset overflow"
  fail_if (ltb (length entries) xorb_chunk_end) "Xorb declares chunks beyond shard chunk table"
  content ← s.storage.download (xorb_key s xorb_entry.xorb_hash)
  xorb_info ← joined (verify_xorb_from_file_with_info s.blake3 s.hex content)
  fail_if (not (eq_hash xorb_info.xorb_hash xorb_entry.xorb_hash))
      "Xorb hash mismatch for shard entry"
  fail_if (not (xorb_entry.num_entries == length xorb_info.chunks)) "Xorb chunk count mismatch"
  fail_if (not (xorb_entry.num_bytes_in_xorb == xorb_info.total_unpacked_bytes))
      "Xorb size mismatch: unpacked"
  fail_if (not (xorb_entry.num_bytes_on_disk == xorb_info.total_compressed_payload_bytes))
      "Xorb size mismatch: compressed"
  shard_chunk_entries ←
      map_err (slice entries xorb_chunk_offset xorb_chunk_end) "no message: a slice does not fail"
  check_chunks shard_chunk_entries xorb_info.chunks
  reply (record { content = content; info = xorb_info }, xorb_chunk_end)

unfoldable pub validate_xorbs :
    Services
    → List XorbChunkSequenceEntry
    → ValidatedXorbs
    → ℕ
    → List XorbChunkSequenceHeader
    → Reply (ValidatedXorbs × ℕ)
validate_xorbs s entries validated_xorbs xorb_chunk_offset [] =
    reply (validated_xorbs, xorb_chunk_offset)
validate_xorbs s entries validated_xorbs xorb_chunk_offset (e ∷ es) = do
  (x, xorb_chunk_end) ← validate_xorb s entries validated_xorbs xorb_chunk_offset e
  validate_xorbs s entries ((e.xorb_hash, x) ∷ validated_xorbs) xorb_chunk_end es
