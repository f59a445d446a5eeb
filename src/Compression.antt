-- ===== src/Compression.antt =====
-- src/format/compression.rs: the compression schemes and the grouping of bytes. LZ4 itself is the
-- `lz4_flex` crate.
pub mod Grouping
pub mod Regroup
pub mod RoundTrip
pub mod Sizes
use xet_server.Prelude.{
  ℕ, zero, suc, ◌+◌, ◌*◌, ◌/◌, ◌%◌, not, ◌==◌, ltb, leb, Option, none, some, List, [], ◌∷◌, ◌++◌,
  length, take, get_elem?, replicate, is_empty, if◌then◌else◌,
}
use xet_server.Outcome.{
  Outcome, ok, err, panicked, out_of_fuel, parse_error, refuse, ok_or, ◌>>=◌, ◌>>◌,
}
use xet_server.Slices.{index, set}
use xet_server.Bytes.{from_le_bytes}

pub data CompressionScheme : Type 0 where
  none_scheme lz4 byte_grouping4_lz4 : CompressionScheme

-- `scheme as u8`
abbrev pub scheme_byte : CompressionScheme → ℕ
scheme_byte none_scheme = 0
scheme_byte lz4 = 1
scheme_byte byte_grouping4_lz4 = 2

-- `CompressionScheme::try_from`
unfoldable pub try_from : ℕ → Outcome CompressionScheme
try_from value =
    if value == 0
    then ok none_scheme
    else if value == 1
    then ok lz4
    else if value == 2
    then ok byte_grouping4_lz4
    else err (parse_error "Invalid compression scheme")

-- The sizes of the four groups of `len` bytes.
abbrev pub group_size : ℕ → ℕ → ℕ
group_size len k = len / 4 + (if ltb k (len % 4) then 1 else 0)

-- A loop of `bg4_split`: `for i in i..(i + count)`, over the positions `i * 4 + k`.
unfoldable pub split_group : ℕ → ℕ → ℕ → List ℕ → List ℕ
split_group zero i k bs = []
split_group (suc count) i k bs =
    let rest = split_group count (suc i) k bs in
    elim (get_elem? bs (i * 4 + k)) [ none ↦ rest | some b ↦ b ∷ rest ]

-- The loop over the fourth group runs `base_size` times.
unfoldable pub bg4_split : List ℕ → List ℕ
bg4_split bs =
    if is_empty bs
    then []
    else split_group (group_size (length bs) 0) 0 0 bs
      ++ (split_group (group_size (length bs) 1) 0 1 bs
          ++ (split_group (group_size (length bs) 2) 0 2 bs ++ split_group (length bs / 4) 0 3 bs))

-- A loop of `bg4_regroup`, on the result and the offset.
unfoldable pub restore_group : ℕ → ℕ → ℕ → ℕ → List ℕ → List ℕ → ℕ → Outcome (List ℕ × ℕ)
restore_group zero i k original_len bs result offset = ok (result, offset)
restore_group (suc count) i k original_len bs result offset = do
  (result', offset') ←
      if ltb (i * 4 + k) original_len
      then (do b ← index bs offset; r ← set result (i * 4 + k) b; ok (r, offset + 1))
      else ok (result, offset)
  restore_group count (suc i) k original_len bs result' offset'

unfoldable pub bg4_regroup : List ℕ → ℕ → Outcome (List ℕ)
bg4_regroup bs zero =
    if is_empty bs then ok [] else err (parse_error "BG4 regroup: expected empty data")
bg4_regroup bs (suc n) = do
  let len = suc n
  let expected = group_size len 0 + group_size len 1 + group_size len 2 + len / 4
  refuse (not (length bs == expected)) (parse_error "BG4 regroup: data length mismatch")
  (r₀, o₀) ← restore_group (group_size len 0) 0 0 len bs (replicate len 0) 0
  (r₁, o₁) ← restore_group (group_size len 1) 0 1 len bs r₀ o₀
  (r₂, o₂) ← restore_group (group_size len 2) 0 2 len bs r₁ o₁
  (r₃, o₃) ← restore_group (len / 4) 0 3 len bs r₂ o₂
  refuse (not (o₃ == length bs)) (parse_error "BG4 regroup: data consumption error")
  ok r₃

-- `compress_prepend_size` and `decompress_size_prepended` of `lz4_flex`.
pub record Lz4 : Type 0 where
  pub compress_prepend_size : List ℕ → List ℕ
  pub decompress_size_prepended : List ℕ → Option (List ℕ)

unfoldable pub compress : Lz4 → CompressionScheme → List ℕ → Outcome (List ℕ)
compress codec none_scheme bs = ok bs
compress codec lz4 bs = ok (codec.compress_prepend_size bs)
compress codec byte_grouping4_lz4 bs = ok (codec.compress_prepend_size (bg4_split bs))

abbrev pub max_decompressed_size : ℕ
max_decompressed_size = 16 * 1024 * 1024

unfoldable pub check_lz4_prefix : List ℕ → ℕ → Outcome (Unit {0})
check_lz4_prefix bs original_size = do
  refuse (ltb max_decompressed_size original_size)
      (parse_error "Declared uncompressed size exceeds maximum")
  refuse (ltb (length bs) 4) (parse_error "LZ4 data too short for size prefix")
  refuse (not (from_le_bytes (take 4 bs) == original_size))
      (parse_error "LZ4 size prefix does not match expected uncompressed size")

unfoldable pub decompress : Lz4 → CompressionScheme → List ℕ → ℕ → Outcome (List ℕ)
decompress codec none_scheme bs original_size = do
  refuse (not (length bs == original_size)) (parse_error "Uncompressed data size")
  ok bs
decompress codec lz4 bs original_size = do
  check_lz4_prefix bs original_size
  out ← ok_or (codec.decompress_size_prepended bs) (parse_error "LZ4 decompression failed")
  refuse (not (length out == original_size)) (parse_error "LZ4 output size")
  ok out
decompress codec byte_grouping4_lz4 bs original_size = do
  check_lz4_prefix bs original_size
  out ← ok_or (codec.decompress_size_prepended bs) (parse_error "BG4-LZ4 decompression failed")
  bg4_regroup out original_size
