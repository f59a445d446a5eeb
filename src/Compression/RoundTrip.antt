-- ===== src/Compression/RoundTrip.antt =====
-- src/format/compression.rs: what was compressed is decompressed.
use xet_server.Prelude.{
  ℕ, zero, suc, ◌+◌, ◌*◌, ◌^◌, ◌≤◌, ◌<◌, ◌≡◌, inl, inr, sym, ap, ◌∙◌, subst, arith, ==_refl, le→ltb,
  some, List, [], ◌∷◌, length, take, length-take, Option-cases, All-append, get_elem?, All, IsByte,
}
use xet_server.Outcome.{ok, ◌>>=◌}
use xet_server.Bytes.{to_le_bytes, from_le_bytes}
use xet_server.Bytes.RoundTrip.{length-to_le_bytes, from_le_bytes-to_le_bytes}
use xet_server.Compression.{
  CompressionScheme, none_scheme, lz4, byte_grouping4_lz4, split_group, bg4_split, Lz4, compress,
  max_decompressed_size, check_lz4_prefix, decompress,
}
use mathlib.Core.Option.{some-injective}
use xet_server.Compression.Regroup.{bg4_regroup-bg4_split, length-bg4_split}

-- What the crate documents: the size of the data stands in front, as four little-endian bytes, and
-- decompression undoes compression.
pub record IsLz4 (codec : Lz4) : Type 0 where
  pub size_prefix :
      (bs : List ℕ) → take 4 (codec.compress_prepend_size bs) ≡ to_le_bytes 4 (length bs)
  pub undone :
      (bs : List ℕ)
      → All IsByte bs
      → length bs < 2 ^ 32
      → codec.decompress_size_prepended (codec.compress_prepend_size bs) ≡ some bs

All-get {ℓ κ} :
    {A : Type ℓ} (P : A → Type κ) (xs : List A) (i : ℕ) {a : A}
    → All P xs
    → get_elem? xs i ≡ some a
    → P a
All-get P [] i h e = cc
All-get P (x ∷ xs) zero (hx, h) e = subst P (some-injective _ _ e) hx
All-get P (x ∷ xs) (suc i) (hx, h) e = All-get P xs i h e

All-split_group :
    (count i k : ℕ) (bs : List ℕ) → All IsByte bs → All IsByte (split_group count i k bs)
unfolding split_group
All-split_group zero i k bs h = tt
All-split_group (suc count) i k bs h = elim (Option-cases (get_elem? bs (i * 4 + k))) [
  | inl n ↦ rw (n, split_group) (All-split_group count (suc i) k bs h)
  | inr (b, e) ↦
      rw (e, split_group) (All-get IsByte bs (i * 4 + k) h e, All-split_group count (suc i) k bs h)
]

All-bg4_split : (bs : List ℕ) → All IsByte bs → All IsByte (bg4_split bs)
unfolding bg4_split
All-bg4_split [] h = tt
All-bg4_split (b ∷ bs) h = All-append IsByte _ _ (All-split_group _ 0 0 (b ∷ bs) h) (
    All-append IsByte _ _ (All-split_group _ 0 1 (b ∷ bs) h)
      (All-append IsByte _ _ (All-split_group _ 0 2 (b ∷ bs) h) (All-split_group _ 0 3 (b ∷ bs) h)))

prefix_passes :
    (codec : Lz4) (bs : List ℕ)
    → IsLz4 codec
    → length bs ≤ max_decompressed_size
    → check_lz4_prefix (codec.compress_prepend_size bs) (length bs) ≡ ok tt
unfolding check_lz4_prefix
prefix_passes codec bs c h =
    let t = c.size_prefix bs in
    let four : length (take 4 (codec.compress_prepend_size bs)) ≡ 4 =
      ap length t ∙ length-to_le_bytes 4 (length bs) in
    let v : from_le_bytes (take 4 (codec.compress_prepend_size bs)) ≡ length bs =
      ap from_le_bytes t ∙ from_le_bytes-to_le_bytes 4 (length bs) (omega arith) in
    rw (
      le→ltb max_decompressed_size (length bs) h,
      le→ltb (length (codec.compress_prepend_size bs)) 4
          (omega (arith, four, length-take 4 (codec.compress_prepend_size bs))),
      v,
      ==_refl (length bs),
    )

-- For a codec as documented, data of bytes, of 16 MiB at most, is decompressed from what `compress`
-- makes of it, under each scheme.
pub decompress-compress :
    (codec : Lz4) (scheme : CompressionScheme) (bs : List ℕ)
    → IsLz4 codec
    → All IsByte bs
    → length bs ≤ max_decompressed_size
    → (compress codec scheme bs >>= λ out. decompress codec scheme out (length bs)) ≡ ok bs
unfolding compress decompress
decompress-compress codec none_scheme bs c h l = rw (==_refl (length bs))
decompress-compress codec lz4 bs c h l =
    rw (prefix_passes codec bs c l, c.undone bs h (omega arith), ==_refl (length bs))
decompress-compress codec byte_grouping4_lz4 bs c h l =
    let s = length-bg4_split bs in
    let p : check_lz4_prefix (codec.compress_prepend_size (bg4_split bs)) (length bs) ≡ ok tt =
      ap (λ n. check_lz4_prefix (codec.compress_prepend_size (bg4_split bs)) n) (sym s)
      ∙ prefix_passes codec (bg4_split bs) c (omega arith) in
    rw (p, c.undone (bg4_split bs) (All-bg4_split bs h) (omega arith), bg4_regroup-bg4_split bs)
