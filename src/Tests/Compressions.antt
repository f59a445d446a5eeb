-- ===== src/Tests/Compressions.antt =====
-- Compression.
use xet_server.Prelude.{
  ℕ, ◌≡◌, refl, sym, ap, ◌∙◌, arith, some, List, [], ◌∷◌, ◌++◌, length, length-append, take, drop,
  take-append, drop-append,
}
use xet_server.Outcome.{ok, ◌>>=◌}
use xet_server.Bytes.{to_le_bytes}
use xet_server.Bytes.RoundTrip.{length-to_le_bytes}
use xet_server.Compression.{
  Lz4, byte_grouping4_lz4, bg4_split, split_group, bg4_regroup, compress, decompress,
}
use xet_server.Compression.Regroup.{bg4_regroup-bg4_split}
use xet_server.Compression.RoundTrip.{IsLz4, decompress-compress}
use xet_server.XorbReader.Extract.{IsBounded}

-- A codec that stores the bytes behind their number.
abbrev pub stored : Lz4
stored = record {
  compress_prepend_size = λ bs. to_le_bytes 4 (length bs) ++ bs;
  decompress_size_prepended = λ bs. some (drop 4 bs);
}

pub stored-IsLz4 : IsLz4 stored
stored-IsLz4 = record {
  size_prefix = λ bs.
      ap (λ n. take n (to_le_bytes 4 (length bs) ++ bs)) (sym (length-to_le_bytes 4 (length bs)))
      ∙ take-append (to_le_bytes 4 (length bs)) bs;
  undone = λ bs h l. ap some (
      ap (λ n. drop n (to_le_bytes 4 (length bs) ++ bs)) (sym (length-to_le_bytes 4 (length bs)))
      ∙ drop-append (to_le_bytes 4 (length bs)) bs);
}

pub stored-IsBounded : IsBounded stored
stored-IsBounded = record {
  compressed_bound = λ bs.
      omega (arith, length-append (to_le_bytes 4 (length bs)) bs, length-to_le_bytes 4 (length bs));
}

abbrev six : List ℕ
six = 1 ∷ 2 ∷ 3 ∷ 4 ∷ 5 ∷ 6 ∷ []

six_split : bg4_split six ≡ 1 ∷ 5 ∷ 2 ∷ 6 ∷ 3 ∷ 4 ∷ []
unfolding bg4_split split_group
six_split = refl

bg4_regroup-bg4_split_example : bg4_regroup (bg4_split six) (length six) ≡ ok six
bg4_regroup-bg4_split_example = bg4_regroup-bg4_split six

decompress-compress_example :
    (compress stored byte_grouping4_lz4 six >>= λ out.
    decompress stored byte_grouping4_lz4 out (length six))
    ≡ ok six
decompress-compress_example =
    decompress-compress stored byte_grouping4_lz4 six stored-IsLz4
      (omega arith, (omega arith, (omega arith, (omega arith, (omega arith, (omega arith, tt))))))
      (omega arith)
