-- ===== src/ShardBuilder/RoundTrip.antt =====
-- `build` succeeds, and `parse` finds in its bytes what was registered.
use xet_server.Prelude.{
  ℕ, ◌+◌, ◌*◌, ◌^◌, ◌≤◌, ◌<◌, ◌≡◌, Bool, true, false, refl, ap, sym, ◌∙◌, List, [], ◌∷◌, arith,
  length, length-map, map, flat_map-map, length-flat_map, sum_by, sum_by-cong, All-map, is_empty,
  if◌then◌else◌,
}
use mathlib.Core.Path.{subst}
use xet_server.Outcome.{ok, parse_error, refuse_differs}
use xet_server.Hash.Keyed.{Blake3, compute_data_hash}
use xet_server.Hash.Hex.{Hex, to_hex}
use xet_server.Shard.Footer.{IsFooter}
use xet_server.Shard.ChunkLookup
use xet_server.Shard.Sizes.{length-chunk_lookup, length-records}
use xet_server.Shard.Sections.WrittenFiles.{IsFileSeq}
use xet_server.Shard.Sections.WrittenXorbs.{XorbSeq, IsXorbSeq}
use xet_server.Shard.Layout.{lookups_end, shard_bytes, IsTables, Places}
use xet_server.Shard.Parse.{parse}
use xet_server.Shard.Parse.RoundTrip.{parsed, length-content, parse-shard_bytes}
use xet_server.ShardBuilder.{
  FileBuildEntry, XorbBuildEntry, ShardBuilder, file_entry, xorb_entry, file_section_size,
  xorb_section_size, total_size, build_footer, build_buffer, build,
}
use xet_server.ShardBuilder.Tables.{
  IsSegment, IsBuildFile, IsBuildChunk, IsBuildXorb, IsBuilder, registered, file_seq, xorb_seq,
  tables, parsed-tables, shard_bytes-tables, length-file_bytes, length-xorb_bytes,
}

file_seq-IsFileSeq : (f : FileBuildEntry) → IsBuildFile f → IsFileSeq (file_seq f)
file_seq-IsFileSeq f v = record {
  header_fits = record {
    hash_fits = v.hash_fits;
    flags_fits = omega arith;
    num_entries_fits = omega arith;
  };
  entries_fit =
      All-map IsSegment _ file_entry f.segments
        (λ s w. record {
          hash_fits = w.hash_fits;
          flags_fits = omega arith;
          bytes_fits = w.bytes_fits;
          start_fits = w.start_fits;
          end_fits = w.end_fits;
        })
        v.segments_fit;
  counted = omega (arith, v.count_fits, length-map file_entry f.segments);
}

xorb_seq-IsXorbSeq : (x : XorbBuildEntry) → IsBuildXorb x → IsXorbSeq (xorb_seq x)
xorb_seq-IsXorbSeq x v = record {
  header_fits = record {
    hash_fits = v.hash_fits;
    flags_fits = omega arith;
    num_entries_fits = omega arith;
    in_xorb_fits = v.in_xorb_fits;
    on_disk_fits = v.on_disk_fits;
  };
  entries_fit =
      All-map IsBuildChunk _ xorb_entry x.chunks
        (λ c w. record {
          hash_fits = w.hash_fits;
          start_fits = w.start_fits;
          bytes_fits = w.bytes_fits;
          flags_fits = omega arith;
        })
        v.chunks_fit;
  counted = omega (arith, v.count_fits, length-map xorb_entry x.chunks);
}

-- Offsets that are zero for an empty section.
offset-lt : (empty : Bool) (m n k : ℕ) → m < k → n < k → (if empty then m else n) < k
offset-lt true m n k h l = h
offset-lt false m n k h l = l

offset-map {ℓ κ} :
    {A : Type ℓ} {B : Type κ} (f : A → B) (xs : List A) {m n : ℕ}
    → m ≡ n
    → (if is_empty xs then 0 else m) ≡ (if is_empty (map f xs) then 0 else n)
offset-map f [] e = refl
offset-map f (x ∷ xs) e = e

offset-past {ℓ} :
    {A : Type ℓ} (xs : List A) (m : ℕ) → (if is_empty xs then m + length xs * 68 else m) ≡ m
offset-past [] m = omega arith
offset-past (x ∷ xs) m = refl

length-le-sum_by {ℓ} :
    {A : Type ℓ} (f : A → ℕ) (xs : List A) → ((x : A) → 1 ≤ f x) → length xs ≤ sum_by f xs
length-le-sum_by f [] h = omega arith
length-le-sum_by f (x ∷ xs) h = omega (arith, h x, length-le-sum_by f xs h)

module _ (b : ShardBuilder) (v : IsBuilder b) (small : total_size b < 2 ^ 64) where
  lookups_end-tables : lookups_end (tables b) + 208 ≡ total_size b
  lookups_end-tables = omega (
    arith,
    length-file_bytes b,
    length-xorb_bytes b,
    length-records ChunkLookup.serialize 68 b.chunk_lookup_entries length-chunk_lookup,
  )

  pub tables-IsTables : IsTables (tables b)
  tables-IsTables = record {
    files_fit = All-map IsBuildFile _ file_seq b.files file_seq-IsFileSeq v.files_fit;
    xorbs_fit = All-map IsBuildXorb _ xorb_seq b.xorbs xorb_seq-IsXorbSeq v.xorbs_fit;
    lookups_fit = v.lookups_fit;
    one_each =
        v.one_each
        ∙ sym (
            ap length (flat_map-map (λ (q : XorbSeq). q.entries) xorb_seq b.xorbs)
            ∙ length-flat_map (λ (x : XorbBuildEntry). map xorb_entry x.chunks) b.xorbs
            ∙ sum_by-cong _ _ b.xorbs (λ x. length-map xorb_entry x.chunks));
    size_fits = omega (arith, lookups_end-tables);
  }

  files-le : length b.files ≤ file_section_size b
  files-le =
      length-le-sum_by (λ (f : FileBuildEntry). 48 + length f.segments * 48) b.files
        (λ f. omega arith)

  xorbs-le : length b.xorbs ≤ xorb_section_size b
  xorbs-le =
      length-le-sum_by (λ (x : XorbBuildEntry). 48 + length x.chunks * 48) b.xorbs
        (λ x. omega arith)

  build_footer-IsFooter : IsFooter (build_footer b)
  build_footer-IsFooter = record {
    version_fits = omega arith;
    file_info_fits = offset-lt (is_empty b.files) 0 48 _ (omega arith) (omega arith);
    xorb_info_fits = offset-lt (is_empty b.xorbs) 0 _ _ (omega arith) (omega arith);
    file_lookup_fits = offset-lt (is_empty b.files) 0 _ _ (omega arith) (omega arith);
    file_count_fits = omega (arith, files-le);
    xorb_lookup_fits =
        offset-lt (is_empty b.xorbs) 0 _ _ (omega arith)
          (offset-lt (is_empty b.chunk_lookup_entries) _ _ _ (omega arith) (omega arith));
    xorb_count_fits = omega (arith, xorbs-le);
    chunk_lookup_fits =
        offset-lt (is_empty b.chunk_lookup_entries) 0 _ _ (omega arith) (omega arith);
    chunk_count_fits = omega arith;
    key_length = refl;
    creation_fits = omega arith;
    expiry_fits = omega arith;
    on_disk_fits = omega arith;
    materialized_fits = omega arith;
    stored_fits = omega arith;
    footer_fits = omega arith;
  }

  pub build_footer-Places : Places (tables b) (build_footer b)
  build_footer-Places = record {
    footer_fits = build_footer-IsFooter;
    version_is = refl;
    file_info = offset-map file_seq b.files refl;
    file_lookup = offset-map file_seq b.files (omega (arith, length-file_bytes b));
    file_count = sym (length-map file_seq b.files);
    xorb_info = offset-map xorb_seq b.xorbs (omega (arith, length-file_bytes b));
    xorb_lookup = offset-map xorb_seq b.xorbs (
        offset-past b.chunk_lookup_entries _
        ∙ omega (arith, length-file_bytes b, length-xorb_bytes b));
    xorb_count = sym (length-map xorb_seq b.xorbs);
    chunk_lookup =
        ap (λ k. if is_empty b.chunk_lookup_entries then 0 else k)
          (omega (arith, length-file_bytes b, length-xorb_bytes b));
    chunk_count = refl;
    footer_at = omega (arith, lookups_end-tables);
  }

  length-build_buffer : length (build_buffer b) ≡ total_size b
  length-build_buffer =
      ap length (sym (shard_bytes-tables b))
      ∙ length-content (tables b) (build_footer b) (shard_bytes (tables b) (build_footer b))
          tables-IsTables build_footer-Places refl
      ∙ lookups_end-tables

parse_buffer :
    (blake3 : Blake3) (hex : Hex) (b : ShardBuilder)
    → IsBuilder b
    → total_size b < 2 ^ 64
    → parse blake3 hex (build_buffer b)
      ≡ ok (registered b (to_hex hex (compute_data_hash blake3 (build_buffer b))))
parse_buffer blake3 hex b v small =
    rw (← parsed-tables b (to_hex hex (compute_data_hash blake3 (build_buffer b)))) (
      subst
        (λ bs.
          parse blake3 hex bs
          ≡ ok (parsed (tables b) (build_footer b) (to_hex hex (compute_data_hash blake3 bs))))
        (shard_bytes-tables b)
        (parse-shard_bytes blake3 hex (tables b) (build_footer b) (tables-IsTables b v small)
          (build_footer-Places b v small)))

-- A builder whose values fit their types, with one lookup entry for each chunk and a buffer below
-- 2 ^ 64 bytes, builds its buffer without an error, and `parse` finds in
-- the buffer one record for each registered file, segment, xorb, chunk and lookup entry, in order.
pub parse-build :
    (blake3 : Blake3) (hex : Hex) (b : ShardBuilder)
    → IsBuilder b
    → total_size b < 2 ^ 64
    → (build blake3 hex b ≡ ok (build_buffer b))
      × (parse blake3 hex (build_buffer b)
          ≡ ok (registered b (to_hex hex (compute_data_hash blake3 (build_buffer b)))))
unfolding build
parse-build blake3 hex b v small = (
  rw (
    refuse_differs _ _ (parse_error "shard binary size mismatch") (length-build_buffer b v small),
    parse_buffer blake3 hex b v small,
  ),
  parse_buffer blake3 hex b v small,
)
