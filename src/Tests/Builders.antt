-- ===== src/Tests/Builders.antt =====
-- A builder with a xorb of one chunk and a file of one segment.
use xet_server.Prelude.{◌≡◌, ◌≢◌, ◌⊎◌, refl, [], ◌∷◌, length, arith}
use xet_server.Outcome.{ok, err, XetError, Ends}
use xet_server.Hash.Keyed.{compute_data_hash}
use xet_server.Hash.Hex.{to_hex}
use xet_server.Shard.Layout.{shard_bytes}
use xet_server.Shard.Parse.{parse}
use xet_server.Shard.Parse.RoundTrip.{parsed, parse-shard_bytes}
use xet_server.Shard.Parse.Sound.{IsConsistent, parse_sound}
use xet_server.Shard.Parse.Total.{parse-Ends}
use xet_server.ShardBuilder.{
  FileBuildEntry, XorbBuildEntry, ShardBuilder, new, add_xorb_unchecked,
  add_xorb_with_raw_chunk_hashes, lookup_entries_from, add_file, build_footer, build_buffer, build,
}
use xet_server.ShardBuilder.Tables.{IsBuildFile, IsBuildXorb, IsBuilder, registered, tables}
use xet_server.ShardBuilder.RoundTrip.{tables-IsTables, build_footer-Places, parse-build}
use xet_server.ShardBuilder.Registered.{
  Registered, started, xorb_added, file_added, HasGained, add_xorb-HasGained, Registered-IsBuilder,
}
use xet_server.Tests.Data.{some_blake3, lower_hex, some_hash, some_hash-IsHash}

abbrev one_xorb : XorbBuildEntry
one_xorb = record {
  xorb_hash = some_hash;
  num_bytes_in_xorb = 100;
  num_bytes_on_disk = 80;
  chunks =
      record { chunk_hash = some_hash; chunk_byte_range_start = 0; unpacked_segment_bytes = 100 }
      ∷ [];
}

abbrev one_file : FileBuildEntry
one_file = record {
  file_hash = some_hash;
  segments =
      record {
        xorb_hash = some_hash;
        xorb_index = 0;
        chunk_index_start = 0;
        chunk_index_end = 1;
        unpacked_segment_bytes = 100;
      }
      ∷ [];
}

abbrev with_xorb : ShardBuilder
with_xorb = record {
  files = [];
  xorbs = one_xorb ∷ [];
  chunk_lookup_entries =
      record { chunk_hash = some_hash; xorb_hash = some_hash; chunk_index = 0 } ∷ [];
}

abbrev pub some_builder : ShardBuilder
some_builder = record with_xorb { files = one_file ∷ [] }

one_xorb-IsBuildXorb : IsBuildXorb one_xorb
one_xorb-IsBuildXorb = record {
  hash_fits = some_hash-IsHash;
  in_xorb_fits = omega arith;
  on_disk_fits = omega arith;
  chunks_fit = (
    record { hash_fits = some_hash-IsHash; start_fits = omega arith; bytes_fits = omega arith },
    tt,
  );
  count_fits = omega arith;
}

one_file-IsBuildFile : IsBuildFile one_file
one_file-IsBuildFile = record {
  hash_fits = some_hash-IsHash;
  segments_fit = (
    record {
      hash_fits = some_hash-IsHash;
      start_fits = omega arith;
      end_fits = omega arith;
      bytes_fits = omega arith;
    },
    tt,
  );
  count_fits = omega arith;
}

add_one_xorb :
    add_xorb_with_raw_chunk_hashes new some_hash 100 80 one_xorb.chunks (some_hash ∷ [])
    ≡ ok (with_xorb, 0)
unfolding add_xorb_with_raw_chunk_hashes add_xorb_unchecked new lookup_entries_from
add_one_xorb = refl

add_one_file : some_builder ≡ add_file with_xorb one_file.file_hash one_file.segments
unfolding add_file
add_one_file = refl

some_builder-Registered : Registered some_builder
some_builder-Registered =
    file_added one_file
      (xorb_added one_xorb (some_hash ∷ []) (started refl) one_xorb-IsBuildXorb
        (some_hash-IsHash, tt) add_one_xorb)
      one_file-IsBuildFile add_one_file

Registered-IsBuilder_example : IsBuilder some_builder
Registered-IsBuilder_example = Registered-IsBuilder some_builder-Registered

some_builder-IsBuilder : IsBuilder some_builder
some_builder-IsBuilder = Registered-IsBuilder some_builder-Registered

add_xorb-HasGained_example :
    ((b' : ShardBuilder) × (add_xorb_with_raw_chunk_hashes new one_xorb.xorb_hash
          one_xorb.num_bytes_in_xorb one_xorb.num_bytes_on_disk one_xorb.chunks
          (some_hash ∷ [])
        ≡ ok (b', 0))
      × HasGained new b' one_xorb (some_hash ∷ []))
    ⊎ ((e : XetError) × (add_xorb_with_raw_chunk_hashes new one_xorb.xorb_hash
            one_xorb.num_bytes_in_xorb one_xorb.num_bytes_on_disk one_xorb.chunks
            (some_hash ∷ [])
          ≡ err e)
        × (length one_xorb.chunks ≢ length (some_hash ∷ [])))
unfolding new
add_xorb-HasGained_example = add_xorb-HasGained new one_xorb (some_hash ∷ [])

parse-build_example :
    (build some_blake3 lower_hex some_builder ≡ ok (build_buffer some_builder))
    × (parse some_blake3 lower_hex (build_buffer some_builder)
        ≡ ok (
            registered some_builder
              (to_hex lower_hex (compute_data_hash some_blake3 (build_buffer some_builder)))))
parse-build_example =
    parse-build some_blake3 lower_hex some_builder some_builder-IsBuilder (omega arith)

parse_sound_example : IsConsistent (length (build_buffer some_builder)) (
    registered some_builder
      (to_hex lower_hex (compute_data_hash some_blake3 (build_buffer some_builder))))
parse_sound_example =
    parse_sound some_blake3 lower_hex (build_buffer some_builder)
      (registered some_builder
        (to_hex lower_hex (compute_data_hash some_blake3 (build_buffer some_builder))))
      (parse-build some_blake3 lower_hex some_builder some_builder-IsBuilder (omega arith)).1

parse-Ends_example : Ends (parse some_blake3 lower_hex (build_buffer some_builder))
parse-Ends_example = parse-Ends some_blake3 lower_hex (build_buffer some_builder)

parse-shard_bytes_example :
    parse some_blake3 lower_hex (shard_bytes (tables some_builder) (build_footer some_builder))
    ≡ ok (
        parsed (tables some_builder) (build_footer some_builder) (
          to_hex lower_hex (
            compute_data_hash some_blake3
              (shard_bytes (tables some_builder) (build_footer some_builder)))))
parse-shard_bytes_example =
    parse-shard_bytes some_blake3 lower_hex (tables some_builder) (build_footer some_builder)
      (tables-IsTables some_builder some_builder-IsBuilder (omega arith))
      (build_footer-Places some_builder some_builder-IsBuilder (omega arith))
