-- ===== src/Tests/Plans.antt =====
-- The plan of the file of a builder's shard.
use xet_server.Prelude.{◌≡◌, refl, none, some, List, [], ◌∷◌}
use xet_server.Outcome.{ok, Ends}
use xet_server.Shard.FileSequence.{FileDataSequenceEntry}
use xet_server.Shard.Parse.{MdbShardFile}
use xet_server.ShardBuilder.Tables.{registered}
use xet_server.ReconstructionPlan.{
  PlannedFile, position, find_file, entries_before, get_xorb, get_raw, locate_xorbs,
  raw_chunk_lookup, plan_chunks, plan_segment, plan_segments, build_file_chunk_plan,
}
use xet_server.ReconstructionPlan.Segments.{AreSegments, build_file_chunk_plan-AreSegments}
use xet_server.ReconstructionPlan.Total.{build_file_chunk_plan-Ends}
use xet_server.ReconstructionPlan.Sound.{IsPlan, build_file_chunk_plan-IsPlan}
use xet_server.Tests.Data.{some_hash}
use xet_server.Tests.Builders.{some_builder}

abbrev some_shard : MdbShardFile
some_shard = registered some_builder []

abbrev some_plan : PlannedFile
some_plan = record {
  file_hash = some_hash;
  file_index = 0;
  chunks =
      record {
        xorb_hash = some_hash;
        xorb_chunk_index = 0;
        chunk_byte_range_start = 0;
        unpacked_segment_bytes = 100;
        serialized_chunk_hash = some_hash;
        raw_chunk_hash = some_hash;
      }
      ∷ [];
  total_unpacked_bytes = 100;
}

some_shard-planned : build_file_chunk_plan some_shard some_hash none ≡ ok some_plan
unfolding build_file_chunk_plan find_file position entries_before locate_xorbs get_xorb
    raw_chunk_lookup get_raw plan_segments plan_segment plan_chunks
some_shard-planned = refl

build_file_chunk_plan-Ends_example : Ends (build_file_chunk_plan some_shard some_hash (some 3))
build_file_chunk_plan-Ends_example = build_file_chunk_plan-Ends some_shard some_hash (some 3)

build_file_chunk_plan-IsPlan_example :
    (segments : List FileDataSequenceEntry) × IsPlan some_shard some_hash some_plan segments
build_file_chunk_plan-IsPlan_example =
    build_file_chunk_plan-IsPlan some_shard some_hash none some_plan some_shard-planned

build_file_chunk_plan-AreSegments_example :
    (segments : List FileDataSequenceEntry) × IsPlan some_shard some_hash some_plan segments
    × AreSegments some_shard.xorb_entries some_shard.xorb_chunk_entries
        some_shard.chunk_lookup_entries segments some_plan.chunks
build_file_chunk_plan-AreSegments_example =
    build_file_chunk_plan-AreSegments some_shard some_hash none some_plan some_shard-planned
