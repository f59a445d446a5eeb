-- ===== src/Tests/Hashes.antt =====
-- Hashes.
use xet_server.Prelude.{◌≡◌, refl, replicate, arith}
use xet_server.Outcome.{ok}
use xet_server.Hash.{from_bytes, as_bytes}
use xet_server.Hash.Laws.{from_bytes-as_bytes, as_bytes-from_bytes}
use xet_server.Hash.Hex.{to_hex, from_hex, from_hex-to_hex}
use xet_server.Tests.Data.{
  lower_hex, lower_hex-IsHexCodec, All-replicate, some_hash, some_hash-IsHash,
}

from_bytes-as_bytes_example : from_bytes (as_bytes some_hash) ≡ some_hash
from_bytes-as_bytes_example = from_bytes-as_bytes some_hash some_hash-IsHash

as_bytes-from_bytes_example : as_bytes (from_bytes (replicate 32 7)) ≡ replicate 32 7
as_bytes-from_bytes_example =
    as_bytes-from_bytes (replicate 32 7) refl (All-replicate 32 7 (omega arith))

from_hex-to_hex_example : from_hex lower_hex (to_hex lower_hex some_hash) ≡ ok some_hash
from_hex-to_hex_example = from_hex-to_hex lower_hex some_hash lower_hex-IsHexCodec some_hash-IsHash
