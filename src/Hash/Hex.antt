-- ===== src/Hash/Hex.antt =====
-- `from_hex` and `to_hex` of src/types/merkle_hash.rs. The digits are those of the `hex` crate.
use xet_server.Prelude.{ℕ, ◌*◌, ◌≡◌, ◌==◌, not, Option, some, List, length, All, IsByte, arith}
use xet_server.Outcome.{Outcome, ok, ◌>>=◌, ◌>>◌, refuse, ok_or, invalid_hash_format}
use xet_server.Hash.{MerkleHash, IsHash, from_bytes, as_bytes}
use xet_server.Hash.Laws.{length-as_bytes, as_bytes-IsByte, from_bytes-as_bytes}

-- `hex::encode` and `hex::decode`. Text is its bytes.
pub record Hex : Type 0 where
  pub encode : List ℕ → List ℕ
  pub decode : List ℕ → Option (List ℕ)

-- What the crate documents: two digits for a byte, and decoding undoes encoding.
pub record IsHexCodec (hex : Hex) : Type 0 where
  pub encode_length : (bs : List ℕ) → length (hex.encode bs) ≡ 2 * length bs
  pub decode_encode : (bs : List ℕ) → All IsByte bs → hex.decode (hex.encode bs) ≡ some bs

unfoldable pub to_hex : Hex → MerkleHash → List ℕ
to_hex hex h = hex.encode (as_bytes h)

unfoldable pub from_hex : Hex → List ℕ → Outcome MerkleHash
from_hex hex hex_str = do
  refuse (not (length hex_str == 64)) (invalid_hash_format "Expected 64 hex chars")
  bytes ← ok_or (hex.decode hex_str) (invalid_hash_format "Invalid hex")
  ok (from_bytes bytes)

-- For a codec as documented, a hash of 64-bit words is read back from the hexadecimal digits that
-- are printed for it.
pub from_hex-to_hex :
    (hex : Hex) (h : MerkleHash) → IsHexCodec hex → IsHash h → from_hex hex (to_hex hex h) ≡ ok h
unfolding from_hex to_hex
from_hex-to_hex hex h c v =
    rw (digits, c.decode_encode (as_bytes h) (as_bytes-IsByte h), from_bytes-as_bytes h v)
  where
    digits : length (hex.encode (as_bytes h)) ≡ 64
    digits = omega (arith, c.encode_length (as_bytes h), length-as_bytes h)
