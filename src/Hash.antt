-- ===== src/Hash.antt =====
-- src/types/merkle_hash.rs: the 256-bit hash, as four 64-bit words.
pub mod Laws
pub mod Hex
pub mod Keyed
use xet_server.Prelude.{
  ℕ, ◌*◌, ◌%◌, ◌^◌, ◌<◌, Bool, ◌&&◌, ◌==◌, List, [], ◌∷◌, take, drop, flatten, IsU64,
}
use xet_server.Outcome.{Outcome, ok, err}
use xet_server.Bytes.{to_le_bytes, from_le_bytes}
use xet_server.Reader.{Reader, ◌>>=◌, pure, read_exact}

pub record MerkleHash : Type 0 where
  pub word0 : ℕ
  pub word1 : ℕ
  pub word2 : ℕ
  pub word3 : ℕ

-- `MerkleHash::new`, and the `Default` instance
abbrev pub zero_hash : MerkleHash
zero_hash = record { word0 = 0; word1 = 0; word2 = 0; word3 = 0 }

-- The derived `PartialEq`.
abbrev pub eq_hash : MerkleHash → MerkleHash → Bool
eq_hash a b =
    a.word0 == b.word0 && (a.word1 == b.word1 && (a.word2 == b.word2 && a.word3 == b.word3))

-- The word of eight bytes from `i * 8` on.
abbrev word_at : List ℕ → ℕ → ℕ
word_at bytes i = from_le_bytes (take 8 (drop (i * 8) bytes))

unfoldable pub from_bytes : List ℕ → MerkleHash
unfolding from_le_bytes
from_bytes bytes = record {
  word0 = word_at bytes 0;
  word1 = word_at bytes 1;
  word2 = word_at bytes 2;
  word3 = word_at bytes 3;
}

unfoldable pub as_bytes : MerkleHash → List ℕ
unfolding to_le_bytes
as_bytes h = flatten (
    to_le_bytes 8 h.word0
    ∷ to_le_bytes 8 h.word1
    ∷ to_le_bytes 8 h.word2
    ∷ to_le_bytes 8 h.word3
    ∷ [])

unfoldable pub first_u64 : MerkleHash → ℕ
first_u64 h = h.word0

-- `Rem<u64>`
unfoldable pub rem : MerkleHash → ℕ → ℕ
rem h n = h.word0 % n

-- The four words are 64-bit words, as the Rust type says.
pub record IsHash (h : MerkleHash) : Type 0 where
  pub fits0 : IsU64 h.word0
  pub fits1 : IsU64 h.word1
  pub fits2 : IsU64 h.word2
  pub fits3 : IsU64 h.word3

-- `let mut b = [0u8; 32]; reader.read_exact(&mut b)?; MerkleHash::from(b)`
unfoldable pub read_hash : Reader MerkleHash
read_hash = do bytes ← read_exact 32; pure (from_bytes bytes)
