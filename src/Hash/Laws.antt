-- ===== src/Hash/Laws.antt =====
-- The byte form of a hash, and equality of hashes.
use xet_server.Prelude.{
  ℕ, ◌+◌, ◌≤◌, ◌<◌, ◌^◌, ◌≡◌, ap, take, drop, length-take, length-drop, All-take, All-drop,
  take-append-drop, drop-drop, ◌↔◌, refl, true, List, [], ◌++◌, arith, length, All, IsByte,
  append-nil, append_assoc, ◌∙◌, take-all,
}
use xet_server.Bytes.{to_le_bytes, from_le_bytes}
use xet_server.Bytes.RoundTrip.{
  from_le_bytes-to_le_bytes, to_le_bytes-from_le_bytes, from_le_bytes-lt,
}
use xet_server.Reader.Reads.{
  Reads, Reads-bind, Reads-pure, Reads-exact_of, Reads-value, Reads-bytes,
}
use xet_server.Hash.{MerkleHash, eq_hash, from_bytes, as_bytes, IsHash, read_hash}

-- Hashes compare equal exactly when they are equal.
pub eq_hash_iff : (a b : MerkleHash) → (eq_hash a b ≡ true) ↔ (a ≡ b)
eq_hash_iff a b = ground arith

pub length-as_bytes : (h : MerkleHash) → length (as_bytes h) ≡ 32
unfolding as_bytes
length-as_bytes h = refl

pub as_bytes-IsByte : (h : MerkleHash) → All IsByte (as_bytes h)
unfolding as_bytes to_le_bytes
as_bytes-IsByte h = omega arith

-- A hash of 64-bit words is read back from its bytes.
pub from_bytes-as_bytes : (h : MerkleHash) → IsHash h → from_bytes (as_bytes h) ≡ h
unfolding from_bytes as_bytes to_le_bytes
from_bytes-as_bytes h v = λ i. record {
  word0 = from_le_bytes-to_le_bytes 8 h.word0 v.fits0 i;
  word1 = from_le_bytes-to_le_bytes 8 h.word1 v.fits1 i;
  word2 = from_le_bytes-to_le_bytes 8 h.word2 v.fits2 i;
  word3 = from_le_bytes-to_le_bytes 8 h.word3 v.fits3 i;
}

pub Reads-hash : {h : MerkleHash} → IsHash h → Reads read_hash (as_bytes h) h
unfolding read_hash
Reads-hash {h} v = Reads-value (from_bytes-as_bytes h v) (
    Reads-bytes (append-nil _) (Reads-bind _ (Reads-exact_of _ (length-as_bytes h)) (Reads-pure _)))

module _ (bs : List ℕ) (e : length bs ≡ 32) (h : All IsByte bs) where
  -- The eight bytes from `k` on.
  block_len : (k : ℕ) → k ≤ 24 → length (take 8 (drop k bs)) ≡ 8
  block_len k hk = omega (arith, length-take 8 (drop k bs), length-drop k bs)

  block_lt : (k : ℕ) → k ≤ 24 → from_le_bytes (take 8 (drop k bs)) < 2 ^ 64
  block_lt k hk = omega (
    arith,
    from_le_bytes-lt (take 8 (drop k bs)) (All-take IsByte 8 _ (All-drop IsByte k bs h)),
    ap (λ n. 256 ^ n) (block_len k hk),
  )

  block_bytes :
      (k : ℕ) → k ≤ 24 → to_le_bytes 8 (from_le_bytes (take 8 (drop k bs))) ≡ take 8 (drop k bs)
  block_bytes k hk =
      rw (ap (λ n. to_le_bytes n (from_le_bytes (take 8 (drop k bs)))) (block_len k hk)) at (
        to_le_bytes-from_le_bytes (take 8 (drop k bs))
          (All-take IsByte 8 _ (All-drop IsByte k bs h)))

  -- 32 bytes make a hash of 64-bit words.
  pub from_bytes-IsHash : IsHash (from_bytes bs)
  unfolding from_bytes
  from_bytes-IsHash = record {
    fits0 = block_lt 0 (omega arith);
    fits1 = block_lt 8 (omega arith);
    fits2 = block_lt 16 (omega arith);
    fits3 = block_lt 24 (omega arith);
  }

  rest_from : (k : ℕ) → take 8 (drop k bs) ++ drop (k + 8) bs ≡ drop k bs
  rest_from k = rw (← drop-drop k 8 bs) (take-append-drop 8 (drop k bs))

  blocks :
      take 8 bs ++ take 8 (drop 8 bs) ++ (take 8 (drop 16 bs) ++ (take 8 (drop 24 bs) ++ [])) ≡ bs
  blocks =
      rw (append_assoc, append-nil, take-all 8 (drop 24 bs) (omega (arith, length-drop 24 bs)))
        (rw (rest_from 16, rest_from 8) (take-append-drop 8 bs))

  -- The bytes of the hash that is read from 32 bytes are these bytes.
  pub as_bytes-from_bytes : as_bytes (from_bytes bs) ≡ bs
  unfolding as_bytes from_bytes
  as_bytes-from_bytes =
      (λ i.
        block_bytes 0 (omega arith) i
        ++ (block_bytes 8 (omega arith) i
            ++ (block_bytes 16 (omega arith) i ++ (block_bytes 24 (omega arith) i ++ []))))
      ∙ rw
          (← append_assoc (take 8 bs) (take 8 (drop 8 bs))
            (take 8 (drop 16 bs) ++ (take 8 (drop 24 bs) ++ [])))
          blocks
