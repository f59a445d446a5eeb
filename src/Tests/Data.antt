-- ===== src/Tests/Data.antt =====
-- Concrete values for the parameters: digests, hexadecimal digits and a gear hash that satisfy what
-- the crates document, and small inputs.
use xet_server.Prelude.{
  ℕ, zero, suc, ◌+◌, ◌-◌, ◌*◌, ◌/◌, ◌%◌, ◌≤◌, ◌<◌, ◌==◌, ltb, if◌then◌else◌, Option-cases, inl, inr,
  Option, none, some, List, [], ◌∷◌, length, replicate, ap, All, IsByte, ◌≡◌, refl, arith,
}
use xet_server.Hash.{MerkleHash, IsHash}
use xet_server.Hash.Keyed.{Blake3, HasDigests}
use xet_server.Hash.Hex.{Hex, IsHexCodec}
use xet_server.Chunking.{GearHash}
use xet_server.Chunking.Cut.{IsGearHash}

pub All-replicate : (n a : ℕ) → IsByte a → All IsByte (replicate n a)
All-replicate zero a h = tt
All-replicate (suc n) a h = (h, All-replicate n a h)

-- Every digest is 32 times the length of the data, as a byte.
abbrev pub some_blake3 : Blake3
some_blake3 = record { keyed_hash = λ key bs. replicate 32 (length bs % 256) }

pub some_blake3-HasDigests : HasDigests some_blake3
some_blake3-HasDigests = record {
  digest_length = λ key bs. refl;
  digest_bytes = λ key bs. All-replicate 32 (length bs % 256) (omega arith);
}

abbrev digit : ℕ → ℕ
digit n = if ltb n 10 then 48 + n else 87 + n

abbrev digit_value : ℕ → ℕ
digit_value c = if ltb c 58 then c - 48 else c - 87

abbrev digits : List ℕ → List ℕ
digits [] = []
digits (b ∷ bs) = digit (b / 16) ∷ digit (b % 16) ∷ digits bs

abbrev push_some : ℕ → Option (List ℕ) → Option (List ℕ)
push_some b none = none
push_some b (some bs) = some (b ∷ bs)

abbrev values : List ℕ → Option (List ℕ)
values [] = some []
values (c ∷ []) = none
values (c ∷ d ∷ cs) = push_some (16 * digit_value c + digit_value d) (values cs)

abbrev pub lower_hex : Hex
lower_hex = record { encode = digits; decode = values }

length-digits : (bs : List ℕ) → length (digits bs) ≡ 2 * length bs
length-digits [] = refl
length-digits (b ∷ bs) = omega (arith, length-digits bs)

digit_value-digit : (n : ℕ) → n < 16 → digit_value (digit n) ≡ n
digit_value-digit n h = ground arith

values-digits : (bs : List ℕ) → All IsByte bs → values (digits bs) ≡ some bs
values-digits [] h = refl
values-digits (b ∷ bs) (hb, h) =
    rw
      (
        values-digits bs h,
        digit_value-digit (b / 16) (omega arith),
        digit_value-digit (b % 16) (omega arith),
      )
      (ap (λ n. some (n ∷ bs)) (omega arith))

pub lower_hex-IsHexCodec : IsHexCodec lower_hex
lower_hex-IsHexCodec = record { encode_length = length-digits; decode_encode = values-digits }

-- The position behind the first byte 0.
abbrev behind_zero : List ℕ → Option ℕ
behind_zero [] = none
behind_zero (b ∷ bs) =
    if b == 0 then some 1 else elim (behind_zero bs) [ none ↦ none | some p ↦ some (suc p) ]

abbrev pub zero_gear : GearHash
zero_gear = record { next_match = λ h bs mask. behind_zero bs }

behind_zero-within : (bs : List ℕ) (p : ℕ) → behind_zero bs ≡ some p → (0 < p) × (p ≤ length bs)
behind_zero-within [] p e = cc
behind_zero-within (b ∷ bs) p e = elim (Option-cases (behind_zero bs)) [
  | inl n ↦ ground (arith, n)
  | inr (q, h) ↦ let w = behind_zero-within bs q h in ground (arith, h, w)
]

pub zero_gear-IsGearHash : IsGearHash zero_gear
zero_gear-IsGearHash h bs mask p e = behind_zero-within bs p e

abbrev pub some_hash : MerkleHash
some_hash = record { word0 = 1; word1 = 2; word2 = 3; word3 = 4 }

pub some_hash-IsHash : IsHash some_hash
some_hash-IsHash = record {
  fits0 = omega arith;
  fits1 = omega arith;
  fits2 = omega arith;
  fits3 = omega arith;
}
