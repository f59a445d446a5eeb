-- ===== src/Xorb/Footer.antt =====
-- The round trip of `XorbObjectInfoV1` of src/format/xorb.rs, and its size.
use xet_server.Prelude.{
  ℕ, ◌^◌, ◌%◌, ◌≤◌, ◌≡◌, refl, ap, sym, ◌∙◌, arith, not, le→ltb, String, List, [], ◌∷◌, ◌++◌,
  length, length-append, append-nil, flat_map, All, IsU32,
}
use native.Mathlib.Nat.{mod-eq_of_lt}
use xet_server.Outcome
use xet_server.Outcome.{Outcome, ok, parse_error, refuse, Ends}
use xet_server.Bytes.{to_le_bytes, eq_bytes_refl}
use xet_server.Bytes.RoundTrip.{length-to_le_bytes}
use xet_server.Reader.{read_u32, repeat}
use xet_server.Reader.Reads.{
  Reads, Reads-bind, Reads-pure, Reads-lift, Reads-exact_of, Reads-bytes, Reads-u32,
  Reads-repeat_of,
}
use xet_server.Reader.Total.{
  Takes, Takes-Halts, Takes-bind, Takes-lift, Takes-pure, Takes-exact, Takes-u32, Takes-repeat,
  Takes-fewer, Ends-refuse,
}
use xet_server.Hash.{as_bytes, IsHash, read_hash}
use xet_server.Hash.Laws.{Reads-hash, length-as_bytes}
use xet_server.Shard.Sizes.{length-records}
use xet_server.Shard.Total.{Takes-hash}
use xet_server.Reader.{Cursor}
use xet_server.Xorb.ObjectInfo.{
  XorbObjectInfoV1, ident_main, ident_hashes, ident_boundaries, max_chunks_per_xorb, serialized_len,
  to_bytes, expect_bytes, deserialize, from_bytes,
}

-- The values fit their types, there is an offset of each kind for each chunk, and there are not too
-- many chunks.
pub record IsObjectInfo (info : XorbObjectInfoV1) : Type 0 where
  pub xorb_fits : IsHash info.xorb_hash
  pub hashes_fit : All IsHash info.chunk_hashes
  pub boundaries_fit : All IsU32 info.chunk_boundary_offsets
  pub unpacked_fit : All IsU32 info.unpacked_chunk_offsets
  pub boundary_each : length info.chunk_boundary_offsets ≡ length info.chunk_hashes
  pub unpacked_each : length info.unpacked_chunk_offsets ≡ length info.chunk_hashes
  pub few : length info.chunk_hashes ≤ max_chunks_per_xorb

Reads-expected :
    (bs : List ℕ) (n : ℕ) (m : String) → length bs ≡ n → Reads (expect_bytes bs n m) bs tt
unfolding expect_bytes
Reads-expected bs n m e = Reads-bytes (append-nil bs) (
    Reads-bind _ (Reads-exact_of bs e)
      (Reads-lift (ap (λ b. refuse (not b) (parse_error m)) (eq_bytes_refl bs))))

All-imp {ℓ κ μ} :
    {A : Type ℓ} (P : A → Type κ) (Q : A → Type μ) (xs : List A)
    → ((a : A) → P a → Q a)
    → All P xs
    → All Q xs
All-imp P Q [] f h = tt
All-imp P Q (x ∷ xs) f (hx, h) = (f x hx, All-imp P Q xs f h)

Reads-offsets :
    (n : ℕ) (offsets : List ℕ)
    → n ≡ length offsets
    → All IsU32 offsets
    → Reads (repeat n read_u32) (flat_map (to_le_bytes 4) offsets) offsets
Reads-offsets n offsets e h =
    Reads-repeat_of read_u32 (to_le_bytes 4) offsets e
      (All-imp IsU32 (λ a. Reads read_u32 (to_le_bytes 4 a) a) offsets (λ a v. Reads-u32 v) h)

-- A footer whose values fit their types, with an offset of each kind for each of at most 100 000
-- chunks, is read back from its bytes, whatever follows them, and the reader stands behind them.
pub Reads-object_info :
    (info : XorbObjectInfoV1) → IsObjectInfo info → Reads deserialize (to_bytes info) info
unfolding deserialize to_bytes
Reads-object_info info v =
    let n : length info.chunk_hashes % 2 ^ 32 ≡ length info.chunk_hashes =
      mod-eq_of_lt (omega (arith, v.few)) in
    Reads-bind _ (Reads-expected ident_hashes 7 _ refl) (
      Reads-bind _ (Reads-expected (0 ∷ []) 1 _ refl) (
        Reads-bind _ (Reads-u32 (omega arith)) (
          Reads-bind {bs = []} _
            (Reads-lift (
              ap (λ b. refuse b (parse_error "Too many chunks"))
                (le→ltb _ _ (omega (arith, n, v.few)))))
            (Reads-bind _
              (Reads-repeat_of read_hash as_bytes info.chunk_hashes n (
                All-imp IsHash (λ h. Reads read_hash (as_bytes h) h) info.chunk_hashes
                  (λ h f. Reads-hash f) v.hashes_fit))
              (Reads-bind _ (Reads-expected ident_boundaries 7 _ refl) (
                Reads-bind _ (Reads-expected (1 ∷ []) 1 _ refl) (
                  Reads-bind _
                    (Reads-offsets _ info.chunk_boundary_offsets (n ∙ sym v.boundary_each)
                      v.boundaries_fit)
                    (Reads-bind _
                      (Reads-offsets _ info.unpacked_chunk_offsets (n ∙ sym v.unpacked_each)
                        v.unpacked_fit)
                      (Reads-bind _ (Reads-expected ident_main 7 _ refl) (
                        Reads-bind _ (Reads-expected (1 ∷ []) 1 _ refl) (
                          Reads-bytes (append-nil _)
                            (Reads-bind _ (Reads-hash v.xorb_fits) (Reads-pure _)))))))))))))

-- The bytes of a footer with an offset of each kind for each chunk are as many as `serialized_len`
-- says.
pub length-to_bytes :
    (info : XorbObjectInfoV1)
    → length info.chunk_boundary_offsets ≡ length info.chunk_hashes
    → length info.unpacked_chunk_offsets ≡ length info.chunk_hashes
    → length (to_bytes info) ≡ serialized_len info
unfolding to_bytes serialized_len to_le_bytes
length-to_bytes info b u =
    let tail : List ℕ = ident_main ++ ((1 ∷ []) ++ as_bytes info.xorb_hash) in
    let unpacked : List ℕ = flat_map (to_le_bytes 4) info.unpacked_chunk_offsets in
    let boundaries : List ℕ = flat_map (to_le_bytes 4) info.chunk_boundary_offsets in
    let hashes : List ℕ = flat_map as_bytes info.chunk_hashes in
    omega (
      arith,
      b,
      u,
      length-append hashes (ident_boundaries ++ ((1 ∷ []) ++ (boundaries ++ (unpacked ++ tail)))),
      length-append boundaries (unpacked ++ tail),
      length-append unpacked tail,
      length-as_bytes info.xorb_hash,
      length-records as_bytes 32 info.chunk_hashes length-as_bytes,
      length-records (to_le_bytes 4) 4 info.chunk_boundary_offsets (length-to_le_bytes 4),
      length-records (to_le_bytes 4) 4 info.unpacked_chunk_offsets (length-to_le_bytes 4),
    )

Takes-expected : (bs : List ℕ) (n : ℕ) (m : String) → Takes 0 (expect_bytes bs n m)
unfolding expect_bytes
Takes-expected bs n m =
    Takes-bind _ 0 0 (Takes-fewer n 0 (omega arith) (Takes-exact n))
      (λ b. Takes-lift _ (Ends-refuse _ _))

Takes-offsets : (n : ℕ) → Takes 0 (repeat n read_u32)
Takes-offsets n = Takes-repeat n (Takes-fewer 4 0 (omega arith) Takes-u32)

Takes-object_info : Takes 0 deserialize
unfolding deserialize
Takes-object_info = Takes-bind _ 0 0 (Takes-expected _ 7 _) (λ _.
    Takes-bind _ 0 0 (Takes-expected _ 1 _) (λ _.
      Takes-bind _ 0 0 (Takes-fewer 4 0 (omega arith) Takes-u32) (λ n.
        Takes-bind _ 0 0 (Takes-lift _ (Ends-refuse _ _)) (λ _.
          Takes-bind _ 0 0 (Takes-repeat n (Takes-fewer 32 0 (omega arith) Takes-hash)) (λ _.
            Takes-bind _ 0 0 (Takes-expected _ 7 _) (λ _.
              Takes-bind _ 0 0 (Takes-expected _ 1 _) (λ _. Takes-bind _ 0 0 (Takes-offsets n) (λ _.
                Takes-bind _ 0 0 (Takes-offsets n) (λ _.
                  Takes-bind _ 0 0 (Takes-expected _ 7 _) (λ _.
                    Takes-bind _ 0 0 (Takes-expected _ 1 _) (λ _.
                      Takes-bind _ 0 0 (Takes-fewer 32 0 (omega arith) Takes-hash)
                        (λ _. Takes-pure _))))))))))))

from_value :
    (o : Outcome (XorbObjectInfoV1 × Cursor)) → Ends o → Ends (Outcome.◌>>=◌ o (λ r. ok r.0))
from_value (Outcome.ok r) h = tt
from_value (Outcome.err x) h = tt
from_value Outcome.panicked h = h
from_value Outcome.out_of_fuel h = h

-- On any bytes `from_bytes` returns a footer or an error.
pub from_bytes-Ends : (bs : List ℕ) → Ends (from_bytes bs)
unfolding from_bytes
from_bytes-Ends bs =
    from_value _
      ((Takes-Halts 0 deserialize Takes-object_info).at (record { position = 0; rest = bs }))

-- A footer is read back from its bytes, whatever follows them.
pub from_bytes-to_bytes :
    (info : XorbObjectInfoV1) (more : List ℕ)
    → IsObjectInfo info
    → from_bytes (to_bytes info ++ more) ≡ ok info
unfolding from_bytes
from_bytes-to_bytes info more v = rw ((Reads-object_info info v).run 0 more)
