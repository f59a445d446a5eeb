-- ===== src/Chunking/Tiling.antt =====
-- src/chunking/cdc.rs: what the loop of `chunk_data` and `finalize` returns.
use xet_server.Prelude.{
  ℕ, zero, suc, ◌+◌, ◌-◌, ◌≤◌, ◌<◌, true, false, lt→ltb, le→ltb, Bool-cases, lt-cases, inl, inr,
  List, [], ◌∷◌, length, drop, length-drop, drop-drop, ◌≡◌, refl, sym, ap, ◌∙◌, subst, subst₂,
  arith,
}
use xet_server.Outcome.{ok}
use xet_server.Chunking.{GearHash, Chunker, Chunk, chunk_at, reset, chunk_loop, chunk_data}
use xet_server.Chunking.Cut.{IsGearHash, IsChunker, IsCut, chunk_at-IsCut}
use xet_server.Chunking.Local.{chunk_at-drop}
use native.Mathlib.Nat.{zero-add}

-- The chunks follow each other without a gap from the first offset to the second. All have a byte
-- at least and `most` at most, and all but the last have `least`.
pub data Tiles (least most : ℕ) : ℕ → ℕ → List Chunk → Type 0 where
  no_tile : {n : ℕ} → Tiles least most n n []
  last_tile :
      {n size : ℕ}
      → 0 < size
      → size ≤ most
      → Tiles least most n (n + size) (record { offset = n; size = size } ∷ [])
  tile :
      {n m size : ℕ} {cs : List Chunk}
      → 0 < size
      → least ≤ size
      → size ≤ most
      → Tiles least most (n + size) m cs
      → Tiles least most n m (record { offset = n; size = size } ∷ cs)

-- The chunks of `bs`, found one after another at its front, where `base` bytes come before it.
pub data Cuts (gear : GearHash) : ℕ → Chunker → List ℕ → List Chunk → Type 0 where
  no_cut : {base : ℕ} {c : Chunker} {bs : List ℕ} → length bs ≡ 0 → Cuts gear base c bs []
  last_cut :
      {base : ℕ} {c : Chunker} {bs : List ℕ} {size : ℕ}
      → 0 < length bs
      → chunk_at gear c bs 0 ≡ (size, true)
      → Cuts gear base c bs (record { offset = base; size = size } ∷ [])
  cut :
      {base : ℕ} {c : Chunker} {bs : List ℕ} {size : ℕ} {cs : List Chunk}
      → 0 < length bs
      → chunk_at gear c bs 0 ≡ (size, false)
      → Cuts gear (base + size) (reset c) (drop size bs) cs
      → Cuts gear base c bs (record { offset = base; size = size } ∷ cs)

pub Cuts-unique :
    {gear : GearHash} {base : ℕ} {c : Chunker} {bs : List ℕ} {cs ds : List Chunk}
    → Cuts gear base c bs cs
    → Cuts gear base c bs ds
    → cs ≡ ds
Cuts-unique (no_cut z) (no_cut z') = refl
Cuts-unique (no_cut z) (last_cut p a) = absurd (omega (arith, z, p))
Cuts-unique (no_cut z) (cut p a r) = absurd (omega (arith, z, p))
Cuts-unique (last_cut p a) (no_cut z) = absurd (omega (arith, z, p))
Cuts-unique (last_cut p a) (last_cut p' a') = cc
Cuts-unique (last_cut p a) (cut p' a' r) = cc
Cuts-unique (cut p a r) (no_cut z) = absurd (omega (arith, z, p))
Cuts-unique (cut p a r) (last_cut p' a') = cc
Cuts-unique {gear} {base} {c} {bs} (cut {size = n} {cs} p a r)
      (cut {size = n'} {cs = ds} p' a' r') =
    let e : n' ≡ n = ap (λ r. r.0) (sym a' ∙ a) in
    rw (e, Cuts-unique r (subst (λ k. Cuts gear (base + k) (reset c) (drop k bs) ds) e r'))

-- What the loop needs for its next round: `offset` bytes are done, and fuel for the others.
pub chunk_loop-Cuts :
    (fuel : ℕ) (gear : GearHash) (base : ℕ) (c : Chunker) (bs : List ℕ) (offset : ℕ)
    → IsGearHash gear
    → IsChunker c
    → offset ≤ length bs
    → length bs ≤ offset + fuel
    → (cs : List Chunk) × (c' : Chunker) × (chunk_loop fuel gear base c bs offset ≡ ok (cs, c'))
      × Cuts gear (base + offset) c (drop offset bs) cs
unfolding chunk_loop
chunk_loop-Cuts zero gear base c bs offset g v h f = (
  [],
  c,
  rw (le→ltb offset (length bs) (omega arith)),
  no_cut (omega (arith, length-drop offset bs)),
)
chunk_loop-Cuts (suc fuel) gear base c bs offset g v h f =
    let at = chunk_at gear c bs offset in
    let front = chunk_at gear c (drop offset bs) 0 in
    let l : length (drop offset bs) ≡ length bs - offset = length-drop offset bs in
    elim (lt-cases offset (length bs)) [
      | inr done ↦ ([], c, rw (le→ltb offset (length bs) done), no_cut (omega arith))
      | inl more ↦
          let w : IsCut c (length bs - offset) at.0 at.1 =
            chunk_at-IsCut gear c bs offset g v more in
          let same : at ≡ front = chunk_at-drop gear c bs offset v more in
          let some : 0 < length (drop offset bs) = omega arith in
          elim (Bool-cases at.1) [
            | inl stop ↦ (
              record { offset = base + offset; size = at.0 } ∷ [],
              c,
              rw (lt→ltb offset (length bs) more, stop),
              last_cut some (sym same ∙ ap (λ b. (at.0, b)) stop),
            )
            | inr goes ↦
                let in_range : at.0 ≤ length bs - offset = w.in_range in
                let some_byte : 0 < at.0 = w.some_byte in
                let (cs, c', e, r) =
                  chunk_loop-Cuts fuel gear base (reset c) bs (offset + at.0) g v (omega arith)
                    (omega arith) in
                (
                  record { offset = base + offset; size = at.0 } ∷ cs,
                  c',
                  rw (lt→ltb offset (length bs) more, goes, e),
                  cut some (sym same ∙ ap (λ b. (at.0, b)) goes) (
                      subst₂ (λ n xs. Cuts gear n (reset c) xs cs) (omega arith)
                        (sym (drop-drop offset at.0 bs)) r),
                )
          ]
    ]

pub Cuts-Tiles :
    {gear : GearHash} {base : ℕ} {c : Chunker} {bs : List ℕ} {cs : List Chunk}
    → IsGearHash gear
    → IsChunker c
    → Cuts gear base c bs cs
    → Tiles c.min_chunk c.max_chunk base (base + length bs) cs
Cuts-Tiles {base} {c} g v (no_cut z) =
    subst (λ n. Tiles c.min_chunk c.max_chunk base n []) (omega (arith, z)) no_tile
Cuts-Tiles {gear} {base} {c} {bs} g v (last_cut {size} p a) =
    let w : IsCut c (length bs - 0) size true =
      subst (λ r. IsCut c (length bs - 0) r.0 r.1) a (chunk_at-IsCut gear c bs 0 g v p) in
    let e : size ≡ length bs - 0 = w.at_end refl in
    subst (λ n. Tiles c.min_chunk c.max_chunk base n (record { offset = base; size = size } ∷ []))
      (omega arith) (last_tile w.some_byte w.at_most)
Cuts-Tiles {gear} {base} {c} {bs} g v (cut {size} {cs} p a r) =
    let w : IsCut c (length bs - 0) size false =
      subst (λ r. IsCut c (length bs - 0) r.0 r.1) a (chunk_at-IsCut gear c bs 0 g v p) in
    let u : size ≤ length bs - 0 = w.in_range in
    let rest : Tiles c.min_chunk c.max_chunk (base + size) (base + size + length (drop size bs))
        cs =
      Cuts-Tiles g v r in
    subst (λ n. Tiles c.min_chunk c.max_chunk base n (record { offset = base; size = size } ∷ cs))
      (omega (arith, length-drop size bs)) (tile w.some_byte (w.at_least refl) w.at_most rest)

pub chunk_data-Cuts :
    (gear : GearHash) (c : Chunker) (bs : List ℕ)
    → IsGearHash gear
    → IsChunker c
    → (cs : List Chunk) × (c' : Chunker) × (chunk_data gear c bs ≡ ok (cs, c'))
      × Cuts gear 0 c bs cs
unfolding chunk_data
chunk_data-Cuts gear c [] g v = ([], c, refl, no_cut refl)
chunk_data-Cuts gear c (b ∷ bs) g v =
    chunk_loop-Cuts (length (b ∷ bs)) gear 0 c (b ∷ bs) 0 g v (omega arith) (omega arith)

-- For a gear hash as documented and a minimum of at most the maximum, which is not 0, `chunk_data`
-- ends. Its chunks follow each other from the first byte of the data to the last, none is empty or
-- longer than the maximum, and none but the last is shorter than the minimum.
pub chunk_data-Tiles :
    (gear : GearHash) (c : Chunker) (bs : List ℕ)
    → IsGearHash gear
    → IsChunker c
    → (cs : List Chunk) × (c' : Chunker) × (chunk_data gear c bs ≡ ok (cs, c'))
      × Tiles c.min_chunk c.max_chunk 0 (length bs) cs
chunk_data-Tiles gear c bs g v =
    let (cs, c', e, r) = chunk_data-Cuts gear c bs g v in
    (
      cs,
      c',
      e,
      subst (λ n. Tiles c.min_chunk c.max_chunk 0 n cs) (zero-add (length bs)) (Cuts-Tiles g v r),
    )
