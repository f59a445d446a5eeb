-- ===== src/Chunking/Cut.antt =====
-- src/chunking/cdc.rs: the cut that a round of the loops finds, its bounds and the bytes it reads.
use xet_server.Prelude.{
  ℕ, zero, suc, ◌+◌, ◌-◌, ◌*◌, ◌≤◌, ◌<◌, min, max, Bool, true, false, leb, lt→ltb, le→ltb, lt-cases,
  inl, inr, Option, none, some, List, length, take, drop, length-take, length-drop, ◌≡◌, refl,
  arith,
}
use xet_server.Outcome.{ok}
use native.Mathlib.Nat.{mul-suc, div-le_self}
use xet_server.Chunking.{
  GearHash, ChunkConfig, new_chunker, is_power_of_two, Chunker, boundary_size, hasher_window_size,
  chunk_at,
}

le-mul : (a b : ℕ) → 0 < b → a ≤ a * b
le-mul a zero h = elim h [ ]
le-mul a (suc b) h = omega (arith, mul-suc a b)

-- What the crate documents of `next_match`: it returns the position just behind the match, counted
-- from the start of the data.
abbrev pub IsGearHash : GearHash → Type 0
IsGearHash gear =
    (h : ℕ) (bs : List ℕ) (mask p : ℕ)
    → gear.next_match h bs mask ≡ some p
    → (0 < p) × (p ≤ length bs)

abbrev pub IsChunker : Chunker → Type 0
IsChunker c = (0 < c.max_chunk) × (c.min_chunk ≤ c.max_chunk)

-- A configuration that `new` accepts, with a multiplier of at least 1, has bounds in order.
pub new_chunker-IsChunker :
    (config : ChunkConfig) (c : Chunker)
    → 0 < config.max_chunk_multiplier
    → new_chunker config ≡ ok c
    → IsChunker c
unfolding new_chunker is_power_of_two
new_chunker-IsChunker config c m h =
    let d = div-le_self config.target_chunk_size config.min_chunk_divisor in
    let l = le-mul config.target_chunk_size config.max_chunk_multiplier m in ground (arith, d, l)

-- A match behind `search_start` and at most at `search_end`.
boundary_size-within :
    (m : Option ℕ) (search_start search_end offset : ℕ)
    → offset ≤ search_start
    → search_start < search_end
    → ((p : ℕ) → m ≡ some p → (0 < p) × (p ≤ search_end - search_start))
    → (search_start - offset < boundary_size m search_start search_end offset)
      × (boundary_size m search_start search_end offset ≤ search_end - offset)
boundary_size-within none s e o os se h = (omega arith, omega arith)
boundary_size-within (some p) s e o os se h =
    let l : 0 < p = (h p refl).0 in let u : p ≤ e - s = (h p refl).1 in (omega arith, omega arith)

-- The bounds of a chunk that is `size` of the `remaining` bytes.
pub record IsCut (c : Chunker) (remaining size : ℕ) (stop : Bool) : Type 0 where
  pub some_byte : 0 < size
  pub at_most : size ≤ c.max_chunk
  pub in_range : size ≤ remaining
  pub at_end : stop ≡ true → size ≡ remaining
  pub at_least : stop ≡ false → c.min_chunk ≤ size

pub slice_length :
    (bs : List ℕ) (s e : ℕ) → e ≤ length bs → length (take (e - s) (drop s bs)) ≡ e - s
slice_length bs s e h = omega (arith, length-take (e - s) (drop s bs), length-drop s bs)

-- A round with `min_chunk` bytes left searches, and does not break the loop.
unfoldable pub searched : GearHash → Chunker → List ℕ → ℕ → ℕ
searched gear c bs offset =
    let search_start = offset + (c.min_chunk - (hasher_window_size + 1)) in
    let search_end = min (offset + c.max_chunk) (length bs) in
    max
      (boundary_size
        (gear.next_match c.hash (take (search_end - search_start) (drop search_start bs)) c.mask)
        search_start search_end offset)
      (min c.min_chunk (length bs - offset))

pub chunk_at-short :
    (gear : GearHash) (c : Chunker) (bs : List ℕ) (offset : ℕ)
    → length bs - offset < c.min_chunk
    → chunk_at gear c bs offset ≡ (length bs - offset, true)
unfolding chunk_at
chunk_at-short gear c bs offset h = rw (lt→ltb _ _ h)

pub chunk_at-searched :
    (gear : GearHash) (c : Chunker) (bs : List ℕ) (offset : ℕ)
    → IsChunker c
    → offset < length bs
    → c.min_chunk ≤ length bs - offset
    → chunk_at gear c bs offset ≡ (searched gear c bs offset, false)
unfolding chunk_at searched
chunk_at-searched gear c bs offset (pos, le) h m =
    let s : leb (length bs) (offset + (c.min_chunk - (hasher_window_size + 1))) ≡ false =
      ground arith in
    let e : leb (min (offset + c.max_chunk) (length bs))
          (offset + (c.min_chunk - (hasher_window_size + 1)))
        ≡ false =
      ground arith in
    rw (le→ltb _ _ m, s, e)

searched-within :
    (gear : GearHash) (c : Chunker) (bs : List ℕ) (offset : ℕ)
    → IsGearHash gear
    → IsChunker c
    → offset < length bs
    → c.min_chunk ≤ length bs - offset
    → (0 < searched gear c bs offset)
      × (searched gear c bs offset ≤ c.max_chunk)
      × (searched gear c bs offset ≤ length bs - offset)
      × (c.min_chunk ≤ searched gear c bs offset)
unfolding searched
searched-within gear c bs offset g (pos, le) h m =
    let s : ℕ = offset + (c.min_chunk - (hasher_window_size + 1)) in
    let e : ℕ = min (offset + c.max_chunk) (length bs) in
    let se : s < e = omega arith in
    let found : Option ℕ = gear.next_match c.hash (take (e - s) (drop s bs)) c.mask in
    let w = boundary_size-within found s e offset (omega arith) se (λ p m.
      let q = g c.hash (take (e - s) (drop s bs)) c.mask p m in
      (q.0, omega (arith, slice_length bs s e (omega arith), q.1))) in
    let l : s - offset < boundary_size found s e offset = w.0 in
    let u : boundary_size found s e offset ≤ e - offset = w.1 in
    (omega arith, omega arith, omega arith, omega arith)

pub chunk_at-IsCut :
    (gear : GearHash) (c : Chunker) (bs : List ℕ) (offset : ℕ)
    → IsGearHash gear
    → IsChunker c
    → offset < length bs
    → IsCut c (length bs - offset) (chunk_at gear c bs offset).0 (chunk_at gear c bs offset).1
chunk_at-IsCut gear c bs offset g v h = elim (lt-cases (length bs - offset) c.min_chunk) [
  | inl short ↦ rw (chunk_at-short gear c bs offset short) (record {
    some_byte = omega arith;
    at_most = omega (arith, v.1);
    in_range = omega arith;
    at_end = λ e. refl;
    at_least = λ e. cc;
  })
  | inr m ↦
      let w = searched-within gear c bs offset g v h m in
      rw (chunk_at-searched gear c bs offset v h m) (record {
        some_byte = w.0;
        at_most = w.1;
        in_range = w.2;
        at_end = λ e. cc;
        at_least = λ e. w.3;
      })
]
