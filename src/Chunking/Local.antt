-- ===== src/Chunking/Local.antt =====
-- src/chunking/cdc.rs: the bytes that a round of the loops reads.
use xet_server.Prelude.{
  ℕ, ◌+◌, ◌-◌, ◌≤◌, ◌<◌, min, true, false, lt-cases, inl, inr, Option, none, some, List, length,
  take, drop, length-drop, drop-drop, ◌++◌, length-append, slice-append, sym, ◌≡◌, ap, arith,
}
use native.Mathlib.Nat.{zero-add}
use xet_server.Chunking.{
  GearHash, Chunker, boundary_size, hasher_window_size, chunk_at, drained_size,
}
use xet_server.Chunking.Cut.{IsChunker, searched, chunk_at-short, chunk_at-searched}

boundary_size-shift :
    (m : Option ℕ) (offset s e s' e' : ℕ)
    → s ≡ offset + s'
    → e ≡ offset + e'
    → boundary_size m s e offset ≡ boundary_size m s' e' 0
boundary_size-shift none offset s e s' e' p q = omega arith
boundary_size-shift (some x) offset s e s' e' p q = omega arith

searched-drop :
    (gear : GearHash) (c : Chunker) (bs : List ℕ) (offset : ℕ)
    → offset ≤ length bs
    → searched gear c bs offset ≡ searched gear c (drop offset bs) 0
unfolding searched
searched-drop gear c bs offset h =
    let k : ℕ = c.min_chunk - (hasher_window_size + 1) in
    let l : length (drop offset bs) ≡ length bs - offset = length-drop offset bs in
    let e : min (offset + c.max_chunk) (length bs)
        ≡ offset + min (0 + c.max_chunk) (length (drop offset bs)) =
      omega arith in
    let n : min (offset + c.max_chunk) (length bs) - (offset + k)
        ≡ min (0 + c.max_chunk) (length (drop offset bs)) - (0 + k) =
      omega arith in
    let d : drop (offset + k) bs ≡ drop (0 + k) (drop offset bs) =
      rw zero-add (sym (drop-drop offset k bs)) in
    let r : length bs - offset ≡ length (drop offset bs) - 0 = omega arith in
    rw (
      n,
      d,
      r,
      boundary_size-shift
          (gear.next_match c.hash
            (take (min (0 + c.max_chunk) (length (drop offset bs)) - (0 + k))
              (drop (0 + k) (drop offset bs)))
            c.mask)
          offset (offset + k) (min (offset + c.max_chunk) (length bs)) (0 + k)
          (min (0 + c.max_chunk) (length (drop offset bs))) (omega arith) e,
    )

pub chunk_at-drop :
    (gear : GearHash) (c : Chunker) (bs : List ℕ) (offset : ℕ)
    → IsChunker c
    → offset < length bs
    → chunk_at gear c bs offset ≡ chunk_at gear c (drop offset bs) 0
chunk_at-drop gear c bs offset v h =
    let l : length (drop offset bs) ≡ length bs - offset = length-drop offset bs in
    elim (lt-cases (length bs - offset) c.min_chunk) [
      | inl short ↦
          rw
            (
              chunk_at-short gear c bs offset short,
              chunk_at-short gear c (drop offset bs) 0 (omega arith),
            )
            (ap (λ n. (n, true)) (omega arith))
      | inr m ↦
          rw
            (
              chunk_at-searched gear c bs offset v h m,
              chunk_at-searched gear c (drop offset bs) 0 v (omega arith) (omega arith),
            )
            (ap (λ n. (n, false)) (searched-drop gear c bs offset (omega arith)))
    ]

-- With `max_chunk` bytes in the buffer, no later byte is read.
pub chunk_at-drained :
    (gear : GearHash) (c : Chunker) (buffer more : List ℕ)
    → IsChunker c
    → c.max_chunk ≤ length buffer
    → chunk_at gear c (buffer ++ more) 0 ≡ (drained_size gear c buffer, false)
unfolding searched drained_size
chunk_at-drained gear c buffer more v h =
    let k : ℕ = c.min_chunk - (hasher_window_size + 1) in
    let l : length (buffer ++ more) ≡ length buffer + length more = length-append buffer more in
    let e : min (0 + c.max_chunk) (length (buffer ++ more)) ≡ c.max_chunk = omega arith in
    let t : take (c.max_chunk - k) (drop k (buffer ++ more))
        ≡ take (c.max_chunk - k) (drop k buffer) =
      slice-append buffer more k c.max_chunk h in
    let r : min c.min_chunk (length (buffer ++ more) - 0) ≡ min c.min_chunk (length buffer) =
      omega arith in
    rw (
      chunk_at-searched gear c (buffer ++ more) 0 v (omega (arith, v.0)) (omega (arith, v.1)),
      e,
      r,
      zero-add,
      t,
    )
