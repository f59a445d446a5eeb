-- ===== src/ShardBuilder/Registered.antt =====
-- Builders that are made by the builder's own operations.
use xet_server.Prelude.{
  ℕ, zero, suc, ◌∙◌, ◌%◌, ◌^◌, ◌≢◌, some, get_elem?, ap, ◌⊎◌, inl, inr, Bool-cases, ◌==◌, ==_iff,
  ◌+◌, ◌≡◌, refl, sym, List, [], ◌∷◌, ◌++◌, arith, length, length-append, sum_by-append, All,
  All-append,
}
use mathlib.Core.Path.{subst}
use xet_server.Outcome.{ok, err, XetError, parse_error}
use xet_server.Hash.{MerkleHash, IsHash}
use xet_server.Shard.ChunkLookup.{ChunkLookupEntry, IsChunkLookup}
use xet_server.ShardBuilder.{
  FileBuildEntry, XorbBuildEntry, ShardBuilder, new, add_xorb_with_raw_chunk_hashes,
  lookup_entries_from, add_file,
}
use xet_server.ShardBuilder.Tables.{IsBuildFile, IsBuildXorb, IsBuilder}

-- The builders that `new`, `add_xorb_with_raw_chunk_hashes` and `add_file` make from values that
-- fit their types.
pub data Registered : ShardBuilder → Type 0 where
  started : {b : ShardBuilder} → b ≡ new → Registered b
  xorb_added :
      {b b' : ShardBuilder} {index : ℕ} (x : XorbBuildEntry) (raws : List MerkleHash)
      → Registered b
      → IsBuildXorb x
      → All IsHash raws
      → add_xorb_with_raw_chunk_hashes b x.xorb_hash x.num_bytes_in_xorb x.num_bytes_on_disk
          x.chunks raws
        ≡ ok (b', index)
      → Registered b'
  file_added :
      {b b' : ShardBuilder} (f : FileBuildEntry)
      → Registered b
      → IsBuildFile f
      → b' ≡ add_file b f.file_hash f.segments
      → Registered b'

length-lookup_entries_from :
    (h : MerkleHash) (i : ℕ) (raws : List MerkleHash)
    → length (lookup_entries_from h i raws) ≡ length raws
unfolding lookup_entries_from
length-lookup_entries_from h i [] = refl
length-lookup_entries_from h i (r ∷ raws) = omega (arith, length-lookup_entries_from h (i + 1) raws)

lookup_entries_from-IsChunkLookup :
    (h : MerkleHash) (i : ℕ) (raws : List MerkleHash)
    → IsHash h
    → All IsHash raws
    → All IsChunkLookup (lookup_entries_from h i raws)
unfolding lookup_entries_from
lookup_entries_from-IsChunkLookup h i [] v w = tt
lookup_entries_from-IsChunkLookup h i (r ∷ raws) v (wr, w) = (
  record { chunk_fits = wr; xorb_fits = v; index_fits = omega arith },
  lookup_entries_from-IsChunkLookup h (i + 1) raws v w,
)

-- What a successful call adds.
abbrev pub added : ShardBuilder → XorbBuildEntry → List MerkleHash → ShardBuilder
added b x raws = record {
  files = b.files;
  xorbs = b.xorbs ++ (x ∷ []);
  chunk_lookup_entries = b.chunk_lookup_entries ++ lookup_entries_from x.xorb_hash 0 raws;
}

add_xorb-added :
    (b b' : ShardBuilder) (index : ℕ) (x : XorbBuildEntry) (raws : List MerkleHash)
    → add_xorb_with_raw_chunk_hashes b x.xorb_hash x.num_bytes_in_xorb x.num_bytes_on_disk x.chunks
        raws
      ≡ ok (b', index)
    → (length x.chunks ≡ length raws) × (b' ≡ added b x raws) × (index ≡ length b.xorbs)
unfolding add_xorb_with_raw_chunk_hashes
add_xorb-added b b' index x raws e = ground arith

get_elem?-lookup_entries_from :
    (h : MerkleHash) (raws : List MerkleHash) (i j : ℕ) (raw : MerkleHash)
    → get_elem? raws i ≡ some raw
    → get_elem? (lookup_entries_from h j raws) i
      ≡ some (record { chunk_hash = raw; xorb_hash = h; chunk_index = (j + i) % 2 ^ 32 })
unfolding lookup_entries_from
get_elem?-lookup_entries_from h [] i j raw e = cc
get_elem?-lookup_entries_from h (r ∷ raws) zero j raw e =
    let same : j + 0 ≡ j = omega arith in rw same cc
get_elem?-lookup_entries_from h (r ∷ raws) (suc i) j raw e =
    let same : j + suc i ≡ j + 1 + i = omega arith in
    rw same (get_elem?-lookup_entries_from h raws i (j + 1) raw e)

-- What the builder gains with a xorb: the xorb itself, behind the others, and behind the lookup
-- entries one entry for each chunk, which has the chunk's raw hash, the xorb's hash, and the chunk's
-- number in the xorb, modulo 2 ^ 32.
pub record HasGained (b b' : ShardBuilder) (x : XorbBuildEntry) (raws : List MerkleHash)
    : Type 0 where
  pub lookups : List ChunkLookupEntry
  pub files_stay : b'.files ≡ b.files
  pub xorb_behind : b'.xorbs ≡ b.xorbs ++ (x ∷ [])
  pub lookups_behind : b'.chunk_lookup_entries ≡ b.chunk_lookup_entries ++ lookups
  pub raw_each : length raws ≡ length x.chunks
  pub lookup_each : length lookups ≡ length x.chunks
  pub numbered :
      (i : ℕ) (raw : MerkleHash)
      → get_elem? raws i ≡ some raw
      → get_elem? lookups i
        ≡ some (record { chunk_hash = raw; xorb_hash = x.xorb_hash; chunk_index = i % 2 ^ 32 })

-- The call that registers a xorb, on any builder, either returns the number of xorbs before, and a
-- builder that has gained the xorb and one lookup entry for each chunk, in order, with the chunk's
-- raw hash, the xorb's hash, and the chunk's number modulo 2 ^ 32; or it returns an error, and the
-- chunks are not as many as the raw hashes. When it succeeds they are.
pub add_xorb-HasGained :
    (b : ShardBuilder) (x : XorbBuildEntry) (raws : List MerkleHash)
    → ((b' : ShardBuilder) × (add_xorb_with_raw_chunk_hashes b x.xorb_hash x.num_bytes_in_xorb
            x.num_bytes_on_disk x.chunks raws
          ≡ ok (b', length b.xorbs))
        × HasGained b b' x raws)
      ⊎ ((e : XetError) × (add_xorb_with_raw_chunk_hashes b x.xorb_hash x.num_bytes_in_xorb
              x.num_bytes_on_disk x.chunks raws
            ≡ err e)
          × (length x.chunks ≢ length raws))
unfolding add_xorb_with_raw_chunk_hashes
add_xorb-HasGained b x raws = elim (Bool-cases (length x.chunks == length raws)) [
  | inl e ↦
      let same : length x.chunks ≡ length raws = (==_iff (length x.chunks) (length raws)).0 e in
      inl (
        added b x raws,
        ground (arith, same),
        record {
          lookups = lookup_entries_from x.xorb_hash 0 raws;
          files_stay = refl;
          xorb_behind = refl;
          lookups_behind = refl;
          raw_each = sym same;
          lookup_each = length-lookup_entries_from x.xorb_hash 0 raws ∙ sym same;
          numbered = λ i raw q.
              get_elem?-lookup_entries_from x.xorb_hash raws i 0 raw q
              ∙ ap
                  (λ n. some (record {
                    chunk_hash = raw;
                    xorb_hash = x.xorb_hash;
                    chunk_index = n % 2 ^ 32;
                  }))
                  (omega arith);
        },
      )
  | inr e ↦ inr (
    parse_error "raw chunk hash count mismatch",
    ground (arith, e),
    λ q. let t = (==_iff (length x.chunks) (length raws)).1 q in cc,
  )
]

added-IsBuilder :
    (b : ShardBuilder) (x : XorbBuildEntry) (raws : List MerkleHash)
    → IsBuilder b
    → IsBuildXorb x
    → All IsHash raws
    → length x.chunks ≡ length raws
    → IsBuilder (added b x raws)
added-IsBuilder b x raws v w h e = record {
  files_fit = v.files_fit;
  xorbs_fit = All-append IsBuildXorb b.xorbs _ v.xorbs_fit (w, tt);
  lookups_fit =
      All-append IsChunkLookup b.chunk_lookup_entries _ v.lookups_fit
        (lookup_entries_from-IsChunkLookup x.xorb_hash 0 raws w.hash_fits h);
  one_each = omega (
    arith,
    v.one_each,
    length-append b.chunk_lookup_entries (lookup_entries_from x.xorb_hash 0 raws),
    length-lookup_entries_from x.xorb_hash 0 raws,
    sum_by-append (λ (y : XorbBuildEntry). length y.chunks) b.xorbs (x ∷ []),
  );
}

file-IsBuilder :
    (b : ShardBuilder) (f : FileBuildEntry)
    → IsBuilder b
    → IsBuildFile f
    → IsBuilder (add_file b f.file_hash f.segments)
unfolding add_file
file-IsBuilder b f v w = record {
  files_fit = All-append IsBuildFile b.files _ v.files_fit (w, tt);
  xorbs_fit = v.xorbs_fit;
  lookups_fit = v.lookups_fit;
  one_each = v.one_each;
}

new-IsBuilder : IsBuilder new
unfolding new
new-IsBuilder = record { files_fit = tt; xorbs_fit = tt; lookups_fit = tt; one_each = refl }

-- A builder made by `new`, successful calls of `add_xorb_with_raw_chunk_hashes` and calls of
-- `add_file`, from values that fit their types, has values that fit and one lookup entry for each
-- chunk.
pub Registered-IsBuilder : {b : ShardBuilder} → Registered b → IsBuilder b
Registered-IsBuilder (started e) = subst IsBuilder (sym e) new-IsBuilder
Registered-IsBuilder (xorb_added {b = b} {b' = b'} {index = i} x raws r w h e) =
    let (same, is, _at) = add_xorb-added b b' i x raws e in
    subst IsBuilder (sym is) (added-IsBuilder b x raws (Registered-IsBuilder r) w h same)
Registered-IsBuilder (file_added {b = b} f r w e) =
    subst IsBuilder (sym e) (file-IsBuilder b f (Registered-IsBuilder r) w)
