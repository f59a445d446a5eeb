-- ===== src/Shard/Parse/Written.antt =====
-- The parser on a shard that was written section by section.
use xet_server.Prelude.{
  ℕ, ◌+◌, ◌*◌, ◌≤◌, ◌<◌, ◌≡◌, refl, ap, sym, ◌∙◌, List, [], ◌∷◌, ◌++◌, append-nil, arith, length,
  flat_map, All, IsU64, length-map, is_empty, if◌then◌else◌, ==_false, ◌==◌,
}
use xet_server.Outcome.{Outcome, ok, refuse_differs, refuse_equals}
use xet_server.Bytes.{eq_bytes_refl}
use xet_server.Reader.{Cursor, Reader, pure}
use xet_server.Reader.Reads.{Reads, Reads-repeat_of}
use xet_server.Reader.Loops.{runs, runs_lift, pure_at, seek_to, seek_at}
use xet_server.Shard.Header
use xet_server.Shard.Header.{MdbShardFileHeader, IsHeader, default_header}
use xet_server.Shard.Footer
use xet_server.Shard.Footer.{MdbShardFileFooter, IsFooter}
use xet_server.Shard.XorbSequence.{XorbChunkSequenceEntry}
use xet_server.Shard.ChunkLookup
use xet_server.Shard.ChunkLookup.{ChunkLookupEntry, IsChunkLookup}
use xet_server.Shard.RoundTrip.{Reads-header, Reads-footer, Reads-chunk_lookup}
use xet_server.Shard.Sizes.{length-chunk_lookup, length-records}
use xet_server.Shard.Sections.Checks.{checked_mul_ok, checked_add_ok, validate_section_bounds_ok}
use xet_server.Shard.Sections.WrittenFiles.{
  FileSeq, IsFileSeq, encode_file_seq, file_section_of, parse_file_section_at,
}
use xet_server.Shard.Sections.WrittenXorbs.{
  XorbSeq, IsXorbSeq, encode_xorb_seq, xorb_section_of, parse_xorb_section_at,
}
use xet_server.Shard.Parse.{
  read_header, read_footer, read_files, absent_files, present_files, read_xorbs, absent_xorbs,
  present_xorbs, read_lookups, absent_lookups, present_lookups,
}

pub default_header-IsHeader : IsHeader default_header
default_header-IsHeader = record {
  tag_length = refl;
  version_fits = omega arith;
  footer_size_fits = omega arith;
}

-- The value of a reader, wherever it leaves the cursor.
abbrev pub Gives {ℓ} : {A : Type ℓ} → Outcome (A × Cursor) → A → Type ℓ
Gives {A} o a = (c : Cursor) × (o ≡ ok (a, c))

pub header_written :
    (content back : List ℕ) (c : Cursor)
    → content ≡ Header.serialize default_header ++ back
    → Gives (read_header content c) default_header
unfolding read_header
header_written content back c e = (
  _,
  runs _ _ (seek_to _ [] _ c e) (
      runs _ _ ((Reads-header default_header default_header-IsHeader).run 0 back) (
        runs_lift _ _ (rw (eq_bytes_refl default_header.tag))
          (runs_lift _ _ refl (runs_lift _ _ refl (pure_at _ refl))))),
)

-- The branches on an offset.
module _ {ℓ} {A : Type ℓ} (n : ℕ) (absent present : Reader A) (c : Cursor) where
  at_zero : n ≡ 0 → (if n == 0 then absent else present) c ≡ absent c
  at_zero e = rw e

  at_positive : 0 < n → (if n == 0 then absent else present) c ≡ present c
  at_positive h = rw (==_false 0 n h)

pub files_written :
    (qs : List FileSeq) (f : MdbShardFileFooter) (content front back : List ℕ) (footer_start : ℕ)
    (c : Cursor)
    → content ≡ front ++ (flat_map encode_file_seq qs ++ back)
    → length front ≡ 48
    → f.file_info_offset ≡ (if is_empty qs then 0 else 48)
    → f.file_lookup_offset ≡ (if is_empty qs then 0 else 48 + length (flat_map encode_file_seq qs))
    → f.file_lookup_num_entry ≡ length qs
    → 48 + length (flat_map encode_file_seq qs) ≤ footer_start
    → IsU64 footer_start
    → All IsFileSeq qs
    → Gives
        (read_files content f footer_start 48 c)
        (file_section_of qs, 48 + length (flat_map encode_file_seq qs))
unfolding read_files absent_files present_files pure
files_written [] f content front back fs c e h48 i l n le u h =
    (c, at_zero _ _ _ c i ∙ runs_lift _ _ (rw (l, n) refl) (pure_at _ refl))
files_written (q ∷ qs) f content front back fs c e h48 i l n le u h = (
  _,
  at_positive f.file_info_offset _ _ c (omega (arith, i))
      ∙ runs_lift _ _ (refuse_differs _ _ _ i) (
          runs_lift _ _
            (validate_section_bounds_ok _ _ _ (omega (arith, i)) (omega (arith, i, l))
              (omega (arith, l)))
            (runs _ _
              (parse_file_section_at content front back (q ∷ qs) _ _ c e (i ∙ sym h48)
                (l ∙ ap (λ k. k + length (flat_map encode_file_seq (q ∷ qs))) (sym h48))
                (omega (arith, l)) h)
              (runs_lift _ _
                (refuse_differs _ _ _ (length-map (λ (x : FileSeq). x.header) (q ∷ qs) ∙ sym n))
                (ap
                  (λ k. ok (
                    (file_section_of (q ∷ qs), k),
                    record { position = f.file_lookup_offset; rest = back },
                  ))
                  l)))),
)

pub xorbs_written :
    (qs : List XorbSeq) (f : MdbShardFileFooter) (content front back : List ℕ)
    (start footer_start : ℕ) (c : Cursor)
    → content ≡ front ++ (flat_map encode_xorb_seq qs ++ back)
    → start ≡ length front
    → 48 ≤ start
    → f.xorb_info_offset ≡ (if is_empty qs then 0 else start)
    → f.xorb_lookup_offset
      ≡ (if is_empty qs then 0 else start + length (flat_map encode_xorb_seq qs))
    → f.xorb_lookup_num_entry ≡ length qs
    → start + length (flat_map encode_xorb_seq qs) ≤ footer_start
    → IsU64 footer_start
    → All IsXorbSeq qs
    → Gives
        (read_xorbs content f footer_start start c)
        (xorb_section_of qs, start + length (flat_map encode_xorb_seq qs))
unfolding read_xorbs absent_xorbs present_xorbs pure
xorbs_written [] f content front back start fs c e hs h48 i l n le u h = (
  c,
  at_zero _ _ _ c i
      ∙ runs_lift _ _ (rw (l, n) refl) (ap (λ k. ok ((xorb_section_of [], k), c)) (omega arith)),
)
xorbs_written (q ∷ qs) f content front back start fs c e hs h48 i l n le u h = (
  _,
  at_positive f.xorb_info_offset _ _ c (omega (arith, i))
      ∙ runs_lift _ _ (refuse_differs _ _ _ i) (
          runs_lift _ _
            (validate_section_bounds_ok _ _ _ (omega (arith, i)) (omega (arith, i, l))
              (omega (arith, l)))
            (runs _ _
              (parse_xorb_section_at content front back (q ∷ qs) _ _ c e (i ∙ hs)
                (l ∙ ap (λ k. k + length (flat_map encode_xorb_seq (q ∷ qs))) hs) (omega (arith, l))
                h)
              (runs_lift _ _
                (refuse_differs _ _ _ (length-map (λ (x : XorbSeq). x.header) (q ∷ qs) ∙ sym n))
                (ap
                  (λ k. ok (
                    (xorb_section_of (q ∷ qs), k),
                    record { position = f.xorb_lookup_offset; rest = back },
                  ))
                  l)))),
)

lookups_read :
    (ls : List ChunkLookupEntry)
    → All IsChunkLookup ls
    → All (λ e. Reads ChunkLookup.deserialize (ChunkLookup.serialize e) e) ls
lookups_read [] h = tt
lookups_read (e ∷ ls) (he, h) = (Reads-chunk_lookup e he, lookups_read ls h)

pub lookups_written :
    (ls : List ChunkLookupEntry) (f : MdbShardFileFooter) (content front back : List ℕ)
    (start footer_start : ℕ) (chunks : List XorbChunkSequenceEntry) (c : Cursor)
    → content ≡ front ++ (flat_map ChunkLookup.serialize ls ++ back)
    → start ≡ length front
    → 48 ≤ start
    → f.chunk_lookup_offset ≡ (if is_empty ls then 0 else start)
    → f.chunk_lookup_num_entry ≡ length ls
    → start + length (flat_map ChunkLookup.serialize ls) ≡ footer_start
    → IsU64 footer_start
    → length ls ≡ length chunks
    → All IsChunkLookup ls
    → Gives (read_lookups content f footer_start start chunks c) (ls, footer_start)
unfolding read_lookups absent_lookups present_lookups pure
lookups_written [] f content front back start fs [] c e hs h48 i n le u m h = (
  c,
  at_zero _ _ _ c i
      ∙ runs_lift _ _ (rw n refl)
          (runs_lift _ _ refl (ap (λ k. ok (([], k), c)) (omega (arith, le)))),
)
lookups_written [] f content front back start fs (x ∷ chunks) c e hs h48 i n le u m h =
    absurd (omega arith)
lookups_written (l ∷ ls) f content front back start fs chunks c e hs h48 i n le u m h = (
  _,
  at_positive f.chunk_lookup_offset _ _ c (omega (arith, i))
      ∙ runs_lift _ _ (refuse_equals f.chunk_lookup_num_entry 0 _ (omega (arith, n))) (
          runs_lift _ _ (refuse_differs _ _ _ i) (
            runs_lift _ _ (checked_mul_ok f.chunk_lookup_num_entry 68 _ (omega (arith, size))) (
              runs_lift _ _ (checked_add_ok f.chunk_lookup_offset _ _ (omega (arith, size, i))) (
                runs_lift _ _ (refuse_differs _ _ _ (omega (arith, size, i))) (
                  runs _ _ (seek_at content front _ _ c e (i ∙ hs)) (
                    runs _ _ ((Reads-repeat_of _ _ (l ∷ ls) n (lookups_read (l ∷ ls) h)).run _ back)
                      (ap
                        (λ k. ok (
                          (l ∷ ls, k),
                          record {
                            position =
                                f.chunk_lookup_offset
                                + length (flat_map ChunkLookup.serialize (l ∷ ls));
                            rest = back;
                          },
                        ))
                        (omega (arith, i, size))))))))),
)
  where
    size : start + f.chunk_lookup_num_entry * 68 ≡ fs
    size =
        omega (arith, n, le, length-records ChunkLookup.serialize 68 (l ∷ ls) length-chunk_lookup)

pub footer_written :
    (f : MdbShardFileFooter) (header : MdbShardFileHeader) (content front : List ℕ)
    (footer_start : ℕ) (c : Cursor)
    → content ≡ front ++ Footer.serialize f
    → footer_start ≡ length front
    → f.version ≡ header.version
    → f.footer_offset ≡ footer_start
    → IsFooter f
    → Gives (read_footer content header footer_start c) f
unfolding read_footer pure
footer_written f header content front fs c e hs hv ho v = (
  _,
  runs _ _
      (seek_at content front (Footer.serialize f ++ []) fs c
        (e ∙ ap (λ r. front ++ r) (sym (append-nil _))) hs)
      (runs _ _ ((Reads-footer f v).run fs [])
        (runs_lift _ _ (refuse_differs _ _ _ hv) (runs_lift _ _ (refuse_differs _ _ _ ho) refl))),
)
