-- ===== src/Shard/Sections/WrittenFiles.antt =====
-- The file section parser on sections that were written record by record.
use xet_server.Prelude.{
  ℕ, suc, ◌+◌, ◌*◌, ◌≤◌, ◌<◌, ◌≡◌, refl, ap, sym, ◌∙◌, List, [], ◌∷◌, ◌++◌, append_assoc,
  append-nil, arith, length, length-append, flat_map, All, IsU64, map,
}
use xet_server.Outcome.{ok}
use xet_server.Reader.{Cursor, stream_position}
use xet_server.Reader.Reads.{Reads, Reads-repeat_of}
use xet_server.Reader.Loops.{runs, runs_lift, pure_at, seek_to, foldl, Steps, while_before_reads}
use xet_server.Shard.FileSequence
use xet_server.Shard.FileSequence.{
  FileDataSequenceHeader, FileDataSequenceEntry, IsFileHeader, IsFileEntry,
}
use xet_server.Shard.RoundTrip.{Reads-file_header, Reads-file_entry}
use xet_server.Shard.Sizes.{length-file_header, length-file_entry, length-records}
use xet_server.Shard.Sections.{FileSection, no_files, file_section_step, parse_file_section}
use xet_server.Shard.Sections.Checks.{ensure_record_fits_ok, checked_mul_ok}

-- A header and the entries behind it.
pub record FileSeq : Type 0 where
  pub header : FileDataSequenceHeader
  pub entries : List FileDataSequenceEntry

pub record IsFileSeq (q : FileSeq) : Type 0 where
  pub header_fits : IsFileHeader q.header
  pub entries_fit : All IsFileEntry q.entries
  pub counted : q.header.num_entries ≡ length q.entries

abbrev pub encode_file_seq : FileSeq → List ℕ
encode_file_seq q =
    FileSequence.serialize_header q.header ++ flat_map FileSequence.serialize_entry q.entries

abbrev pub push_file_seq : FileSection → FileSeq → FileSection
push_file_seq s q = record {
  headers = s.headers ++ (q.header ∷ []);
  entries = s.entries ++ q.entries;
  hashes = s.hashes ++ (q.header.file_hash ∷ []);
}

pub length-encode_file_seq : (q : FileSeq) → length (encode_file_seq q) ≡ 48 + length q.entries * 48
length-encode_file_seq q = omega (
  arith,
  length-append (FileSequence.serialize_header q.header)
      (flat_map FileSequence.serialize_entry q.entries),
  length-file_header q.header,
  length-records FileSequence.serialize_entry 48 q.entries length-file_entry,
)

file_entries_read :
    (es : List FileDataSequenceEntry)
    → All IsFileEntry es
    → All (λ e. Reads FileSequence.deserialize_entry (FileSequence.serialize_entry e) e) es
file_entries_read [] h = tt
file_entries_read (e ∷ es) (he, h) = (Reads-file_entry e he, file_entries_read es h)

pub Steps-file :
    (end : ℕ) (q : FileSeq)
    → IsU64 end
    → IsFileSeq q
    → Steps end (file_section_step end) encode_file_seq push_file_seq q
unfolding file_section_step stream_position
Steps-file end q he v s p r fits = rw append_assoc (
    runs _ _ refl (
      runs_lift _ _ (ensure_record_fits_ok p 48 end (omega (arith, length-encode_file_seq q)) he) (
        runs _ _ ((Reads-file_header q.header v.header_fits).run p _) (
          runs_lift _ _
            (checked_mul_ok q.header.num_entries 48 _
              (omega (arith, v.header_fits.num_entries_fits)))
            (runs _ _ refl (
              runs_lift _ _
                (ensure_record_fits_ok _ _ end
                  (omega (arith, v.counted, length-encode_file_seq q, length-file_header q.header))
                  he)
                (runs _ _
                  ((Reads-repeat_of _ _ q.entries v.counted
                      (file_entries_read q.entries v.entries_fit)).run
                    _ r)
                  (pure_at r (
                    omega (
                      arith,
                      length-append (FileSequence.serialize_header q.header)
                          (flat_map FileSequence.serialize_entry q.entries),
                    ))))))))))

-- What the loop has gathered after the sequences `qs`.
abbrev pub file_section_of : List FileSeq → FileSection
file_section_of qs = record {
  headers = map (λ q. q.header) qs;
  entries = flat_map (λ q. q.entries) qs;
  hashes = map (λ q. q.header.file_hash) qs;
}

pushed_files :
    (qs : List FileSeq) (s : FileSection)
    → foldl push_file_seq s qs ≡ record {
      headers = s.headers ++ map (λ q. q.header) qs;
      entries = s.entries ++ flat_map (λ q. q.entries) qs;
      hashes = s.hashes ++ map (λ q. q.header.file_hash) qs;
    }
pushed_files [] s = simp append-nil
pushed_files (q ∷ qs) s = simp append_assoc at (pushed_files qs (push_file_seq s q))

file_seqs_step :
    (end : ℕ) (qs : List FileSeq)
    → IsU64 end
    → All IsFileSeq qs
    → All (Steps end (file_section_step end) encode_file_seq push_file_seq) qs
file_seqs_step end [] he h = tt
file_seqs_step end (q ∷ qs) he (hq, h) = (Steps-file end q he hq, file_seqs_step end qs he h)

file_seqs_long : (qs : List FileSeq) → All (λ q. 0 < length (encode_file_seq q)) qs
file_seqs_long [] = tt
file_seqs_long (q ∷ qs) = (omega (arith, length-encode_file_seq q), file_seqs_long qs)

pub length-file_seqs : (qs : List FileSeq) → length qs ≤ length (flat_map encode_file_seq qs)
length-file_seqs [] = omega arith
length-file_seqs (q ∷ qs) = omega (
  arith,
  length-append (encode_file_seq q) (flat_map encode_file_seq qs),
  length-encode_file_seq q,
  length-file_seqs qs,
)

-- A section that was written sequence by sequence is read back as these sequences.
pub parse_file_section_written :
    (content front back : List ℕ) (qs : List FileSeq) (end : ℕ) (c : Cursor)
    → content ≡ front ++ (flat_map encode_file_seq qs ++ back)
    → length front + length (flat_map encode_file_seq qs) ≡ end
    → IsU64 end
    → All IsFileSeq qs
    → parse_file_section content (length front) end c
      ≡ ok (file_section_of qs, record { position = end; rest = back })
unfolding parse_file_section
parse_file_section_written content front back qs end c e he hu h =
    runs _ _ (seek_to content front _ c e) (
      while_before_reads end (file_section_step end) encode_file_seq push_file_seq qs _ no_files
        (length front) back (file_seqs_step end qs hu h) (file_seqs_long qs) enough he
      ∙ ap (λ s. ok (s, record { position = end; rest = back })) (pushed_files qs no_files))
  where
    enough : length qs < suc (length content)
    enough = omega (
      arith,
      length-file_seqs qs,
      ap length e,
      length-append front (flat_map encode_file_seq qs ++ back),
      length-append (flat_map encode_file_seq qs) back,
    )

-- The same where the start is known.
pub parse_file_section_at :
    (content front back : List ℕ) (qs : List FileSeq) (start end : ℕ) (c : Cursor)
    → content ≡ front ++ (flat_map encode_file_seq qs ++ back)
    → start ≡ length front
    → end ≡ length front + length (flat_map encode_file_seq qs)
    → IsU64 end
    → All IsFileSeq qs
    → parse_file_section content start end c
      ≡ ok (file_section_of qs, record { position = end; rest = back })
parse_file_section_at content front back qs start end c e hs he hu h =
    rw hs (parse_file_section_written content front back qs end c e (sym he) hu h)
