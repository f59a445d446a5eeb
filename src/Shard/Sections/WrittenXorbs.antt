-- ===== src/Shard/Sections/WrittenXorbs.antt =====
-- The xorb section parser on sections that were written record by record.
use xet_server.Prelude.{
  ℕ, suc, ◌+◌, ◌*◌, ◌≤◌, ◌<◌, ◌≡◌, refl, ap, sym, ◌∙◌, List, [], ◌∷◌, ◌++◌, append_assoc,
  append-nil, arith, length, length-append, flat_map, All, IsU64, map,
}
use xet_server.Outcome.{ok}
use xet_server.Reader.{Cursor, stream_position}
use xet_server.Reader.Reads.{Reads, Reads-repeat_of}
use xet_server.Reader.Loops.{runs, runs_lift, pure_at, seek_to, foldl, Steps, while_before_reads}
use xet_server.Shard.XorbSequence
use xet_server.Shard.XorbSequence.{
  XorbChunkSequenceHeader, XorbChunkSequenceEntry, IsXorbHeader, IsXorbEntry,
}
use xet_server.Shard.RoundTrip.{Reads-xorb_header, Reads-xorb_entry}
use xet_server.Shard.Sizes.{length-xorb_header, length-xorb_entry, length-records}
use xet_server.Shard.Sections.{XorbSection, no_xorbs, xorb_section_step, parse_xorb_section}
use xet_server.Shard.Sections.Checks.{ensure_record_fits_ok, checked_mul_ok}

-- A header and the entries behind it.
pub record XorbSeq : Type 0 where
  pub header : XorbChunkSequenceHeader
  pub entries : List XorbChunkSequenceEntry

pub record IsXorbSeq (q : XorbSeq) : Type 0 where
  pub header_fits : IsXorbHeader q.header
  pub entries_fit : All IsXorbEntry q.entries
  pub counted : q.header.num_entries ≡ length q.entries

abbrev pub encode_xorb_seq : XorbSeq → List ℕ
encode_xorb_seq q =
    XorbSequence.serialize_header q.header ++ flat_map XorbSequence.serialize_entry q.entries

abbrev pub push_xorb_seq : XorbSection → XorbSeq → XorbSection
push_xorb_seq s q = record {
  headers = s.headers ++ (q.header ∷ []);
  entries = s.entries ++ q.entries;
}

pub length-encode_xorb_seq : (q : XorbSeq) → length (encode_xorb_seq q) ≡ 48 + length q.entries * 48
length-encode_xorb_seq q = omega (
  arith,
  length-append (XorbSequence.serialize_header q.header)
      (flat_map XorbSequence.serialize_entry q.entries),
  length-xorb_header q.header,
  length-records XorbSequence.serialize_entry 48 q.entries length-xorb_entry,
)

xorb_entries_read :
    (es : List XorbChunkSequenceEntry)
    → All IsXorbEntry es
    → All (λ e. Reads XorbSequence.deserialize_entry (XorbSequence.serialize_entry e) e) es
xorb_entries_read [] h = tt
xorb_entries_read (e ∷ es) (he, h) = (Reads-xorb_entry e he, xorb_entries_read es h)

pub Steps-xorb :
    (end : ℕ) (q : XorbSeq)
    → IsU64 end
    → IsXorbSeq q
    → Steps end (xorb_section_step end) encode_xorb_seq push_xorb_seq q
unfolding xorb_section_step stream_position
Steps-xorb end q he v s p r fits = rw append_assoc (
    runs _ _ refl (
      runs_lift _ _ (ensure_record_fits_ok p 48 end (omega (arith, length-encode_xorb_seq q)) he) (
        runs _ _ ((Reads-xorb_header q.header v.header_fits).run p _) (
          runs_lift _ _
            (checked_mul_ok q.header.num_entries 48 _
              (omega (arith, v.header_fits.num_entries_fits)))
            (runs _ _ refl (
              runs_lift _ _
                (ensure_record_fits_ok _ _ end
                  (omega (arith, v.counted, length-encode_xorb_seq q, length-xorb_header q.header))
                  he)
                (runs _ _
                  ((Reads-repeat_of _ _ q.entries v.counted
                      (xorb_entries_read q.entries v.entries_fit)).run
                    _ r)
                  (pure_at r (
                    omega (
                      arith,
                      length-append (XorbSequence.serialize_header q.header)
                          (flat_map XorbSequence.serialize_entry q.entries),
                    ))))))))))

-- What the loop has gathered after the sequences `qs`.
abbrev pub xorb_section_of : List XorbSeq → XorbSection
xorb_section_of qs = record {
  headers = map (λ q. q.header) qs;
  entries = flat_map (λ q. q.entries) qs;
}

pushed_xorbs :
    (qs : List XorbSeq) (s : XorbSection)
    → foldl push_xorb_seq s qs ≡ record {
      headers = s.headers ++ map (λ q. q.header) qs;
      entries = s.entries ++ flat_map (λ q. q.entries) qs;
    }
pushed_xorbs [] s = simp append-nil
pushed_xorbs (q ∷ qs) s = simp append_assoc at (pushed_xorbs qs (push_xorb_seq s q))

xorb_seqs_step :
    (end : ℕ) (qs : List XorbSeq)
    → IsU64 end
    → All IsXorbSeq qs
    → All (Steps end (xorb_section_step end) encode_xorb_seq push_xorb_seq) qs
xorb_seqs_step end [] he h = tt
xorb_seqs_step end (q ∷ qs) he (hq, h) = (Steps-xorb end q he hq, xorb_seqs_step end qs he h)

xorb_seqs_long : (qs : List XorbSeq) → All (λ q. 0 < length (encode_xorb_seq q)) qs
xorb_seqs_long [] = tt
xorb_seqs_long (q ∷ qs) = (omega (arith, length-encode_xorb_seq q), xorb_seqs_long qs)

pub length-xorb_seqs : (qs : List XorbSeq) → length qs ≤ length (flat_map encode_xorb_seq qs)
length-xorb_seqs [] = omega arith
length-xorb_seqs (q ∷ qs) = omega (
  arith,
  length-append (encode_xorb_seq q) (flat_map encode_xorb_seq qs),
  length-encode_xorb_seq q,
  length-xorb_seqs qs,
)

-- A section that was written sequence by sequence is read back as these sequences.
pub parse_xorb_section_written :
    (content front back : List ℕ) (qs : List XorbSeq) (end : ℕ) (c : Cursor)
    → content ≡ front ++ (flat_map encode_xorb_seq qs ++ back)
    → length front + length (flat_map encode_xorb_seq qs) ≡ end
    → IsU64 end
    → All IsXorbSeq qs
    → parse_xorb_section content (length front) end c
      ≡ ok (xorb_section_of qs, record { position = end; rest = back })
unfolding parse_xorb_section
parse_xorb_section_written content front back qs end c e he hu h =
    runs _ _ (seek_to content front _ c e) (
      while_before_reads end (xorb_section_step end) encode_xorb_seq push_xorb_seq qs _ no_xorbs
        (length front) back (xorb_seqs_step end qs hu h) (xorb_seqs_long qs) enough he
      ∙ ap (λ s. ok (s, record { position = end; rest = back })) (pushed_xorbs qs no_xorbs))
  where
    enough : length qs < suc (length content)
    enough = omega (
      arith,
      length-xorb_seqs qs,
      ap length e,
      length-append front (flat_map encode_xorb_seq qs ++ back),
      length-append (flat_map encode_xorb_seq qs) back,
    )

-- The same where the start is known.
pub parse_xorb_section_at :
    (content front back : List ℕ) (qs : List XorbSeq) (start end : ℕ) (c : Cursor)
    → content ≡ front ++ (flat_map encode_xorb_seq qs ++ back)
    → start ≡ length front
    → end ≡ length front + length (flat_map encode_xorb_seq qs)
    → IsU64 end
    → All IsXorbSeq qs
    → parse_xorb_section content start end c
      ≡ ok (xorb_section_of qs, record { position = end; rest = back })
parse_xorb_section_at content front back qs start end c e hs he hu h =
    rw hs (parse_xorb_section_written content front back qs end c e (sym he) hu h)
