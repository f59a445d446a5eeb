-- ===== src/Shard/Parse/Sound.antt =====
-- What holds of every shard that `parse` accepts.
use xet_server.Prelude.{
  ℕ, ◌+◌, ◌≤◌, ◌≡◌, refl, sym, ◌∙◌, false, not, ◌||◌, ◌==◌, ltb, List, arith, length, map, sum_by,
}
use mathlib.Core.Path.{subst}
use xet_server.Outcome.{Outcome, ok, err, panicked, out_of_fuel, ◌>>=◌, ok-injective}
use xet_server.Bytes.{eq_bytes→eq}
use xet_server.Reader.{Cursor}
use xet_server.Reader.Ensures.{
  After, Ensures, Ensures-any, Ensures-pure, Ensures-if, Ensures-refuse, Ensures-bind,
  Ensures-repeat,
}
use xet_server.Hash.Keyed.{Blake3}
use xet_server.Hash.Hex.{Hex}
use xet_server.Shard.Header.{MdbShardFileHeader, default_header}
use xet_server.Shard.Footer.{MdbShardFileFooter}
use xet_server.Shard.XorbSequence.{XorbChunkSequenceEntry}
use xet_server.Shard.ChunkLookup.{ChunkLookupEntry}
use xet_server.Shard.Sections.{FileSection, XorbSection}
use xet_server.Shard.Sections.Counted.{
  not_differs, not_refused, IsFileSection, IsXorbSection, IsFileSection-Ensures,
  IsXorbSection-Ensures,
}
use xet_server.Shard.Parse.{
  MdbShardFile, Placed, mapping, read_header, read_footer, read_files, absent_files, present_files,
  read_xorbs, absent_xorbs, present_xorbs, read_lookups, absent_lookups, present_lookups,
  parse_reader, parse,
}

large : (n m : ℕ) → ltb n m ≡ false → m ≤ n
large n m h = ground arith

zero_count : (a b : ℕ) → (not (a == 0) || not (b == 0)) ≡ false → b ≡ 0
zero_count a b h = ground arith

record IsDefault (h : MdbShardFileHeader) : Type 0 where
  tag_is : h.tag ≡ default_header.tag
  version_is : h.version ≡ 2
  footer_size_is : h.footer_size ≡ 208

header-Ensures : (content : List ℕ) → Ensures IsDefault (read_header content)
unfolding read_header
header-Ensures content = Ensures-bind _ (Ensures-any _) (λ _ _.
    Ensures-bind _ (Ensures-any _) (λ h _. Ensures-bind _ (Ensures-refuse _ _) (λ _ t.
      Ensures-bind _ (Ensures-refuse _ _) (λ _ v. Ensures-bind _ (Ensures-refuse _ _) (λ _ s.
        Ensures-pure IsDefault h (record {
          tag_is = eq_bytes→eq h.tag default_header.tag (not_refused _ t);
          version_is = not_differs h.version 2 v;
          footer_size_is = not_differs h.footer_size 208 s;
        }))))))

-- What the three parts of the body have to do with the footer.
abbrev IsFiles : MdbShardFileFooter → Placed FileSection → Type 0
IsFiles f r = IsFileSection r.0 × (length r.0.headers ≡ f.file_lookup_num_entry)

abbrev IsXorbs : MdbShardFileFooter → Placed XorbSection → Type 0
IsXorbs f r = IsXorbSection r.0 × (length r.0.headers ≡ f.xorb_lookup_num_entry)

abbrev IsLookups : MdbShardFileFooter → Placed (List ChunkLookupEntry) → Type 0
IsLookups f r = length r.0 ≡ f.chunk_lookup_num_entry

module _ (content : List ℕ) (header : MdbShardFileHeader) (footer_start : ℕ) where
  record IsPlaced (f : MdbShardFileFooter) : Type 0 where
    version_is : f.version ≡ header.version
    footer_is : f.footer_offset ≡ footer_start

  footer-Ensures : Ensures IsPlaced (read_footer content header footer_start)
  unfolding read_footer
  footer-Ensures = Ensures-bind _ (Ensures-any _) (λ _ _. Ensures-bind _ (Ensures-any _) (λ f _.
      Ensures-bind _ (Ensures-refuse _ _) (λ _ v. Ensures-bind _ (Ensures-refuse _ _) (λ _ o.
        Ensures-pure IsPlaced f (record {
          version_is = not_differs f.version header.version v;
          footer_is = not_differs f.footer_offset footer_start o;
        })))))

  read_files-Ensures :
      (f : MdbShardFileFooter) (next : ℕ)
      → Ensures (IsFiles f) (read_files content f footer_start next)
  unfolding read_files absent_files present_files
  read_files-Ensures f next =
      Ensures-if _ (f.file_info_offset == 0) {m = absent_files f next}
        {n = present_files content f footer_start next}
        (λ _. Ensures-bind _ (Ensures-refuse _ _) (λ _ t.
          Ensures-pure (IsFiles f) _
            (record { entries_counted = refl; hashes_listed = refl }, sym (zero_count _ _ t))))
        (λ _. Ensures-bind _ (Ensures-any _) (λ _ _. Ensures-bind _ (Ensures-any _) (λ _ _.
          Ensures-bind _ (IsFileSection-Ensures content _ _) (λ p v.
            Ensures-bind _ (Ensures-refuse _ _)
              (λ _ t. Ensures-pure (IsFiles f) _ (v, not_differs _ _ t))))))

  read_xorbs-Ensures :
      (f : MdbShardFileFooter) (next : ℕ)
      → Ensures (IsXorbs f) (read_xorbs content f footer_start next)
  unfolding read_xorbs absent_xorbs present_xorbs
  read_xorbs-Ensures f next =
      Ensures-if _ (f.xorb_info_offset == 0) {m = absent_xorbs f next}
        {n = present_xorbs content f footer_start next}
        (λ _. Ensures-bind _ (Ensures-refuse _ _) (λ _ t.
          Ensures-pure (IsXorbs f) _ (record { entries_counted = refl }, sym (zero_count _ _ t))))
        (λ _. Ensures-bind _ (Ensures-any _) (λ _ _. Ensures-bind _ (Ensures-any _) (λ _ _.
          Ensures-bind _ (IsXorbSection-Ensures content _ _) (λ p v.
            Ensures-bind _ (Ensures-refuse _ _)
              (λ _ t. Ensures-pure (IsXorbs f) _ (v, not_differs _ _ t))))))

  read_lookups-Ensures :
      (f : MdbShardFileFooter) (next : ℕ) (chunks : List XorbChunkSequenceEntry)
      → Ensures (IsLookups f) (read_lookups content f footer_start next chunks)
  unfolding read_lookups absent_lookups present_lookups
  read_lookups-Ensures f next chunks =
      Ensures-if _ (f.chunk_lookup_offset == 0) {m = absent_lookups f next chunks}
        {n = present_lookups content f footer_start next}
        (λ _. Ensures-bind _ (Ensures-refuse _ _) (λ _ t.
          Ensures-bind _ (Ensures-any _)
            (λ _ _. Ensures-pure (IsLookups f) _ (sym (not_differs _ 0 t)))))
        (λ _. Ensures-bind _ (Ensures-any _) (λ _ _. Ensures-bind _ (Ensures-any _) (λ _ _.
          Ensures-bind _ (Ensures-any _) (λ _ _. Ensures-bind _ (Ensures-any _) (λ _ _.
            Ensures-bind _ (Ensures-any _) (λ _ _. Ensures-bind _ (Ensures-any _) (λ _ _.
              Ensures-bind _ (Ensures-repeat _ _) (λ es e. Ensures-pure (IsLookups f) _ e))))))))

-- What the parsed tables, the footer and the length of the content have to do with one another.
pub record IsConsistent (file_len : ℕ) (s : MdbShardFile) : Type 0 where
  pub header_is : s.header ≡ default_header
  pub version_is : s.footer.version ≡ 2
  pub footer_at_end : s.footer.footer_offset + 208 ≡ file_len
  pub files_counted : length s.file_entries ≡ s.footer.file_lookup_num_entry
  pub segments_counted : length s.file_data_entries ≡ sum_by (λ h. h.num_entries) s.file_entries
  pub hashes_listed : s.file_hashes ≡ map (λ h. h.file_hash) s.file_entries
  pub xorbs_counted : length s.xorb_entries ≡ s.footer.xorb_lookup_num_entry
  pub chunks_counted : length s.xorb_chunk_entries ≡ sum_by (λ h. h.num_entries) s.xorb_entries
  pub lookups_counted : length s.chunk_lookup_entries ≡ s.footer.chunk_lookup_num_entry
  pub lookup_for_each : length s.chunk_lookup_entries ≡ length s.xorb_chunk_entries
  pub mappings_listed : s.chunk_mappings ≡ map mapping s.chunk_lookup_entries

reader-Ensures :
    (content : List ℕ) (file_len : ℕ) (hash : List ℕ)
    → Ensures (IsConsistent file_len) (parse_reader content file_len hash)
unfolding parse_reader
reader-Ensures content file_len hash = Ensures-bind _ (Ensures-refuse _ _) (λ _ big.
    Ensures-bind _ (header-Ensures content) (λ h dh.
      Ensures-bind _ (footer-Ensures content h _) (λ f pf.
        Ensures-bind _ (read_files-Ensures content h _ f _) (λ a va.
          Ensures-bind _ (read_xorbs-Ensures content h _ f _) (λ b vb.
            Ensures-bind _ (read_lookups-Ensures content h _ f _ _) (λ c vc.
              Ensures-bind _ (Ensures-any _) (λ _ _. Ensures-bind _ (Ensures-refuse _ _) (λ _ one.
                Ensures-pure (IsConsistent file_len) _ (record {
                  header_is = λ i. record {
                    tag = dh.tag_is i;
                    version = dh.version_is i;
                    footer_size = dh.footer_size_is i;
                  };
                  version_is = pf.version_is ∙ dh.version_is;
                  footer_at_end = omega (arith, pf.footer_is, large _ _ big);
                  files_counted = va.1;
                  segments_counted = va.0.entries_counted;
                  hashes_listed = va.0.hashes_listed;
                  xorbs_counted = vb.1;
                  chunks_counted = vb.0.entries_counted;
                  lookups_counted = vc;
                  lookup_for_each = not_differs _ _ one;
                  mappings_listed = refl;
                })))))))))

value_after {ℓ κ} :
    {A : Type ℓ} (Q : A → Type κ) (o : Outcome (A × Cursor)) (a : A)
    → After Q o
    → (o >>= λ r. ok r.0) ≡ ok a
    → Q a
value_after Q (ok (x, c)) a h e = subst Q (ok-injective e) h
value_after Q (err x) a h e = cc
value_after Q panicked a h e = cc
value_after Q out_of_fuel a h e = cc

-- A shard that `parse` accepts has the default header, a footer that stands at the end and counts
-- the tables, one segment or chunk entry for each that the headers announce, one hash for each
-- file, and one lookup entry and mapping for each chunk.
pub parse_sound :
    (blake3 : Blake3) (hex : Hex) (content : List ℕ) (s : MdbShardFile)
    → parse blake3 hex content ≡ ok s
    → IsConsistent (length content) s
unfolding parse
parse_sound blake3 hex content s e =
    value_after _ _ s ((reader-Ensures content _ _).at (record { position = 0; rest = content })) e
