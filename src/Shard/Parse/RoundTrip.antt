-- ===== src/Shard/Parse/RoundTrip.antt =====
-- A well-placed shard is parsed into the tables that were written.
use xet_server.Prelude.{
  ℕ, ◌+◌, ◌-◌, ◌≡◌, refl, ap, sym, ◌∙◌, List, ◌++◌, append_assoc, arith, length, length-append,
  flat_map, map, le→ltb,
}
use xet_server.Outcome.{Outcome, ok, refuse_differs, ◌>>=◌}
use xet_server.Reader.{Cursor, pure}
use xet_server.Reader.Loops.{runs, runs_lift}
use xet_server.Hash.Keyed.{Blake3, compute_data_hash}
use xet_server.Hash.Hex.{Hex, to_hex}
use xet_server.Shard.Header
use xet_server.Shard.Header.{default_header}
use xet_server.Shard.Footer
use xet_server.Shard.Footer.{MdbShardFileFooter}
use xet_server.Shard.Sizes.{length-header, length-footer}
use xet_server.Shard.Layout.{
  Tables, file_bytes, xorb_bytes, lookup_bytes, files_end, xorbs_end, lookups_end, shard_bytes,
  IsTables, Places,
}
use xet_server.Shard.Parse.{MdbShardFile, mapping, parse_reader, parse}
use xet_server.Shard.Parse.Written.{
  default_header-IsHeader, Gives, header_written, footer_written, files_written, xorbs_written,
  lookups_written,
}

-- The parsed form of the tables `t` under the footer `f`.
abbrev pub parsed : Tables → MdbShardFileFooter → List ℕ → MdbShardFile
parsed t f hash = record {
  header = default_header;
  footer = f;
  file_entries = map (λ q. q.header) t.files;
  file_data_entries = flat_map (λ q. q.entries) t.files;
  xorb_entries = map (λ q. q.header) t.xorbs;
  xorb_chunk_entries = flat_map (λ q. q.entries) t.xorbs;
  chunk_lookup_entries = t.lookups;
  file_hashes = map (λ q. q.header.file_hash) t.files;
  chunk_mappings = map mapping t.lookups;
  hash = hash;
}

module _ (a b c d z : List ℕ) where
  regroup₃ : a ++ (b ++ (c ++ (d ++ z))) ≡ ((a ++ b) ++ c) ++ (d ++ z)
  regroup₃ = rw (append_assoc (a ++ b) c, append_assoc a b)

  regroup₄ : a ++ (b ++ (c ++ (d ++ z))) ≡ (((a ++ b) ++ c) ++ d) ++ z
  regroup₄ = rw (append_assoc ((a ++ b) ++ c) d, append_assoc (a ++ b) c, append_assoc a b)

module _ (t : Tables) (f : MdbShardFileFooter) (content : List ℕ) (fits : IsTables t)
    (at : Places t f) (e : content ≡ shard_bytes t f) where
  abbrev head : List ℕ
  head = Header.serialize default_header

  length-head : length head ≡ 48
  length-head = length-header default_header default_header-IsHeader

  length-to_xorbs : length (head ++ file_bytes t) ≡ files_end t
  length-to_xorbs = omega (arith, length-append head (file_bytes t), length-head)

  length-to_lookups : length ((head ++ file_bytes t) ++ xorb_bytes t) ≡ xorbs_end t
  length-to_lookups =
      omega (arith, length-append (head ++ file_bytes t) (xorb_bytes t), length-to_xorbs)

  length-to_footer :
      length (((head ++ file_bytes t) ++ xorb_bytes t) ++ lookup_bytes t) ≡ lookups_end t
  length-to_footer = omega (
    arith,
    length-append ((head ++ file_bytes t) ++ xorb_bytes t) (lookup_bytes t),
    length-to_lookups,
  )

  to_footer :
      content ≡ (((head ++ file_bytes t) ++ xorb_bytes t) ++ lookup_bytes t) ++ Footer.serialize f
  to_footer = e ∙ regroup₄ head (file_bytes t) (xorb_bytes t) (lookup_bytes t) (Footer.serialize f)

  pub length-content : length content ≡ lookups_end t + 208
  length-content = omega (
    arith,
    ap length to_footer,
    length-append (((head ++ file_bytes t) ++ xorb_bytes t) ++ lookup_bytes t) (Footer.serialize f),
    length-to_footer,
    length-footer f at.footer_fits,
  )

  footer_start_lem : length content - 208 ≡ lookups_end t
  footer_start_lem = omega (arith, length-content)

  reader_written :
      (hash : List ℕ) (c : Cursor)
      → Gives (parse_reader content (length content) hash c) (parsed t f hash)
  unfolding parse_reader pure
  reader_written hash c =
      let (c₁, e₁) = header_written content _ c e in
      let (c₂, e₂) =
        footer_written f default_header content _ (length content - 208) c₁ to_footer
          (footer_start_lem ∙ sym length-to_footer) at.version_is
          (at.footer_at ∙ sym footer_start_lem) at.footer_fits in
      let (c₃, e₃) =
        files_written t.files f content head _ (length content - 208) c₂ e length-head at.file_info
          at.file_lookup at.file_count (omega (arith, length-content))
          (omega (arith, length-content, fits.size_fits)) fits.files_fit in
      let (c₄, e₄) =
        xorbs_written t.xorbs f content (head ++ file_bytes t) _ (files_end t)
          (length content - 208) c₃ (e ∙ sym (append_assoc head (file_bytes t) _))
          (sym length-to_xorbs) (omega arith) at.xorb_info at.xorb_lookup at.xorb_count
          (omega (arith, length-content)) (omega (arith, length-content, fits.size_fits))
          fits.xorbs_fit in
      let (c₅, e₅) =
        lookups_written t.lookups f content ((head ++ file_bytes t) ++ xorb_bytes t) _ (xorbs_end t)
          (length content - 208) (flat_map (λ q. q.entries) t.xorbs) c₄
          (e ∙ regroup₃ head (file_bytes t) (xorb_bytes t) (lookup_bytes t) (Footer.serialize f))
          (sym length-to_lookups) (omega arith) at.chunk_lookup at.chunk_count
          (sym footer_start_lem) (omega (arith, length-content, fits.size_fits)) fits.one_each
          fits.lookups_fit in
      (
        c₅,
        runs_lift _ _ (rw (le→ltb (length content) 256 (omega (arith, length-content)))) (
            runs _ _ e₁ (
              runs _ _ e₂ (
                runs _ _ e₃ (
                  runs _ _ e₄ (
                    runs _ _ e₅ (
                      runs_lift _ _ (refuse_differs _ _ _ refl)
                        (runs_lift _ _ (refuse_differs _ _ _ fits.one_each) refl))))))),
      )

-- A shard whose values fit their types, with as many lookup entries as chunks, and whose footer
-- states where its tables stand, is parsed, and into these tables.
pub parse-shard_bytes :
    (blake3 : Blake3) (hex : Hex) (t : Tables) (f : MdbShardFileFooter)
    → IsTables t
    → Places t f
    → parse blake3 hex (shard_bytes t f)
      ≡ ok (parsed t f (to_hex hex (compute_data_hash blake3 (shard_bytes t f))))
unfolding parse
parse-shard_bytes blake3 hex t f fits at =
    let (c, e) =
      reader_written t f (shard_bytes t f) fits at refl
        (to_hex hex (compute_data_hash blake3 (shard_bytes t f)))
        (record { position = 0; rest = shard_bytes t f }) in
    ap (λ (o : Outcome (MdbShardFile × Cursor)). o >>= λ r. ok r.0) e
