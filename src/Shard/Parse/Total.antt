-- ===== src/Shard/Parse/Total.antt =====
-- `parse` ends on every input.
use xet_server.Prelude.{ℕ, List, arith}
use xet_server.Outcome.{Outcome, ok, err, panicked, out_of_fuel, Ends, ◌>>=◌}
use xet_server.Reader.{Cursor}
use xet_server.Reader.Total.{
  Takes, Halts, Takes-Halts, Takes-bind, Takes-pure, Takes-lift, Takes-stream_position,
  Takes-repeat, Takes-fewer, Halts-bind, Halts-pure, Halts-lift, Halts-seek, Halts-if, Ends-refuse,
  Ends-ok_or, section-Halts,
}
use xet_server.Hash.Keyed.{Blake3}
use xet_server.Hash.Hex.{Hex}
use xet_server.Shard.Header.{MdbShardFileHeader}
use xet_server.Shard.Footer.{MdbShardFileFooter}
use xet_server.Shard.XorbSequence.{XorbChunkSequenceEntry}
use xet_server.Shard.Total.{
  Takes-header, Takes-footer, Takes-file_header, Takes-file_entry, Takes-xorb_header,
  Takes-xorb_entry, Takes-chunk_lookup,
}
use xet_server.Shard.Sections.{
  FileSection, XorbSection, ensure_record_fits, validate_section_bounds, file_section_step,
  xorb_section_step, parse_file_section, parse_xorb_section,
}
use xet_server.Shard.Parse.{
  read_header, read_footer, read_files, absent_files, present_files, read_xorbs, absent_xorbs,
  present_xorbs, read_lookups, absent_lookups, present_lookups, parse_reader, parse,
}

Ends-fits : (start len end : ℕ) → Ends (ensure_record_fits start len end)
unfolding ensure_record_fits
Ends-fits start len end = ground arith

Ends-bounds : (start end footer_start : ℕ) → Ends (validate_section_bounds start end footer_start)
unfolding validate_section_bounds
Ends-bounds start end footer_start = Ends-refuse _ _

Takes-file_step : (end : ℕ) (s : FileSection) → Takes 1 (file_section_step end s)
unfolding file_section_step
Takes-file_step end s = Takes-fewer 48 1 (omega arith) (
    Takes-bind _ 0 48 Takes-stream_position (λ p.
      Takes-bind _ 0 48 (Takes-lift _ (Ends-fits _ _ _)) (λ _.
        Takes-bind _ 48 0 Takes-file_header (λ h.
          Takes-bind _ 0 0 (Takes-lift _ (Ends-ok_or _ _)) (λ l.
            Takes-bind _ 0 0 Takes-stream_position (λ q.
              Takes-bind _ 0 0 (Takes-lift _ (Ends-fits _ _ _)) (λ _.
                Takes-bind _ 0 0 (Takes-repeat _ (Takes-fewer 48 0 (omega arith) Takes-file_entry))
                  (λ es. Takes-pure _))))))))

Takes-xorb_step : (end : ℕ) (s : XorbSection) → Takes 1 (xorb_section_step end s)
unfolding xorb_section_step
Takes-xorb_step end s = Takes-fewer 48 1 (omega arith) (
    Takes-bind _ 0 48 Takes-stream_position (λ p.
      Takes-bind _ 0 48 (Takes-lift _ (Ends-fits _ _ _)) (λ _.
        Takes-bind _ 48 0 Takes-xorb_header (λ h.
          Takes-bind _ 0 0 (Takes-lift _ (Ends-ok_or _ _)) (λ l.
            Takes-bind _ 0 0 Takes-stream_position (λ q.
              Takes-bind _ 0 0 (Takes-lift _ (Ends-fits _ _ _)) (λ _.
                Takes-bind _ 0 0 (Takes-repeat _ (Takes-fewer 48 0 (omega arith) Takes-xorb_entry))
                  (λ es. Takes-pure _))))))))

Halts-file_section :
    (content : List ℕ) (start end : ℕ) → Halts (parse_file_section content start end)
unfolding parse_file_section
Halts-file_section content start end =
    section-Halts end (file_section_step end) (Takes-file_step end) content start _

Halts-xorb_section :
    (content : List ℕ) (start end : ℕ) → Halts (parse_xorb_section content start end)
unfolding parse_xorb_section
Halts-xorb_section content start end =
    section-Halts end (xorb_section_step end) (Takes-xorb_step end) content start _

Halts-header : (content : List ℕ) → Halts (read_header content)
unfolding read_header
Halts-header content = Halts-bind _ (Halts-seek content 0) (λ _.
    Halts-bind _ (Takes-Halts 48 _ Takes-header) (λ h.
      Halts-bind _ (Halts-lift _ (Ends-refuse _ _)) (λ _.
        Halts-bind _ (Halts-lift _ (Ends-refuse _ _))
          (λ _. Halts-bind _ (Halts-lift _ (Ends-refuse _ _)) (λ _. Halts-pure _)))))

Halts-footer :
    (content : List ℕ) (header : MdbShardFileHeader) (footer_start : ℕ)
    → Halts (read_footer content header footer_start)
unfolding read_footer
Halts-footer content header footer_start = Halts-bind _ (Halts-seek content footer_start) (λ _.
    Halts-bind _ (Takes-Halts 208 _ Takes-footer) (λ f.
      Halts-bind _ (Halts-lift _ (Ends-refuse _ _))
        (λ _. Halts-bind _ (Halts-lift _ (Ends-refuse _ _)) (λ _. Halts-pure _))))

module _ (content : List ℕ) (f : MdbShardFileFooter) (footer_start next : ℕ) where
  Halts-files : Halts (read_files content f footer_start next)
  unfolding read_files absent_files present_files
  Halts-files = Halts-if _ (Halts-bind _ (Halts-lift _ (Ends-refuse _ _)) (λ _. Halts-pure _)) (
      Halts-bind _ (Halts-lift _ (Ends-refuse _ _)) (λ _.
        Halts-bind _ (Halts-lift _ (Ends-bounds _ _ _)) (λ _.
          Halts-bind _ (Halts-file_section content _ _)
            (λ p. Halts-bind _ (Halts-lift _ (Ends-refuse _ _)) (λ _. Halts-pure _)))))

  Halts-xorbs : Halts (read_xorbs content f footer_start next)
  unfolding read_xorbs absent_xorbs present_xorbs
  Halts-xorbs = Halts-if _ (Halts-bind _ (Halts-lift _ (Ends-refuse _ _)) (λ _. Halts-pure _)) (
      Halts-bind _ (Halts-lift _ (Ends-refuse _ _)) (λ _.
        Halts-bind _ (Halts-lift _ (Ends-bounds _ _ _)) (λ _.
          Halts-bind _ (Halts-xorb_section content _ _)
            (λ p. Halts-bind _ (Halts-lift _ (Ends-refuse _ _)) (λ _. Halts-pure _)))))

  Halts-lookups :
      (chunks : List XorbChunkSequenceEntry)
      → Halts (read_lookups content f footer_start next chunks)
  unfolding read_lookups absent_lookups present_lookups
  Halts-lookups chunks =
      Halts-if _
        (Halts-bind _ (Halts-lift _ (Ends-refuse _ _))
          (λ _. Halts-bind _ (Halts-lift _ (Ends-refuse _ _)) (λ _. Halts-pure _)))
        (Halts-bind _ (Halts-lift _ (Ends-refuse _ _)) (λ _.
          Halts-bind _ (Halts-lift _ (Ends-refuse _ _)) (λ _.
            Halts-bind _ (Halts-lift _ (Ends-ok_or _ _)) (λ l.
              Halts-bind _ (Halts-lift _ (Ends-ok_or _ _)) (λ e.
                Halts-bind _ (Halts-lift _ (Ends-refuse _ _)) (λ _.
                  Halts-bind _ (Halts-seek content _) (λ _.
                    Halts-bind _
                      (Takes-Halts 0 _
                        (Takes-repeat _ (Takes-fewer 68 0 (omega arith) Takes-chunk_lookup)))
                      (λ es. Halts-pure _))))))))

Halts-parse :
    (content : List ℕ) (file_len : ℕ) (hash : List ℕ) → Halts (parse_reader content file_len hash)
unfolding parse_reader
Halts-parse content file_len hash = Halts-bind _ (Halts-lift _ (Ends-refuse _ _)) (λ _.
    Halts-bind _ (Halts-header content) (λ h. Halts-bind _ (Halts-footer content h _) (λ f.
      Halts-bind _ (Halts-files content f _ _) (λ a. Halts-bind _ (Halts-xorbs content f _ _) (λ b.
        Halts-bind _ (Halts-lookups content f _ _ _) (λ c.
          Halts-bind _ (Halts-lift _ (Ends-refuse _ _))
            (λ _. Halts-bind _ (Halts-lift _ (Ends-refuse _ _)) (λ _. Halts-pure _))))))))

value-Ends {ℓ} : {A : Type ℓ} (o : Outcome (A × Cursor)) → Ends o → Ends (o >>= λ r. ok r.0)
value-Ends (ok a) h = tt
value-Ends (err e) h = tt
value-Ends panicked h = h
value-Ends out_of_fuel h = h

-- On every input `parse` returns a shard or an error: it does not panic, and its section loops
-- stop within their fuel.
pub parse-Ends : (blake3 : Blake3) (hex : Hex) (content : List ℕ) → Ends (parse blake3 hex content)
unfolding parse
parse-Ends blake3 hex content =
    value-Ends _ ((Halts-parse content _ _).at (record { position = 0; rest = content }))
