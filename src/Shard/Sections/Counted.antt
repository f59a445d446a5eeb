-- ===== src/Shard/Sections/Counted.antt =====
-- Both section parsers return as many entries as the headers that they return announce.
use xet_server.Prelude.{
  ℕ, ◌≡◌, refl, Bool, true, false, not, ◌==◌, List, [], ◌∷◌, arith, length, length-append, map,
  sum_by, sum_by-append,
}
use mathlib.Core.List.{map-append}
use xet_server.Reader.Ensures.{
  Ensures, Ensures-any, Ensures-pure, Ensures-bind, Ensures-repeat, while_before-Ensures,
}
use xet_server.Shard.FileSequence.{FileDataSequenceHeader}
use xet_server.Shard.XorbSequence.{XorbChunkSequenceHeader}
use xet_server.Shard.Sections.{
  FileSection, XorbSection, file_section_step, xorb_section_step, parse_file_section,
  parse_xorb_section,
}

-- A test that did not refuse.
pub not_differs : (a b : ℕ) → not (a == b) ≡ false → a ≡ b
not_differs a b h = ground arith

pub not_refused : (b : Bool) → not b ≡ false → b ≡ true
not_refused true h = refl
not_refused false h = cc

-- The entries are as many as the headers announce, and each header has its hash listed.
pub record IsFileSection (s : FileSection) : Type 0 where
  pub entries_counted : length s.entries ≡ sum_by (λ h. h.num_entries) s.headers
  pub hashes_listed : s.hashes ≡ map (λ h. h.file_hash) s.headers

pub record IsXorbSection (s : XorbSection) : Type 0 where
  pub entries_counted : length s.entries ≡ sum_by (λ h. h.num_entries) s.headers

file_step_keeps :
    (end : ℕ) (s : FileSection) → IsFileSection s → Ensures IsFileSection (file_section_step end s)
unfolding file_section_step
file_step_keeps end s v = Ensures-bind _ (Ensures-any _) (λ p _.
    Ensures-bind _ (Ensures-any _) (λ _ _. Ensures-bind _ (Ensures-any _) (λ h _.
      Ensures-bind _ (Ensures-any _) (λ l _. Ensures-bind _ (Ensures-any _) (λ q _.
        Ensures-bind _ (Ensures-any _) (λ _ _. Ensures-bind _ (Ensures-repeat _ _) (λ es e.
          Ensures-pure IsFileSection _ (record {
            entries_counted = omega (
              arith,
              e,
              v.entries_counted,
              length-append s.entries es,
              sum_by-append (λ (x : FileDataSequenceHeader). x.num_entries) s.headers (h ∷ []),
            );
            hashes_listed = rw (map-append, v.hashes_listed);
          }))))))))

xorb_step_keeps :
    (end : ℕ) (s : XorbSection) → IsXorbSection s → Ensures IsXorbSection (xorb_section_step end s)
unfolding xorb_section_step
xorb_step_keeps end s v = Ensures-bind _ (Ensures-any _) (λ p _.
    Ensures-bind _ (Ensures-any _) (λ _ _. Ensures-bind _ (Ensures-any _) (λ h _.
      Ensures-bind _ (Ensures-any _) (λ l _. Ensures-bind _ (Ensures-any _) (λ q _.
        Ensures-bind _ (Ensures-any _) (λ _ _. Ensures-bind _ (Ensures-repeat _ _) (λ es e.
          Ensures-pure IsXorbSection _ (record {
            entries_counted = omega (
              arith,
              e,
              v.entries_counted,
              length-append s.entries es,
              sum_by-append (λ (x : XorbChunkSequenceHeader). x.num_entries) s.headers (h ∷ []),
            );
          }))))))))

pub IsFileSection-Ensures :
    (content : List ℕ) (start end : ℕ)
    → Ensures IsFileSection (parse_file_section content start end)
unfolding parse_file_section
IsFileSection-Ensures content start end = Ensures-bind _ (Ensures-any _) (λ _ _.
    while_before-Ensures IsFileSection end (file_section_step end) (file_step_keeps end) _ _
      (record { entries_counted = refl; hashes_listed = refl }))

pub IsXorbSection-Ensures :
    (content : List ℕ) (start end : ℕ)
    → Ensures IsXorbSection (parse_xorb_section content start end)
unfolding parse_xorb_section
IsXorbSection-Ensures content start end = Ensures-bind _ (Ensures-any _) (λ _ _.
    while_before-Ensures IsXorbSection end (xorb_section_step end) (xorb_step_keeps end) _ _
      (record { entries_counted = refl }))
