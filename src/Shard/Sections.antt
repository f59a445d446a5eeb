-- ===== src/Shard/Sections.antt =====
-- The two sections of a shard that hold sequences: `parse_file_section`, `parse_xorb_section` and
-- the checks of their bounds, of src/format/shard.rs.
pub mod Checks
pub mod Counted
pub mod WrittenFiles
pub mod WrittenXorbs
use xet_server.Prelude.{
  ℕ, zero, suc, ◌*◌, ◌≡◌, ltb, ◌||◌, List, [], ◌∷◌, ◌++◌, length, checked_add, checked_mul,
  if◌then◌else◌,
}
use xet_server.Outcome.{Outcome, out_of_fuel, parse_error, refuse, ok_or}
use xet_server.Outcome
use xet_server.Reader.{Reader, ◌>>=◌, ◌>>◌, pure, lift, stream_position, seek, repeat, while_before}
use xet_server.Hash.{MerkleHash}
use xet_server.Shard.FileSequence
use xet_server.Shard.FileSequence.{FileDataSequenceHeader, FileDataSequenceEntry}
use xet_server.Shard.XorbSequence
use xet_server.Shard.XorbSequence.{XorbChunkSequenceHeader, XorbChunkSequenceEntry}

abbrev pub sequence_header_size : ℕ
sequence_header_size = 48

abbrev pub sequence_entry_size : ℕ
sequence_entry_size = 48

abbrev pub shard_header_size : ℕ
shard_header_size = 48

unfoldable pub validate_section_bounds : ℕ → ℕ → ℕ → Outcome (Unit {0})
validate_section_bounds start end footer_start =
    refuse (ltb start shard_header_size || (ltb end start || ltb footer_start end))
      (parse_error "Invalid section bounds")

unfoldable pub ensure_record_fits : ℕ → ℕ → ℕ → Outcome (Unit {0})
ensure_record_fits start len end =
    Outcome.◌>>=◌ (ok_or (checked_add start len) (parse_error "end offset overflow"))
      (λ record_end. refuse (ltb end record_end) (parse_error "Truncated"))

pub record FileSection : Type 0 where
  pub headers : List FileDataSequenceHeader
  pub entries : List FileDataSequenceEntry
  pub hashes : List MerkleHash

abbrev pub no_files : FileSection
no_files = record { headers = []; entries = []; hashes = [] }

-- One round of the loop of `parse_file_section`, up to `end`.
unfoldable pub file_section_step : ℕ → FileSection → Reader FileSection
file_section_step end s = do
  position ← stream_position
  lift (ensure_record_fits position sequence_header_size end)
  header ← FileSequence.deserialize_header
  entries_len ← lift (
      ok_or (checked_mul header.num_entries sequence_entry_size)
        (parse_error "File sequence entry byte length overflow"))
  entries_start ← stream_position
  lift (ensure_record_fits entries_start entries_len end)
  entries ← repeat header.num_entries FileSequence.deserialize_entry
  pure (record {
    headers = s.headers ++ (header ∷ []);
    entries = s.entries ++ entries;
    hashes = s.hashes ++ (header.file_hash ∷ []);
  })

-- A round takes bytes from the input, so the content's length bounds the number of rounds.
unfoldable pub parse_file_section : List ℕ → ℕ → ℕ → Reader FileSection
parse_file_section content start end = do
  seek content start
  while_before (suc (length content)) end (file_section_step end) no_files

pub record XorbSection : Type 0 where
  pub headers : List XorbChunkSequenceHeader
  pub entries : List XorbChunkSequenceEntry

abbrev pub no_xorbs : XorbSection
no_xorbs = record { headers = []; entries = [] }

-- One round of the loop of `parse_xorb_section`, up to `end`.
unfoldable pub xorb_section_step : ℕ → XorbSection → Reader XorbSection
xorb_section_step end s = do
  position ← stream_position
  lift (ensure_record_fits position sequence_header_size end)
  header ← XorbSequence.deserialize_header
  entries_len ← lift (
      ok_or (checked_mul header.num_entries sequence_entry_size)
        (parse_error "Xorb sequence entry byte length overflow"))
  entries_start ← stream_position
  lift (ensure_record_fits entries_start entries_len end)
  entries ← repeat header.num_entries XorbSequence.deserialize_entry
  pure (record { headers = s.headers ++ (header ∷ []); entries = s.entries ++ entries })

unfoldable pub parse_xorb_section : List ℕ → ℕ → ℕ → Reader XorbSection
parse_xorb_section content start end = do
  seek content start
  while_before (suc (length content)) end (xorb_section_step end) no_xorbs
