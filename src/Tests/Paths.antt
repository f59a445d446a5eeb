-- ===== src/Tests/Paths.antt =====
-- Paths of commits.
use xet_server.Prelude.{◌≡◌, ◌↔◌, refl, [], ◌∷◌}
use xet_server.Bytes.{eq_bytes}
use xet_server.Reply.{reply, failed}
use xet_server.CommitPath.{
  split, contains_byte, contains_twice, starts_absolute, reject_traversal, is_reserved,
  validate_file_path,
}
use xet_server.CommitPath.Safe.{IsSafePath}
use xet_server.CommitPath.Accepts.{validate_file_path_iff}

-- "a/b"
validate_file_path_iff_example :
    (validate_file_path (97 ∷ 47 ∷ 98 ∷ []) ≡ reply tt) ↔ IsSafePath (97 ∷ 47 ∷ 98 ∷ [])
validate_file_path_iff_example = validate_file_path_iff (97 ∷ 47 ∷ 98 ∷ [])

-- "a/b"
accepted : validate_file_path (97 ∷ 47 ∷ 98 ∷ []) ≡ reply tt
unfolding validate_file_path split contains_byte contains_twice starts_absolute reject_traversal
    is_reserved eq_bytes
accepted = refl

-- "a/", whose last component is empty.
accepted_slash : validate_file_path (97 ∷ 47 ∷ []) ≡ reply tt
unfolding validate_file_path split contains_byte contains_twice starts_absolute reject_traversal
    is_reserved eq_bytes
accepted_slash = refl

-- "a/\b", whose second component is empty.
accepted_mixed : validate_file_path (97 ∷ 47 ∷ 92 ∷ 98 ∷ []) ≡ reply tt
unfolding validate_file_path split contains_byte contains_twice starts_absolute reject_traversal
    is_reserved eq_bytes
accepted_mixed = refl

-- "Con/a"
refused_reserved :
    validate_file_path (67 ∷ 111 ∷ 110 ∷ 47 ∷ 97 ∷ []) ≡ failed "File path uses reserved name"
unfolding validate_file_path split contains_byte contains_twice starts_absolute reject_traversal
    is_reserved eq_bytes
refused_reserved = refl
