-- ===== src/CommitPath.antt =====
-- hub/src/commit/validation.rs: the check of the paths in a commit. A path is the bytes of its UTF-8;
-- what the check looks for is in ASCII, whose bytes are in no other character.
pub mod Safe
pub mod Accepts
use xet_server.Prelude.{
  ℕ, ◌+◌, Bool, true, false, ◌&&◌, ◌||◌, ◌==◌, ltb, leb, List, [], ◌∷◌, length, is_empty, map,
  if◌then◌else◌,
}
use xet_server.Bytes.{eq_bytes}
use xet_server.Reply.{Reply, reply, fail_if, ◌>>=◌, ◌>>◌}

abbrev pub max_file_path_length : ℕ
max_file_path_length = 4096

-- '/' or '\\'
abbrev pub is_separator : ℕ → Bool
is_separator b = (b == 47) || (b == 92)

abbrev pub prepend : ℕ → List (List ℕ) → List (List ℕ)
prepend b [] = (b ∷ []) ∷ []
prepend b (c ∷ cs) = (b ∷ c) ∷ cs

-- `path.split(['/', '\\'])`
unfoldable pub split : List ℕ → List (List ℕ)
split [] = [] ∷ []
split (b ∷ bs) = let rest = split bs in if is_separator b then [] ∷ rest else prepend b rest

-- `path.contains('\0')`, for any byte.
unfoldable pub contains_byte : ℕ → List ℕ → Bool
contains_byte x [] = false
contains_byte x (b ∷ bs) = (b == x) || contains_byte x bs

-- `path.contains("//")`, for any byte.
unfoldable pub contains_twice : ℕ → List ℕ → Bool
contains_twice x [] = false
contains_twice x (b ∷ []) = false
contains_twice x (b ∷ c ∷ bs) = ((b == x) && (c == x)) || contains_twice x (c ∷ bs)

unfoldable pub starts_absolute : List ℕ → Bool
starts_absolute [] = false
starts_absolute (b ∷ bs) = is_separator b

abbrev pub dot_dot : List ℕ
dot_dot = 46 ∷ 46 ∷ []

-- The loop over the components.
unfoldable pub reject_traversal : List (List ℕ) → Reply (Unit {0})
reject_traversal [] = reply tt
reject_traversal (component ∷ components) = do
  fail_if (eq_bytes component dot_dot) "File path contains path traversal"
  reject_traversal components

-- `.next().unwrap_or("")`
abbrev pub first_component : List (List ℕ) → List ℕ
first_component [] = []
first_component (c ∷ cs) = c

abbrev pub ascii_lowercase : ℕ → ℕ
ascii_lowercase b = if leb 65 b && leb b 90 then b + 32 else b

abbrev pub eq_ignore_ascii_case : List ℕ → List ℕ → Bool
eq_ignore_ascii_case xs ys = eq_bytes (map ascii_lowercase xs) (map ascii_lowercase ys)

abbrev pub reserved : List (List ℕ)
reserved =
    (67 ∷ 79 ∷ 78 ∷ [])
    ∷ (80 ∷ 82 ∷ 78 ∷ [])
    ∷ (65 ∷ 85 ∷ 88 ∷ [])
    ∷ (78 ∷ 85 ∷ 76 ∷ [])
    ∷ (67 ∷ 79 ∷ 77 ∷ 49 ∷ [])
    ∷ (67 ∷ 79 ∷ 77 ∷ 50 ∷ [])
    ∷ (67 ∷ 79 ∷ 77 ∷ 51 ∷ [])
    ∷ (67 ∷ 79 ∷ 77 ∷ 52 ∷ [])
    ∷ (67 ∷ 79 ∷ 77 ∷ 53 ∷ [])
    ∷ (67 ∷ 79 ∷ 77 ∷ 54 ∷ [])
    ∷ (67 ∷ 79 ∷ 77 ∷ 55 ∷ [])
    ∷ (67 ∷ 79 ∷ 77 ∷ 56 ∷ [])
    ∷ (67 ∷ 79 ∷ 77 ∷ 57 ∷ [])
    ∷ (76 ∷ 80 ∷ 84 ∷ 49 ∷ [])
    ∷ (76 ∷ 80 ∷ 84 ∷ 50 ∷ [])
    ∷ (76 ∷ 80 ∷ 84 ∷ 51 ∷ [])
    ∷ (76 ∷ 80 ∷ 84 ∷ 52 ∷ [])
    ∷ (76 ∷ 80 ∷ 84 ∷ 53 ∷ [])
    ∷ (76 ∷ 80 ∷ 84 ∷ 54 ∷ [])
    ∷ (76 ∷ 80 ∷ 84 ∷ 55 ∷ [])
    ∷ (76 ∷ 80 ∷ 84 ∷ 56 ∷ [])
    ∷ (76 ∷ 80 ∷ 84 ∷ 57 ∷ [])
    ∷ []

unfoldable pub is_reserved : List (List ℕ) → List ℕ → Bool
is_reserved [] component = false
is_reserved (r ∷ rs) component = eq_ignore_ascii_case r component || is_reserved rs component

unfoldable pub validate_file_path : List ℕ → Reply (Unit {0})
validate_file_path path = do
  fail_if (ltb max_file_path_length (length path)) "File path is too long"
  fail_if (is_empty path) "File path cannot be empty"
  fail_if (contains_byte 0 path) "File path cannot contain null bytes"
  fail_if (starts_absolute path) "File path cannot be absolute"
  reject_traversal (split path)
  fail_if (contains_twice 47 path || contains_twice 92 path) "File path contains empty components"
  fail_if (is_reserved reserved (first_component (split path))) "File path uses reserved name"
  reply tt
