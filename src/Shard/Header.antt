-- ===== src/Shard/Header.antt =====
-- `MDBShardFileHeader` of src/format/shard.rs.
use xet_server.Prelude.{ℕ, ◌≡◌, List, [], ◌∷◌, flatten, length, IsU64}
use xet_server.Bytes.{to_le_bytes}
use xet_server.Reader.{Reader, ◌>>=◌, pure, read_exact, read_u64}

pub record MdbShardFileHeader : Type 0 where
  pub tag : List ℕ
  pub version : ℕ
  pub footer_size : ℕ

-- The array and the integers of the Rust type.
pub record IsHeader (h : MdbShardFileHeader) : Type 0 where
  pub tag_length : length h.tag ≡ 32
  pub version_fits : IsU64 h.version
  pub footer_size_fits : IsU64 h.footer_size

abbrev pub magic_tag : List ℕ
magic_tag =
    72 ∷ 70 ∷ 82 ∷ 101 ∷ 112 ∷ 111 ∷ 77 ∷ 101 ∷ 116 ∷ 97 ∷ 68 ∷ 97 ∷ 116 ∷ 97 ∷ 0 ∷ 85 ∷ 105 ∷ 103
    ∷ 69 ∷ 106 ∷ 123 ∷ 129 ∷ 87 ∷ 131 ∷ 165 ∷ 189 ∷ 217 ∷ 92 ∷ 205 ∷ 209 ∷ 74 ∷ 169 ∷ []

-- The `Default` instance.
abbrev pub default_header : MdbShardFileHeader
default_header = record { tag = magic_tag; version = 2; footer_size = 208 }

-- What is written to the writer; writing into a `Vec` cannot fail.
unfoldable pub serialize : MdbShardFileHeader → List ℕ
serialize h = flatten (h.tag ∷ to_le_bytes 8 h.version ∷ to_le_bytes 8 h.footer_size ∷ [])

unfoldable pub deserialize : Reader MdbShardFileHeader
deserialize = do
  tag ← read_exact 32
  version ← read_u64
  footer_size ← read_u64
  pure (record { tag = tag; version = version; footer_size = footer_size })
