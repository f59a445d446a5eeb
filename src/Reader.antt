-- ===== src/Reader.antt =====
-- `std::io::Read` and `Seek` over a byte buffer or a file of known content: what has been read is a
-- position, and what is left is a list.
pub mod Reads
pub mod Loops
pub mod Total
pub mod Ensures
use xet_server.Prelude.{
  ℕ, zero, suc, ◌+◌, ◌≡◌, refl, Bool, true, false, Option, none, some, List, [], ◌∷◌, drop, ltb,
  if◌then◌else◌,
}
use xet_server.Outcome.{XetError, Outcome, ok, err, panicked, out_of_fuel, io_error, unexpected_eof}
use xet_server.Bytes.{from_le_bytes}

pub record Cursor : Type 0 where
  pub position : ℕ
  pub rest : List ℕ

abbrev pub Reader {ℓ} : Type ℓ → Type ℓ
Reader A = Cursor → Outcome (A × Cursor)

abbrev pub continue {ℓ κ} :
    {A : Type ℓ} {B : Type κ} → Outcome (A × Cursor) → (A → Reader B) → Outcome (B × Cursor)
continue (ok (a, c)) f = f a c
continue (err e) f = err e
continue panicked f = panicked
continue out_of_fuel f = out_of_fuel

unfoldable pub pure {ℓ} : {A : Type ℓ} → A → Reader A
pure a c = ok (a, c)

-- A check, or a pure fallible step, between two reads.
unfoldable pub lift {ℓ} : {A : Type ℓ} → Outcome A → Reader A
lift (ok a) c = ok (a, c)
lift (err e) c = err e
lift panicked c = panicked
lift out_of_fuel c = out_of_fuel

-- `stream_position`
unfoldable pub stream_position : Reader ℕ
stream_position c = ok (c.position, c)

-- `seek(SeekFrom::Start(p))` in a buffer or file with the content `content`.
unfoldable pub seek : List ℕ → ℕ → Reader (Unit {0})
seek content p c = ok (tt, record { position = p; rest = drop p content })

infixl 5 ◌>>=◌ ◌>>◌
-- Opening this opens `pure`, `lift`, `stream_position` and `seek` too.
unfoldable pub ◌>>=◌ {ℓ κ} : {A : Type ℓ} {B : Type κ} → Reader A → (A → Reader B) → Reader B
unfolding pure lift stream_position seek
◌>>=◌ m f c = continue (m c) f

abbrev pub ◌>>◌ {ℓ κ} : {A : Type ℓ} {B : Type κ} → Reader A → Reader B → Reader B
m >> k = m >>= λ _. k

-- The first `n` elements and the others, if there are so many.
unfoldable pub split_exact {ℓ} : {A : Type ℓ} → ℕ → List A → Option (List A × List A)
split_exact zero xs = some ([], xs)
split_exact (suc n) [] = none
split_exact (suc n) (x ∷ xs) = elim (split_exact n xs) [
  | none ↦ none
  | some (front, back) ↦ some (x ∷ front, back)
]

-- `read_exact` into a buffer of `n` bytes
unfoldable pub read_exact : ℕ → Reader (List ℕ)
unfolding split_exact
read_exact n c = elim (split_exact n c.rest) [
  | none ↦ err (io_error unexpected_eof)
  | some (front, back) ↦ ok (front, record { position = c.position + n; rest = back })
]

-- `read_u32` and `read_u64` of src/format/shard.rs
unfoldable pub read_u32 : Reader ℕ
read_u32 = do buf ← read_exact 4; pure (from_le_bytes buf)

unfoldable pub read_u64 : Reader ℕ
read_u64 = do buf ← read_exact 8; pure (from_le_bytes buf)

-- `for _ in 0..n { v.push(read(reader)?) }`
unfoldable pub repeat {ℓ} : {A : Type ℓ} → ℕ → Reader A → Reader (List A)
repeat zero m = pure []
repeat (suc n) m = do a ← m; as' ← repeat n m; pure (a ∷ as')

-- `while reader.stream_position()? < end { step }`, a step being a change of the loop's variables.
unfoldable pub while_before {ℓ} : {S : Type ℓ} → ℕ → ℕ → (S → Reader S) → S → Reader S
while_before zero end step s = λ c. out_of_fuel
while_before (suc fuel) end step s = do
  position ← stream_position
  if ltb position end then (do s' ← step s; while_before fuel end step s') else pure s
