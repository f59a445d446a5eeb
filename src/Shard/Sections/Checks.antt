-- ===== src/Shard/Sections/Checks.antt =====
-- The checks of a record's place, where they pass.
use xet_server.Prelude.{
  ℕ, ◌+◌, ◌*◌, ◌^◌, ◌≤◌, ◌<◌, ◌≡◌, arith, IsU64, checked_add, checked_mul, lt→ltb, le→ltb,
}
use xet_server.Outcome.{ok, XetError, ok_or}
use xet_server.Shard.Sections.{ensure_record_fits, validate_section_bounds}

pub ensure_record_fits_ok :
    (start len end : ℕ) → start + len ≤ end → IsU64 end → ensure_record_fits start len end ≡ ok tt
unfolding ensure_record_fits
ensure_record_fits_ok start len end h k =
    rw (lt→ltb (start + len) (2 ^ 64) (omega arith)) (rw (le→ltb end (start + len) h))

pub checked_mul_ok :
    (a b : ℕ) (e : XetError) → a * b < 2 ^ 64 → ok_or (checked_mul a b) e ≡ ok (a * b)
checked_mul_ok a b e h = rw (lt→ltb (a * b) (2 ^ 64) h)

pub checked_add_ok :
    (a b : ℕ) (e : XetError) → a + b < 2 ^ 64 → ok_or (checked_add a b) e ≡ ok (a + b)
checked_add_ok a b e h = rw (lt→ltb (a + b) (2 ^ 64) h)

pub validate_section_bounds_ok :
    (start end footer_start : ℕ)
    → 48 ≤ start
    → start ≤ end
    → end ≤ footer_start
    → validate_section_bounds start end footer_start ≡ ok tt
unfolding validate_section_bounds
validate_section_bounds_ok start end footer_start h k l =
    rw (le→ltb start 48 h) (rw (le→ltb end start k) (rw (le→ltb footer_start end l)))
