-- ===== src/TempQuota/Faults.antt =====
-- Where the ledger of xet-common/src/lib.rs lets more bytes in than its quota.
use xet_server.Prelude.{
  ℕ, ◌+◌, ◌-◌, ◌%◌, ◌^◌, ◌≤◌, ◌<◌, ◌≡◌, refl, ap, ◌∙◌, arith, ==_false, lt→ltb, le→ltb, some, inr,
  checked_add,
}
use xet_server.TempQuota.{
  TempQuotaLedger, fetch_sub, with_charged, with_reserved, account_existing, reserve,
  commit_reserved, commit_charged,
}

pub checked_add-some : (a b : ℕ) → a + b < 2 ^ 64 → checked_add a b ≡ some (a + b)
checked_add-some a b h = rw (lt→ltb (a + b) (2 ^ 64) h)

-- Subtracting what was added, or is there, leaves the rest.
pub fetch_sub-within : (a b : ℕ) → b ≤ a → a < 2 ^ 64 → fetch_sub a b ≡ a - b
fetch_sub-within a b h l =
    let q : a + (2 ^ 64 - b) ≡ a - b + 2 ^ 64 = omega (arith, h, l) in
    ap (λ n. n % 2 ^ 64) q ∙ omega (arith, l)

-- While the bytes that are charged are within the quota, `account_existing` accepts any further
-- bytes that 64 bits can count, and charges them, however far they exceed the quota.
pub account_existing_unchecked :
    (l : TempQuotaLedger) (bytes : ℕ)
    → l.charged_bytes ≤ l.quota_bytes
    → l.charged_bytes + bytes < 2 ^ 64
    → account_existing l bytes ≡ (inr tt, with_charged l (l.charged_bytes + bytes))
unfolding account_existing
account_existing_unchecked l bytes h w = rw (
  checked_add-some l.charged_bytes bytes w,
  account_existing,
  le→ltb l.quota_bytes l.charged_bytes h,
)

-- A ledger whose quota is used up, with a writer that commits some of its reserved bytes. Between
-- the two updates of the commit another writer reserves as many bytes; when the commit is done, the
-- charged and reserved bytes exceed the quota by them.
pub commit-reserve_race :
    (l : TempQuotaLedger) (bytes : ℕ)
    → 0 < bytes
    → bytes ≤ l.reserved_bytes
    → l.charged_bytes + l.reserved_bytes ≡ l.quota_bytes
    → l.quota_bytes + bytes < 2 ^ 64
    → (between after : TempQuotaLedger) × (reserve (commit_reserved l bytes) bytes
        ≡ (inr (record { reserved = bytes; charged = 0 }), between))
      × (commit_charged between bytes ≡ (inr tt, after))
      × (after.charged_bytes + after.reserved_bytes ≡ l.quota_bytes + bytes)
      × (after.quota_bytes ≡ l.quota_bytes)
unfolding reserve commit_reserved commit_charged
commit-reserve_race l bytes some_bytes h full w =
    let less : fetch_sub l.reserved_bytes bytes ≡ l.reserved_bytes - bytes =
      fetch_sub-within l.reserved_bytes bytes h (omega (arith, full, w)) in
    let used =
      checked_add-some l.charged_bytes (l.reserved_bytes - bytes) (omega (arith, full, w)) in
    let total =
      checked_add-some (l.charged_bytes + (l.reserved_bytes - bytes)) bytes
        (omega (arith, full, w, h)) in
    let fits =
      le→ltb l.quota_bytes (l.charged_bytes + (l.reserved_bytes - bytes) + bytes)
        (omega (arith, full, h)) in
    let charge = checked_add-some l.charged_bytes bytes (omega (arith, full, w, h)) in
    (
      with_reserved l (l.reserved_bytes - bytes + bytes),
      with_charged (with_reserved l (l.reserved_bytes - bytes + bytes)) (l.charged_bytes + bytes),
      rw (less, ==_false 0 bytes some_bytes, used, total, fits)
          (ap (λ n. (inr (record { reserved = bytes; charged = 0 }), with_reserved l (n + bytes)))
            less),
      rw (charge, commit_charged),
      omega (arith, full, h),
      refl,
    )
