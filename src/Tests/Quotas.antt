-- ===== src/Tests/Quotas.antt =====
-- The ledger of temporary disk usage.
use xet_server.Prelude.{◌+◌, ◌≡◌, refl, arith, inr, some, [], ◌∷◌}
use xet_server.TempQuota.{
  TempQuotaLedger, TempReservation, with_charged, account_existing, reserve, commit_reserved,
  commit_charged, commit_written, rate_limit_period,
}
use xet_server.TempQuota.Faults.{account_existing_unchecked, commit-reserve_race}
use xet_server.TempQuota.Steps.{Usage, reserved}

-- A quota of 10 bytes, of which 4 are charged and 6 reserved.
abbrev full : TempQuotaLedger
full = record { quota_bytes = 10; min_free_bytes = 1; charged_bytes = 4; reserved_bytes = 6 }

account_existing_unchecked_example : account_existing full 100 ≡ (inr tt, with_charged full 104)
account_existing_unchecked_example = account_existing_unchecked full 100 (omega arith) (omega arith)

commit-reserve_race_example :
    (between after : TempQuotaLedger) × (reserve (commit_reserved full 5) 5
      ≡ (inr (record { reserved = 5; charged = 0 }), between))
    × (commit_charged between 5 ≡ (inr tt, after))
    × (after.charged_bytes + after.reserved_bytes ≡ 15)
    × (after.quota_bytes ≡ 10)
commit-reserve_race_example =
    commit-reserve_race full 5 (omega arith) (omega arith) refl (omega arith)

abbrev empty : TempQuotaLedger
empty = record { quota_bytes = 10; min_free_bytes = 1; charged_bytes = 0; reserved_bytes = 0 }

abbrev six_reserved : TempQuotaLedger
six_reserved = record {
  quota_bytes = 10;
  min_free_bytes = 1;
  charged_bytes = 0;
  reserved_bytes = 6;
}

abbrev six : TempReservation
six = record { reserved = 6; charged = 0 }

abbrev four_written : Usage
four_written = record {
  ledger = (commit_written six_reserved six 4).1;
  live = (commit_written six_reserved six 4).2 ∷ [];
}

is_reserved : reserve empty 6 ≡ (inr six, six_reserved)
unfolding reserve
is_reserved = refl

-- 7 requests in a minute: the period is rounded up.
period_of_seven : rate_limit_period 7 ≡ some 8571428572
unfolding rate_limit_period
period_of_seven = refl
