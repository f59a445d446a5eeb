-- ===== src/TempQuota/Steps.antt =====
-- Runs of the ledger of xet-common/src/lib.rs: reservations are made, grow, are written and dropped,
-- one call after the other, by any number of holders. `account_existing`, which charges bytes that no
-- reservation holds, is not among the calls.
use xet_server.Prelude.{ℕ, ◌+◌, ◌≤◌, ◌≡◌, inl, inr, List, [], ◌∷◌, ◌++◌, sum_by}
use xet_server.TempQuota.{
  TempQuotaError, TempQuotaLedger, TempReservation, new, reserve, drop, reserve_additional,
  commit_written, release_written,
}

-- The ledger and the reservations that are not dropped yet.
pub record Usage : Type 0 where
  pub ledger : TempQuotaLedger
  pub live : List TempReservation

abbrev at : TempQuotaLedger → List TempReservation → Usage
at l rs = record { ledger = l; live = rs }

-- A call, on a new reservation or on one of those that are live.
pub data Step : Usage → Usage → Type 0 where
  reserved :
      {l l' : TempQuotaLedger} {r : TempReservation} {rs : List TempReservation} (n : ℕ)
      → reserve l n ≡ (inr r, l')
      → Step (record { ledger = l; live = rs }) (record { ledger = l'; live = r ∷ rs })
  refused :
      {l l' : TempQuotaLedger} {e : TempQuotaError} {rs : List TempReservation} (n : ℕ)
      → reserve l n ≡ (inl e, l')
      → Step (record { ledger = l; live = rs }) (record { ledger = l'; live = rs })
  grown :
      (l : TempQuotaLedger) (r : TempReservation) (before behind : List TempReservation) (n : ℕ)
      → Step
          (record { ledger = l; live = before ++ (r ∷ behind) })
          (record {
            ledger = (reserve_additional l r n).1;
            live = before ++ ((reserve_additional l r n).2 ∷ behind);
          })
  written :
      (l : TempQuotaLedger) (r : TempReservation) (before behind : List TempReservation) (n : ℕ)
      → Step
          (record { ledger = l; live = before ++ (r ∷ behind) })
          (record {
            ledger = (commit_written l r n).1;
            live = before ++ ((commit_written l r n).2 ∷ behind);
          })
  released :
      (l : TempQuotaLedger) (r : TempReservation) (before behind : List TempReservation) (n : ℕ)
      → Step
          (record { ledger = l; live = before ++ (r ∷ behind) })
          (record {
            ledger = (release_written l r n).1;
            live = before ++ ((release_written l r n).2 ∷ behind);
          })
  dropped :
      (l : TempQuotaLedger) (r : TempReservation) (before behind : List TempReservation)
      → Step
          (record { ledger = l; live = before ++ (r ∷ behind) })
          (record { ledger = drop l r; live = before ++ behind })

-- What a new ledger comes to.
pub data Reachable (quota min_free : ℕ) : Usage → Type 0 where
  start :
      {l : TempQuotaLedger}
      → new quota min_free ≡ inr l
      → Reachable quota min_free (record { ledger = l; live = [] })
  next : {u v : Usage} → Reachable quota min_free u → Step u v → Reachable quota min_free v

abbrev charged_of : TempReservation → ℕ
charged_of r = r.charged

abbrev reserved_of : TempReservation → ℕ
reserved_of r = r.reserved

-- The counters are the sums over the reservations, and within the quota.
pub record IsUsage (quota : ℕ) (u : Usage) : Type 0 where
  pub charges : u.ledger.charged_bytes ≡ sum_by (λ (r : TempReservation). r.charged) u.live
  pub reserves : u.ledger.reserved_bytes ≡ sum_by (λ (r : TempReservation). r.reserved) u.live
  pub within_quota : u.ledger.charged_bytes + u.ledger.reserved_bytes ≤ quota
  pub quota_stays : u.ledger.quota_bytes ≡ quota
