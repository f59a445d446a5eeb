-- ===== src/TempQuota.antt =====
-- xet-common/src/lib.rs: the ledger of temporary disk usage and its reservations. An atomic counter is
-- a number; an operation on a counter takes and returns the ledger.
pub mod Faults
pub mod Held
pub mod Steps
use xet_server.Prelude.{
  ℕ, ◌+◌, ◌-◌, ◌/◌, ◌%◌, ◌^◌, ◌*◌, ◌||◌, ◌==◌, ltb, Option, none, some, ◌⊎◌, inl, inr, checked_add,
  if◌then◌else◌,
}

pub data TempQuotaError : Type 0 where
  quota_exhausted insufficient_free_space overflow : TempQuotaError

pub record TempQuotaLedger : Type 0 where
  pub quota_bytes : ℕ
  pub min_free_bytes : ℕ
  pub charged_bytes : ℕ
  pub reserved_bytes : ℕ

-- A reservation without its handle on the ledger.
pub record TempReservation : Type 0 where
  pub reserved : ℕ
  pub charged : ℕ

abbrev pub Result {ℓ} : Type ℓ → Type ℓ
Result A = TempQuotaError ⊎ A

-- `TempQuotaLedger::new`
unfoldable pub new : ℕ → ℕ → Result TempQuotaLedger
new quota_bytes min_free_bytes =
    if (quota_bytes == 0) || (min_free_bytes == 0)
    then inl overflow
    else inr (record {
      quota_bytes = quota_bytes;
      min_free_bytes = min_free_bytes;
      charged_bytes = 0;
      reserved_bytes = 0;
    })

-- `AtomicU64::fetch_sub`, which wraps: what it leaves.
abbrev pub fetch_sub : ℕ → ℕ → ℕ
fetch_sub current bytes = (current + (2 ^ 64 - bytes)) % 2 ^ 64

abbrev pub with_charged : TempQuotaLedger → ℕ → TempQuotaLedger
with_charged l n = record {
  quota_bytes = l.quota_bytes;
  min_free_bytes = l.min_free_bytes;
  charged_bytes = n;
  reserved_bytes = l.reserved_bytes;
}

abbrev pub with_reserved : TempQuotaLedger → ℕ → TempQuotaLedger
with_reserved l n = record {
  quota_bytes = l.quota_bytes;
  min_free_bytes = l.min_free_bytes;
  charged_bytes = l.charged_bytes;
  reserved_bytes = n;
}

-- `fetch_update` returns the value before the update.
unfoldable pub account_existing : TempQuotaLedger → ℕ → Result (Unit {0}) × TempQuotaLedger
account_existing l bytes = elim (checked_add l.charged_bytes bytes) [
  | none ↦ (inl overflow, l)
  | some updated ↦
      let next = l.charged_bytes in
      if ltb l.quota_bytes next
      then (inl quota_exhausted, with_charged l (fetch_sub updated bytes))
      else (inr tt, with_charged l updated)
]

-- A round of the loop of `reserve` whose exchange succeeds.
unfoldable pub reserve : TempQuotaLedger → ℕ → Result TempReservation × TempQuotaLedger
reserve l bytes =
    if bytes == 0
    then (inr (record { reserved = 0; charged = 0 }), l)
    else elim (checked_add l.charged_bytes l.reserved_bytes) [
      | none ↦ (inl overflow, l)
      | some used ↦ elim (checked_add used bytes) [
        | none ↦ (inl overflow, l)
        | some total ↦ if ltb l.quota_bytes total then (inl quota_exhausted, l) else (
          inr (record { reserved = bytes; charged = 0 }),
          with_reserved l (l.reserved_bytes + bytes),
        )
      ]
    ]

-- The two updates of `commit`, each of which is atomic.
unfoldable pub commit_reserved : TempQuotaLedger → ℕ → TempQuotaLedger
commit_reserved l bytes = with_reserved l (fetch_sub l.reserved_bytes bytes)

unfoldable pub commit_charged : TempQuotaLedger → ℕ → Result (Unit {0}) × TempQuotaLedger
commit_charged l bytes = elim (checked_add l.charged_bytes bytes) [
  | none ↦ (inl overflow, l)
  | some updated ↦ (inr tt, with_charged l updated)
]

unfoldable pub commit : TempQuotaLedger → ℕ → Result (Unit {0}) × TempQuotaLedger
commit l bytes = if bytes == 0 then (inr tt, l) else commit_charged (commit_reserved l bytes) bytes

unfoldable pub release_reserved : TempQuotaLedger → ℕ → TempQuotaLedger
release_reserved l bytes =
    if bytes == 0 then l else with_reserved l (fetch_sub l.reserved_bytes bytes)

unfoldable pub release_charged : TempQuotaLedger → ℕ → TempQuotaLedger
release_charged l bytes = if bytes == 0 then l else with_charged l (fetch_sub l.charged_bytes bytes)

-- `Drop::drop`
unfoldable pub drop : TempQuotaLedger → TempReservation → TempQuotaLedger
drop l r = release_charged (release_reserved l r.reserved) r.charged

-- A new reservation is dropped if its bytes cannot be added, and else forgotten.
abbrev pub add_reservation :
    TempReservation
    → Result TempReservation × TempQuotaLedger
    → Result (Unit {0}) × TempQuotaLedger × TempReservation
add_reservation r (inl e, l) = (inl e, l, r)
add_reservation r (inr additional, l) = elim (checked_add r.reserved additional.reserved) [
  | none ↦ (inl overflow, drop l additional, r)
  | some n ↦ (inr tt, l, record { reserved = n; charged = r.charged })
]

unfoldable pub reserve_additional :
    TempQuotaLedger → TempReservation → ℕ → Result (Unit {0}) × TempQuotaLedger × TempReservation
reserve_additional l r bytes = add_reservation r (reserve l bytes)

-- The reservation behind the ledger's commit.
abbrev pub move_written :
    TempReservation
    → ℕ
    → Result (Unit {0}) × TempQuotaLedger
    → Result (Unit {0}) × TempQuotaLedger × TempReservation
move_written r bytes (inl e, l) = (inl e, l, r)
move_written r bytes (inr done, l) = elim (checked_add r.charged bytes) [
  | none ↦ (inl overflow, l, record { reserved = r.reserved - bytes; charged = r.charged })
  | some n ↦ (inr tt, l, record { reserved = r.reserved - bytes; charged = n })
]

unfoldable pub commit_written :
    TempQuotaLedger → TempReservation → ℕ → Result (Unit {0}) × TempQuotaLedger × TempReservation
commit_written l r bytes =
    if ltb r.reserved bytes then (inl overflow, l, r) else move_written r bytes (commit l bytes)

unfoldable pub release_written :
    TempQuotaLedger → TempReservation → ℕ → Result (Unit {0}) × TempQuotaLedger × TempReservation
release_written l r bytes = if ltb r.charged bytes then (inl overflow, l, r) else (
  inr tt,
  release_charged l bytes,
  record { reserved = r.reserved; charged = r.charged - bytes },
)

-- `TempResourceManager::reserve`, with what `available_bytes` returns.
unfoldable pub reserve_in :
    TempQuotaLedger → Option ℕ → ℕ → Result TempReservation × TempQuotaLedger
reserve_in l available_bytes bytes =
    let available : ℕ = elim available_bytes [ none ↦ 2 ^ 64 - 1 | some n ↦ n ] in
    elim (checked_add l.min_free_bytes l.reserved_bytes) [
      | none ↦ (inl overflow, l)
      | some v ↦ elim (checked_add v bytes) [
        | none ↦ (inl overflow, l)
        | some needed ↦
            if ltb available needed then (inl insufficient_free_space, l) else reserve l bytes
      ]
    ]

abbrev pub nanos_per_minute : ℕ
nanos_per_minute = 60000000000

-- The period in nanoseconds; `div_ceil` rounds up.
unfoldable pub rate_limit_period : ℕ → Option ℕ
rate_limit_period rpm = if rpm == 0 then none else some ((nanos_per_minute + (rpm - 1)) / rpm)
