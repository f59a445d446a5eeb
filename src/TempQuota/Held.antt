-- ===== src/TempQuota/Held.antt =====
-- The operations of xet-common/src/lib.rs on one reservation: the ledger holds its bytes before and
-- after.
use xet_server.Prelude.{
  ℕ, zero, suc, ◌+◌, ◌-◌, ◌^◌, ◌≤◌, ◌<◌, ◌≡◌, refl, sym, ap, ◌∙◌, subst, arith, ◌==◌, ==_false,
  lt→ltb, le→ltb, lt-cases, false, none, some, ◌⊎◌, inl, inr, checked_add, if◌then◌else◌,
}
use xet_server.TempQuota.{
  TempQuotaError, overflow, quota_exhausted, TempQuotaLedger, TempReservation, Result, with_charged,
  with_reserved, reserve, commit_reserved, commit_charged, commit, release_reserved,
  release_charged, drop, add_reservation, move_written, reserve_additional, commit_written,
  release_written,
}
use xet_server.TempQuota.Faults.{checked_add-some, fetch_sub-within}

-- The bytes in use are within the quota.
pub record IsBounded (l : TempQuotaLedger) : Type 0 where
  pub within : l.charged_bytes + l.reserved_bytes ≤ l.quota_bytes
  pub fits : l.quota_bytes < 2 ^ 64

-- The ledger counts `charged` and `reserved` bytes of others and those of the reservation.
pub record Holds (charged reserved : ℕ) (l : TempQuotaLedger) (r : TempReservation) : Type 0 where
  pub charges : l.charged_bytes ≡ charged + r.charged
  pub reserves : l.reserved_bytes ≡ reserved + r.reserved
  pub bounded : IsBounded l

pub reserve-cases :
    (l : TempQuotaLedger) (n : ℕ)
    → IsBounded l
    → ((e : TempQuotaError) × (reserve l n ≡ (inl e, l)))
      ⊎ ((reserve l n
            ≡ (inr (record { reserved = n; charged = 0 }), with_reserved l (l.reserved_bytes + n)))
          × (l.charged_bytes + (l.reserved_bytes + n) ≤ l.quota_bytes))
unfolding reserve
reserve-cases l zero b =
    let z : l.reserved_bytes ≡ l.reserved_bytes + 0 = omega arith in
    inr (
      ap (λ k. (inr (record { reserved = 0; charged = 0 }), with_reserved l k)) z,
      omega (arith, b.within),
    )
reserve-cases l (suc n) b =
    let nz : (suc n == 0) ≡ false = ==_false 0 (suc n) (omega arith) in
    let used =
      checked_add-some l.charged_bytes l.reserved_bytes (omega (arith, b.within, b.fits)) in
    elim (lt-cases (l.charged_bytes + l.reserved_bytes + suc n) (2 ^ 64)) [
      | inr over ↦
          let o : checked_add (l.charged_bytes + l.reserved_bytes) (suc n) ≡ none =
            ap (λ t. if t then some (l.charged_bytes + l.reserved_bytes + suc n) else none)
              (le→ltb (l.charged_bytes + l.reserved_bytes + suc n) (2 ^ 64) over) in
          inl (overflow, rw (nz, used, o, reserve))
      | inl small ↦
          let total = checked_add-some (l.charged_bytes + l.reserved_bytes) (suc n) small in
          elim (lt-cases l.quota_bytes (l.charged_bytes + l.reserved_bytes + suc n)) [
            | inl exceeds ↦ inl (quota_exhausted, rw (nz, used, total, lt→ltb _ _ exceeds, reserve))
            | inr fits ↦ inr (rw (nz, used, total, le→ltb _ _ fits, reserve), omega (arith, fits))
          ]
    ]

-- What an operation on the reservation leaves holds it again, of the same quota.
pub record HoldsAgain (charged reserved : ℕ) (l : TempQuotaLedger)
    (o : Result (Unit {0}) × TempQuotaLedger × TempReservation) : Type 0 where
  pub again : Holds charged reserved o.1 o.2
  pub same_quota : o.1.quota_bytes ≡ l.quota_bytes

unchanged :
    (c k : ℕ) (l : TempQuotaLedger) (r : TempReservation) (res : Result (Unit {0}))
    → Holds c k l r
    → HoldsAgain c k l (res, l, r)
unchanged c k l r res h = record { again = h; same_quota = refl }

pub reserve_additional-HoldsAgain :
    (c k : ℕ) (l : TempQuotaLedger) (r : TempReservation) (n : ℕ)
    → Holds c k l r
    → HoldsAgain c k l (reserve_additional l r n)
unfolding reserve_additional
reserve_additional-HoldsAgain c k l r n h = elim (reserve-cases l n h.bounded) [
  | inl (e, q) ↦
      subst (λ o. HoldsAgain c k l (add_reservation r o)) (sym q) (unchanged c k l r (inl e) h)
  | inr (q, fits) ↦
      let m = checked_add-some r.reserved n (omega (arith, h.reserves, fits, h.bounded.fits)) in
      subst (λ o. HoldsAgain c k l (add_reservation r o)) (sym q)
        (rw (m, add_reservation)
          (record {
            again = record {
              charges = h.charges;
              reserves = omega (arith, h.reserves);
              bounded = record { within = fits; fits = h.bounded.fits };
            };
            same_quota = refl;
          }))
]

commit-some :
    (l : TempQuotaLedger) (n : ℕ)
    → IsBounded l
    → n ≤ l.reserved_bytes
    → commit l n
      ≡ (inr tt, with_charged (with_reserved l (l.reserved_bytes - n)) (l.charged_bytes + n))
unfolding commit commit_reserved commit_charged
commit-some l zero b h =
    let z : l.reserved_bytes ≡ l.reserved_bytes - 0 = omega arith in
    let y : l.charged_bytes ≡ l.charged_bytes + 0 = omega arith in
    ap (λ x. (inr tt, with_charged (with_reserved l x) l.charged_bytes)) z
    ∙ ap (λ x. (inr tt, with_charged (with_reserved l (l.reserved_bytes - 0)) x)) y
commit-some l (suc n) b h =
    let nz : (suc n == 0) ≡ false = ==_false 0 (suc n) (omega arith) in
    let less = fetch_sub-within l.reserved_bytes (suc n) h (omega (arith, b.within, b.fits)) in
    let more = checked_add-some l.charged_bytes (suc n) (omega (arith, b.within, b.fits, h)) in
    rw (nz, more, commit, commit_charged)
      (ap (λ x. (inr tt, with_charged (with_reserved l x) (l.charged_bytes + suc n))) less)

pub commit_written-HoldsAgain :
    (c k : ℕ) (l : TempQuotaLedger) (r : TempReservation) (n : ℕ)
    → Holds c k l r
    → HoldsAgain c k l (commit_written l r n)
unfolding commit_written
commit_written-HoldsAgain c k l r n h = elim (lt-cases r.reserved n) [
  | inl over ↦ rw (lt→ltb _ _ over) (unchanged c k l r (inl overflow) h)
  | inr fits ↦
      let done = commit-some l n h.bounded (omega (arith, fits, h.reserves)) in
      let sum =
        checked_add-some r.charged n
          (omega (arith, fits, h.reserves, h.charges, h.bounded.within, h.bounded.fits)) in
      rw (le→ltb _ _ fits) (
        subst (λ o. HoldsAgain c k l (move_written r n o)) (sym done)
          (rw (sum, move_written)
            (record {
              again = record {
                charges = omega (arith, h.charges);
                reserves = omega (arith, h.reserves, fits);
                bounded = record {
                  within = omega (arith, h.bounded.within, h.reserves, fits);
                  fits = h.bounded.fits;
                };
              };
              same_quota = refl;
            })))
]

release_charged-some :
    (l : TempQuotaLedger) (n : ℕ)
    → IsBounded l
    → n ≤ l.charged_bytes
    → release_charged l n ≡ with_charged l (l.charged_bytes - n)
unfolding release_charged
release_charged-some l zero b h =
    let z : l.charged_bytes ≡ l.charged_bytes - 0 = omega arith in ap (with_charged l) z
release_charged-some l (suc n) b h =
    let nz : (suc n == 0) ≡ false = ==_false 0 (suc n) (omega arith) in
    rw nz (
      ap (with_charged l)
        (fetch_sub-within l.charged_bytes (suc n) h (omega (arith, b.within, b.fits))))

release_reserved-some :
    (l : TempQuotaLedger) (n : ℕ)
    → IsBounded l
    → n ≤ l.reserved_bytes
    → release_reserved l n ≡ with_reserved l (l.reserved_bytes - n)
unfolding release_reserved
release_reserved-some l zero b h =
    let z : l.reserved_bytes ≡ l.reserved_bytes - 0 = omega arith in ap (with_reserved l) z
release_reserved-some l (suc n) b h =
    let nz : (suc n == 0) ≡ false = ==_false 0 (suc n) (omega arith) in
    rw nz (
      ap (with_reserved l)
        (fetch_sub-within l.reserved_bytes (suc n) h (omega (arith, b.within, b.fits))))

pub release_written-HoldsAgain :
    (c k : ℕ) (l : TempQuotaLedger) (r : TempReservation) (n : ℕ)
    → Holds c k l r
    → HoldsAgain c k l (release_written l r n)
unfolding release_written
release_written-HoldsAgain c k l r n h = elim (lt-cases r.charged n) [
  | inl over ↦ rw (lt→ltb _ _ over) (unchanged c k l r (inl overflow) h)
  | inr fits ↦
      let done = release_charged-some l n h.bounded (omega (arith, fits, h.charges)) in
      rw (le→ltb _ _ fits, done)
        (record {
          again = record {
            charges = omega (arith, h.charges, fits);
            reserves = h.reserves;
            bounded = record { within = omega (arith, h.bounded.within); fits = h.bounded.fits };
          };
          same_quota = refl;
        })
]

-- A dropped reservation gives back all its bytes.
pub drop-bytes :
    (c k : ℕ) (l : TempQuotaLedger) (r : TempReservation)
    → Holds c k l r
    → drop l r ≡ with_charged (with_reserved l k) c
unfolding drop
drop-bytes c k l r h =
    let b : IsBounded (with_reserved l (l.reserved_bytes - r.reserved)) = record {
      within = omega (arith, h.bounded.within);
      fits = h.bounded.fits;
    } in
    let first = release_reserved-some l r.reserved h.bounded (omega (arith, h.reserves)) in
    let second =
      release_charged-some (with_reserved l (l.reserved_bytes - r.reserved)) r.charged b
        (omega (arith, h.charges)) in
    let left : l.reserved_bytes - r.reserved ≡ k = omega (arith, h.reserves) in
    let left' : l.charged_bytes - r.charged ≡ c = omega (arith, h.charges) in
    ap (λ x. release_charged x r.charged) first
    ∙ (second
        ∙ (ap (λ n. with_charged (with_reserved l n) (l.charged_bytes - r.charged)) left
            ∙ ap (λ n. with_charged (with_reserved l k) n) left'))
