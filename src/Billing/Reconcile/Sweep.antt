-- ===== src/Billing/Reconcile/Sweep.antt =====
-- What a sweep decides, row by row.
use hamboom.Base.{◌+◌, ◌<◌, ◌≡◌, ◌↔◌, ◌≢◌, ◌⊎◌, none, List, [], ◌∷◌, map, arith, All₂, subst, sym}
use hamboom.Base.Int.{ℤ, pos, sub_ℕ, pos_part, neg_part, ◌≤ℤ◌}
use hamboom.Billing.Reconcile.{
  PendingPaymentSnapshot, SweepPolicy, SweepDecision, skip, verify, orphan, expire, ok, plan_row,
  plan_sweep,
}

-- a < b on integers
infix 50 ◌<ℤ◌
abbrev pub ◌<ℤ◌ : ℤ → ℤ → Type 0
a <ℤ b = pos_part a + neg_part b < pos_part b + neg_part a

pub record IsPolicy (p : SweepPolicy) : Type 0 where
  pub stale_ok : pos 0 ≤ℤ p.stale_after_ms
  pub ordered : p.stale_after_ms <ℤ p.expire_after_ms

abbrev pub age : SweepPolicy → PendingPaymentSnapshot → ℤ
age p row = sub_ℕ p.now row.requested_at

-- When each of the four actions is decided for a row.
pub record IsPlanned (p : SweepPolicy) (row : PendingPaymentSnapshot) (d : SweepDecision)
    : Type 0 where
  pub same : d.payment_id ≡ row.id
  pub aged : d.age_ms ≡ age p row
  pub skipped : (d.action ≡ skip) ↔ (age p row <ℤ p.stale_after_ms)
  pub orphaned : (d.action ≡ orphan) ↔ ((p.stale_after_ms ≤ℤ age p row) × (row.authority ≡ none))
  pub expired :
      (d.action ≡ expire)
      ↔ ((p.expire_after_ms ≤ℤ age p row) × (row.authority ≢ none) × (row.failure_code ≢ none))
  pub verified : (d.action ≡ verify) ↔ (
      (p.stale_after_ms ≤ℤ age p row)
      × (row.authority ≢ none)
      × ((age p row <ℤ p.expire_after_ms) ⊎ (row.failure_code ≡ none)))

plan_row-IsPlanned :
    (p : SweepPolicy) (row : PendingPaymentSnapshot) → IsPolicy p → IsPlanned p row (plan_row p row)
unfolding plan_row
plan_row-IsPlanned p row v = record {
  same = ground arith;
  aged = ground arith;
  skipped = ground arith;
  orphaned = ground arith;
  expired = ground arith;
  verified = ground arith;
}

-- The thresholds are accepted exactly when 0 <= stale < expire.
plan_sweep-ok_iff :
    (rows : List PendingPaymentSnapshot) (p : SweepPolicy)
    → ((ds : List SweepDecision) × (plan_sweep rows p ≡ ok ds)) ↔ IsPolicy p
unfolding plan_sweep
plan_sweep-ok_iff rows p =
    ((λ h. ground (arith, h.1)), (λ v. (map (plan_row p) rows, ground arith)))

map-IsPlanned :
    (rows : List PendingPaymentSnapshot) (p : SweepPolicy)
    → IsPolicy p
    → All₂ (IsPlanned p) rows (map (plan_row p) rows)
map-IsPlanned [] p v = tt
map-IsPlanned (r ∷ rows) p v = (plan_row-IsPlanned p r v, map-IsPlanned rows p v)

-- A sweep decides once for every row, in order: a row younger than the stale threshold is skipped;
-- an older one without an authority is an orphan; one past the expiry threshold that has an
-- authority is expired only if the gateway was already asked (it has a failure code); any other
-- is verified.
pub plan_sweep-IsPlanned :
    (rows : List PendingPaymentSnapshot) (p : SweepPolicy) {ds : List SweepDecision}
    → plan_sweep rows p ≡ ok ds
    → All₂ (IsPlanned p) rows ds
plan_sweep-IsPlanned rows p {ds} h =
    let v = (plan_sweep-ok_iff rows p).0 (ds, h) in
    let e : ds ≡ map (plan_row p) rows = unfold plan_sweep in ground arith in
    subst (All₂ (IsPlanned p) rows) (sym e) (map-IsPlanned rows p v)
