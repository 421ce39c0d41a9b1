-- ===== src/Billing/Reconcile.antt =====
-- packages/billing-core/src/reconcile.ts: what a sweep does with each pending payment, and which
-- lost authority belongs to which orphaned payment. Times are milliseconds.
pub mod Sweep
pub mod Orphans
pub mod Adoption
pub mod Distinct
mod Tests
use hamboom.Base.{
  ℕ, ◌+◌, ◌-◌, ◌<◌, ◌≤◌, String, ◌≡◌, Bool, true, false, ◌&&◌, ◌||◌, not, Option, none, some, List,
  [], ◌∷◌, map, ltb, leb, ◌==◌, ◌===◌, is_some, if◌then◌else◌, length,
}
use hamboom.Base.Int.{ℤ, pos, negsuc, sub_ℕ, ltb_ℤ, pos_part, neg_part}

pub record PendingPaymentSnapshot : Type 0 where
  pub id : String
  pub authority : Option String
  pub amount_rial : ℕ
  pub requested_at : ℕ
  pub failure_code : Option String

pub record SweepPolicy : Type 0 where
  pub now : ℕ
  pub stale_after_ms : ℤ
  pub expire_after_ms : ℤ

pub data SweepAction : Type 0 where
  skip verify orphan expire : SweepAction

pub data SweepReason : Type 0 where
  too_young ask_gateway no_authority asked_and_aged : SweepReason

pub record SweepDecision : Type 0 where
  pub payment_id : String
  pub action : SweepAction
  pub reason : SweepReason
  pub age_ms : ℤ

-- A `RangeError`, and which check threw it.
pub data RangeError : Type 0 where
  negative_threshold expires_before_stale not_an_orphan : RangeError

pub data Result {ℓ} (A : Type ℓ) : Type ℓ where
  ok : A → Result A
  err : RangeError → Result A

-- the body of the callback of `rows.map`
unfoldable pub plan_row : SweepPolicy → PendingPaymentSnapshot → SweepDecision
plan_row policy row =
    let age_ms : ℤ = sub_ℕ policy.now row.requested_at in
    if ltb_ℤ age_ms policy.stale_after_ms
    then record { payment_id = row.id; action = skip; reason = too_young; age_ms = age_ms }
    else if not (is_some row.authority)
    then record { payment_id = row.id; action = orphan; reason = no_authority; age_ms = age_ms }
    else if not (ltb_ℤ age_ms policy.expire_after_ms) && is_some row.failure_code
    then record { payment_id = row.id; action = expire; reason = asked_and_aged; age_ms = age_ms }
    else record { payment_id = row.id; action = verify; reason = ask_gateway; age_ms = age_ms }

unfoldable pub plan_sweep : List PendingPaymentSnapshot → SweepPolicy → Result (List SweepDecision)
unfolding plan_row
plan_sweep rows policy =
    if ltb_ℤ policy.stale_after_ms (pos 0) || ltb_ℤ policy.expire_after_ms (pos 0)
    then err negative_threshold
    else if not (ltb_ℤ policy.stale_after_ms policy.expire_after_ms)
    then err expires_before_stale
    else ok (map (plan_row policy) rows)

pub record UnverifiedPayment : Type 0 where
  pub authority : String
  pub amount_rial : ℕ

pub data Refusal : Type 0 where
  no_candidate many_candidates many_orphans : Refusal

pub data AdoptionDecision : Type 0 where
  adopt : (payment_id authority : String) → AdoptionDecision
  refuse : (payment_id : String) → Refusal → AdoptionDecision

-- `ReadonlySet<string>`
abbrev pub has : List String → String → Bool
has [] a = false
has (k ∷ ks) a = (k === a) || has ks a

-- `orphansPerAmount.get(amount) ?? 0`, after the loop that counts
unfoldable pub orphans_per_amount : List PendingPaymentSnapshot → ℕ → ℕ
orphans_per_amount [] amount = 0
orphans_per_amount (o ∷ os) amount =
    (if o.amount_rial == amount then 1 else 0) + orphans_per_amount os amount

-- `candidatesPerAmount.get(amount) ?? []`, after the loop that skips the known authorities
unfoldable pub candidates_per_amount : List String → List UnverifiedPayment → ℕ → List String
candidates_per_amount known [] amount = []
candidates_per_amount known (e ∷ es) amount =
    if has known e.authority
    then candidates_per_amount known es amount
    else if e.amount_rial == amount
    then e.authority ∷ candidates_per_amount known es amount
    else candidates_per_amount known es amount

unfoldable pub choose_candidate : String → List String → AdoptionDecision
choose_candidate id [] = refuse id no_candidate
choose_candidate id (a ∷ []) = adopt id a
choose_candidate id (a ∷ b ∷ rest) = refuse id many_candidates

-- the callback of `orphans.map`, given the two counts for the orphan's amount
unfoldable pub decide_adoption : ℕ → List String → PendingPaymentSnapshot → AdoptionDecision
unfolding choose_candidate
decide_adoption rivals candidates o =
    if ltb 1 rivals then refuse o.id many_orphans else choose_candidate o.id candidates

-- the check of the first loop: every row given as an orphan has no authority
unfoldable pub all_orphans : List PendingPaymentSnapshot → Bool
all_orphans [] = true
all_orphans (o ∷ os) = not (is_some o.authority) && all_orphans os

unfoldable pub match_orphans :
    List PendingPaymentSnapshot
    → List UnverifiedPayment
    → List String
    → Result (List AdoptionDecision)
unfolding all_orphans orphans_per_amount candidates_per_amount decide_adoption
match_orphans orphans unverified known =
    if all_orphans orphans
    then ok (
        map
          (λ o.
            decide_adoption (orphans_per_amount orphans o.amount_rial)
              (candidates_per_amount known unverified o.amount_rial) o)
          orphans)
    else err not_an_orphan
