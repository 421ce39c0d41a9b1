-- ===== src/Billing/Gateway/Mock/Verified.antt =====
-- What verifying answers, and that a second time is told apart.
use hamboom.Base.Int.{pos}
use hamboom.Billing.Money.{int}
use hamboom.Base.{
  ◌∙◌, ap, ◌≡◌, ◌↔◌, inl, inr, sym, Bool, true, false, String, none, some, arith, is_some,
  Option-cases,
}
use hamboom.Billing.Gateway.Mock.{store, MockRecord, MockGateway, verify_payment, stamp, reference}
use hamboom.Base.Dict.{get, get-put_self}
use hamboom.Billing.Gateway.{VerifyPaymentInput, Paid, VerifyOutcome, paid}

-- The gateway answers "paid" exactly for a payment that it made, that was not reversed, at the
-- amount it was made with, unless it is told to fail every payment.
pub verify_payment-paid_iff :
    (input : VerifyPaymentInput) (g : MockGateway)
    → ((p : Paid) × ((verify_payment input g).0 ≡ paid p)) ↔ (
        (r : MockRecord) × (get input.authority g.records ≡ some r)
        × (r.reversed ≡ false)
        × (g.fail_every_payment ≡ false)
        × (r.amount_rial ≡ input.amount_rial))
unfolding verify_payment
verify_payment-paid_iff input g = (
  (λ h. elim (Option-cases (get input.authority g.records)) [
    | inl e ↦ absurd (missing e h)
    | inr (r, e) ↦ (r, e, ground (arith, h.1), ground (arith, h.1), ground (arith, h.1))
  ]),
  (λ h. (
    record {
      already_verified = is_some h.0.verified_at;
      ref_id = reference "MOCKREF" input.authority;
      card_pan_masked = some "502229******0000";
      card_hash = none;
      fee_rial = some (int (pos 0));
    },
    ground arith,
  )),
)
  where
    missing :
        get input.authority g.records ≡ none
        → (p : Paid) × ((verify_payment input g).0 ≡ paid p)
        → ⊥
    missing e (p, k) = ground arith

abbrev pub receipt : Bool → String → Paid
receipt again a = record {
  already_verified = again;
  ref_id = reference "MOCKREF" a;
  card_pan_masked = some "502229******0000";
  card_hash = none;
  fee_rial = some (int (pos 0));
}

record CanPay (input : VerifyPaymentInput) (g : MockGateway) (r : MockRecord) : Type 0 where
  found : get input.authority g.records ≡ some r
  kept : r.reversed ≡ false
  lenient : g.fail_every_payment ≡ false
  same : r.amount_rial ≡ input.amount_rial

verify_payment-CanPay :
    (input : VerifyPaymentInput) (g : MockGateway) (r : MockRecord)
    → CanPay input g r
    → verify_payment input g ≡ (
      paid (receipt (is_some r.verified_at) input.authority),
      store input.authority (stamp g r) g,
    )
unfolding verify_payment
verify_payment-CanPay input g r c = ground arith

pub stamp_lem :
    (g h : MockGateway) (r : MockRecord)
    → (is_some (stamp g r).verified_at ≡ true)
      × ((stamp g r).reversed ≡ r.reversed)
      × ((stamp g r).amount_rial ≡ r.amount_rial)
      × (stamp h (stamp g r) ≡ stamp g r)
stamp_lem g h r = ground arith

CanPay-again :
    (input : VerifyPaymentInput) (g : MockGateway) (r : MockRecord)
    → CanPay input g r
    → CanPay input (store input.authority (stamp g r) g) (stamp g r)
CanPay-again input g r c = record {
  found = get-put_self input.authority (stamp g r) g.records;
  kept = (stamp_lem g g r).1 ∙ c.kept;
  lenient = c.lenient;
  same = (stamp_lem g g r).2 ∙ c.same;
}

-- Verifying a second time says "already verified", with the rest of the answer as it was, and
-- leaves the payment's record as the first time left it.
pub verify_payment_twice :
    (input : VerifyPaymentInput) (g : MockGateway) {p : Paid}
    → (verify_payment input g).0 ≡ paid p
    → let once = (verify_payment input g).1 in
      ((verify_payment input once).0 ≡ paid (record p { already_verified = true }))
      × (get input.authority (verify_payment input once).1.records
          ≡ get input.authority once.records)
verify_payment_twice input g {p} h =
    let (r, found, kept, lenient, same) = (verify_payment-paid_iff input g).0 (p, h) in
    let c : CanPay input g r = record {
      found = found;
      kept = kept;
      lenient = lenient;
      same = same;
    } in
    let first = verify_payment-CanPay input g r c in
    let g' = store input.authority (stamp g r) g in
    let second = verify_payment-CanPay input g' (stamp g r) (CanPay-again input g r c) in
    let l = stamp_lem g g' r in
    rw first (
      rw second (
        ground (arith, l.0, ap (λ (q : VerifyOutcome × MockGateway). q.0) first),
        get-put_self input.authority (stamp g' (stamp g r)) g'.records
            ∙ (ap some l.3 ∙ sym (get-put_self input.authority (stamp g r) g.records)),
      ))
