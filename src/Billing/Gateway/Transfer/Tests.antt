-- ===== src/Billing/Gateway/Transfer/Tests.antt =====
-- A transfer at each stage.
use hamboom.Base.{false, ◌≡◌, refl, none, some}
use hamboom.Billing.Gateway.{VerifyOutcome, paid, not_paid}
use hamboom.Billing.Gateway.Transfer.{
  TransferRecord, card_transfer_abandoned, decide_transfer, verify_payment,
}
use hamboom.Billing.Gateway.Transfer.Decision.{Evidence, verify_payment-Evidence}

abbrev waiting : TransferRecord
waiting = record {
  approved_at_ms = none;
  transfer_ref = none;
  sender_last4 = none;
  claimed_at_ms = none;
  requested_at_ms = 1000;
  now_ms = 5000;
}

abbrev approved_row : TransferRecord
approved_row = record waiting {
  approved_at_ms = some 4000;
  transfer_ref = some "R7";
  sender_last4 = some "1234";
}

decided :
    (decide_transfer (some waiting) 4000 ≡ not_paid (some card_transfer_abandoned))
    × (decide_transfer (some waiting) 4001 ≡ VerifyOutcome.gateway_error none)
    × (decide_transfer (some (record waiting { claimed_at_ms = some 1500 })) 0
        ≡ VerifyOutcome.gateway_error none)
unfolding decide_transfer
decided = (refl, refl, refl)

masked :
    decide_transfer (some approved_row) 0
    ≡ paid (record {
      already_verified = false;
      ref_id = "R7";
      card_pan_masked = some "****1234";
      card_hash = none;
      fee_rial = none;
    })
unfolding decide_transfer
masked = refl

verify_payment-Evidence_example :
    Evidence
      (some approved_row)
      0
      (verify_payment (λ _. some approved_row) 0 "" (record { authority = "CT"; amount_rial = 1 }))
verify_payment-Evidence_example =
    verify_payment-Evidence (λ _. some approved_row) 0 ""
      (record { authority = "CT"; amount_rial = 1 })
