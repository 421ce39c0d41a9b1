-- ===== src/Billing/Gateway/Transfer/Decision.antt =====
-- Which answer a transfer gets, and on what evidence.
use hamboom.Base.{
  ℕ, ◌+◌, ◌≤◌, ◌<◌, ◌≡◌, ◌≢◌, ◌⊎◌, refl, inl, inr, String, Option, none, some, arith, false, lt→ltb,
  ge→ltb,
}
use native.Mathlib.Decide.{dec_lt}
use hamboom.Billing.Gateway.{VerifyPaymentInput, VerifyOutcome, paid, not_paid}
use hamboom.Billing.Gateway.Transfer.{
  TransferRecord, card_transfer_abandoned, mask_last4, approved, decide_transfer, verify_payment,
}

-- The evidence for each answer, from the stored record alone.
abbrev pub Evidence : Option TransferRecord → ℕ → VerifyOutcome → Type 0
Evidence o window (paid p) =
    (r : TransferRecord) × (o ≡ some r)
    × (r.approved_at_ms ≢ none)
    × (r.transfer_ref ≡ some p.ref_id)
    × (p.already_verified ≡ false)
    × (p.card_pan_masked ≡ mask_last4 r.sender_last4)
Evidence o window (not_paid code) =
    (r : TransferRecord) × (o ≡ some r)
    × (code ≡ some card_transfer_abandoned)
    × (r.approved_at_ms ≡ none)
    × (r.claimed_at_ms ≡ none)
    × (r.requested_at_ms + window ≤ r.now_ms)
Evidence o window (VerifyOutcome.gateway_error code) =
    (code ≡ none)
    × ((o ≡ none)
        ⊎ ((r : TransferRecord) × (o ≡ some r)
            × (((r.approved_at_ms ≢ none) × (r.transfer_ref ≡ none))
                ⊎ ((r.approved_at_ms ≡ none) × (r.claimed_at_ms ≢ none))
                ⊎ ((r.approved_at_ms ≡ none) × (r.now_ms < r.requested_at_ms + window)))))

abbrev made_of : Option ℕ → Option String → Option String → Option ℕ → ℕ → ℕ → TransferRecord
made_of approved ref last4 claimed requested now = record {
  approved_at_ms = approved;
  transfer_ref = ref;
  sender_last4 = last4;
  claimed_at_ms = claimed;
  requested_at_ms = requested;
  now_ms = now;
}

by_fields :
    (at : Option ℕ) (ref last4 : Option String) (claimed : Option ℕ) (requested now window : ℕ)
    → Evidence
        (some (made_of at ref last4 claimed requested now))
        window
        (decide_transfer (some (made_of at ref last4 claimed requested now)) window)
unfolding decide_transfer
by_fields (some t) (some ref) last4 claimed requested now window =
    (made_of (some t) (some ref) last4 claimed requested now, refl, cc, refl, refl, refl)
by_fields (some t) none last4 claimed requested now window =
    (refl, inr (made_of (some t) none last4 claimed requested now, refl, inl (cc, refl)))
by_fields none ref last4 (some c) requested now window =
    (refl, inr (made_of none ref last4 (some c) requested now, refl, inr (inl (refl, cc))))
by_fields none ref last4 none requested now window = elim (dec_lt now (requested + window)) [
  | yes early ↦
      rw (lt→ltb now (requested + window) early)
        (refl, inr (made_of none ref last4 none requested now, refl, inr (inr (refl, early))))
  | no late ↦
      rw (ge→ltb now (requested + window) (omega arith))
        (made_of none ref last4 none requested now, refl, refl, refl, refl, omega arith)
]

-- A transfer is paid only when it is recorded as approved with the bank's reference, which is the
-- one reported, and never as "already verified". It is given up as unpaid only when it was neither
-- approved nor claimed by the payer and its window has passed. All else stays undecided: no
-- record, an approval without a reference, a claim that waits, a window that is still open.
pub verify_payment-Evidence :
    (read : String → Option TransferRecord) (window : ℕ) (url : String) (input : VerifyPaymentInput)
    → Evidence (read input.authority) window (verify_payment read window url input)
unfolding verify_payment
verify_payment-Evidence read window url input = for_record (read input.authority)
  where
    for_record : (o : Option TransferRecord) → Evidence o window (decide_transfer o window)
    for_record none = unfold decide_transfer in (refl, inl refl)
    for_record (some r) =
        by_fields r.approved_at_ms r.transfer_ref r.sender_last4 r.claimed_at_ms r.requested_at_ms
          r.now_ms window
