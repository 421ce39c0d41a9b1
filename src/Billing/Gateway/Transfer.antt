-- ===== src/Billing/Gateway/Transfer.antt =====
-- packages/billing-core/src/card-transfer-gateway.ts: card-to-card payments, which a member of staff
-- approves. Times are milliseconds.
pub mod Decision
mod Tests
use Prim.Native.String
use hamboom.Base.{
  ℕ, ◌+◌, ◌≡◌, Bool, true, false, String, Option, none, some, ltb, if◌then◌else◌, is_some,
}
use hamboom.Base.Int.{ℤ, pos}
use hamboom.Billing.Money.{Number, int, assert_gateway_amount}
use hamboom.Billing.Money
use hamboom.Billing.Gateway.{VerifyPaymentInput, Paid, VerifyOutcome, paid, not_paid}
use hamboom.Billing.Gateway.Mock.{CreatePaymentResult}

pub record TransferRecord : Type 0 where
  pub approved_at_ms : Option ℕ
  pub transfer_ref : Option String
  pub sender_last4 : Option String
  pub claimed_at_ms : Option ℕ
  pub requested_at_ms : ℕ
  pub now_ms : ℕ

abbrev pub card_transfer_abandoned : Number
card_transfer_abandoned = int (pos 1001)

unfoldable pub mask_last4 : Option String → Option String
mask_last4 none = none
mask_last4 (some last4) = some (String.◌++◌ "****" last4)

-- an approved record: paid if the bank's reference was recorded with the approval
unfoldable pub approved : Option String → Option String → VerifyOutcome
unfolding mask_last4
approved none last4 = VerifyOutcome.gateway_error none
approved (some ref) last4 = paid (record {
  already_verified = false;
  ref_id = ref;
  card_pan_masked = mask_last4 last4;
  card_hash = none;
  fee_rial = none;
})

unfoldable pub decide_transfer : Option TransferRecord → ℕ → VerifyOutcome
unfolding approved
decide_transfer none claim_window_ms = VerifyOutcome.gateway_error none
decide_transfer (some r) claim_window_ms =
    if is_some r.approved_at_ms
    then approved r.transfer_ref r.sender_last4
    else if is_some r.claimed_at_ms
    then VerifyOutcome.gateway_error none
    else if ltb r.now_ms (r.requested_at_ms + claim_window_ms)
    then VerifyOutcome.gateway_error none
    else not_paid (some card_transfer_abandoned)

-- The reader is the database's; the authority of a new payment is drawn at random.
module _ (read : String → Option TransferRecord) (claim_window_ms : ℕ)
    (checkout_base_url : String) where
  unfoldable pub verify_payment : VerifyPaymentInput → VerifyOutcome
  verify_payment input = decide_transfer (read input.authority) claim_window_ms

  unfoldable pub create_payment : String → ℕ → Money.Result CreatePaymentResult
  create_payment authority amount = elim (assert_gateway_amount (int (pos amount))) [
    | Money.err e ↦ Money.err e
    | Money.ok _ ↦ Money.ok (record {
      authority = authority;
      redirect_url = String.◌++◌ checkout_base_url (String.◌++◌ "/" authority);
    })
  ]
