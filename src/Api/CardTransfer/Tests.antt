-- ===== src/Api/CardTransfer/Tests.antt =====
-- Two teams pay by transfer, and the second gives the reference of the first.
use hamboom.Base.{ℕ, ◌≡◌, ◌≢◌, arith, refl, String, none, some, List, [], ◌∷◌}
use hamboom.Base.Dict.{get}
use hamboom.Base.Int.{pos}
use hamboom.Billing.Money.{below, int, is_safe_integer, monthly}
use hamboom.Billing.Gateway.Zarinpal.{
  text_in, member_of, number_in, Value, number, text, object, field, end,
}
use hamboom.Billing.Gateway.Transfer.{decide_transfer}
use hamboom.Api.Subscription.{PurchaseIntent, read_intent}
use hamboom.Api.Settle.{PaymentRow, activated}
use hamboom.Api.CardTransfer.{
  TransferColumns, Store, Moment, CardTransferSettings, claimed, claim_transfer, ApproveInput,
  settled, ref_taken, amount_mismatch, approve_transfer, key_by_authority, taken,
}
use hamboom.Api.CardTransfer.Owned.{own_ref, ref_in}
use hamboom.Api.CardTransfer.Unique.{AreUnique, Event, claims, approves, run, run-AreUnique}
use hamboom.Api.CardTransfer.Approved.{IsApprovable, IsBought, approve_transfer-activates}

abbrev bought_value : Value
bought_value = object (
    field "planCode" (text "pro") (
      field "period" (text "monthly") (
        field "seats" (number (int (pos 3)))
          (field "unitPriceRial" (number (int (pos 5000))) end))))

abbrev payment : String → PaymentRow
payment invoice = record {
  team_id = "team";
  invoice_id = some invoice;
  amount_rial = 15000;
  status = "pending";
  authority = some invoice;
  request_payload = bought_value;
  gateway = "card_transfer";
  gateway_mode = "live";
  ref_id = none;
  failure_code = none;
}

abbrev blank : TransferColumns
blank = record {
  transfer_approved_at = none;
  transfer_approved_by = none;
  transfer_ref = none;
  transfer_sender_last4 = none;
  transfer_claimed_at = none;
  transfer_claimed_ref = none;
  transfer_claimed_last4 = none;
  requested_at = 1000;
}

abbrev start : Store
start = record {
  db = record {
    payments = ("p1", payment "i1") ∷ ("p2", payment "i2") ∷ [];
    paid_invoices = [];
    subscriptions = [];
  };
  transfers = ("p1", blank) ∷ ("p2", blank) ∷ [];
  audit = [];
}

abbrev settings : CardTransferSettings
settings = record { claim_window_ms = 500; checkout_base_url = ""; mode = "live" }

abbrev at : Moment
at = record { now_ms = 2000; now = record { year = 2026; month = 0; day = 1; millis = 0 } }

abbrev approval : String → ℕ → ApproveInput
approval id amount = record {
  payment_id = id;
  ref = "R7";
  last4 = some "1234";
  observed_amount_rial = amount;
  note = none;
}

mistyped :
    (approve_transfer settings "s1" "staff" at (approval "p1" 1500) start).0
    ≡ amount_mismatch 15000 1500
unfolding approve_transfer
mistyped = refl

second_use :
    (approve_transfer settings "s2" "staff" at
      (approval "p2" 15000)
      (approve_transfer settings "s1" "staff" at (approval "p1" 15000) start).1).0
    ≡ ref_taken "p1"
unfolding approve_transfer text_in member_of number_in is_safe_integer below decide_transfer
second_use = refl

claimed_first :
    (claim_transfer 1500 (record { payment_id = "p1"; ref = "R7"; last4 = none }) start).0
    ≡ claimed "team"
unfolding claim_transfer
claimed_first = refl

abbrev intent : PurchaseIntent
intent = record {
  plan_code = "pro";
  period = monthly;
  seats = 3;
  unit_price_rial = int (pos 5000);
  coupon_code = none;
}

approvable : IsApprovable settings (approval "p2" 15000) start (payment "i2") blank "i2" "i2" intent
unfolding get taken key_by_authority read_intent text_in member_of number_in is_safe_integer below
approvable = record {
  found = refl;
  written = refl;
  ours = refl;
  mode = refl;
  pending = refl;
  amount = refl;
  free = refl;
  asked = refl;
  own = refl;
  billed = refl;
  bought = refl;
}

approve_transfer-activates_example :
    let result = approve_transfer settings "s1" "staff" at (approval "p2" 15000) start in
    (result.0 ≡ settled (activated "s1" "i2" "R7"))
    × (get "p2" result.1.db.payments
        ≡ some (record (payment "i2") { status = "paid"; ref_id = some "R7"; failure_code = none }))
    × (result.1.db.paid_invoices ≡ "i2" ∷ [])
    × IsBought "s1" "p2" "team" intent result.1.db.subscriptions
approve_transfer-activates_example =
    approve_transfer-activates settings "s1" "staff" at (approval "p2" 15000) start approvable

nothing_yet : (p ref : String) → own_ref p start ≢ some ref
unfolding ref_in get
nothing_yet p ref h = ground arith

abbrev events : List Event
events =
    claims 1500 (record { payment_id = "p1"; ref = "R7"; last4 = none })
    ∷ approves settings "s1" "staff" at (approval "p1" 15000)
    ∷ approves settings "s2" "staff" at (approval "p2" 15000)
    ∷ []

carried : own_ref "p1" (run events start) ≡ some "R7"
unfolding ref_in run text_in member_of number_in is_safe_integer below decide_transfer
carried = refl

run-AreUnique_example : AreUnique (run events start)
run-AreUnique_example = run-AreUnique events start (λ p q ref h k. absurd (nothing_yet p ref h))
