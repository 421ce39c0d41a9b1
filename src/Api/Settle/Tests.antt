-- ===== src/Api/Settle/Tests.antt =====
-- A team that buys a month and renews it.
use hamboom.Base.{ℕ, ◌≤◌, ◌≡◌, refl, false, String, none, some, List, [], ◌∷◌, arith}
use hamboom.Base.Int.{pos}
use hamboom.Billing.Money.{below, int, is_safe_integer}
use hamboom.Billing.Period.{Instant}
use hamboom.Billing.Gateway.{VerifyOutcome, paid, not_paid}
use hamboom.Billing.Gateway.Zarinpal.{
  text_in, member_of, number_in, Value, number, text, object, field, end,
}
use hamboom.Api.Subscription.{SubscriptionRow}
use hamboom.Api.Settle.{PaymentRow, Db, activated, already_settled, Gateway, settle_payment}
use hamboom.Api.Settle.Count.{Attempt, settle_all, live_count, live_count-settle_all}
use hamboom.Api.Settle.Once.{settle_payment_once}

abbrev intent : Value
intent = object (
    field "planCode" (text "pro") (
      field "period" (text "monthly") (
        field "seats" (number (int (pos 3)))
          (field "unitPriceRial" (number (int (pos 5000))) end))))

abbrev payment : String → PaymentRow
payment invoice = record {
  team_id = "team";
  invoice_id = some invoice;
  amount_rial = 15000;
  status = "pending";
  authority = some invoice;
  request_payload = intent;
  gateway = "mock";
  gateway_mode = "sandbox";
  ref_id = none;
  failure_code = none;
}

abbrev start : Db
start = record {
  payments = ("p1", payment "i1") ∷ ("p2", payment "i2") ∷ [];
  paid_invoices = [];
  subscriptions = [];
}

abbrev pays : String → ℕ → VerifyOutcome
pays authority amount = paid (record {
  already_verified = false;
  ref_id = "ref";
  card_pan_masked = none;
  card_hash = none;
  fee_rial = none;
})

abbrev mock : Gateway
mock = record { name = "mock"; mode = "sandbox"; verify = pays }

abbrev new_year : Instant
new_year = record { year = 2026; month = 0; day = 1; millis = 0 }

abbrev later : Instant
later = record { year = 2026; month = 0; day = 20; millis = 0 }

bought : (settle_payment mock "s1" new_year "p1" start).0 ≡ activated "s1" "i1" "ref"
unfolding settle_payment is_safe_integer below text_in member_of number_in
bought = refl

abbrev attempts : List Attempt
attempts =
    record { gateway = mock; new_id = "s2"; now = later; pid = "p2" }
    ∷ record { gateway = mock; new_id = "s3"; now = later; pid = "p1" }
    ∷ []

abbrev ends : List SubscriptionRow → List (String × String × ℕ × ℕ)
ends [] = []
ends (row ∷ rest) =
    (row.id, row.status, row.current_period_end.month, row.current_period_end.day) ∷ ends rest

renewed_from_end :
    ends (settle_all attempts (settle_payment mock "s1" new_year "p1" start).1).subscriptions
    ≡ (("s2", "active", 2, 1) ∷ ("s1", "expired", 1, 1) ∷ [])
unfolding settle_all settle_payment is_safe_integer below text_in member_of number_in
renewed_from_end = refl

settle_payment_once_example :
    let db = settle_all attempts (settle_payment mock "s1" new_year "p1" start).1 in
    settle_payment (record mock { verify = λ a n. not_paid none }) "s4" later "p1" db
    ≡ (already_settled (some "s1") (some "i1") "paid", db)
settle_payment_once_example =
    settle_payment_once mock "s1" new_year "p1" start attempts (λ a n. not_paid none) "s4" later
      bought

none_yet : live_count "team" start.subscriptions ≤ 1
unfolding live_count
none_yet = omega arith

live_count-settle_all_example : live_count "team" (settle_all attempts start).subscriptions ≤ 1
live_count-settle_all_example = live_count-settle_all "team" attempts start none_yet
