-- ===== src/Api/Settle.antt =====
-- apps/api/src/services/billing.ts: the settlement of a payment, under the lock of its row. The
-- rows are explicit state; a statement that throws rolls its transaction back. The verdict of the
-- gateway, the clock and the random id of a subscription are arguments. Coupons, the payloads that
-- are stored for the record and the hooks of the callers are left out.
pub mod Count
pub mod Once
mod Tests
use hamboom.Base.{
  ℕ, ◌≡◌, Bool, true, false, not, ◌&&◌, ◌||◌, String, Option, none, some, List, [], ◌∷◌, ◌++◌, map,
  ◌===◌, ◌==◌, ltb, leb, if◌then◌else◌, is_some,
}
use hamboom.Base.Dict.{Dict, get, put}
use hamboom.Billing.Money.{Number, BillingPeriod, monthly, yearly, is_safe_integer, below, nat_of}
use hamboom.Billing.Period.{Instant, Period, compute_period}
use hamboom.Billing.Gateway.{Paid, VerifyOutcome, paid, not_paid}
use hamboom.Billing.Gateway.Zarinpal.{Value, member_of, text_in, number_in}
use hamboom.Api.Subscription.{
  PurchaseIntent, SubscriptionRow, read_intent, upsert_subscription, activated_by,
}

-- A row of payments, without its id, which is its key.
pub record PaymentRow : Type 0 where
  pub team_id : String
  pub invoice_id : Option String
  pub amount_rial : ℕ
  pub status : String
  pub authority : Option String
  pub request_payload : Value
  pub gateway : String
  pub gateway_mode : String
  pub ref_id : Option String
  pub failure_code : Option Number

pub record Db : Type 0 where
  pub payments : Dict PaymentRow
  pub paid_invoices : List String
  pub subscriptions : List SubscriptionRow

pub data SettleOutcome : Type 0 where
  activated : (subscription_id invoice_id ref_id : String) → SettleOutcome
  already_settled : (subscription_id invoice_id : Option String) (status : String) → SettleOutcome
  not_paid_yet : (code : Option Number) → SettleOutcome
  unknown : SettleOutcome
  not_found conflict internal_error : SettleOutcome

-- The activation and the update of the payment with key `pid`, in one transaction.
unfoldable pub activate :
    String
    → Instant
    → String
    → PaymentRow
    → Paid
    → Option String
    → Option PurchaseIntent
    → Db
    → SettleOutcome × Db
unfolding upsert_subscription put
activate id now pid payment verdict (some invoice) (some intent) db = (
  activated id invoice verdict.ref_id,
  record {
    payments =
        put pid
          (record payment { status = "paid"; ref_id = some verdict.ref_id; failure_code = none })
          db.payments;
    paid_invoices = invoice ∷ db.paid_invoices;
    subscriptions = upsert_subscription id now payment.team_id pid intent db.subscriptions;
  },
)
activate id now pid payment verdict _ _ db = (internal_error, db)

unfoldable pub settle_verdict :
    String → Instant → String → PaymentRow → VerifyOutcome → Db → SettleOutcome × Db
unfolding activate read_intent put
settle_verdict id now pid payment (VerifyOutcome.gateway_error code) db = (unknown, db)
settle_verdict id now pid payment (not_paid code) db = (
  not_paid_yet code,
  record db { payments = put pid (record payment { failure_code = code }) db.payments },
)
settle_verdict id now pid payment (paid verdict) db =
    activate id now pid payment verdict payment.invoice_id (read_intent payment.request_payload) db

unfoldable pub settle_pending :
    (String → ℕ → VerifyOutcome)
    → String
    → Instant
    → String
    → PaymentRow
    → Option String
    → Db
    → SettleOutcome × Db
unfolding settle_verdict
settle_pending verify id now pid payment none db = (unknown, db)
settle_pending verify id now pid payment (some authority) db =
    settle_verdict id now pid payment (verify authority payment.amount_rial) db

unfoldable pub settle_locked :
    (String → ℕ → VerifyOutcome) → String → Instant → String → PaymentRow → Db → SettleOutcome × Db
unfolding activated_by settle_pending
settle_locked verify id now pid payment db =
    if not (payment.status === "pending")
    then (already_settled (activated_by pid db.subscriptions) payment.invoice_id payment.status, db)
    else settle_pending verify id now pid payment payment.authority db

-- A gateway: its name, its mode and what it answers.
pub record Gateway : Type 0 where
  pub name : String
  pub mode : String
  pub verify : String → ℕ → VerifyOutcome

-- the row that was locked, and the check that it belongs to the gateway
unfoldable pub settle_found :
    Gateway → String → Instant → String → Option PaymentRow → Db → SettleOutcome × Db
unfolding settle_locked
settle_found gateway id now pid none db = (not_found, db)
settle_found gateway id now pid (some payment) db =
    if not (payment.gateway === gateway.name) || not (payment.gateway_mode === gateway.mode)
    then (conflict, db)
    else settle_locked gateway.verify id now pid payment db

-- `settlePayment` of the payment with an id
unfoldable pub settle_payment : Gateway → String → Instant → String → Db → SettleOutcome × Db
unfolding settle_found get
settle_payment gateway id now pid db = settle_found gateway id now pid (get pid db.payments) db
