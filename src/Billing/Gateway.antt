-- ===== src/Billing/Gateway.antt =====
-- packages/billing-core/src/gateway.ts: the port of a payment gateway. Amounts are rials; the texts
-- of messages are left out.
pub mod Mock
pub mod Transfer
pub mod Zarinpal
use hamboom.Base.{ℕ, ◌≡◌, Bool, true, false, ◌&&◌, String, Option, none, some, ◌===◌, if◌then◌else◌}
use hamboom.Billing.Money.{Number}

pub record VerifyPaymentInput : Type 0 where
  pub authority : String
  pub amount_rial : ℕ

pub record Paid : Type 0 where
  pub already_verified : Bool
  pub ref_id : String
  pub card_pan_masked : Option String
  pub card_hash : Option String
  pub fee_rial : Option Number

pub data VerifyOutcome : Type 0 where
  paid : Paid → VerifyOutcome
  not_paid : (code : Option Number) → VerifyOutcome
  gateway_error : (code : Option Number) → VerifyOutcome

pub data RefundOutcome : Type 0 where
  refunded : (refund_ref : String) → RefundOutcome
  unavailable : RefundOutcome
  rejected : (code : Option Number) → RefundOutcome
  gateway_error : (code : Option Number) → RefundOutcome

pub data ReverseOutcome : Type 0 where
  reversed : ReverseOutcome
  unavailable : ReverseOutcome
  rejected : (code : Option Number) → ReverseOutcome
  gateway_error : (code : Option Number) → ReverseOutcome

-- `assertGatewayAllowed`: false is the `GatewayNotAllowedError`.
unfoldable pub gateway_allowed : Bool → String → Bool
gateway_allowed development_only app_env =
    if development_only && (app_env === "production") then false else true
