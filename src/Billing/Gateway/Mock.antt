-- ===== src/Billing/Gateway/Mock.antt =====
-- packages/billing-core/src/mock-gateway.ts: the gateway of development, which keeps its payments in
-- memory. The authority of a new payment is an argument: the factory draws it at random.
pub mod Lifecycle
pub mod Verified
pub mod Once
mod Tests
use Prim.Native.String
use hamboom.Base.{
  ℕ, zero, suc, ◌-◌, ◌==◌, ◌≡◌, Bool, true, false, not, String, Option, none, some, List, [], ◌∷◌,
  if◌then◌else◌, is_some, length,
}
use hamboom.Base.Int.{ℤ, negsuc, pos}
use hamboom.Base.Dict.{Dict, get, put}
use hamboom.Billing.Money.{Number, Number, int, assert_gateway_amount}
use hamboom.Billing.Money
use hamboom.Billing.Gateway.{
  VerifyPaymentInput, Paid, VerifyOutcome, paid, not_paid, RefundOutcome, ReverseOutcome,
}
use hamboom.Billing.Reconcile.{UnverifiedPayment}

pub record MockRecord : Type 0 where
  pub amount_rial : ℕ
  pub verified_at : Option ℕ
  pub refund_ref : Option String
  pub reversed : Bool

pub record MockGateway : Type 0 where
  pub checkout_base_url : String
  pub fail_every_payment : Bool
  pub records : Dict MockRecord

-- `-n`
abbrev pub minus : ℕ → Number
minus n = int (negsuc (n - 1))

drop_chars : ℕ → String → String
drop_chars zero s = s
drop_chars (suc n) String.[] = ""
drop_chars (suc n) (String.◌∷◌ c s) = drop_chars n s

-- `prefix + authority.slice(-8)`
unfoldable pub reference : String → String → String
unfolding drop_chars
reference prefix authority = String.◌++◌ prefix (drop_chars (String.count authority - 8) authority)

pub record CreatePaymentResult : Type 0 where
  pub authority : String
  pub redirect_url : String

unfoldable pub create_payment :
    String → ℕ → MockGateway → Money.Result CreatePaymentResult × MockGateway
unfolding assert_gateway_amount put
create_payment authority amount g = elim (assert_gateway_amount (int (pos amount))) [
  | Money.err e ↦ (Money.err e, g)
  | Money.ok _ ↦ (
    Money.ok (record {
      authority = authority;
      redirect_url = String.◌++◌ g.checkout_base_url (String.◌++◌ "/" authority);
    }),
    record g {
      records =
          put authority
            (record {
              amount_rial = amount;
              verified_at = none;
              refund_ref = none;
              reversed = false;
            })
            g.records;
    },
  )
]

unverified_of : Dict MockRecord → List UnverifiedPayment
unverified_of [] = []
unverified_of ((a, r) ∷ rs) =
    if is_some r.verified_at
    then unverified_of rs
    else record { authority = a; amount_rial = r.amount_rial } ∷ unverified_of rs

unfoldable pub list_unverified : MockGateway → List UnverifiedPayment
unfolding unverified_of
list_unverified g = unverified_of g.records

abbrev pub store : String → MockRecord → MockGateway → MockGateway
store a r g = record g { records = put a r g.records }

refund_record : String → ℕ → Option MockRecord → MockGateway → RefundOutcome × MockGateway
refund_record a amount none g = (RefundOutcome.rejected (some (minus 51)), g)
refund_record a amount (some r) g =
    if not (is_some r.verified_at)
    then (RefundOutcome.rejected (some (minus 52)), g)
    else if is_some r.refund_ref
    then (RefundOutcome.rejected (some (minus 53)), g)
    else if not (r.amount_rial == amount)
    then (RefundOutcome.rejected (some (minus 50)), g)
    else (
      RefundOutcome.refunded (reference "MOCKRF" a),
      store a (record r { refund_ref = some (reference "MOCKRF" a) }) g,
    )

unfoldable pub refund : VerifyPaymentInput → MockGateway → RefundOutcome × MockGateway
unfolding refund_record get put reference
refund input g = refund_record input.authority input.amount_rial (get input.authority g.records) g

reverse_record : String → Option MockRecord → MockGateway → ReverseOutcome × MockGateway
reverse_record a none g = (ReverseOutcome.rejected (some (minus 51)), g)
reverse_record a (some r) g =
    if is_some r.verified_at
    then (ReverseOutcome.rejected (some (minus 54)), g)
    else if r.reversed
    then (ReverseOutcome.rejected (some (minus 55)), g)
    else (ReverseOutcome.reversed, store a (record r { reversed = true }) g)

unfoldable pub reverse : String → MockGateway → ReverseOutcome × MockGateway
unfolding reverse_record get put
reverse a g = reverse_record a (get a g.records) g

-- `if (!alreadyVerified) record.verifiedAt = this.#records.size`
abbrev pub stamp : MockGateway → MockRecord → MockRecord
stamp g r = if is_some r.verified_at then r else record r { verified_at = some (length g.records) }

verify_record : String → ℕ → Option MockRecord → MockGateway → VerifyOutcome × MockGateway
verify_record a amount none g = (not_paid (some (minus 51)), g)
verify_record a amount (some r) g =
    if r.reversed
    then (not_paid (some (minus 55)), g)
    else if g.fail_every_payment
    then (not_paid (some (minus 51)), g)
    else if not (r.amount_rial == amount)
    then (not_paid (some (minus 50)), g)
    else (
      paid (record {
        already_verified = is_some r.verified_at;
        ref_id = reference "MOCKREF" a;
        card_pan_masked = some "502229******0000";
        card_hash = none;
        fee_rial = some (int (pos 0));
      }),
      store a (stamp g r) g,
    )

unfoldable pub verify_payment : VerifyPaymentInput → MockGateway → VerifyOutcome × MockGateway
unfolding verify_record get put reference
verify_payment input g =
    verify_record input.authority input.amount_rial (get input.authority g.records) g
