-- ===== src/Billing/Gateway/Zarinpal/Tests.antt =====
-- Replies of Zarinpal.
use hamboom.Base.{
  if◌then◌else◌, ◌===◌, ◌≡◌, ◌↔◌, refl, false, String, Option, ◌⊎◌, none, some, List, [], ◌∷◌,
}
use hamboom.Base.Int.{pos, negsuc}
use hamboom.Billing.Money.{assert_gateway_amount, is_safe_integer, below, Number, int, other}
use hamboom.Billing.Reconcile.{UnverifiedPayment}
use hamboom.Billing.Gateway.{VerifyOutcome, paid, not_paid}
use hamboom.Billing.Gateway.Zarinpal.{
  Value, null, number, text, array, object, field, end, nil, cons, Reply, answered, verify_payment,
  list_unverified, create_payment, refused,
}
use hamboom.Billing.Gateway.Zarinpal.Verdict.{
  IsPaid, CarriesCode, HasRef, paid_with, verify_payment-IsPaid,
}
use hamboom.Billing.Gateway.Zarinpal.Unverified.{IsNullish, IsUnreadable, list_unverified-IsNullish}

-- `String` and `Number` of the values below
abbrev shown : Value → Option String
shown (text s) = some s
shown (object fs) = none
shown _ = some "12345"

abbrev read : String → Number
read s = if s === "5000" then int (pos 5000) else other

abbrev first_time : Value
first_time = object (
    field "data"
      (object
        (field "code" (number (int (pos 100))) (field "ref_id" (number (int (pos 12345))) end)))
      (field "errors" (array nil) end))

-- A reference number that is an object which cannot be made a string.
abbrev unreadable : Value
unreadable = object (
    field "data"
      (object (
        field "code" (number (int (pos 100)))
          (field "ref_id" (object (field "toString" (number (int (pos 1))) end)) end)))
      end)

unreadable-throws : verify_payment shown (answered (some unreadable)) ≡ none
unfolding verify_payment
unreadable-throws = refl

abbrev cancelled : Value
cancelled = object (
    field "data" (array nil)
      (field "errors" (object (field "code" (number (int (negsuc 50))) end)) end))

paid-first :
    verify_payment shown (answered (some first_time))
    ≡ some (
        paid (record {
          already_verified = false;
          ref_id = "12345";
          card_pan_masked = none;
          card_hash = none;
          fee_rial = none;
        }))
unfolding verify_payment
paid-first = refl

cancelled-unpaid :
    verify_payment shown (answered (some cancelled)) ≡ some (not_paid (some (int (negsuc 50))))
unfolding verify_payment
cancelled-unpaid = refl

no_json-error : verify_payment shown (answered none) ≡ some (VerifyOutcome.gateway_error none)
unfolding verify_payment
no_json-error = refl

cancelled-refused :
    create_payment "https://pay/" (int (pos 5000)) (answered (some cancelled)) ≡ refused
unfolding create_payment assert_gateway_amount
cancelled-refused = refl

abbrev pending : Value
pending = object (
    field "data"
      (object (
        field "authorities"
          (array (
            cons (object (field "authority" (text "A1") (field "amount" (text "5000") end))) (
              cons null (
                cons (object (field "authority" (text "A2") (field "amount" (text "12.5") end)))
                  nil))))
          end))
      end)

abbrev usable : List UnverifiedPayment
usable = record { authority = "A1"; amount_rial = 5000 } ∷ []

pending-listed : list_unverified read (answered (some pending)) ≡ some usable
unfolding list_unverified is_safe_integer below
pending-listed = refl

list_unverified-IsNullish_example :
    ((list_unverified read (answered (some null)) ≡ none) ↔ IsNullish (answered (some null)))
    × ((verify_payment shown (answered (some null)) ≡ none)
        ↔ (IsNullish (answered (some null)) ⊎ IsUnreadable shown read (answered (some null))))
list_unverified-IsNullish_example = list_unverified-IsNullish shown read (answered (some null))

verify_payment-IsPaid_example : IsPaid false (verify_payment shown (answered (some first_time))) ↔ (
    (body : Value) × (◌≡◌ {A = Reply} (answered (some first_time)) (answered (some body)))
    × CarriesCode body (paid_with false)
    × HasRef shown body)
verify_payment-IsPaid_example = verify_payment-IsPaid shown (answered (some first_time)) false
