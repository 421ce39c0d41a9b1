-- ===== src/Billing/Gateway/Mock/Tests.antt =====
-- A payment through the mock gateway.
use hamboom.Base.{◌≡◌, refl, false, some, [], ◌∷◌}
use hamboom.Base.Dict.{get}
use hamboom.Billing.Gateway.{VerifyPaymentInput, paid, not_paid, RefundOutcome}
use hamboom.Billing.Gateway.Mock.{
  MockGateway, verify_payment, refund, minus, create_payment, reverse,
}
use hamboom.Billing.Gateway.Mock.Lifecycle.{creates, verifies, reverses, step, run, new_gateway}
use hamboom.Billing.Gateway.Mock.Once.{refund_once}
use hamboom.Billing.Gateway.Mock.Verified.{receipt}

mock : Unit {0}
unfolding verify_payment refund create_payment reverse run step new_gateway get
mock = tt

abbrev ask : VerifyPaymentInput
ask = record { authority = "MOCK001"; amount_rial = 5000 }

made : MockGateway
made = run (new_gateway "http://localhost" false) (creates "MOCK001" 5000 ∷ [])

verified : MockGateway
verified = (verify_payment ask made).1

first_time : (verify_payment ask made).0 ≡ paid (receipt false "MOCK001")
unfolding mock made
first_time = refl

wrong_amount :
    (verify_payment (record ask { amount_rial = 4999 }) made).0 ≡ not_paid (some (minus 50))
unfolding mock made
wrong_amount = refl

unverified_refund : (refund ask made).0 ≡ RefundOutcome.rejected (some (minus 52))
unfolding mock made
unverified_refund = refl

given_back : (refund ask verified).0 ≡ RefundOutcome.refunded "MOCKRFMOCK001"
unfolding mock made verified
given_back = refl

refund_once_example :
    (refund ask (run (refund ask verified).1 (verifies ask ∷ reverses "MOCK001" ∷ []))).0
    ≡ RefundOutcome.rejected (some (minus 53))
refund_once_example =
    refund_once ask verified (verifies ask ∷ reverses "MOCK001" ∷ []) 5000 given_back (tt, (tt, tt))
