-- ===== src/Billing/Gateway/Mock/Lifecycle.antt =====
-- The life of a payment in the mock gateway.
use hamboom.Base.{
  ℕ, ◌≡◌, ◌⊎◌, Bool, true, false, String, Option, none, some, List, [], ◌∷◌, arith, is_some, length,
}
use hamboom.Base.Dict.{get, put, get-put}
use hamboom.Billing.Gateway.{VerifyPaymentInput}
use hamboom.Billing.Gateway.Mock.{
  MockRecord, MockGateway, reference, create_payment, refund, refund_record, reverse,
  reverse_record, verify_payment, verify_record,
}

-- Money that was given back had been taken, and what was reversed was never taken.
pub record IsCoherent (r : MockRecord) : Type 0 where
  pub refunded_taken : (is_some r.refund_ref ≡ false) ⊎ (is_some r.verified_at ≡ true)
  pub reversed_untaken : (r.reversed ≡ false) ⊎ (is_some r.verified_at ≡ false)

abbrev pub IsCoherentAt : Option MockRecord → Type 0
IsCoherentAt none = Unit {0}
IsCoherentAt (some r) = IsCoherent r

abbrev pub IsSound : MockGateway → Type 0
IsSound g = (a : String) → IsCoherentAt (get a g.records)

-- The calls that change the gateway.
pub data Call : Type 0 where
  creates : (authority : String) (amount : ℕ) → Call
  verifies refunds : VerifyPaymentInput → Call
  reverses : String → Call

unfoldable pub step : MockGateway → Call → MockGateway
step g (creates a amount) = (create_payment a amount g).1
step g (verifies input) = (verify_payment input g).1
step g (refunds input) = (refund input g).1
step g (reverses a) = (reverse a g).1

unfoldable pub run : MockGateway → List Call → MockGateway
run g [] = g
run g (c ∷ cs) = run (step g c) cs

put-IsCoherentAt :
    (a b : String) (r : MockRecord) (g : MockGateway)
    → IsCoherent r
    → IsCoherentAt (get b g.records)
    → IsCoherentAt (get b (put a r g.records))
put-IsCoherentAt a b r g c s = rw (get-put a b r g.records) (ground arith)

abbrev fresh : ℕ → MockRecord
fresh amount = record {
  amount_rial = amount;
  verified_at = none;
  refund_ref = none;
  reversed = false;
}

create_payment-IsSound :
    (a : String) (amount : ℕ) (g : MockGateway) → IsSound g → IsSound (create_payment a amount g).1
unfolding create_payment
create_payment-IsSound a amount g s b =
    ground (arith, s b, put-IsCoherentAt a b (fresh amount) g (ground arith) (s b))

verify_record-IsSound :
    (a : String) (amount : ℕ) (o : Option MockRecord) (g : MockGateway)
    → IsCoherentAt o
    → IsSound g
    → IsSound (verify_record a amount o g).1
unfolding verify_record
verify_record-IsSound a amount none g c s b = s b
verify_record-IsSound a amount (some r) g c s b = ground (
  arith,
  s b,
  put-IsCoherentAt a b r g c (s b),
  put-IsCoherentAt a b (record r { verified_at = some (length g.records) }) g,
)

refund_record-IsSound :
    (a : String) (amount : ℕ) (o : Option MockRecord) (g : MockGateway)
    → IsCoherentAt o
    → IsSound g
    → IsSound (refund_record a amount o g).1
unfolding refund_record
refund_record-IsSound a amount none g c s b = s b
refund_record-IsSound a amount (some r) g c s b =
    ground
      (arith, s b, put-IsCoherentAt a b (record r { refund_ref = some (reference "MOCKRF" a) }) g)

reverse_record-IsSound :
    (a : String) (o : Option MockRecord) (g : MockGateway)
    → IsCoherentAt o
    → IsSound g
    → IsSound (reverse_record a o g).1
unfolding reverse_record
reverse_record-IsSound a none g c s b = s b
reverse_record-IsSound a (some r) g c s b =
    ground (arith, s b, put-IsCoherentAt a b (record r { reversed = true }) g)

pub step-IsSound : (g : MockGateway) (c : Call) → IsSound g → IsSound (step g c)
unfolding step verify_payment refund reverse
step-IsSound g (creates a amount) s = create_payment-IsSound a amount g s
step-IsSound g (verifies input) s =
    verify_record-IsSound input.authority input.amount_rial _ g (s input.authority) s
step-IsSound g (refunds input) s =
    refund_record-IsSound input.authority input.amount_rial _ g (s input.authority) s
step-IsSound g (reverses a) s = reverse_record-IsSound a _ g (s a) s

run-IsSound : (g : MockGateway) (cs : List Call) → IsSound g → IsSound (run g cs)
unfolding run
run-IsSound g [] s = s
run-IsSound g (c ∷ cs) s = run-IsSound (step g c) cs (step-IsSound g c s)

unfoldable pub new_gateway : String → Bool → MockGateway
new_gateway url fails = record { checkout_base_url = url; fail_every_payment = fails; records = [] }

-- After any calls from an empty gateway, a refunded payment had been verified, and a reversed one
-- never was, so no payment is both refunded and reversed.
pub run-new_gateway-IsSound :
    (url : String) (fails : Bool) (cs : List Call) → IsSound (run (new_gateway url fails) cs)
unfolding new_gateway get
run-new_gateway-IsSound url fails cs = run-IsSound _ cs (λ a. tt)
