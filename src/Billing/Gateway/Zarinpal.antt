-- ===== src/Billing/Gateway/Zarinpal.antt =====
-- packages/billing-core/src/zarinpal-gateway.ts: the gateway Zarinpal. A reply is a JSON value that
-- is read without any trust in its shape; reading a property of null or of undefined throws, as in
-- JavaScript. The network is an argument: a reply, or the failure of the call.
pub mod Verdict
pub mod Unverified
mod Tests
use Prim.Native.String
use hamboom.Base.{
  ◌++◌, ℕ, ◌≡◌, Bool, true, false, not, ◌&&◌, ◌||◌, String, Option, none, some, List, [], ◌∷◌,
  ◌===◌, ◌==◌, ltb, leb, if◌then◌else◌, is_some,
}
use hamboom.Base.Int.{ℤ, pos, negsuc}
use hamboom.Billing.Money
use hamboom.Billing.Money.{Number, int, is_safe_integer, assert_gateway_amount, nat_of, below}
use hamboom.Billing.Gateway.{VerifyPaymentInput, Paid, VerifyOutcome, paid, not_paid}
use hamboom.Billing.Gateway.Mock.{CreatePaymentResult}
use hamboom.Billing.Reconcile.{UnverifiedPayment}

mutual
  -- A value of JavaScript as `JSON.parse` makes it, and `undefined`.
  pub data Value : Type 0 where
    undefined null : Value
    boolean : Bool → Value
    number : Number → Value
    text : String → Value
    array : Items → Value
    object : Fields → Value

  pub data Items : Type 0 where
    nil : Items
    cons : Value → Items → Items

  pub data Fields : Type 0 where
    end : Fields
    field : String → Value → Fields → Fields

unfoldable pub lookup : String → Fields → Value
lookup k end = undefined
lookup k (field j v fs) = if j === k then v else lookup k fs

-- `v.k` for the names that replies have; none is the TypeError. No other kind of value has them.
unfoldable pub property : String → Value → Option Value
unfolding lookup
property k undefined = none
property k null = none
property k (object fs) = some (lookup k fs)
property k _ = some undefined

-- `v.k` where v was found truthy, or is not null: it does not throw.
unfoldable pub member_of : String → Value → Value
unfolding lookup
member_of k (object fs) = lookup k fs
member_of k _ = undefined

-- `data && typeof data.k === "number"`, and the number: a falsy value has no such property.
unfoldable pub number_in : Value → Option Number
number_in (number n) = some n
number_in _ = none

unfoldable pub text_in : Value → Option String
text_in (text s) = some s
text_in _ = none

-- What `fetch` gave: it failed, or it gave a body, none where the body is not JSON.
pub data Reply : Type 0 where
  failed : Reply
  answered : Option Value → Reply

-- `let body = {}`, unless the body is JSON
abbrev pub body_of : Option Value → Value
body_of none = object end
body_of (some v) = v

-- the branch on `errors`, an object that is no array
unfoldable pub code_or : Option Number → Value → Option Number
unfolding number_in member_of
code_or (some c) errors = some c
code_or none errors = number_in (member_of "code" errors)

unfoldable pub code_of : Value → Option (Option Number)
unfolding number_in member_of code_or
code_of undefined = none
code_of null = none
code_of body =
    some (code_or (number_in (member_of "code" (member_of "data" body))) (member_of "errors" body))

abbrev pub is_code : ℕ → Number → Bool
is_code n (int (pos c)) = c == n
is_code n _ = false

-- `PAID_CODES.has(code)`
unfoldable pub paid_code : Number → Bool
paid_code c = is_code 100 c || is_code 101 c

abbrev pub paid_record : Number → Value → Option String → Option Paid
paid_record code d none = none
paid_record code d (some ref) = some (record {
  already_verified = is_code 101 code;
  ref_id = ref;
  card_pan_masked = text_in (member_of "card_pan" d);
  card_hash = text_in (member_of "card_hash" d);
  fee_rial = number_in (member_of "fee" d);
})

abbrev pub paid_if : Option Paid → Option VerifyOutcome
paid_if none = none
paid_if (some p) = some (paid p)

-- `to_string` is JavaScript's `String(v)`, none where it throws (for an object with a property
-- toString that is no function, say), and `to_number` its `Number(s)`.
module _ (to_string : Value → Option String) where
  unfoldable pub ref_id_of : Value → Option String
  ref_id_of undefined = some ""
  ref_id_of null = some ""
  ref_id_of v = to_string v

  unfoldable pub paid_of : Number → Value → Option Paid
  unfolding ref_id_of text_in number_in member_of
  paid_of code d = paid_record code d (ref_id_of (member_of "ref_id" d))

  -- what follows once the code was read
  unfoldable pub outcome_of : Value → Option Number → Option VerifyOutcome
  unfolding paid_of paid_code member_of
  outcome_of body none = some (VerifyOutcome.gateway_error none)
  outcome_of body (some c) =
      if paid_code c then paid_if (paid_of c (member_of "data" body)) else some (not_paid (some c))

  unfoldable pub verdict_of : Value → Option (Option Number) → Option VerifyOutcome
  unfolding outcome_of
  verdict_of body none = none
  verdict_of body (some code) = outcome_of body code

  -- none is a TypeError, which the source does not catch
  unfoldable pub verify_payment : Reply → Option VerifyOutcome
  unfolding code_of verdict_of
  verify_payment failed = some (VerifyOutcome.gateway_error none)
  verify_payment (answered json) = verdict_of (body_of json) (code_of (body_of json))

-- How `createPayment` ends: with a payment, with an amount that is out of bounds, or with the error
-- of a call that failed or was refused.
pub data Creation : Type 0 where
  created : CreatePaymentResult → Creation
  bad_amount : Money.ChargeError → Creation
  refused : Creation

-- `codeOf(reply) !== 100 || typeof authority !== "string"`
unfoldable pub created_of : String → Option (Option Number) → Option String → Creation
created_of start_url (some (some c)) (some authority) =
    if is_code 100 c
    then created (record { authority = authority; redirect_url = String.◌++◌ start_url authority })
    else refused
created_of start_url _ _ = refused

unfoldable pub create_payment : String → Number → Reply → Creation
unfolding created_of code_of text_in member_of
create_payment start_url amount reply = elim (assert_gateway_amount amount) [
  | Money.err e ↦ bad_amount e
  | Money.ok _ ↦ elim reply [
    | failed ↦ refused
    | answered json ↦
        created_of start_url (code_of (body_of json))
          (text_in (member_of "authority" (member_of "data" (body_of json))))
  ]
]

module _ (to_number : String → Number) where
  unfoldable pub amount_in : Value → Option Number
  amount_in (text s) = some (to_number s)
  amount_in (number n) = some n
  amount_in _ = none

  -- a pair that the loop pushes, if it does
  unfoldable pub row_of : Option String → Option Number → List UnverifiedPayment
  row_of (some authority) (some amount) =
      if (authority === "") || (not (is_safe_integer amount) || below amount 1)
      then []
      else record { authority = authority; amount_rial = nat_of amount } ∷ []
  row_of _ _ = []

  unfoldable pub rows_of : Items → List UnverifiedPayment
  unfolding row_of amount_in text_in member_of
  rows_of nil = []
  rows_of (cons v vs) =
      row_of (text_in (member_of "authority" v)) (amount_in (member_of "amount" v)) ++ rows_of vs

  unfoldable pub listed : Value → List UnverifiedPayment
  unfolding rows_of
  listed (array vs) = rows_of vs
  listed _ = []

  unfoldable pub listed_in : Option Value → Option (List UnverifiedPayment)
  unfolding listed member_of
  listed_in none = none
  listed_in (some d) = some (listed (member_of "authorities" d))

  -- none is a TypeError, which the source does not catch
  unfoldable pub list_unverified : Reply → Option (List UnverifiedPayment)
  unfolding listed_in property
  list_unverified failed = some []
  list_unverified (answered json) = listed_in (property "data" (body_of json))
