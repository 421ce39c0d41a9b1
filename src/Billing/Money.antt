-- ===== src/Billing/Money.antt =====
-- packages/billing-core/src/money.ts: the charge that goes to the gateway and onto the invoice.
-- The figures of a charge are modelled where all products and sums are integers of at most 2^53 - 1,
-- which a double computes exactly, with their hundredth parts rounded right; other charges are none.
pub mod Balance
pub mod Guards
mod Tests
use hamboom.Base.{
  ℕ, ◌+◌, ◌-◌, ◌*◌, ◌/◌, ◌<◌, ◌≤◌, String, ◌≡◌, refl, Bool, true, false, ◌&&◌, ◌||◌, not, Option,
  none, some, List, [], ◌∷◌, ltb, leb, min, if◌then◌else◌,
}
use hamboom.Base.Int.{ℤ, pos, negsuc, pos_part}

-- A value of type `number`: an integer, or anything else (a fraction, NaN, an infinity).
pub data Number : Type 0 where
  int : ℤ → Number
  other : Number

-- 2^53 - 1
abbrev pub max_safe_integer : ℕ
max_safe_integer = 9007199254740991

abbrev pub magnitude : ℤ → ℕ
magnitude (pos n) = n
magnitude (negsuc n) = n + 1

-- `Number.isSafeInteger`
unfoldable pub is_safe_integer : Number → Bool
is_safe_integer (int z) = leb (magnitude z) max_safe_integer
is_safe_integer other = false

-- `x < k` for a natural number k; a fraction or NaN is never asked.
unfoldable pub below : Number → ℕ → Bool
below (int (pos n)) k = ltb n k
below (int (negsuc n)) k = true
below other k = false

abbrev pub nat_of : Number → ℕ
nat_of (int z) = pos_part z
nat_of other = 0

abbrev pub int_of : Number → ℤ
int_of (int z) = z
int_of other = pos 0

pub data BillingPeriod : Type 0 where
  monthly yearly : BillingPeriod

pub data CouponEffect : Type 0 where
  percent : Number → CouponEffect
  amount : Number → CouponEffect

pub record Plan : Type 0 where
  pub code : String
  pub name : String
  pub price_monthly_rial : Number
  pub price_yearly_rial : Number

pub record ChargeInput : Type 0 where
  pub plan : Plan
  pub period : BillingPeriod
  pub seats : Number
  pub coupon : Option CouponEffect
  pub vat_percent : Number

-- The title is kept as its two parts, the plan's name and the period that the label names.
pub record InvoiceLineItem : Type 0 where
  pub title : String × BillingPeriod
  pub qty : ℕ
  pub unit_price_rial : ℕ
  pub total_rial : ℕ

pub record Charge : Type 0 where
  pub subtotal_rial : ℕ
  pub discount_rial : ℕ
  pub vat_rial : ℕ
  pub total_rial : ℕ
  pub vat_percent : ℕ
  pub line_items : List InvoiceLineItem

pub data ChargeError : Type 0 where
  bad_seats bad_vat bad_price : ChargeError
  not_safe below_minimum above_maximum : ChargeError

pub data Result {ℓ} (A : Type ℓ) : Type ℓ where
  ok : A → Result A
  err : ChargeError → Result A

-- `Math.round((base * percent) / 100)` at a base and a percentage that are not negative.
unfoldable pub percent_of_nat : ℕ → ℕ → ℕ
percent_of_nat base p = (base * p + 50) / 100

abbrev pub negate : ℕ → ℤ
negate n = if ltb 0 n then negsuc (n - 1) else pos 0

-- `Math.round((base * percent) / 100)`: halves go towards plus infinity, so below zero the
-- magnitude is rounded with halves down.
unfoldable pub percent_of_rial : ℕ → ℤ → ℤ
unfolding percent_of_nat
percent_of_rial base (pos p) = pos (percent_of_nat base p)
percent_of_rial base (negsuc p) = negate ((base * (p + 1) + 49) / 100)

unfoldable pub unit_price_rial : Plan → BillingPeriod → Number
unit_price_rial plan yearly = plan.price_yearly_rial
unit_price_rial plan monthly = plan.price_monthly_rial

unfoldable pub raw_discount : ℕ → Option CouponEffect → ℤ
unfolding percent_of_rial
raw_discount subtotal none = pos 0
raw_discount subtotal (some (percent off)) = percent_of_rial subtotal (int_of off)
raw_discount subtotal (some (amount off)) = int_of off

-- `Math.min(Math.max(raw, 0), subtotal)`
unfoldable pub clamp_discount : ℤ → ℕ → ℕ
clamp_discount raw subtotal = min (pos_part raw) subtotal

-- The figures in exact integers; `is_exact` tells where a double computes the same.
unfoldable pub charge_of : ChargeInput → ℕ → ℕ → ℕ → Charge
unfolding raw_discount clamp_discount percent_of_nat
charge_of input unit seats vat =
    let subtotal : ℕ = unit * seats in
    let discount : ℕ = clamp_discount (raw_discount subtotal input.coupon) subtotal in
    let taxable : ℕ = subtotal - discount in
    let vat_amount : ℕ = percent_of_nat taxable vat in
    record {
      subtotal_rial = subtotal;
      discount_rial = discount;
      vat_rial = vat_amount;
      total_rial = taxable + vat_amount;
      vat_percent = vat;
      line_items =
          record {
            title = (input.plan.name, input.period);
            qty = seats;
            unit_price_rial = unit;
            total_rial = subtotal;
          }
          ∷ [];
    }

-- The coupon's number is an integer, and a percentage of the subtotal is computed exactly.
abbrev pub is_exact_coupon : ℕ → Option CouponEffect → Bool
is_exact_coupon subtotal none = true
is_exact_coupon subtotal (some (percent (int z))) = leb (subtotal * magnitude z) max_safe_integer
is_exact_coupon subtotal (some (percent other)) = false
is_exact_coupon subtotal (some (amount (int z))) = true
is_exact_coupon subtotal (some (amount other)) = false

unfoldable pub is_exact : Option CouponEffect → Charge → Bool
is_exact coupon c =
    leb c.subtotal_rial max_safe_integer
    && is_exact_coupon c.subtotal_rial coupon
    && leb ((c.subtotal_rial - c.discount_rial) * c.vat_percent) max_safe_integer
    && leb c.total_rial max_safe_integer

-- The figures, where a double computes them exactly.
abbrev pub exactly : Option CouponEffect → Charge → Option (Result Charge)
exactly coupon c = if is_exact coupon c then some (ok c) else none

-- none where the source goes on with figures that are no exact integers
unfoldable pub compute_charge : ChargeInput → Option (Result Charge)
unfolding is_safe_integer below unit_price_rial charge_of is_exact
compute_charge input =
    let unit = unit_price_rial input.plan input.period in
    let charge = charge_of input (nat_of unit) (nat_of input.seats) (nat_of input.vat_percent) in
    if not (is_safe_integer input.seats) || below input.seats 1
    then some (err bad_seats)
    else if not (is_safe_integer input.vat_percent) || below input.vat_percent 0
    then some (err bad_vat)
    else if not (is_safe_integer unit) || below unit 0
    then some (err bad_price)
    else exactly input.coupon charge

abbrev pub gateway_min_rial : ℕ
gateway_min_rial = 1000

abbrev pub gateway_max_rial : ℕ
gateway_max_rial = 1000000000

unfoldable pub assert_gateway_amount : Number → Result (Unit {0})
unfolding is_safe_integer below
assert_gateway_amount n =
    if not (is_safe_integer n)
    then err not_safe
    else if below n gateway_min_rial
    then err below_minimum
    else if not (below n (gateway_max_rial + 1))
    then err above_maximum
    else ok tt
