-- ===== src/Billing/Money/Guards.antt =====
-- Which inputs are refused, and with which error.
use hamboom.Billing.Money.{
  ChargeError, Number, int, other, max_safe_integer, ChargeInput, ok, err, bad_seats, bad_vat,
  bad_price, is_safe_integer, below, unit_price_rial, compute_charge, assert_gateway_amount,
  gateway_min_rial, gateway_max_rial,
}
use hamboom.Base.{ℕ, ◌≤◌, ◌≡◌, ◌↔◌, false, some, not, ◌||◌, arith}
use hamboom.Base.Int.{pos, negsuc}

-- An integer from `lo` up to `hi`.
abbrev pub Within : ℕ → ℕ → Number → Type 0
Within lo hi (int (pos n)) = (lo ≤ n) × (n ≤ hi)
Within lo hi (int (negsuc n)) = ⊥
Within lo hi other = ⊥

abbrev pub IsCount : ℕ → Number → Type 0
IsCount lo n = Within lo max_safe_integer n

guard_iff : (lo : ℕ) (n : Number) → ((not (is_safe_integer n) || below n lo) ≡ false) ↔ IsCount lo n
unfolding is_safe_integer below
guard_iff lo (int (pos n)) = ground arith
guard_iff lo (int (negsuc n)) = ground arith
guard_iff lo other = ground arith

-- What each error says of the input.
abbrev pub Refused : ChargeInput → ChargeError → Type 0
Refused input bad_seats = ¬ IsCount 1 input.seats
Refused input bad_vat = IsCount 1 input.seats × ¬ IsCount 0 input.vat_percent
Refused input bad_price =
    IsCount 1 input.seats
    × IsCount 0 input.vat_percent
    × ¬ IsCount 0 (unit_price_rial input.plan input.period)
Refused input _ = ⊥

-- The first input that is refused names the error: the seats, then the VAT rate, then the price;
-- the errors of the gateway's amount never come from here.
pub compute_charge-err :
    (input : ChargeInput) (e : ChargeError) → compute_charge input ≡ some (err e) → Refused input e
unfolding compute_charge
compute_charge-err input bad_seats h = λ v. ground (arith, (guard_iff 1 input.seats).1 v)
compute_charge-err input bad_vat h = (
  (guard_iff 1 input.seats).0 (ground arith),
  (λ v. ground (arith, (guard_iff 0 input.vat_percent).1 v)),
)
compute_charge-err input bad_price h = (
  (guard_iff 1 input.seats).0 (ground arith),
  (guard_iff 0 input.vat_percent).0 (ground arith),
  (λ v. ground (arith, (guard_iff 0 (unit_price_rial input.plan input.period)).1 v)),
)
compute_charge-err input _ h = ground arith

-- An amount may go to the gateway exactly when it is an integer from 1,000 to 1,000,000,000 rials.
pub assert_gateway_amount-ok_iff :
    (n : Number) → (assert_gateway_amount n ≡ ok tt) ↔ Within gateway_min_rial gateway_max_rial n
unfolding assert_gateway_amount
assert_gateway_amount-ok_iff (int (pos n)) = ground arith
assert_gateway_amount-ok_iff (int (negsuc n)) = ground arith
assert_gateway_amount-ok_iff other = ground arith
