-- ===== src/Billing/Money/Balance.antt =====
-- How the figures of a charge hang together.
use hamboom.Base.{
  ℕ, ◌+◌, ◌-◌, ◌*◌, ◌<◌, ◌≤◌, ◌≡◌, refl, Option, none, some, [], ◌∷◌, arith, min, subst, ◌⊎◌, inl,
  inr, some_inj, Bool-cases,
}
use native.Mathlib.Decide.{dec_le}
use hamboom.Base.Int.{pos, negsuc}
use hamboom.Billing.Money.{
  ChargeInput, Charge, ok, CouponEffect, percent, amount, percent_of_nat, percent_of_rial, nat_of,
  unit_price_rial, raw_discount, clamp_discount, charge_of, compute_charge, exactly, is_exact, int,
  other,
}

-- `r` is `n / 100` rounded to the nearest integer, halves upwards.
pub record IsRounded (n r : ℕ) : Type 0 where
  pub from_below : 100 * r ≤ n + 50
  pub from_above : n + 50 < 100 * r + 100

pub percent_of_nat-IsRounded : (base p : ℕ) → IsRounded (base * p) (percent_of_nat base p)
unfolding percent_of_nat
percent_of_nat-IsRounded base p = omega arith

-- A full refund of the base by percentage is the base itself, and no percentage up to 100 exceeds it.
pub percent_of_nat-le : (base p : ℕ) → p ≤ 100 → percent_of_nat base p ≤ base
unfolding percent_of_nat
percent_of_nat-le base p h = let e : base * p ≤ base * 100 = grind arith in omega (arith, e)

-- What an invoice and the gateway rely on in a charge.
pub record IsBalanced (input : ChargeInput) (c : Charge) : Type 0 where
  pub priced :
      c.subtotal_rial ≡ nat_of (unit_price_rial input.plan input.period) * nat_of input.seats
  pub clamped : c.discount_rial ≤ c.subtotal_rial
  pub balanced : c.total_rial + c.discount_rial ≡ c.subtotal_rial + c.vat_rial
  pub taxed : IsRounded ((c.subtotal_rial - c.discount_rial) * c.vat_percent) c.vat_rial
  pub frozen : c.vat_percent ≡ nat_of input.vat_percent
  pub listed :
      c.line_items
      ≡ record {
        title = (input.plan.name, input.period);
        qty = nat_of input.seats;
        unit_price_rial = nat_of (unit_price_rial input.plan input.period);
        total_rial = c.subtotal_rial;
      }
        ∷ []

pub charge_of-IsBalanced :
    (input : ChargeInput)
    → IsBalanced input (
        charge_of input
          (nat_of (unit_price_rial input.plan input.period))
          (nat_of input.seats)
          (nat_of input.vat_percent))
unfolding charge_of
charge_of-IsBalanced input = record {
  priced = refl;
  clamped = omega arith;
  balanced = omega arith;
  taxed = percent_of_nat-IsRounded _ _;
  frozen = refl;
  listed = refl;
}

exactly-some :
    (coupon : Option CouponEffect) (d c : Charge) → exactly coupon d ≡ some (ok c) → d ≡ c
exactly-some coupon d c h = elim (Bool-cases (is_exact coupon d)) [
  | inl e ↦ ok_inj (some_inj (rw e at h))
  | inr e ↦ ground (arith, h, e)
]
  where
    ok_inj : ok d ≡ ok c → d ≡ c
    ok_inj e = cc

computed :
    (input : ChargeInput) (c : Charge)
    → compute_charge input ≡ some (ok c)
    → charge_of input
        (nat_of (unit_price_rial input.plan input.period))
        (nat_of input.seats)
        (nat_of input.vat_percent)
      ≡ c
unfolding compute_charge
computed input c h = exactly-some input.coupon _ c (ground arith)

-- Every charge that is computed in exact integers (the coupon's number is an integer; the subtotal,
-- the products with a percentage and the total are at most 2^53 - 1) balances: the subtotal is the
-- unit price times the seats, the discount never exceeds it, total = subtotal - discount + VAT, the
-- VAT is the rate on what the discount leaves, rounded once to the nearest rial, and the one invoice
-- line repeats the subtotal.
pub compute_charge-IsBalanced :
    (input : ChargeInput) {c : Charge} → compute_charge input ≡ some (ok c) → IsBalanced input c
compute_charge-IsBalanced input {c} h =
    subst (IsBalanced input) (computed input c h) (charge_of-IsBalanced input)

-- What each kind of coupon takes off a subtotal.
abbrev pub Discount : Option CouponEffect → ℕ → ℕ → Type 0
Discount none subtotal d = d ≡ 0
Discount (some (percent (int (pos p)))) subtotal d =
    ((100 < p) × (d ≡ subtotal)) ⊎ ((p ≤ 100) × IsRounded (subtotal * p) d)
Discount (some (amount (int (pos off)))) subtotal d =
    ((off ≤ subtotal) × (d ≡ off)) ⊎ ((subtotal < off) × (d ≡ subtotal))
Discount (some (percent (int (negsuc p)))) subtotal d = d ≡ 0
Discount (some (percent other)) subtotal d = d ≡ 0
Discount (some (amount other)) subtotal d = d ≡ 0
Discount (some (amount (int (negsuc off)))) subtotal d = d ≡ 0

percent_of_nat-ge : (base p : ℕ) → 100 ≤ p → base ≤ percent_of_nat base p
unfolding percent_of_nat
percent_of_nat-ge base p h = let e : base * 100 ≤ base * p = grind arith in omega (arith, e)

pub clamp_discount-Discount :
    (coupon : Option CouponEffect) (subtotal : ℕ)
    → Discount coupon subtotal (clamp_discount (raw_discount subtotal coupon) subtotal)
unfolding clamp_discount raw_discount percent_of_rial
clamp_discount-Discount none subtotal = omega arith
clamp_discount-Discount (some (percent (int (pos p)))) subtotal = elim (dec_le p 100) [
  | yes h ↦
      let k = percent_of_nat-le subtotal p h in
      let e : min (percent_of_nat subtotal p) subtotal ≡ percent_of_nat subtotal p = omega arith in
      inr (h, rw e (percent_of_nat-IsRounded subtotal p))
  | no h ↦ inl (omega arith, omega (arith, percent_of_nat-ge subtotal p (omega arith)))
]
clamp_discount-Discount (some (amount (int (pos off)))) subtotal = grind arith
clamp_discount-Discount (some (percent (int (negsuc p)))) subtotal = ground arith
clamp_discount-Discount (some (percent other)) subtotal = grind arith
clamp_discount-Discount (some (amount other)) subtotal = omega arith
clamp_discount-Discount (some (amount (int (negsuc off)))) subtotal = omega arith

-- The discount of a charge in exact integers: none without a coupon; a percentage of the subtotal
-- rounded once, and the whole subtotal from 100 per cent on; a fixed amount, and the whole subtotal
-- when the amount is larger; nothing when the coupon's number is negative.
pub compute_charge-Discount :
    (input : ChargeInput) {c : Charge}
    → compute_charge input ≡ some (ok c)
    → Discount input.coupon c.subtotal_rial c.discount_rial
unfolding charge_of
compute_charge-Discount input {c} h =
    subst (λ (d : Charge). Discount input.coupon d.subtotal_rial d.discount_rial)
      (computed input c h) (clamp_discount-Discount input.coupon _)
