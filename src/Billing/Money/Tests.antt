-- ===== src/Billing/Money/Tests.antt =====
-- Runs of the charge on concrete plans, and the theorems at them.
use hamboom.Base.{ℕ, ◌≡◌, refl, Option, none, some, [], ◌∷◌}
use hamboom.Base.Int.{pos, negsuc}
use hamboom.Billing.Money.{
  int, other, monthly, CouponEffect, percent, amount, Plan, ChargeInput, Charge, ok, err, bad_seats,
  bad_vat, compute_charge, assert_gateway_amount, below_minimum, above_maximum,
}
use hamboom.Billing.Money.Balance.{IsBalanced, compute_charge-IsBalanced}

abbrev team_plan : Plan
team_plan = record {
  code = "team";
  name = "Team";
  price_monthly_rial = int (pos 440005);
  price_yearly_rial = int (pos 4400000);
}

abbrev order : Option CouponEffect → ChargeInput
order c = record {
  plan = team_plan;
  period = monthly;
  seats = int (pos 3);
  coupon = c;
  vat_percent = int (pos 9);
}

abbrev charge : ℕ → ℕ → ℕ → Charge
charge discount vat total = record {
  subtotal_rial = 1320015;
  discount_rial = discount;
  vat_rial = vat;
  total_rial = total;
  vat_percent = 9;
  line_items =
      record { title = ("Team", monthly); qty = 3; unit_price_rial = 440005; total_rial = 1320015 }
      ∷ [];
}

-- 10 per cent of 1,320,015 is 132,001.5, which rounds up.
percent_off :
    compute_charge (order (some (percent (int (pos 10)))))
    ≡ some (ok (charge 132002 106921 1294934))
unfolding compute_charge
percent_off = refl

over_the_price :
    compute_charge (order (some (amount (int (pos 9999999))))) ≡ some (ok (charge 1320015 0 0))
unfolding compute_charge
over_the_price = refl

refusals :
    (compute_charge (record (order none) { seats = other }) ≡ some (err bad_seats))
    × (compute_charge (record (order none) { seats = int (pos 0) }) ≡ some (err bad_seats))
    × (compute_charge (record (order none) { vat_percent = int (negsuc 0) }) ≡ some (err bad_vat))
    × (assert_gateway_amount (int (pos 999)) ≡ err below_minimum)
    × (assert_gateway_amount (int (pos 1000000001)) ≡ err above_maximum)
unfolding compute_charge assert_gateway_amount
refusals = (refl, refl, refl, refl, refl)

compute_charge-IsBalanced_example :
    IsBalanced (order (some (percent (int (pos 10))))) (charge 132002 106921 1294934)
compute_charge-IsBalanced_example =
    compute_charge-IsBalanced (order (some (percent (int (pos 10))))) percent_off
