-- ===== src/Billing/Period/Tests.antt =====
-- Renewals at the ends of months.
use hamboom.Base.{◌≡◌, refl, arith}
use hamboom.Billing.Money.{monthly, yearly}
use hamboom.Billing.Period.{Instant, add_utc_months, compute_period}
use hamboom.Billing.Period.Months.{IsDate, IsShifted, add_utc_months-IsShifted}

abbrev last_of_january : Instant
last_of_january = record { year = 2027; month = 0; day = 31; millis = 5 }

abbrev tenth : Instant
tenth = record { year = 2027; month = 10; day = 10; millis = 0 }

leap_day : Instant
leap_day = record { year = 2028; month = 1; day = 29; millis = 0 }

clamped : compute_period last_of_january monthly ≡ record {
  start = last_of_january;
  end = record { year = 2027; month = 1; day = 28; millis = 5 };
}
unfolding compute_period
clamped = refl

after_leap_day :
    (compute_period leap_day yearly).end ≡ record { year = 2029; month = 1; day = 28; millis = 0 }
unfolding compute_period leap_day
after_leap_day = refl

january-IsDate : IsDate last_of_january
unfolding compute_period
january-IsDate = record { month_ok = omega arith; day_from = omega arith; day_to = omega arith }

tenth-IsDate : IsDate tenth
unfolding compute_period
tenth-IsDate = record { month_ok = omega arith; day_from = omega arith; day_to = omega arith }

add_utc_months-IsShifted_example : IsShifted last_of_january (add_utc_months last_of_january 13) 13
add_utc_months-IsShifted_example =
    add_utc_months-IsShifted last_of_january 13 january-IsDate
      (record { from_100 = omega arith; to_275759 = omega arith })

-- `Date.UTC` takes the year 50 for 1950.
year_50 :
    add_utc_months (record { year = 50; month = 0; day = 15; millis = 0 }) 1
    ≡ record { year = 1950; month = 1; day = 15; millis = 0 }
unfolding add_utc_months
year_50 = refl
