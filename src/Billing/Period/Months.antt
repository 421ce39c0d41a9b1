-- ===== src/Billing/Period/Months.antt =====
-- Calendar arithmetic of a subscription: where a month's end is clamped, and that periods advance.
use hamboom.Base.{ℕ, ◌+◌, ◌*◌, ◌/◌, ◌%◌, ◌<◌, ◌≤◌, ◌≡◌, refl, ◌⊎◌, arith, min}
use hamboom.Billing.Money.{BillingPeriod, monthly, yearly}
use hamboom.Billing.Period.{Instant, utc_year, last_day, add_utc_months, compute_period}

-- A date that the calendar has.
pub record IsDate (d : Instant) : Type 0 where
  pub month_ok : d.month < 12
  pub day_from : 1 ≤ d.day
  pub day_to : d.day ≤ last_day d.year d.month

-- Months since the year 0.
abbrev pub month_count : Instant → ℕ
month_count d = d.year * 12 + d.month

pub last_day_bounds : (y m : ℕ) → (28 ≤ last_day y m) × (last_day y m ≤ 31)
unfolding last_day
last_day_bounds y m = ground arith

-- What a shift by a number of months does to a date.
pub record IsShifted (d e : Instant) (months : ℕ) : Type 0 where
  pub date : IsDate e
  pub shifted : month_count e ≡ month_count d + months
  pub day :
      ((d.day ≤ last_day e.year e.month) × (e.day ≡ d.day))
      ⊎ ((last_day e.year e.month < d.day) × (e.day ≡ last_day e.year e.month))
  pub time : e.millis ≡ d.millis

-- The years that `Date.UTC` takes as they are, up to the last year that `Date` holds to its end.
pub record IsInRange (d : Instant) (months : ℕ) : Type 0 where
  pub from_100 : 100 ≤ d.year
  pub to_275759 : month_count d + months < 275760 * 12

utc_year_id : (y : ℕ) → 100 ≤ y → utc_year y ≡ y
unfolding utc_year
utc_year_id y h = ground arith

placed-IsShifted :
    (d : Instant) (months y : ℕ)
    → IsDate d
    → y ≡ d.year + (d.month + months) / 12
    → let m = ((d.month + months) % 12 + 12) % 12 in
      IsShifted d
        (record { year = y; month = m; day = min d.day (last_day y m); millis = d.millis })
        months
placed-IsShifted d months y v e =
    let b = last_day_bounds y (((d.month + months) % 12 + 12) % 12) in
    record {
      date = record {
        month_ok = omega arith;
        day_from = omega (arith, v.day_from, b.0);
        day_to = omega arith;
      };
      shifted = omega arith;
      day = grind arith;
      time = refl;
    }

-- Adding months to a date of the calendar, from the year 100 and up to the year 275759, gives a date
-- of the calendar, exactly that many months on, at the same time of day, with the same day of the
-- month where the target month has it and that month's last day where it has not.
pub add_utc_months-IsShifted :
    (d : Instant) (months : ℕ)
    → IsDate d
    → IsInRange d months
    → IsShifted d (add_utc_months d months) months
unfolding add_utc_months
add_utc_months-IsShifted d months v r =
    placed-IsShifted d months (utc_year (d.year + (d.month + months) / 12)) v
      (utc_year_id _ (omega (arith, r.from_100)))

abbrev pub months_of : BillingPeriod → ℕ
months_of monthly = 1
months_of yearly = 12

-- A period starts at its anchor and ends one month or twelve months later, by the rule of
-- `IsShifted`, from the year 100 up to 275759: the end is a date of the calendar and never a later day of its month than the start.
pub compute_period-IsShifted :
    (anchor : Instant) (p : BillingPeriod)
    → IsDate anchor
    → IsInRange anchor (months_of p)
    → ((compute_period anchor p).start ≡ anchor)
      × IsShifted anchor (compute_period anchor p).end (months_of p)
      × ((compute_period anchor p).end.day ≤ anchor.day)
unfolding compute_period
compute_period-IsShifted anchor monthly v r =
    let s = add_utc_months-IsShifted anchor 1 v r in (refl, s, omega (arith, s.day))
compute_period-IsShifted anchor yearly v r =
    let s = add_utc_months-IsShifted anchor 12 v r in (refl, s, omega (arith, s.day))
