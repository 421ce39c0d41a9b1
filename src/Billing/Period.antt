-- ===== src/Billing/Period.antt =====
-- packages/billing-core/src/period.ts: subscription periods and invoice numbers. An instant is its
-- UTC fields, as the getters of `Date` give them; years do not go below 0, and instants are within
-- what `Date` holds, which goes on into the year 275760 (beyond it the source makes an invalid date).
pub mod Months
mod Tests
use hamboom.Base.{
  ℕ, suc, zero, ◌+◌, ◌-◌, ◌*◌, ◌/◌, ◌%◌, ◌<◌, ◌≤◌, ◌≡◌, Bool, true, false, ◌&&◌, ◌||◌, not, Option,
  none, some, ltb, leb, ◌==◌, min, if◌then◌else◌, List, [], ◌∷◌, ◌++◌, length,
}
use hamboom.Billing.Money.{BillingPeriod, monthly, yearly, Number, below, is_safe_integer, nat_of}

pub record Instant : Type 0 where
  pub year : ℕ
  pub month : ℕ  -- 0 to 11
  pub day : ℕ  -- from 1
  pub millis : ℕ  -- since midnight

-- The Gregorian calendar of `Date.UTC`.
unfoldable pub is_leap : ℕ → Bool
is_leap y = (y % 4 == 0) && (not (y % 100 == 0) || (y % 400 == 0))

-- `Date.UTC` takes the years 0 to 99 for 1900 to 1999.
unfoldable pub utc_year : ℕ → ℕ
utc_year y = if ltb y 100 then 1900 + y else y

-- the last day of a month
unfoldable pub last_day : ℕ → ℕ → ℕ
unfolding is_leap
last_day y m =
    if m == 1
    then (if is_leap y then 29 else 28)
    else if (m == 3) || (m == 5) || (m == 8) || (m == 10)
    then 30
    else 31

unfoldable pub add_utc_months : Instant → ℕ → Instant
unfolding last_day utc_year
add_utc_months from months =
    let target_month_index : ℕ = from.month + months in
    let target_year : ℕ = from.year + target_month_index / 12 in
    let target_month : ℕ = (target_month_index % 12 + 12) % 12 in
    record {
      year = utc_year target_year;
      month = target_month;
      day = min from.day (last_day (utc_year target_year) target_month);
      millis = from.millis;
    }

pub record Period : Type 0 where
  pub start : Instant
  pub end : Instant

unfoldable pub compute_period : Instant → BillingPeriod → Period
unfolding add_utc_months
compute_period anchor yearly = record { start = anchor; end = add_utc_months anchor 12 }
compute_period anchor monthly = record { start = anchor; end = add_utc_months anchor 1 }

-- `now.getTime() - requestedAt.getTime() >= staleAfterMs`, on times in milliseconds.
unfoldable pub is_stale_pending : ℕ → ℕ → ℕ → Bool
is_stale_pending requested_at now stale_after_ms = leb (requested_at + stale_after_ms) now
