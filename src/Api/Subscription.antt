-- ===== src/Api/Subscription.antt =====
-- apps/api/src/services/billing.ts: what a payment buys, and the subscriptions of a team.
use hamboom.Base.{
  ℕ, Bool, not, ◌&&◌, ◌||◌, String, Option, none, some, List, [], ◌∷◌, ◌===◌, ◌==◌, ltb,
  if◌then◌else◌,
}
use hamboom.Billing.Money.{Number, BillingPeriod, monthly, yearly, is_safe_integer, below, nat_of}
use hamboom.Billing.Period.{Instant, compute_period}
use hamboom.Billing.Gateway.Zarinpal.{Value, member_of, text_in, number_in}

pub record PurchaseIntent : Type 0 where
  pub plan_code : String
  pub period : BillingPeriod
  pub seats : ℕ
  pub unit_price_rial : Number
  pub coupon_code : Option String

pub record SubscriptionRow : Type 0 where
  pub id : String
  pub team_id : String
  pub plan_code : String
  pub status : String
  pub period : BillingPeriod
  pub seats : ℕ
  pub current_period_start : Instant
  pub current_period_end : Instant
  pub activated_by_payment_id : String
  pub unit_price_rial : Number

period_in : Option String → Option BillingPeriod
period_in (some s) =
    if s === "monthly" then some monthly else if s === "yearly" then some yearly else none
period_in none = none

intent_of :
    Option String
    → Option BillingPeriod
    → Option Number
    → Option Number
    → Option String
    → Option PurchaseIntent
intent_of (some plan) (some period) (some seats) (some price) coupon =
    if (plan === "")
      || (not (is_safe_integer seats) || below seats 1 || not (is_safe_integer price))
    then none
    else some (record {
      plan_code = plan;
      period = period;
      seats = nat_of seats;
      unit_price_rial = price;
      coupon_code = coupon;
    })
intent_of _ _ _ _ _ = none

-- none is the error of a payload that is not a purchase
unfoldable pub read_intent : Value → Option PurchaseIntent
unfolding intent_of period_in
read_intent raw =
    intent_of (text_in (member_of "planCode" raw)) (period_in (text_in (member_of "period" raw)))
      (number_in (member_of "seats" raw)) (number_in (member_of "unitPriceRial" raw))
      (text_in (member_of "couponCode" raw))

unfoldable pub is_live : SubscriptionRow → Bool
is_live row =
    (row.status === "trialing") || (row.status === "active") || (row.status === "past_due")

-- `WHERE team_id = $1 AND status = ANY(live)`, its first row
unfoldable pub live_of : String → List SubscriptionRow → Option SubscriptionRow
unfolding is_live
live_of team [] = none
live_of team (row ∷ rest) =
    if (row.team_id === team) && is_live row then some row else live_of team rest

-- `UPDATE subscriptions SET status = 'expired' WHERE id = $1`
unfoldable pub expire : String → List SubscriptionRow → List SubscriptionRow
expire id [] = []
expire id (row ∷ rest) =
    (if row.id === id then record row { status = "expired" } else row) ∷ expire id rest

-- `a.getTime() > b.getTime()`, on the UTC fields
unfoldable pub is_after : Instant → Instant → Bool
is_after a b =
    ltb b.year a.year
    || ((a.year == b.year)
        && (ltb b.month a.month
            || ((a.month == b.month)
                && (ltb b.day a.day || ((a.day == b.day) && ltb b.millis a.millis)))))

unfoldable pub anchor_of : Option SubscriptionRow → String → Instant → Instant
unfolding is_after
anchor_of none plan now = now
anchor_of (some live) plan now =
    if (live.plan_code === plan) && is_after live.current_period_end now
    then live.current_period_end
    else now

abbrev pub expire_live : Option SubscriptionRow → List SubscriptionRow → List SubscriptionRow
expire_live none rows = rows
expire_live (some live) rows = expire live.id rows

unfoldable pub subscription_of :
    String → String → String → PurchaseIntent → Instant → SubscriptionRow
unfolding compute_period
subscription_of id team payment intent anchor =
    let period = compute_period anchor intent.period in
    record {
      id = id;
      team_id = team;
      plan_code = intent.plan_code;
      status = "active";
      period = intent.period;
      seats = intent.seats;
      current_period_start = period.start;
      current_period_end = period.end;
      activated_by_payment_id = payment;
      unit_price_rial = intent.unit_price_rial;
    }

unfoldable pub upsert_subscription :
    String
    → Instant
    → String
    → String
    → PurchaseIntent
    → List SubscriptionRow
    → List SubscriptionRow
unfolding live_of expire anchor_of subscription_of
upsert_subscription id now team payment intent rows =
    let live = live_of team rows in
    subscription_of id team payment intent (anchor_of live intent.plan_code now)
    ∷ expire_live live rows

-- `SELECT id FROM subscriptions WHERE activated_by_payment_id = $1`
unfoldable pub activated_by : String → List SubscriptionRow → Option String
activated_by payment [] = none
activated_by payment (row ∷ rest) =
    if row.activated_by_payment_id === payment then some row.id else activated_by payment rest
