-- ===== src/Api/Settle/Count.antt =====
-- A team never has two live subscriptions.
use hamboom.Base.{
  eq_refl, ℕ, ◌+◌, ◌≤◌, ◌≡◌, ◌⊎◌, inl, inr, sym, refl, ap, subst, Bool, true, false, not, ◌&&◌,
  ◌||◌, String, Option, none, some, some_inj, List, [], ◌∷◌, ◌===◌, if◌then◌else◌, if_both,
  Bool-cases, arith, eq_iff,
}
use hamboom.Base.Dict.{get}
use hamboom.Billing.Period.{Instant}
use hamboom.Billing.Gateway.{Paid, VerifyOutcome, paid, not_paid}
use hamboom.Api.Subscription.{
  PurchaseIntent, SubscriptionRow, is_live, live_of, expire, expire_live, subscription_of,
  upsert_subscription, read_intent,
}
use hamboom.Api.Settle.{
  PaymentRow, Db, SettleOutcome, Gateway, activate, settle_verdict, settle_pending, settle_locked,
  settle_found, settle_payment,
}

module _ (team : String) where
  abbrev pub is_live_for : SubscriptionRow → Bool
  is_live_for row = (row.team_id === team) && is_live row

  -- The live subscriptions of the team.
  unfoldable pub live_count : List SubscriptionRow → ℕ
  live_count [] = 0
  live_count (row ∷ rest) = (if is_live_for row then 1 else 0) + live_count rest

  expired_row : (id : String) (row : SubscriptionRow) → SubscriptionRow
  expired_row id row = if row.id === id then record row { status = "expired" } else row

  expired-dead : (row : SubscriptionRow) → is_live_for (record row { status = "expired" }) ≡ false
  unfolding is_live
  expired-dead row = ground arith

  expire_row-le :
      (id : String) (row : SubscriptionRow)
      → (if is_live_for (if row.id === id then record row { status = "expired" } else row)
          then 1
          else 0)
        ≤ (if is_live_for row then 1 else 0)
  expire_row-le id row =
      if_both (λ r. (if is_live_for r then 1 else 0) ≤ (if is_live_for row then 1 else 0))
        (row.id === id) (rw (expired-dead row) (omega arith)) (omega arith)

  expire-le :
      (id : String) (rows : List SubscriptionRow) → live_count (expire id rows) ≤ live_count rows
  unfolding live_count expire
  expire-le id [] = omega arith
  expire-le id (row ∷ rest) = omega (arith, expire_row-le id row, expire-le id rest)

  live_of-some :
      (l row : SubscriptionRow) (rest : List SubscriptionRow)
      → live_of team (row ∷ rest) ≡ some l
      → ((is_live_for row ≡ true) × (row ≡ l))
        ⊎ ((is_live_for row ≡ false) × (live_of team rest ≡ some l))
  unfolding live_of
  live_of-some l row rest e = elim (Bool-cases (is_live_for row)) [
    | inl h ↦
        inl (h, some_inj (subst (λ b. (if b then some row else live_of team rest) ≡ some l) h e))
    | inr h ↦ inr (h, subst (λ b. (if b then some row else live_of team rest) ≡ some l) h e)
  ]

  abbrev one_if : Bool → ℕ
  one_if b = if b then 1 else 0

  head_dies :
      (row : SubscriptionRow)
      → one_if (is_live_for (if row.id === row.id then record row { status = "expired" } else row))
        ≡ 0
  head_dies row = rw (eq_refl row.id) (rw (expired-dead row) refl)

  head_lives : (row : SubscriptionRow) → is_live_for row ≡ true → one_if (is_live_for row) ≡ 1
  head_lives row h = ap one_if h

  -- Expiring the row that is found takes one away.
  expire-lt :
      (l : SubscriptionRow) (rows : List SubscriptionRow)
      → live_of team rows ≡ some l
      → live_count (expire l.id rows) + 1 ≤ live_count rows
  unfolding live_count expire live_of
  expire-lt l [] e = ground arith
  expire-lt l (row ∷ rest) e = elim (live_of-some l row rest e) [
    | inl (h, same) ↦
        subst (λ l. live_count (expire l.id (row ∷ rest)) + 1 ≤ live_count (row ∷ rest)) same
          (omega (arith, head_dies row, head_lives row h, expire-le row.id rest))
    | inr (h, deeper) ↦ omega (arith, expire_row-le l.id row, expire-lt l rest deeper)
  ]

  none-count : (rows : List SubscriptionRow) → live_of team rows ≡ none → live_count rows ≡ 0
  unfolding live_count live_of
  none-count [] e = refl
  none-count (row ∷ rest) e = ground (arith, none-count rest)

  expire_live-le :
      (o : Option SubscriptionRow) (rows : List SubscriptionRow)
      → live_count (expire_live o rows) ≤ live_count rows
  expire_live-le none rows = omega arith
  expire_live-le (some l) rows = expire-le l.id rows

  expire_live-room :
      (o : Option SubscriptionRow) (rows : List SubscriptionRow)
      → live_of team rows ≡ o
      → live_count rows ≤ 1
      → live_count (expire_live o rows) ≡ 0
  expire_live-room none rows e h = none-count rows e
  expire_live-room (some l) rows e h = omega (arith, expire-lt l rows e, h)

  one_if-le : (b : Bool) → one_if b ≤ 1
  one_if-le true = omega arith
  one_if-le false = omega arith

  -- The new subscription of a team: its old one, if it is this team, has been expired.
  upsert-le :
      (id : String) (now : Instant) (owner pid : String) (intent : PurchaseIntent)
      (rows : List SubscriptionRow)
      → live_count rows ≤ 1
      → live_count (upsert_subscription id now owner pid intent rows) ≤ 1
  unfolding upsert_subscription subscription_of live_count
  upsert-le id now owner pid intent rows h = elim (Bool-cases (owner === team)) [
    | inl same ↦
        let o : live_of owner rows ≡ live_of team rows =
          ap (λ t. live_of t rows) ((eq_iff owner team).0 same) in
        let none_left = expire_live-room (live_of owner rows) rows (sym o) h in
        omega (arith, none_left, one_if-le _)
    | inr else_ ↦ rw else_ (omega (arith, expire_live-le (live_of owner rows) rows, h))
  ]

abbrev IsOne : String → SettleOutcome × Db → Type 0
IsOne team o = live_count team o.1.subscriptions ≤ 1

module _ (team : String) (gateway : Gateway) (id : String) (now : Instant) (pid : String) (db : Db)
    (h : live_count team db.subscriptions ≤ 1) where
  activate-IsOne :
      (payment : PaymentRow) (verdict : Paid) (o : Option String) (i : Option PurchaseIntent)
      → IsOne team (activate id now pid payment verdict o i db)
  unfolding activate
  activate-IsOne payment verdict none i = h
  activate-IsOne payment verdict (some invoice) none = h
  activate-IsOne payment verdict (some invoice) (some intent) =
      upsert-le team id now payment.team_id pid intent db.subscriptions h

  verdict-IsOne :
      (payment : PaymentRow) (v : VerifyOutcome)
      → IsOne team (settle_verdict id now pid payment v db)
  unfolding settle_verdict
  verdict-IsOne payment (VerifyOutcome.gateway_error code) = h
  verdict-IsOne payment (not_paid code) = h
  verdict-IsOne payment (paid v) =
      activate-IsOne payment v payment.invoice_id (read_intent payment.request_payload)

  pending-IsOne :
      (payment : PaymentRow) (o : Option String)
      → IsOne team (settle_pending gateway.verify id now pid payment o db)
  unfolding settle_pending
  pending-IsOne payment none = h
  pending-IsOne payment (some a) = verdict-IsOne payment _

  found-IsOne : (o : Option PaymentRow) → IsOne team (settle_found gateway id now pid o db)
  unfolding settle_found settle_locked
  found-IsOne none = h
  found-IsOne (some payment) =
      if_both (IsOne team)
        (not (payment.gateway === gateway.name) || not (payment.gateway_mode === gateway.mode)) h
        (if_both (IsOne team) (not (payment.status === "pending")) h
          (pending-IsOne payment payment.authority))

-- An attempt to settle a payment, by a callback, the sweep or a member of staff.
pub record Attempt : Type 0 where
  pub gateway : Gateway
  pub new_id : String
  pub now : Instant
  pub pid : String

unfoldable pub settle_all : List Attempt → Db → Db
settle_all [] db = db
settle_all (a ∷ as_) db = settle_all as_ (settle_payment a.gateway a.new_id a.now a.pid db).1

-- A team that has at most one live subscription has at most one after any settlements, of whatever
-- payments, in whatever order and with whatever answers of the gateways.
pub live_count-settle_all :
    (team : String) (attempts : List Attempt) (db : Db)
    → live_count team db.subscriptions ≤ 1
    → live_count team (settle_all attempts db).subscriptions ≤ 1
unfolding settle_all settle_payment
live_count-settle_all team [] db h = h
live_count-settle_all team (a ∷ rest) db h =
    live_count-settle_all team rest (settle_payment a.gateway a.new_id a.now a.pid db).1
      (found-IsOne team a.gateway a.new_id a.now a.pid db h (get a.pid db.payments))
