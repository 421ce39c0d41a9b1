-- ===== src/Api/Settle/Once.antt =====
-- A payment activates a subscription once.
use hamboom.Base.{
  ℕ, ◌≡◌, ◌∙◌, sym, refl, ap, subst, false, not, ◌||◌, String, Option, none, some, List, [], ◌∷◌,
  ◌===◌, if_split, if_both, Bool-cases, inl, inr, arith, eq_iff, eq_refl,
}
use hamboom.Base.Dict.{get, put, get-put_self, get-put_other}
use hamboom.Billing.Period.{Instant}
use hamboom.Billing.Gateway.{Paid, VerifyOutcome, paid, not_paid}
use hamboom.Api.Subscription.{
  PurchaseIntent, SubscriptionRow, live_of, expire, expire_live, subscription_of,
  upsert_subscription, activated_by, read_intent,
}
use hamboom.Api.Settle.{
  PaymentRow, Db, SettleOutcome, activated, already_settled, Gateway, activate, settle_verdict,
  settle_pending, settle_locked, settle_found, settle_payment,
}
use hamboom.Api.Settle.Count.{Attempt, settle_all}

-- The payment was settled: its row says so, and the subscription it activated is there.
pub record IsSettled (name mode pid sub invoice : String) (db : Db) : Type 0 where
  pub entry : PaymentRow
  pub found : get pid db.payments ≡ some entry
  pub status : entry.status ≡ "paid"
  pub billed : entry.invoice_id ≡ some invoice
  pub by_name : entry.gateway ≡ name
  pub by_mode : entry.gateway_mode ≡ mode
  pub owned : activated_by pid db.subscriptions ≡ some sub

expire-activated_by :
    (p id : String) (rows : List SubscriptionRow)
    → activated_by p (expire id rows) ≡ activated_by p rows
unfolding activated_by expire
expire-activated_by p id [] = refl
expire-activated_by p id (row ∷ rest) = ground (arith, expire-activated_by p id rest)

expire_live-activated_by :
    (p : String) (o : Option SubscriptionRow) (rows : List SubscriptionRow)
    → activated_by p (expire_live o rows) ≡ activated_by p rows
expire_live-activated_by p none rows = refl
expire_live-activated_by p (some l) rows = expire-activated_by p l.id rows

-- The subscription that another payment activates leaves the one of this payment.
upsert-activated_by :
    (p q id : String) (now : Instant) (team : String) (intent : PurchaseIntent)
    (rows : List SubscriptionRow)
    → (q === p) ≡ false
    → activated_by p (upsert_subscription id now team q intent rows) ≡ activated_by p rows
unfolding activated_by upsert_subscription subscription_of
upsert-activated_by p q id now team intent rows e =
    rw e (expire_live-activated_by p (live_of team rows) rows)

module _ (name mode pid sub invoice : String) where
  abbrev Settled : SettleOutcome × Db → Type 0
  Settled o = IsSettled name mode pid sub invoice o.1

  module _ (id : String) (now : Instant) (q : String) (db : Db)
      (s : IsSettled name mode pid sub invoice db) (other : (q === pid) ≡ false) where
    put-IsSettled :
        (row : PaymentRow) (invoices : List String) (rows : List SubscriptionRow)
        → activated_by pid rows ≡ activated_by pid db.subscriptions
        → IsSettled name mode pid sub invoice (record {
          payments = put q row db.payments;
          paid_invoices = invoices;
          subscriptions = rows;
        })
    put-IsSettled row invoices rows e = record {
      entry = s.entry;
      found = get-put_other q pid row db.payments other ∙ s.found;
      status = s.status;
      billed = s.billed;
      by_name = s.by_name;
      by_mode = s.by_mode;
      owned = e ∙ s.owned;
    }

    activate-IsSettled :
        (payment : PaymentRow) (v : Paid) (o : Option String) (i : Option PurchaseIntent)
        → Settled (activate id now q payment v o i db)
    unfolding activate
    activate-IsSettled payment v none i = s
    activate-IsSettled payment v (some inv) none = s
    activate-IsSettled payment v (some inv) (some intent) =
        put-IsSettled _ _ _
          (upsert-activated_by pid q id now payment.team_id intent db.subscriptions other)

    verdict-IsSettled :
        (payment : PaymentRow) (v : VerifyOutcome) → Settled (settle_verdict id now q payment v db)
    unfolding settle_verdict
    verdict-IsSettled payment (VerifyOutcome.gateway_error code) = s
    verdict-IsSettled payment (not_paid code) =
        put-IsSettled _ db.paid_invoices db.subscriptions refl
    verdict-IsSettled payment (paid v) =
        activate-IsSettled payment v payment.invoice_id (read_intent payment.request_payload)

    pending-IsSettled :
        (verify : String → ℕ → VerifyOutcome) (payment : PaymentRow) (o : Option String)
        → Settled (settle_pending verify id now q payment o db)
    unfolding settle_pending
    pending-IsSettled verify payment none = s
    pending-IsSettled verify payment (some a) = verdict-IsSettled payment _

    other-IsSettled : (g : Gateway) (o : Option PaymentRow) → Settled (settle_found g id now q o db)
    unfolding settle_found settle_locked
    other-IsSettled g none = s
    other-IsSettled g (some payment) =
        if_both Settled (not (payment.gateway === g.name) || not (payment.gateway_mode === g.mode))
          s
          (if_both Settled (not (payment.status === "pending")) s
            (pending-IsSettled g.verify payment payment.authority))

  -- A settled payment is not settled again: the answer says so and nothing changes.
  module _ (g : Gateway) (id : String) (now : Instant) (db : Db)
      (s : IsSettled name mode pid sub invoice db) where
    found-same :
        (entry : PaymentRow)
        → entry.status ≡ "paid"
        → (settle_found g id now pid (some entry) db).1 ≡ db
    unfolding settle_found settle_locked
    found-same entry e =
        let settled : (entry.status === "pending") ≡ false = ap (λ t. t === "pending") e in
        let P : SettleOutcome × Db → Type 0 = λ o. o.1 ≡ db in
        if_both P (not (entry.gateway === g.name) || not (entry.gateway_mode === g.mode)) refl (
          if_split P (not (entry.status === "pending")) (λ _. refl)
            (λ pending. ground (arith, settled, pending)))

    same-IsSettled : Settled (settle_payment g id now pid db)
    unfolding settle_payment
    same-IsSettled =
        subst (λ o. Settled (settle_found g id now pid o db)) (sym s.found)
          (subst (IsSettled name mode pid sub invoice) (sym (found-same s.entry s.status)) s)

  step-IsSettled :
      (a : Attempt) (db : Db)
      → IsSettled name mode pid sub invoice db
      → Settled (settle_payment a.gateway a.new_id a.now a.pid db)
  unfolding settle_payment
  step-IsSettled a db s = elim (Bool-cases (a.pid === pid)) [
    | inl same ↦
        subst (λ q. Settled (settle_payment a.gateway a.new_id a.now q db))
          (sym ((eq_iff a.pid pid).0 same)) (same-IsSettled a.gateway a.new_id a.now db s)
    | inr other ↦ other-IsSettled a.new_id a.now a.pid db s other a.gateway (get a.pid db.payments)
  ]

  all-IsSettled :
      (attempts : List Attempt) (db : Db)
      → IsSettled name mode pid sub invoice db
      → IsSettled name mode pid sub invoice (settle_all attempts db)
  unfolding settle_all
  all-IsSettled [] db s = s
  all-IsSettled (a ∷ rest) db s =
      all-IsSettled rest (settle_payment a.gateway a.new_id a.now a.pid db).1
        (step-IsSettled a db s)

activated-inj : {a b c d e f : String} → activated a b c ≡ activated d e f → (a ≡ d) × (b ≡ e)
activated-inj h = (cc, cc)

-- The first settlement that activates leaves the payment settled.
module _ (g : Gateway) (id : String) (now : Instant) (pid sub invoice ref : String) (db : Db) where
  abbrev Activates : SettleOutcome × Db → Type 0
  Activates o = o.0 ≡ activated sub invoice ref → IsSettled g.name g.mode pid sub invoice o.1

  module _ (payment : PaymentRow) (by_name : payment.gateway ≡ g.name)
      (by_mode : payment.gateway_mode ≡ g.mode) where
    first_activate :
        (v : Paid) (o : Option String) (i : Option PurchaseIntent)
        → payment.invoice_id ≡ o
        → Activates (activate id now pid payment v o i db)
    unfolding activate upsert_subscription subscription_of activated_by
    first_activate v none i b h = ground arith
    first_activate v (some inv) none b h = ground arith
    first_activate v (some inv) (some intent) b h =
        let names = activated-inj h in
        record {
          entry = record payment { status = "paid"; ref_id = some v.ref_id; failure_code = none };
          found = get-put_self pid _ db.payments;
          status = refl;
          billed = b ∙ ap some names.1;
          by_name = by_name;
          by_mode = by_mode;
          owned = rw (eq_refl pid) (ap some names.0);
        }

    first_verdict : (v : VerifyOutcome) → Activates (settle_verdict id now pid payment v db)
    unfolding settle_verdict
    first_verdict (VerifyOutcome.gateway_error code) h = ground arith
    first_verdict (not_paid code) h = ground arith
    first_verdict (paid v) h =
        first_activate v payment.invoice_id (read_intent payment.request_payload) refl h

    first_pending :
        (o : Option String) → Activates (settle_pending g.verify id now pid payment o db)
    unfolding settle_pending
    first_pending none h = ground arith
    first_pending (some a) h = first_verdict _ h

  first_found : (o : Option PaymentRow) → Activates (settle_found g id now pid o db)
  unfolding settle_found settle_locked
  first_found none h = ground arith
  first_found (some payment) h =
      if_split Activates (not (payment.gateway === g.name) || not (payment.gateway_mode === g.mode))
        (λ _ h. ground arith)
        (λ ours.
          if_both Activates (not (payment.status === "pending")) (λ h. ground arith)
            (first_pending payment ((eq_iff payment.gateway g.name).0 (ground (arith, ours)))
              ((eq_iff payment.gateway_mode g.mode).0 (ground (arith, ours))) payment.authority))
        h

-- What settling it again answers.
module _ (g : Gateway) (id : String) (now : Instant) (pid sub invoice : String) (db : Db)
    (s : IsSettled g.name g.mode pid sub invoice db) where
  again : settle_payment g id now pid db ≡ (already_settled (some sub) (some invoice) "paid", db)
  unfolding settle_payment settle_found settle_locked
  again = rw s.found (
      rw s.by_name (
        rw s.by_mode (
          rw s.status (rw s.billed (rw s.owned (rw (eq_refl g.name) (rw (eq_refl g.mode) refl)))))))

-- A payment activates a subscription once: after a settlement that did, and any further settlements
-- of whatever payments, settling it again (with any answer of the same gateway) reports the
-- subscription and the invoice of the first time and changes nothing.
pub settle_payment_once :
    (g : Gateway) (id : String) (now : Instant) (pid : String) (db : Db) {sub invoice ref : String}
    (attempts : List Attempt) (verify : String → ℕ → VerifyOutcome) (id' : String) (now' : Instant)
    → (settle_payment g id now pid db).0 ≡ activated sub invoice ref
    → let db' = settle_all attempts (settle_payment g id now pid db).1 in
      settle_payment (record g { verify = verify }) id' now' pid db'
      ≡ (already_settled (some sub) (some invoice) "paid", db')
unfolding settle_payment
settle_payment_once g id now pid db {sub} {invoice} {ref} attempts verify id' now' h =
    again (record g { verify = verify }) id' now' pid sub invoice _
      (all-IsSettled g.name g.mode pid sub invoice attempts _
        (first_found g id now pid sub invoice ref db (get pid db.payments) h))
