-- ===== src/Api/CardTransfer/Owned.antt =====
-- The bank's reference that a payment carries, and the operations that leave it.
use hamboom.Base.{
  ℕ, ◌≡◌, refl, ap, sym, ◌∙◌, false, not, ◌||◌, String, Option, none, some, ◌===◌, if◌then◌else◌,
  if_both, Bool-cases, inl, inr, eq_iff,
}
use hamboom.Base.Dict.{Dict, get, put, get-put_same, get-put_other}
use hamboom.Billing.Period.{Instant}
use hamboom.Billing.Gateway.{Paid, VerifyOutcome, paid, not_paid}
use hamboom.Api.Subscription.{PurchaseIntent, read_intent}
use hamboom.Api.Settle.{
  PaymentRow, Db, SettleOutcome, Gateway, activate, settle_verdict, settle_pending, settle_locked,
  settle_found, settle_payment,
}
use hamboom.Api.CardTransfer.{
  TransferColumns, Store, is_transfer, update_found, update_columns, ClaimInput, Claim, claim_found,
  claim_transfer,
}

unfoldable pub ref_in : Option PaymentRow → Option TransferColumns → Option String
ref_in none columns = none
ref_in (some row) none = none
ref_in (some row) (some c) = if is_transfer row then c.transfer_ref else none

-- The reference that the row with key `q` carries, if it is one of a card transfer.
abbrev pub own_ref : String → Store → Option String
own_ref q s = ref_in (get q s.db.payments) (get q s.transfers)

-- Whatever the columns, the rows carry the references they did.
abbrev pub KeepsRefs : Db → Db → Type 0
KeepsRefs before after =
    (q : String) (c : Option TransferColumns)
    → ref_in (get q after.payments) c ≡ ref_in (get q before.payments) c

same_gateway :
    (row old : PaymentRow) (c : Option TransferColumns)
    → row.gateway ≡ old.gateway
    → ref_in (some row) c ≡ ref_in (some old) c
unfolding ref_in
same_gateway row old none e = refl
same_gateway row old (some c) e = rw e refl

module _ (pid : String) (old : PaymentRow) (db : Db) (found : get pid db.payments ≡ some old) where
  put-ref_in :
      (row : PaymentRow) (q : String) (c : Option TransferColumns)
      → row.gateway ≡ old.gateway
      → ref_in (get q (put pid row db.payments)) c ≡ ref_in (get q db.payments) c
  put-ref_in row q c e = elim (Bool-cases (pid === q)) [
    | inl same ↦
        let here : get q db.payments ≡ some old =
          ap (λ k. get k db.payments) (sym ((eq_iff pid q).0 same)) ∙ found in
        rw (get-put_same pid q row db.payments same) (rw here (same_gateway row old c e))
    | inr other ↦ rw (get-put_other pid q row db.payments other) refl
  ]

  module _ (id : String) (now : Instant) where
    activate-KeepsRefs :
        (v : Paid) (o : Option String) (i : Option PurchaseIntent)
        → KeepsRefs db (activate id now pid old v o i db).1
    unfolding activate
    activate-KeepsRefs v none i q c = refl
    activate-KeepsRefs v (some inv) none q c = refl
    activate-KeepsRefs v (some inv) (some intent) q c = put-ref_in _ q c refl

    verdict-KeepsRefs : (v : VerifyOutcome) → KeepsRefs db (settle_verdict id now pid old v db).1
    unfolding settle_verdict
    verdict-KeepsRefs (VerifyOutcome.gateway_error code) q c = refl
    verdict-KeepsRefs (not_paid code) q c = put-ref_in _ q c refl
    verdict-KeepsRefs (paid v) q c =
        activate-KeepsRefs v old.invoice_id (read_intent old.request_payload) q c

    pending-KeepsRefs :
        (verify : String → ℕ → VerifyOutcome) (o : Option String)
        → KeepsRefs db (settle_pending verify id now pid old o db).1
    unfolding settle_pending
    pending-KeepsRefs verify none q c = refl
    pending-KeepsRefs verify (some a) q c = verdict-KeepsRefs _ q c

    pub settle_locked-KeepsRefs :
        (verify : String → ℕ → VerifyOutcome)
        → KeepsRefs db (settle_locked verify id now pid old db).1
    unfolding settle_locked
    settle_locked-KeepsRefs verify =
        if_both (λ (o : SettleOutcome × Db). KeepsRefs db o.1) (not (old.status === "pending"))
          (λ q c. refl) (pending-KeepsRefs verify old.authority)

settle_found-KeepsRefs :
    (g : Gateway) (id : String) (now : Instant) (pid : String) (db : Db) (o : Option PaymentRow)
    → get pid db.payments ≡ o
    → KeepsRefs db (settle_found g id now pid o db).1
unfolding settle_found
settle_found-KeepsRefs g id now pid db none e = λ q c. refl
settle_found-KeepsRefs g id now pid db (some row) e =
    if_both (λ (o : SettleOutcome × Db). KeepsRefs db o.1)
      (not (row.gateway === g.name) || not (row.gateway_mode === g.mode)) (λ q c. refl)
      (settle_locked-KeepsRefs pid row db e id now g.verify)

pub settle_payment-KeepsRefs :
    (g : Gateway) (id : String) (now : Instant) (pid : String) (db : Db)
    → KeepsRefs db (settle_payment g id now pid db).1
unfolding settle_payment
settle_payment-KeepsRefs g id now pid db =
    settle_found-KeepsRefs g id now pid db (get pid db.payments) refl

-- An update of the columns of one row leaves the others.
pub get-update_columns :
    (id q : String) (change : TransferColumns → TransferColumns) (columns : Dict TransferColumns)
    → (id === q) ≡ false
    → get q (update_columns id change columns) ≡ get q columns
unfolding update_columns
get-update_columns id q change columns other = of_found (get id columns)
  where
    of_found :
        (o : Option TransferColumns) → get q (update_found id change o columns) ≡ get q columns
    of_found none = unfold update_found in refl
    of_found (some c) = unfold update_found in get-put_other id q _ columns other

-- An update that leaves the references of the columns leaves those of the rows.
module _ (id : String) (change : TransferColumns → TransferColumns) (columns : Dict TransferColumns)
    (keeps : (c : TransferColumns) → (change c).transfer_ref ≡ c.transfer_ref) where
  same_ref :
      (row : Option PaymentRow) (c : TransferColumns)
      → ref_in row (some (change c)) ≡ ref_in row (some c)
  unfolding ref_in
  same_ref none c = refl
  same_ref (some row) c = rw (keeps c) refl

  update_found-ref_in :
      (row : Option PaymentRow) (q : String) (o : Option TransferColumns)
      → get id columns ≡ o
      → ref_in row (get q (update_found id change o columns)) ≡ ref_in row (get q columns)
  unfolding update_found
  update_found-ref_in row q none e = refl
  update_found-ref_in row q (some c) e = elim (Bool-cases (id === q)) [
    | inl same ↦
        let here : get q columns ≡ some c =
          ap (λ k. get k columns) (sym ((eq_iff id q).0 same)) ∙ e in
        rw (get-put_same id q (change c) columns same) (rw here (same_ref row c))
    | inr other ↦ rw (get-put_other id q (change c) columns other) refl
  ]

  pub update_columns-ref_in :
      (row : Option PaymentRow) (q : String)
      → ref_in row (get q (update_columns id change columns)) ≡ ref_in row (get q columns)
  unfolding update_columns
  update_columns-ref_in row q = update_found-ref_in row q (get id columns) refl

-- A claim of the payer is no reference of the bank.
pub own_ref-claim_transfer :
    (now : ℕ) (input : ClaimInput) (s : Store) (q : String)
    → own_ref q (claim_transfer now input s).1 ≡ own_ref q s
unfolding claim_transfer
own_ref-claim_transfer now input s q = of_found (get input.payment_id s.db.payments)
  where
    of_found : (o : Option PaymentRow) → own_ref q (claim_found now input o s).1 ≡ own_ref q s
    of_found none = unfold claim_found in refl
    of_found (some row) =
        unfold claim_found in
        if_both (λ (o : Claim × Store). own_ref q o.1 ≡ own_ref q s)
          (not (is_transfer row) || not (row.status === "pending")) refl
          (update_columns-ref_in input.payment_id _ s.transfers (λ c. refl) (get q s.db.payments) q)
