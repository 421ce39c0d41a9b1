-- ===== src/Api/CardTransfer/Approved.antt =====
-- What an approval does: the gateway reads back what was written, and the payment is settled.
use hamboom.Base.{
  List, ◌∷◌, ◌≡◌, refl, ap, ◌∙◌, false, true, String, none, some, ◌===◌, ◌==◌, eq_refl, arith,
}
use hamboom.Base.Dict.{get, get-put_self}
use hamboom.Billing.Period.{Instant}
use hamboom.Billing.Gateway.{Paid, paid}
use hamboom.Billing.Gateway.Transfer.{mask_last4, decide_transfer, approved, verify_payment}
use hamboom.Api.Subscription.{
  PurchaseIntent, SubscriptionRow, read_intent, live_of, is_live, anchor_of, subscription_of,
  upsert_subscription,
}
use hamboom.Api.Settle.{
  PaymentRow, activated, activate, settle_verdict, settle_pending, settle_locked,
}
use hamboom.Api.CardTransfer.{
  TransferColumns, Store, Moment, card_transfer_name, is_transfer, CardTransferSettings,
  ApproveInput, Approval, settled, key_by_authority, record_of, read_columns, read_transfer,
  update_found, update_columns, create_card_transfer_gateway_on, taken, commit, write_approval,
  settle_approved, approve_untaken, approve_found, approve_transfer,
}

-- A pending payment of this gateway, with the amount that was seen at the bank and a reference that
-- no other payment carries; its authority is its own and what was bought can be read.
pub record IsApprovable (settings : CardTransferSettings) (input : ApproveInput) (s : Store)
    (payment : PaymentRow) (columns : TransferColumns) (authority invoice : String)
    (intent : PurchaseIntent) : Type 0 where
  pub found : get input.payment_id s.db.payments ≡ some payment
  pub written : get input.payment_id s.transfers ≡ some columns
  pub ours : payment.gateway ≡ card_transfer_name
  pub mode : payment.gateway_mode ≡ settings.mode
  pub pending : payment.status ≡ "pending"
  pub amount : input.observed_amount_rial ≡ payment.amount_rial
  pub free : taken input.ref input.payment_id s.transfers s.db.payments ≡ none
  pub asked : payment.authority ≡ some authority
  pub own : key_by_authority authority s.db.payments ≡ some input.payment_id
  pub billed : payment.invoice_id ≡ some invoice
  pub bought : read_intent payment.request_payload ≡ some intent

-- The team's live subscription is the one with this id, which the payment activated, of the plan, the
-- period and the seats that were bought.
abbrev pub IsBought : (id pid team : String) → PurchaseIntent → List SubscriptionRow → Type 0
IsBought id pid team intent rows =
    (row : SubscriptionRow) × (live_of team rows ≡ some row)
    × (row.id ≡ id)
    × (row.status ≡ "active")
    × (row.activated_by_payment_id ≡ pid)
    × (row.plan_code ≡ intent.plan_code)
    × (row.period ≡ intent.period)
    × (row.seats ≡ intent.seats)

upsert-IsBought :
    (id pid team : String) (now : Instant) (intent : PurchaseIntent) (rows : List SubscriptionRow)
    → IsBought id pid team intent (upsert_subscription id now team pid intent rows)
unfolding upsert_subscription subscription_of live_of is_live
upsert-IsBought id pid team now intent rows = (
  subscription_of id team pid intent (anchor_of (live_of team rows) intent.plan_code now),
  rw (eq_refl team) refl,
  refl,
  refl,
  refl,
  refl,
  refl,
  refl,
)

module _ (settings : CardTransferSettings) (id actor : String) (at : Moment) (input : ApproveInput)
    (s : Store) {payment : PaymentRow} {columns : TransferColumns} {authority invoice : String}
    {intent : PurchaseIntent}
    (a : IsApprovable settings input s payment columns authority invoice intent) where
  abbrev after : Store
  after = write_approval at.now_ms actor input s

  abbrev verdict : Paid
  verdict = record {
    already_verified = false;
    ref_id = input.ref;
    card_pan_masked = mask_last4 input.last4;
    card_hash = none;
    fee_rial = none;
  }

  -- what the reader finds after the approval is written
  read_back :
      read_transfer at.now_ms after authority
      ≡ some (record {
        approved_at_ms = some at.now_ms;
        transfer_ref = some input.ref;
        sender_last4 = input.last4;
        claimed_at_ms = columns.transfer_claimed_at;
        requested_at_ms = columns.requested_at;
        now_ms = at.now_ms;
      })
  unfolding read_transfer write_approval read_columns update_columns update_found record_of
  read_back = rw a.own (rw a.written (rw (get-put_self input.payment_id) refl))

  verified :
      (create_card_transfer_gateway_on settings at.now_ms after).verify authority
        payment.amount_rial
      ≡ paid verdict
  unfolding create_card_transfer_gateway_on verify_payment decide_transfer approved
  verified = rw read_back refl

  -- The live subscription of the team afterwards is the new one, with what was bought.
  abbrev Activates : Approval × Store → Type 0
  Activates o =
      (o.0 ≡ settled (activated id invoice input.ref))
      × (get input.payment_id o.1.db.payments
          ≡ some (record payment { status = "paid"; ref_id = some input.ref; failure_code = none }))
      × (o.1.db.paid_invoices ≡ invoice ∷ s.db.paid_invoices)
      × IsBought id input.payment_id payment.team_id intent o.1.db.subscriptions

  settled-Activates : Activates (settle_approved settings id actor at input payment s)
  unfolding settle_approved settle_locked settle_pending settle_verdict activate commit
  settled-Activates = rw a.pending (
      rw a.asked (
        rw verified (
          rw a.billed (
            rw a.bought (
              refl,
              get-put_self input.payment_id _ _,
              refl,
              upsert-IsBought id input.payment_id payment.team_id at.now intent s.db.subscriptions,
            )))))

  found-Activates : Activates (approve_found settings id actor at input (some payment) s)
  unfolding approve_found approve_untaken
  found-Activates =
      let ours : is_transfer payment ≡ true =
        ap (λ g. g === card_transfer_name) a.ours ∙ eq_refl card_transfer_name in
      let mode : (payment.gateway_mode === settings.mode) ≡ true =
        ap (λ m. m === settings.mode) a.mode ∙ eq_refl settings.mode in
      let pending : (payment.status === "pending") ≡ true = ap (λ t. t === "pending") a.pending in
      let amount : (input.observed_amount_rial == payment.amount_rial) ≡ true =
        ground (arith, a.amount) in
      rw ours (rw mode (rw pending (rw amount (rw a.free settled-Activates))))

-- An approval settles the payment in one go: when a pending payment by card transfer is approved
-- with the amount that was asked and a reference of the bank that no other payment carries, the
-- gateway reads the approval back, the row is paid with that very reference, its invoice is paid,
-- and the live subscription of the team is a new active one of the plan, period and seats that were
-- bought, activated by this payment.
pub approve_transfer-activates :
    (settings : CardTransferSettings) (id actor : String) (at : Moment) (input : ApproveInput)
    (s : Store) {payment : PaymentRow} {columns : TransferColumns} {authority invoice : String}
    {intent : PurchaseIntent}
    → IsApprovable settings input s payment columns authority invoice intent
    → let result = approve_transfer settings id actor at input s in
      (result.0 ≡ settled (activated id invoice input.ref))
      × (get input.payment_id result.1.db.payments
          ≡ some (record payment { status = "paid"; ref_id = some input.ref; failure_code = none }))
      × (result.1.db.paid_invoices ≡ invoice ∷ s.db.paid_invoices)
      × IsBought id input.payment_id payment.team_id intent result.1.db.subscriptions
unfolding approve_transfer
approve_transfer-activates settings id actor at input s a =
    rw a.found (found-Activates settings id actor at input s a)
