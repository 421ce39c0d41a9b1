-- ===== src/Api/CardTransfer.antt =====
-- apps/api/src/services/card-transfer.ts: the payer claims a transfer, a member of staff approves it,
-- and the approval settles the payment in the same transaction. The columns of payments that only
-- this file reads and writes stand beside the rows of Api/Settle, by the same id. What throws is a
-- constructor of a result type and changes nothing, since its transaction is rolled back.

pub mod Owned
pub mod Taken
pub mod Unique
pub mod Approved
mod Tests
use hamboom.Base.{
  ℕ, Bool, true, false, not, ◌&&◌, ◌||◌, String, Option, none, some, List, [], ◌∷◌, ◌===◌, ◌==◌,
  if◌then◌else◌,
}
use hamboom.Base.Dict.{Dict, get, put}
use hamboom.Billing.Period.{Instant}
use hamboom.Billing.Gateway.{VerifyOutcome}
use hamboom.Billing.Gateway.Transfer.{TransferRecord, verify_payment}
use hamboom.Api.Settle.{
  PaymentRow, Db, SettleOutcome, internal_error, Gateway, settle_locked, settle_payment,
}

abbrev pub card_transfer_name : String
card_transfer_name = "card_transfer"

pub record TransferColumns : Type 0 where
  pub transfer_approved_at : Option ℕ
  pub transfer_approved_by : Option String
  pub transfer_ref : Option String
  pub transfer_sender_last4 : Option String
  pub transfer_claimed_at : Option ℕ
  pub transfer_claimed_ref : Option String
  pub transfer_claimed_last4 : Option String
  pub requested_at : ℕ

-- What `recordAudit` keeps of an approval.
pub record AuditEntry : Type 0 where
  pub actor : String
  pub payment_id : String
  pub outcome : SettleOutcome
  pub amount_rial : ℕ
  pub ref : String
  pub note : Option String

pub record Store : Type 0 where
  pub db : Db
  pub transfers : Dict TransferColumns
  pub audit : List AuditEntry

-- The time of a transaction, in milliseconds and in the calendar.
pub record Moment : Type 0 where
  pub now_ms : ℕ
  pub now : Instant

abbrev pub is_transfer : PaymentRow → Bool
is_transfer row = row.gateway === card_transfer_name

unfoldable pub is_some_text : String → Option String → Bool
is_some_text t none = false
is_some_text t (some u) = t === u

-- `WHERE gateway = $1 AND authority = $2`
unfoldable pub key_by_authority : String → Dict PaymentRow → Option String
unfolding is_some_text
key_by_authority authority [] = none
key_by_authority authority ((id, row) ∷ rest) =
    if is_transfer row && is_some_text authority row.authority
    then some id
    else key_by_authority authority rest

unfoldable pub record_of : ℕ → Option TransferColumns → Option TransferRecord
record_of now none = none
record_of now (some c) = some (record {
  approved_at_ms = c.transfer_approved_at;
  transfer_ref = c.transfer_ref;
  sender_last4 = c.transfer_sender_last4;
  claimed_at_ms = c.transfer_claimed_at;
  requested_at_ms = c.requested_at;
  now_ms = now;
})

unfoldable pub read_columns : ℕ → Option String → Dict TransferColumns → Option TransferRecord
unfolding record_of get
read_columns now none columns = none
read_columns now (some id) columns = record_of now (get id columns)

-- `createPgTransferReader`
unfoldable pub read_transfer : ℕ → Store → String → Option TransferRecord
unfolding key_by_authority read_columns
read_transfer now store authority =
    read_columns now (key_by_authority authority store.db.payments) store.transfers

pub record CardTransferSettings : Type 0 where
  pub claim_window_ms : ℕ
  pub checkout_base_url : String
  pub mode : String

-- `createCardTransferGatewayOn`
unfoldable pub create_card_transfer_gateway_on : CardTransferSettings → ℕ → Store → Gateway
unfolding read_transfer verify_payment
create_card_transfer_gateway_on settings now store = record {
  name = card_transfer_name;
  mode = settings.mode;
  verify = λ authority amount.
      verify_payment (read_transfer now store) settings.claim_window_ms settings.checkout_base_url
        (record { authority = authority; amount_rial = amount });
}

pub record ClaimInput : Type 0 where
  pub payment_id : String
  pub ref : String
  pub last4 : Option String

pub data Claim : Type 0 where
  claimed : (team_id : String) → Claim
  payment_not_found invalid_transition : Claim

-- An update of the columns of one row.
unfoldable pub update_found :
    String
    → (TransferColumns → TransferColumns)
    → Option TransferColumns
    → Dict TransferColumns
    → Dict TransferColumns
unfolding put
update_found id change none columns = columns
update_found id change (some c) columns = put id (change c) columns

unfoldable pub update_columns :
    String → (TransferColumns → TransferColumns) → Dict TransferColumns → Dict TransferColumns
unfolding update_found get
update_columns id change columns = update_found id change (get id columns) columns

unfoldable pub claim_found : ℕ → ClaimInput → Option PaymentRow → Store → Claim × Store
unfolding update_columns
claim_found now input none store = (payment_not_found, store)
claim_found now input (some row) store =
    if not (is_transfer row) || not (row.status === "pending")
    then (invalid_transition, store)
    else (
      claimed row.team_id,
      record store {
        transfers =
            update_columns input.payment_id
              (λ c. record c {
                transfer_claimed_ref = some input.ref;
                transfer_claimed_last4 = input.last4;
                transfer_claimed_at = some now;
              })
              store.transfers;
      },
    )

unfoldable pub claim_transfer : ℕ → ClaimInput → Store → Claim × Store
unfolding claim_found get
claim_transfer now input store =
    claim_found now input (get input.payment_id store.db.payments) store

pub record ApproveInput : Type 0 where
  pub payment_id : String
  pub ref : String
  pub last4 : Option String
  pub observed_amount_rial : ℕ
  pub note : Option String

pub data Approval : Type 0 where
  settled : SettleOutcome → Approval
  not_found conflict invalid_transition failed : Approval
  amount_mismatch : (expected observed : ℕ) → Approval
  ref_taken : (payment_id : String) → Approval

unfoldable pub has_ref : String → Option TransferColumns → Bool
unfolding is_some_text
has_ref ref none = false
has_ref ref (some c) = is_some_text ref c.transfer_ref

-- another payment that carries the reference of the bank
unfoldable pub taken : String → String → Dict TransferColumns → Dict PaymentRow → Option String
unfolding has_ref get
taken ref pid columns [] = none
taken ref pid columns ((id, row) ∷ rest) =
    if is_transfer row && (has_ref ref (get id columns) && not (id === pid))
    then some id
    else taken ref pid columns rest

-- The end of the transaction: an exception rolls it back.
unfoldable pub commit :
    String → ApproveInput → (before written : Store) → SettleOutcome × Db → Approval × Store
commit actor input before written (internal_error, db) = (failed, before)
commit actor input before written (outcome, db) = (
  settled outcome,
  record {
    db = db;
    transfers = written.transfers;
    audit =
        record {
          actor = actor;
          payment_id = input.payment_id;
          outcome = outcome;
          amount_rial = input.observed_amount_rial;
          ref = input.ref;
          note = input.note;
        }
        ∷ written.audit;
  },
)

-- the approval as it is written into the row
unfoldable pub write_approval : ℕ → String → ApproveInput → Store → Store
unfolding update_columns
write_approval now actor input store = record store {
  transfers =
      update_columns input.payment_id
        (λ c. record c {
          transfer_ref = some input.ref;
          transfer_sender_last4 = input.last4;
          transfer_approved_by = some actor;
          transfer_approved_at = some now;
        })
        store.transfers;
}

module _ (settings : CardTransferSettings) (id actor : String) (at : Moment)
    (input : ApproveInput) where
  unfoldable pub settle_approved : PaymentRow → Store → Approval × Store
  unfolding commit write_approval create_card_transfer_gateway_on settle_locked
  settle_approved payment store =
      let written = write_approval at.now_ms actor input store in
      commit actor input store written (
        settle_locked (create_card_transfer_gateway_on settings at.now_ms written).verify id at.now
          input.payment_id payment store.db)

  unfoldable pub approve_untaken : Option String → PaymentRow → Store → Approval × Store
  unfolding settle_approved
  approve_untaken (some other) payment store = (ref_taken other, store)
  approve_untaken none payment store = settle_approved payment store

  unfoldable pub approve_found : Option PaymentRow → Store → Approval × Store
  unfolding approve_untaken taken
  approve_found none store = (not_found, store)
  approve_found (some payment) store =
      if not (is_transfer payment) || not (payment.gateway_mode === settings.mode)
      then (conflict, store)
      else if not (payment.status === "pending")
      then (invalid_transition, store)
      else if not (input.observed_amount_rial == payment.amount_rial)
      then (amount_mismatch payment.amount_rial input.observed_amount_rial, store)
      else approve_untaken (taken input.ref input.payment_id store.transfers store.db.payments)
          payment store

  unfoldable pub approve_transfer : Store → Approval × Store
  unfolding approve_found get
  approve_transfer store = approve_found (get input.payment_id store.db.payments) store
