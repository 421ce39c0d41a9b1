-- ===== src/Api/CardTransfer/Taken.antt =====
-- What the test for a reference that is taken finds, and which references an approval writes.
use hamboom.Base.{
  ℕ, ◌≡◌, refl, ap, sym, ◌∙◌, true, String, Option, none, some, [], ◌∷◌, ◌===◌, if◌then◌else◌,
  Bool-cases, ◌⊎◌, inl, inr, arith, eq_iff, eq_refl, subst, some_inj,
}
use hamboom.Base.Dict.{Dict, get, get-put_self}
use hamboom.Billing.Period.{Instant}
use hamboom.Api.Settle.{
  PaymentRow, Db, SettleOutcome, activated, already_settled, not_paid_yet, unknown, not_found,
  conflict, internal_error, settle_locked,
}
use hamboom.Api.CardTransfer.{
  TransferColumns, Store, Moment, is_transfer, is_some_text, CardTransferSettings, ApproveInput,
  Approval, has_ref, taken, update_found, commit, write_approval, create_card_transfer_gateway_on,
  settle_approved,
}
use hamboom.Api.CardTransfer.Owned.{
  ref_in, own_ref, KeepsRefs, settle_locked-KeepsRefs, get-update_columns,
}

ref_in-has_ref :
    (ref : String) (row : PaymentRow) (o : Option TransferColumns)
    → ref_in (some row) o ≡ some ref
    → (is_transfer row ≡ true) × (has_ref ref o ≡ true)
unfolding ref_in has_ref is_some_text
ref_in-has_ref ref row none h = ground arith
ref_in-has_ref ref row (some c) h = elim (Bool-cases (is_transfer row)) [
  | inl ours ↦ (
    ours,
    of_ref c.transfer_ref (subst (λ b. (if b then c.transfer_ref else none) ≡ some ref) ours h),
  )
  | inr other ↦ ground (arith, other)
]
  where
    of_ref : (o : Option String) → o ≡ some ref → is_some_text ref o ≡ true
    of_ref o e = rw e (eq_refl ref)

-- A test that finds no other payment is right.
pub taken-none :
    (ref pid : String) (columns : Dict TransferColumns) (payments : Dict PaymentRow) (q : String)
    → taken ref pid columns payments ≡ none
    → ref_in (get q payments) (get q columns) ≡ some ref
    → q ≡ pid
unfolding taken get
taken-none ref pid columns [] q e h = unfold ref_in in ground arith
taken-none ref pid columns ((id, row) ∷ rest) q e h = elim (Bool-cases (id === q)) [
  | inl same ↦
      let q_is : id ≡ q = (eq_iff id q).0 same in
      let found : ref_in (some row) (get id columns) ≡ some ref =
        subst (λ k. ref_in (some row) (get k columns) ≡ some ref) (sym q_is)
          (subst (λ b. ref_in (if b then some row else get q rest) (get q columns) ≡ some ref) same
            h) in
      let (ours, has) = ref_in-has_ref ref row (get id columns) found in
      sym q_is ∙ (eq_iff id pid).0 (ground (arith, e, ours, has))
  | inr other ↦
      taken-none ref pid columns rest q (ground (arith, e)) (
        subst (λ b. ref_in (if b then some row else get q rest) (get q columns) ≡ some ref) other h)
]

-- What an update of the columns writes is what is read.
module _ (pid ref : String) (change : TransferColumns → TransferColumns)
    (columns : Dict TransferColumns)
    (writes : (c : TransferColumns) → (change c).transfer_ref ≡ some ref) where
  read_ref :
      (row : Option PaymentRow) (o : Option TransferColumns) (r : String)
      → ((c : TransferColumns) → o ≡ some c → c.transfer_ref ≡ some ref)
      → ref_in row o ≡ some r
      → r ≡ ref
  unfolding ref_in
  read_ref none o r w h = ground arith
  read_ref (some row) none r w h = ground arith
  read_ref (some row) (some c) r w h = ground (arith, w c refl)

  updated_ref :
      (row : Option PaymentRow) (r : String) (o : Option TransferColumns)
      → get pid columns ≡ o
      → ref_in row (get pid (update_found pid change o columns)) ≡ some r
      → r ≡ ref
  unfolding update_found
  updated_ref row r none e h = read_ref row (get pid columns) r (λ c f. ground (arith, e, f)) h
  updated_ref row r (some c) e h =
      read_ref row (some (change c)) r
        (λ d f. ap (λ x. x.transfer_ref) (sym (some_inj f)) ∙ writes c)
        (ap (ref_in row) (sym (get-put_self pid (change c) columns)) ∙ h)

module _ (actor : String) (now : ℕ) (input : ApproveInput) (s : Store) (q ref : String) where
  abbrev pub IsOwn : Type 0
  IsOwn = ((q ≡ input.payment_id) × (ref ≡ input.ref)) ⊎ (own_ref q s ≡ some ref)

  written-IsOwn : own_ref q (write_approval now actor input s) ≡ some ref → IsOwn
  unfolding write_approval
  written-IsOwn h = elim (Bool-cases (input.payment_id === q)) [
    | inl same ↦
        let key : input.payment_id ≡ q = (eq_iff input.payment_id q).0 same in
        inl (
          sym key,
          updated_ref input.payment_id input.ref _ s.transfers (λ c. refl) (get q s.db.payments) ref
              (get input.payment_id s.transfers) refl
              (subst
                (λ k.
                  ref_in (get q s.db.payments) (get k (write_approval now actor input s).transfers)
                  ≡ some ref)
                (sym key) h),
        )
    | inr other ↦ inr (
        ap (ref_in (get q s.db.payments))
          (sym (get-update_columns input.payment_id q _ s.transfers other))
        ∙ h)
  ]

  module _ (db : Db) (keeps : KeepsRefs s.db db) where
    done-IsOwn :
        ref_in (get q db.payments) (get q (write_approval now actor input s).transfers) ≡ some ref
        → IsOwn
    done-IsOwn h = written-IsOwn (unfold write_approval in (sym (keeps q _) ∙ h))

    commit-IsOwn :
        (o : SettleOutcome)
        → own_ref q (commit actor input s (write_approval now actor input s) (o, db)).1 ≡ some ref
        → IsOwn
    unfolding commit
    commit-IsOwn (activated a b c) h = done-IsOwn h
    commit-IsOwn (already_settled a b c) h = done-IsOwn h
    commit-IsOwn (not_paid_yet c) h = done-IsOwn h
    commit-IsOwn unknown h = done-IsOwn h
    commit-IsOwn not_found h = done-IsOwn h
    commit-IsOwn conflict h = done-IsOwn h
    commit-IsOwn internal_error h = inr h

  module _ (settings : CardTransferSettings) (id : String) (day : Instant) where
    abbrev pub at : Moment
    at = record { now_ms = now; now = day }

    abbrev pub Owns : Approval × Store → Type 0
    Owns o = own_ref q o.1 ≡ some ref → IsOwn

    pub settled-Owns :
        (payment : PaymentRow)
        → get input.payment_id s.db.payments ≡ some payment
        → Owns (settle_approved settings id actor at input payment s)
    unfolding settle_approved
    settled-Owns payment found =
        let written = write_approval now actor input s in
        let verify = (create_card_transfer_gateway_on settings now written).verify in
        let done = settle_locked verify id day input.payment_id payment s.db in
        commit-IsOwn done.1
          (settle_locked-KeepsRefs input.payment_id payment s.db found id day verify) done.0
