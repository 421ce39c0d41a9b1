-- ===== src/Billing/Gateway/Mock/Once.antt =====
-- Money goes back once.
use hamboom.Base.{
  ◌==◌, not, All, ◌∙◌, ap, ℕ, ◌≡◌, ◌≢◌, inl, inr, refl, sym, true, false, String, Option, none,
  some, List, [], ◌∷◌, arith, is_some, eq_iff, Bool-cases, ◌===◌, some_inj, if_both,
}
use hamboom.Billing.Gateway.Mock.{
  store, MockRecord, MockGateway, create_payment, refund, refund_record, reverse, reverse_record,
  verify_payment, verify_record, minus, stamp, reference,
}
use hamboom.Base.Dict.{get, get-put, get-put_self}
use hamboom.Billing.Gateway.{VerifyPaymentInput, RefundOutcome}
use hamboom.Billing.Gateway.Mock.Lifecycle.{Call, creates, verifies, refunds, reverses, step, run}
use hamboom.Billing.Gateway.Mock.Verified.{stamp_lem}

-- The money of a payment has been given back.
pub record IsRefunded (a : String) (g : MockGateway) : Type 0 where
  pub entry : MockRecord
  pub found : get a g.records ≡ some entry
  pub taken : is_some entry.verified_at ≡ true
  pub returned : is_some entry.refund_ref ≡ true

refund_record-IsRefunded :
    (a : String) (amount : ℕ) (o : Option MockRecord) (g : MockGateway) {ref : String}
    → (refund_record a amount o g).0 ≡ RefundOutcome.refunded ref
    → IsRefunded a (refund_record a amount o g).1
unfolding refund_record
refund_record-IsRefunded a amount none g h = cc
refund_record-IsRefunded a amount (some r) g h = elim (Bool-cases (is_some r.verified_at)) [
  | inr never ↦ absurd (ground arith)
  | inl taken ↦ record {
    entry = record r { refund_ref = some (reference "MOCKRF" a) };
    found =
        ground
          (arith, get-put_self a (record r { refund_ref = some (reference "MOCKRF" a) }) g.records);
    taken = taken;
    returned = refl;
  }
]

refund-IsRefunded :
    (input : VerifyPaymentInput) (g : MockGateway) {ref : String}
    → (refund input g).0 ≡ RefundOutcome.refunded ref
    → IsRefunded input.authority (refund input g).1
unfolding refund
refund-IsRefunded input g h = refund_record-IsRefunded input.authority input.amount_rial _ g h

-- A call other than making a payment anew under this authority.
abbrev pub Spares : String → Call → Type 0
Spares a (creates b amount) = b ≢ a
Spares a _ = Unit {0}

-- A write to another key, or one that keeps what was taken and returned.
store-IsRefunded :
    (a b : String) (r r' : MockRecord) (g : MockGateway)
    → IsRefunded a g
    → get b g.records ≡ some r
    → (is_some r.verified_at ≡ true → is_some r'.verified_at ≡ true)
    → (is_some r.refund_ref ≡ true → is_some r'.refund_ref ≡ true)
    → IsRefunded a (store b r' g)
store-IsRefunded a b r r' g v e keeps_taken keeps_returned = elim (Bool-cases (b === a)) [
  | inl same ↦
      let k : r ≡ v.entry =
        some_inj (sym e ∙ (ap (λ c. get c g.records) ((eq_iff b a).0 same) ∙ v.found)) in
      record {
        entry = r';
        found = rw (get-put b a r' g.records) (rw same);
        taken = keeps_taken (rw k v.taken);
        returned = keeps_returned (rw k v.returned);
      }
  | inr other ↦ record {
    entry = v.entry;
    found = rw (get-put b a r' g.records) (rw other v.found);
    taken = v.taken;
    returned = v.returned;
  }
]

module _ (a : String) (g : MockGateway) (v : IsRefunded a g) where
  abbrev StaysRefunded {ℓ} : {O : Type ℓ} → O × MockGateway → Type 0
  StaysRefunded o = IsRefunded a o.1

  verify-keeps :
      (b : String) (amount : ℕ) (o : Option MockRecord)
      → get b g.records ≡ o
      → IsRefunded a (verify_record b amount o g).1
  unfolding verify_record
  verify-keeps b amount none e = v
  verify-keeps b amount (some r) e =
      let w : IsRefunded a (store b (stamp g r) g) =
        store-IsRefunded a b r (stamp g r) g v e (λ h. (stamp_lem g g r).0) (λ h. ground arith) in
      if_both StaysRefunded r.reversed v (
        if_both StaysRefunded g.fail_every_payment v
          (if_both StaysRefunded (not (r.amount_rial == amount)) v w))

  refund-keeps :
      (b : String) (amount : ℕ) (o : Option MockRecord)
      → get b g.records ≡ o
      → IsRefunded a (refund_record b amount o g).1
  unfolding refund_record
  refund-keeps b amount none e = v
  refund-keeps b amount (some r) e =
      let w : IsRefunded a (store b (record r { refund_ref = some (reference "MOCKRF" b) }) g) =
        store-IsRefunded a b r (record r { refund_ref = some (reference "MOCKRF" b) }) g v e
          (λ h. h) (λ h. refl) in
      if_both StaysRefunded (not (is_some r.verified_at)) v (
        if_both StaysRefunded (is_some r.refund_ref) v
          (if_both StaysRefunded (not (r.amount_rial == amount)) v w))

  reverse-keeps :
      (b : String) (o : Option MockRecord)
      → get b g.records ≡ o
      → IsRefunded a (reverse_record b o g).1
  unfolding reverse_record
  reverse-keeps b none e = v
  reverse-keeps b (some r) e =
      let w : IsRefunded a (store b (record r { reversed = true }) g) =
        store-IsRefunded a b r (record r { reversed = true }) g v e (λ h. h) (λ h. h) in
      if_both StaysRefunded (is_some r.verified_at) v (if_both StaysRefunded r.reversed v w)

  create-keeps : (b : String) (amount : ℕ) → b ≢ a → IsRefunded a (create_payment b amount g).1
  unfolding create_payment
  create-keeps b amount other = ground (
    arith,
    v,
    get-put b a
        (record { amount_rial = amount; verified_at = none; refund_ref = none; reversed = false })
        g.records,
    eq_iff b a,
  )

  step-keeps : (c : Call) → Spares a c → IsRefunded a (step g c)
  unfolding step verify_payment refund reverse
  step-keeps (creates b amount) other = create-keeps b amount other
  step-keeps (verifies input) _ = verify-keeps input.authority input.amount_rial _ refl
  step-keeps (refunds input) _ = refund-keeps input.authority input.amount_rial _ refl
  step-keeps (reverses b) _ = reverse-keeps b _ refl

run-keeps :
    (a : String) (g : MockGateway) (cs : List Call)
    → IsRefunded a g
    → All (Spares a) cs
    → IsRefunded a (run g cs)
unfolding run
run-keeps a g [] v s = v
run-keeps a g (c ∷ cs) v (s, ss) = run-keeps a (step g c) cs (step-keeps a g v c s) ss

-- A payment is refunded once: after a refund, and any later calls that do not make a payment anew
-- under its authority, another refund is rejected with code -53, at any amount.
pub refund_once :
    (input : VerifyPaymentInput) (g : MockGateway) {ref : String} (cs : List Call) (amount : ℕ)
    → (refund input g).0 ≡ RefundOutcome.refunded ref
    → All (Spares input.authority) cs
    → (refund (record input { amount_rial = amount }) (run (refund input g).1 cs)).0
      ≡ RefundOutcome.rejected (some (minus 53))
refund_once input g cs amount h s =
    let v = run-keeps input.authority (refund input g).1 cs (refund-IsRefunded input g h) s in
    let e = v.found in
    let t = v.taken in let r = v.returned in unfold refund refund_record in ground arith
