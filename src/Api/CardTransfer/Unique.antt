-- ===== src/Api/CardTransfer/Unique.antt =====
-- A reference of the bank pays for one payment.
use hamboom.Base.{
  ℕ, ◌≡◌, sym, ◌∙◌, not, ◌||◌, String, Option, none, some, List, [], ◌∷◌, ◌===◌, ◌==◌, if_both, inl,
  inr, subst, refl,
}
use hamboom.Base.Dict.{get}
use hamboom.Api.Settle.{PaymentRow, settle_payment}
use hamboom.Api.Settle.Count.{Attempt}
use hamboom.Api.CardTransfer.{
  Store, Moment, is_transfer, CardTransferSettings, ClaimInput, claim_transfer, ApproveInput,
  Approval, taken, approve_untaken, approve_found, approve_transfer,
}
use hamboom.Api.CardTransfer.Owned.{own_ref, settle_payment-KeepsRefs, own_ref-claim_transfer}
use hamboom.Api.CardTransfer.Taken.{taken-none, IsOwn, settled-Owns}

-- Two payments that carry the same reference are one.
abbrev pub AreUnique : Store → Type 0
AreUnique s = (p q ref : String) → own_ref p s ≡ some ref → own_ref q s ≡ some ref → p ≡ q

module _ (settings : CardTransferSettings) (id actor : String) (at : Moment) (input : ApproveInput)
    (s : Store) (u : AreUnique s) where
  module _ (free : taken input.ref input.payment_id s.transfers s.db.payments ≡ none) where
    same_payment :
        (p q ref : String)
        → IsOwn actor at.now_ms input s p ref
        → IsOwn actor at.now_ms input s q ref
        → p ≡ q
    same_payment p q ref (inl (e, _)) (inl (f, _)) = e ∙ sym f
    same_payment p q ref (inl (e, r)) (inr h) =
        e
        ∙ sym (
            taken-none input.ref input.payment_id s.transfers s.db.payments q free
              (subst (λ t. own_ref q s ≡ some t) r h))
    same_payment p q ref (inr h) (inl (f, r)) =
        taken-none input.ref input.payment_id s.transfers s.db.payments p free
          (subst (λ t. own_ref p s ≡ some t) r h)
        ∙ sym f
    same_payment p q ref (inr h) (inr k) = u p q ref h k

  untaken-AreUnique :
      (o : Option String) (payment : PaymentRow)
      → get input.payment_id s.db.payments ≡ some payment
      → taken input.ref input.payment_id s.transfers s.db.payments ≡ o
      → AreUnique (approve_untaken settings id actor at input o payment s).1
  unfolding approve_untaken
  untaken-AreUnique (some other) payment found e = u
  untaken-AreUnique none payment found free = λ p q ref h k.
      same_payment free p q ref
        (settled-Owns actor at.now_ms input s p ref settings id at.now payment found h)
        (settled-Owns actor at.now_ms input s q ref settings id at.now payment found k)

  found-AreUnique :
      (o : Option PaymentRow)
      → get input.payment_id s.db.payments ≡ o
      → AreUnique (approve_found settings id actor at input o s).1
  unfolding approve_found
  found-AreUnique none e = u
  found-AreUnique (some payment) e =
      let P : Approval × Store → Type 0 = λ o. AreUnique o.1 in
      if_both P (not (is_transfer payment) || not (payment.gateway_mode === settings.mode)) u (
        if_both P (not (payment.status === "pending")) u (
          if_both P (not (input.observed_amount_rial == payment.amount_rial)) u
            (untaken-AreUnique _ payment e refl)))

  approve-AreUnique : AreUnique (approve_transfer settings id actor at input s).1
  unfolding approve_transfer
  approve-AreUnique = found-AreUnique (get input.payment_id s.db.payments) refl

-- What may happen to the payments: a claim, an approval, a settlement by whatever gateway.
pub data Event : Type 0 where
  claims : (now : ℕ) → ClaimInput → Event
  approves : CardTransferSettings → (id actor : String) → Moment → ApproveInput → Event
  settles : Attempt → Event

unfoldable pub step : Event → Store → Store
unfolding claim_transfer approve_transfer settle_payment
step (claims now input) s = (claim_transfer now input s).1
step (approves settings id actor at input) s = (approve_transfer settings id actor at input s).1
step (settles a) s = record s { db = (settle_payment a.gateway a.new_id a.now a.pid s.db).1 }

unfoldable pub run : List Event → Store → Store
unfolding step
run [] s = s
run (e ∷ rest) s = run rest (step e s)

step-AreUnique : (e : Event) (s : Store) → AreUnique s → AreUnique (step e s)
unfolding step
step-AreUnique (claims now input) s u = λ p q ref h k.
    u p q ref (sym (own_ref-claim_transfer now input s p) ∙ h)
      (sym (own_ref-claim_transfer now input s q) ∙ k)
step-AreUnique (approves settings id actor at input) s u =
    approve-AreUnique settings id actor at input s u
step-AreUnique (settles a) s u = λ p q ref h k.
    let keeps = settle_payment-KeepsRefs a.gateway a.new_id a.now a.pid s.db in
    u p q ref (sym (keeps p _) ∙ h) (sym (keeps q _) ∙ k)

-- Whatever claims, approvals and settlements follow, no two payments by card transfer carry the same
-- reference of the bank, if none did before: a transfer pays for one payment.
pub run-AreUnique : (events : List Event) (s : Store) → AreUnique s → AreUnique (run events s)
unfolding run
run-AreUnique [] s u = u
run-AreUnique (e ∷ rest) s u = run-AreUnique rest (step e s) (step-AreUnique e s u)
