-- ===== src/Billing/Reconcile/Orphans.antt =====
-- When a lost authority is adopted.
use hamboom.Base.{
  ℕ, ◌==◌, String, ◌≡◌, refl, ap, List, [], ◌∷◌, ◌++◌, arith, All, inl, inr, false, Bool-cases,
}
use hamboom.Billing.Reconcile.{
  PendingPaymentSnapshot, UnverifiedPayment, has, orphans_per_amount, candidates_per_amount,
}

-- `x` is the one entry of the list with a property: it stands between entries without it.
pub record IsOnly {A : Type 0} (P : A → Type 0) (xs : List A) (x : A) : Type 0 where
  pub before : List A
  pub after : List A
  pub split : xs ≡ before ++ x ∷ after
  pub holds : P x
  pub none_before : All (λ y. ¬ P y) before
  pub none_after : All (λ y. ¬ P y) after

IsOnly-cons :
    {A : Type 0} {P : A → Type 0} {xs : List A} {x : A} (y : A)
    → ¬ P y
    → IsOnly P xs x
    → IsOnly P (y ∷ xs) x
IsOnly-cons y miss o = record {
  before = y ∷ o.before;
  after = o.after;
  split = ap (◌∷◌ y) o.split;
  holds = o.holds;
  none_before = (miss, o.none_before);
  none_after = o.none_after;
}

abbrev pub HasAmount : ℕ → PendingPaymentSnapshot → Type 0
HasAmount amount o = o.amount_rial ≡ amount

-- Paid at the gateway with this amount, under an authority that no payment of ours carries.
abbrev pub IsCandidate : List String → ℕ → UnverifiedPayment → Type 0
IsCandidate known amount e = (has known e.authority ≡ false) × (e.amount_rial ≡ amount)

no_orphans :
    (os : List PendingPaymentSnapshot) (amount : ℕ)
    → orphans_per_amount os amount ≡ 0
    → All (λ o. ¬ HasAmount amount o) os
unfolding orphans_per_amount
no_orphans [] amount h = tt
no_orphans (o ∷ os) amount h = (ground arith, no_orphans os amount (omega arith))

no_candidates :
    (known : List String) (es : List UnverifiedPayment) (amount : ℕ)
    → candidates_per_amount known es amount ≡ []
    → All (λ e. ¬ IsCandidate known amount e) es
unfolding candidates_per_amount
no_candidates known [] amount h = tt
no_candidates known (e ∷ es) amount h = (ground arith, no_candidates known es amount (ground arith))

-- One candidate in the list means that one payment of the gateway's list qualifies.
pub candidates-IsCandidate :
    (known : List String) (es : List UnverifiedPayment) (amount : ℕ) (a : String)
    → candidates_per_amount known es amount ≡ a ∷ []
    → (e : UnverifiedPayment) × IsOnly (IsCandidate known amount) es e × (e.authority ≡ a)
unfolding candidates_per_amount
candidates-IsCandidate known [] amount a h = cc
candidates-IsCandidate known (e ∷ es) amount a h = elim (Bool-cases (has known e.authority)) [
  | inl owned ↦
      let (f, only, same) = candidates-IsCandidate known es amount a (ground arith) in
      (f, IsOnly-cons e (λ p. cc) only, same)
  | inr free ↦ elim (Bool-cases (e.amount_rial == amount)) [
    | inl fits ↦ (
      e,
      record {
        before = [];
        after = es;
        split = refl;
        holds = (free, ground arith);
        none_before = tt;
        none_after = no_candidates known es amount (ground arith);
      },
      ground arith,
    )
    | inr differs ↦
        let (f, only, same) = candidates-IsCandidate known es amount a (ground arith) in
        (f, IsOnly-cons e (λ p. ground arith) only, same)
  ]
]

pub one_orphan :
    (os : List PendingPaymentSnapshot) (amount : ℕ)
    → orphans_per_amount os amount ≡ 1
    → (o : PendingPaymentSnapshot) × IsOnly (HasAmount amount) os o
unfolding orphans_per_amount
one_orphan [] amount h = absurd (omega arith)
one_orphan (o ∷ os) amount h = elim (Bool-cases (o.amount_rial == amount)) [
  | inl fits ↦ (
    o,
    record {
      before = [];
      after = os;
      split = refl;
      holds = ground arith;
      none_before = tt;
      none_after = no_orphans os amount (ground arith);
    },
  )
  | inr differs ↦
      let (f, only) = one_orphan os amount (ground arith) in
      (f, IsOnly-cons o (λ p. ground arith) only)
]
