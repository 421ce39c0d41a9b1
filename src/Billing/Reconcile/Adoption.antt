-- ===== src/Billing/Reconcile/Adoption.antt =====
-- The adoption rule of `match_orphans`, both ways, and that no authority is adopted twice.
use hamboom.Base.{
  ℕ, ◌≤◌, ◌==◌, String, ◌≡◌, ◌↔◌, refl, sym, subst, List, [], ◌∷◌, ◌++◌, map, arith, All, All₂, inl,
  inr, Bool-cases, ltb,
}
use hamboom.Billing.Reconcile.{
  PendingPaymentSnapshot, UnverifiedPayment, AdoptionDecision, adopt, ok, has, orphans_per_amount,
  candidates_per_amount, choose_candidate, decide_adoption, match_orphans,
}
use hamboom.Billing.Reconcile.Orphans.{
  IsOnly, HasAmount, IsCandidate, candidates-IsCandidate, one_orphan,
}

candidates-none :
    (known : List String) (es : List UnverifiedPayment) (amount : ℕ)
    → All (λ e. ¬ IsCandidate known amount e) es
    → candidates_per_amount known es amount ≡ []
unfolding candidates_per_amount
candidates-none known [] amount h = refl
candidates-none known (e ∷ es) amount (miss, h) = elim (Bool-cases (has known e.authority)) [
  | inl owned ↦ rw owned (candidates-none known es amount h)
  | inr free ↦ elim (Bool-cases (e.amount_rial == amount)) [
    | inl fits ↦ absurd (miss (free, ground arith))
    | inr differs ↦ rw (free, differs) (candidates-none known es amount h)
  ]
]

candidates-split :
    (known : List String) (before after : List UnverifiedPayment) (e : UnverifiedPayment)
    (amount : ℕ)
    → All (λ f. ¬ IsCandidate known amount f) before
    → IsCandidate known amount e
    → All (λ f. ¬ IsCandidate known amount f) after
    → candidates_per_amount known (before ++ e ∷ after) amount ≡ e.authority ∷ []
unfolding candidates_per_amount
candidates-split known [] after e amount h c k =
    ground (arith, candidates-none known after amount k)
candidates-split known (f ∷ before) after e amount (miss, h) c k =
    elim (Bool-cases (has known f.authority)) [
      | inl owned ↦ rw owned (candidates-split known before after e amount h c k)
      | inr free ↦ elim (Bool-cases (f.amount_rial == amount)) [
        | inl fits ↦ absurd (miss (free, ground arith))
        | inr differs ↦ rw (free, differs) (candidates-split known before after e amount h c k)
      ]
    ]

orphans-none :
    (os : List PendingPaymentSnapshot) (amount : ℕ)
    → All (λ o. ¬ HasAmount amount o) os
    → orphans_per_amount os amount ≡ 0
unfolding orphans_per_amount
orphans-none [] amount h = refl
orphans-none (o ∷ os) amount (miss, h) = elim (Bool-cases (o.amount_rial == amount)) [
  | inl fits ↦ absurd (miss (ground arith))
  | inr differs ↦ rw differs (omega (arith, orphans-none os amount h))
]

orphans-split :
    (before after : List PendingPaymentSnapshot) (o : PendingPaymentSnapshot) (amount : ℕ)
    → All (λ f. ¬ HasAmount amount f) before
    → HasAmount amount o
    → All (λ f. ¬ HasAmount amount f) after
    → orphans_per_amount (before ++ o ∷ after) amount ≡ 1
unfolding orphans_per_amount
orphans-split [] after o amount h c k = ground (arith, orphans-none after amount k)
orphans-split (f ∷ before) after o amount (miss, h) c k =
    elim (Bool-cases (f.amount_rial == amount)) [
      | inl fits ↦ absurd (miss (ground arith))
      | inr differs ↦ rw differs (omega (arith, orphans-split before after o amount h c k))
    ]

-- When the decision for an orphan is to adopt.
abbrev pub IsMatched :
    List PendingPaymentSnapshot
    → List UnverifiedPayment
    → List String
    → PendingPaymentSnapshot
    → AdoptionDecision
    → Type 0
IsMatched os us known o d =
    (a : String)
    → (d ≡ adopt o.id a) ↔ (
        ((p : PendingPaymentSnapshot) × IsOnly (HasAmount o.amount_rial) os p)
        × ((e : UnverifiedPayment) × IsOnly (IsCandidate known o.amount_rial) us e
            × (e.authority ≡ a)))

choose-adopt :
    (id j a : String) (cs : List String) → choose_candidate id cs ≡ adopt j a → cs ≡ a ∷ []
unfolding choose_candidate
choose-adopt id j a [] h = cc
choose-adopt id j a (c ∷ []) h = cc
choose-adopt id j a (c ∷ d ∷ cs) h = cc

module _ (os : List PendingPaymentSnapshot) (us : List UnverifiedPayment)
    (known : List String) where
  abbrev pub decision : PendingPaymentSnapshot → AdoptionDecision
  decision o =
      decide_adoption (orphans_per_amount os o.amount_rial)
        (candidates_per_amount known us o.amount_rial) o

  pub decision-adopt :
      (o : PendingPaymentSnapshot) (j a : String)
      → decision o ≡ adopt j a
      → (orphans_per_amount os o.amount_rial ≤ 1)
        × (candidates_per_amount known us o.amount_rial ≡ a ∷ [])
  unfolding decide_adoption
  decision-adopt o j a h = elim (Bool-cases (ltb 1 (orphans_per_amount os o.amount_rial))) [
    | inl many ↦ absurd (ground arith)
    | inr few ↦ (ground arith, choose-adopt o.id j a _ (rw (few, decide_adoption) at h))
  ]

  decision-IsMatched :
      (o : PendingPaymentSnapshot)
      → 1 ≤ orphans_per_amount os o.amount_rial
      → IsMatched os us known o (decision o)
  decision-IsMatched o present a = (
    (λ h.
        let (few, only) = decision-adopt o o.id a h in
        (
          one_orphan os o.amount_rial (omega arith),
          candidates-IsCandidate known us o.amount_rial a only,
        )),
    (λ h.
        let (p, lone) = h.0 in
        let (e, only, same) = h.1 in
        let one : orphans_per_amount os o.amount_rial ≡ 1 =
          subst (λ (l : List PendingPaymentSnapshot). orphans_per_amount l o.amount_rial ≡ 1)
            (sym lone.split)
            (orphans-split lone.before lone.after p o.amount_rial lone.none_before lone.holds
              lone.none_after) in
        let cand : candidates_per_amount known us o.amount_rial ≡ e.authority ∷ [] =
          subst
            (λ (l : List UnverifiedPayment).
              candidates_per_amount known l o.amount_rial ≡ e.authority ∷ [])
            (sym only.split)
            (candidates-split known only.before only.after e o.amount_rial only.none_before
              only.holds only.none_after) in
        unfold decide_adoption choose_candidate in ground arith),
  )

  -- A part of the orphans counts no more of an amount than the whole does.
  abbrev pub IsPart : List PendingPaymentSnapshot → Type 0
  IsPart suf = (amount : ℕ) → orphans_per_amount suf amount ≤ orphans_per_amount os amount

  pub rest-IsPart :
      (o : PendingPaymentSnapshot) (suf : List PendingPaymentSnapshot)
      → IsPart (o ∷ suf)
      → IsPart suf
  unfolding orphans_per_amount
  rest-IsPart o suf p amount = omega (arith, p amount)

  head-counted :
      (o : PendingPaymentSnapshot) (suf : List PendingPaymentSnapshot)
      → IsPart (o ∷ suf)
      → 1 ≤ orphans_per_amount os o.amount_rial
  unfolding orphans_per_amount
  head-counted o suf p = ground (arith, p o.amount_rial)

  decisions-IsMatched :
      (suf : List PendingPaymentSnapshot)
      → IsPart suf
      → All₂ (IsMatched os us known) suf (map decision suf)
  decisions-IsMatched [] p = tt
  decisions-IsMatched (o ∷ suf) p =
      (decision-IsMatched o (head-counted o suf p), decisions-IsMatched suf (rest-IsPart o suf p))

pub match_orphans-ok :
    (os : List PendingPaymentSnapshot) (us : List UnverifiedPayment) (known : List String)
    {ds : List AdoptionDecision}
    → match_orphans os us known ≡ ok ds
    → ds ≡ map (decision os us known) os
unfolding match_orphans
match_orphans-ok os us known h = ground arith

-- An authority is adopted for an orphaned payment exactly when that payment is the only orphan with
-- its amount, and the authority is that of the one payment in the gateway's list with this amount
-- that no payment of ours already carries. There is one decision for each orphan, in order.
pub match_orphans-IsMatched :
    (os : List PendingPaymentSnapshot) (us : List UnverifiedPayment) (known : List String)
    {ds : List AdoptionDecision}
    → match_orphans os us known ≡ ok ds
    → All₂ (IsMatched os us known) os ds
match_orphans-IsMatched os us known h =
    subst (All₂ (IsMatched os us known) os) (sym (match_orphans-ok os us known h))
      (decisions-IsMatched os us known os (λ m. omega arith))
