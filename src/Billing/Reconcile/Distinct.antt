-- ===== src/Billing/Reconcile/Distinct.antt =====
-- No authority is adopted for two payments.
use hamboom.Base.{
  ℕ, String, ◌≡◌, ◌≢◌, ◌⊎◌, refl, sym, subst, ◌∙◌, List, [], ◌∷◌, map, arith, All, inl, inr,
}
use hamboom.Billing.Reconcile.{
  PendingPaymentSnapshot, UnverifiedPayment, AdoptionDecision, adopt, refuse, ok,
  orphans_per_amount, candidates_per_amount, match_orphans,
}
use hamboom.Billing.Reconcile.Adoption.{
  decision, decision-adopt, IsPart, rest-IsPart, match_orphans-ok,
}

abbrev pub adopted : List AdoptionDecision → List String
adopted [] = []
adopted (adopt id a ∷ ds) = a ∷ adopted ds
adopted (refuse id r ∷ ds) = adopted ds

abbrev pub AreDistinct : List String → Type 0
AreDistinct [] = Unit {0}
AreDistinct (a ∷ as') = All (λ b. a ≢ b) as' × AreDistinct as'

abbrev pub authorities : List UnverifiedPayment → List String
authorities = map λ e. e.authority

-- The gateway reported `a` with this amount.
abbrev Reported : String → ℕ → List UnverifiedPayment → Type 0
Reported a amount [] = ⊥
Reported a amount (e ∷ es) = ((e.authority ≡ a) × (e.amount_rial ≡ amount)) ⊎ Reported a amount es

candidates-Reported :
    (known : List String) (es : List UnverifiedPayment) (amount : ℕ) (a : String)
    → candidates_per_amount known es amount ≡ a ∷ []
    → Reported a amount es
unfolding candidates_per_amount
candidates-Reported known [] amount a h = cc
candidates-Reported known (e ∷ es) amount a h =
    ground (arith, candidates-Reported known es amount a)

absent-Reported :
    (a b : String) (amount : ℕ) (es : List UnverifiedPayment)
    → a ≡ b
    → All (λ c. a ≢ c) (authorities es)
    → ¬ Reported b amount es
absent-Reported a b amount [] e h r = r
absent-Reported a b amount (f ∷ es) e (miss, h) (inl (p, q)) = miss (e ∙ sym p)
absent-Reported a b amount (f ∷ es) e (miss, h) (inr r) = absent-Reported a b amount es e h r

-- With distinct authorities an authority has one amount.
Reported-unique :
    (a : String) (m n : ℕ) (es : List UnverifiedPayment)
    → AreDistinct (authorities es)
    → Reported a m es
    → Reported a n es
    → m ≡ n
Reported-unique a m n [] d r s = absurd r
Reported-unique a m n (e ∷ es) d (inl p) (inl q) = sym p.1 ∙ q.1
Reported-unique a m n (e ∷ es) d (inl p) (inr s) =
    absurd (absent-Reported e.authority a n es p.0 d.0 s)
Reported-unique a m n (e ∷ es) d (inr r) (inl q) =
    absurd (absent-Reported e.authority a m es q.0 d.0 r)
Reported-unique a m n (e ∷ es) d (inr r) (inr s) = Reported-unique a m n es d.1 r s

decision-cases :
    (d : AdoptionDecision)
    → ((j : String) × (a : String) × (d ≡ adopt j a)) ⊎ (adopted (d ∷ []) ≡ [])
decision-cases (adopt j a) = inl (j, a, refl)
decision-cases (refuse j r) = inr refl

adopted-cons :
    (d : AdoptionDecision) (ds : List AdoptionDecision)
    → adopted (d ∷ []) ≡ []
    → adopted (d ∷ ds) ≡ adopted ds
adopted-cons (adopt j a) ds h = cc
adopted-cons (refuse j r) ds h = refl

module _ (os : List PendingPaymentSnapshot) (us : List UnverifiedPayment) (known : List String)
    (distinct : AreDistinct (authorities us)) where
  clash :
      (o p : PendingPaymentSnapshot) (rest : List PendingPaymentSnapshot) (i j a b : String)
      → IsPart os us known (o ∷ p ∷ rest)
      → decision os us known o ≡ adopt i a
      → decision os us known p ≡ adopt j b
      → a ≢ b
  unfolding orphans_per_amount
  clash o p rest i j a b part h k e =
      let (few, mine) = decision-adopt os us known o i a h in
      let (_, yours) = decision-adopt os us known p j b k in
      let same : o.amount_rial ≡ p.amount_rial =
        Reported-unique a o.amount_rial p.amount_rial us distinct
          (candidates-Reported known us o.amount_rial a mine)
          (subst (λ (c : String). Reported c p.amount_rial us) (sym e)
            (candidates-Reported known us p.amount_rial b yours)) in
      ground (arith, part o.amount_rial)

  skip-IsPart :
      (o p : PendingPaymentSnapshot) (rest : List PendingPaymentSnapshot)
      → IsPart os us known (o ∷ p ∷ rest)
      → IsPart os us known (o ∷ rest)
  unfolding orphans_per_amount
  skip-IsPart o p rest part amount = omega (arith, part amount)

  fresh :
      (o : PendingPaymentSnapshot) (rest : List PendingPaymentSnapshot) (i a : String)
      → IsPart os us known (o ∷ rest)
      → decision os us known o ≡ adopt i a
      → All (λ b. a ≢ b) (adopted (map (decision os us known) rest))
  fresh o [] i a part h = tt
  fresh o (p ∷ rest) i a part h = elim (decision-cases (decision os us known p)) [
    | inl (j, b, k) ↦
        rw k (clash o p rest i j a b part h k, fresh o rest i a (skip-IsPart o p rest part) h)
    | inr none_here ↦
        rw (adopted-cons (decision os us known p) (map (decision os us known) rest) none_here)
          (fresh o rest i a (skip-IsPart o p rest part) h)
  ]

  all-distinct :
      (part : List PendingPaymentSnapshot)
      → IsPart os us known part
      → AreDistinct (adopted (map (decision os us known) part))
  all-distinct [] p = tt
  all-distinct (o ∷ rest) p = elim (decision-cases (decision os us known o)) [
    | inl (i, a, h) ↦
        rw h (fresh o rest i a p h, all-distinct rest (rest-IsPart os us known o rest p))
    | inr none_here ↦
        rw (adopted-cons (decision os us known o) (map (decision os us known) rest) none_here)
          (all-distinct rest (rest-IsPart os us known o rest p))
  ]

-- If the gateway's list names every authority once, the authorities that one run adopts are
-- pairwise distinct: no two payments are ever given the same one.
pub match_orphans-AreDistinct :
    (os : List PendingPaymentSnapshot) (us : List UnverifiedPayment) (known : List String)
    {ds : List AdoptionDecision}
    → AreDistinct (authorities us)
    → match_orphans os us known ≡ ok ds
    → AreDistinct (adopted ds)
match_orphans-AreDistinct os us known distinct h =
    subst (λ (l : List AdoptionDecision). AreDistinct (adopted l))
      (sym (match_orphans-ok os us known h))
      (all-distinct os us known distinct os (λ m. omega arith))
