-- ===== src/Schema/Migrations/Chain.antt =====
-- What `assertChain` lets through: steps of one version each, without a gap, up to the target.
use hamboom.Base.{
  subst, ℕ, ◌+◌, ◌≤◌, ◌<◌, ◌≡◌, refl, none, some, List, [], ◌∷◌, ◌==◌, Bool-cases, inl, inr, arith,
  ◌⊎◌, some_inj,
}
use hamboom.Schema.Migrations.{
  Documents, Migration, Check, fine, refused, check_steps, last_of, ends_at, assert_end,
  assert_chain, find_from,
}

module _ {D : Documents} where
  -- The steps lead from one version to another.
  abbrev pub Leads : ℕ → List (Migration D) → ℕ → Type 0
  Leads a [] b = a ≡ b
  Leads a (m ∷ ms) b = (m.from ≡ a) × (m.to ≡ a + 1) × Leads (a + 1) ms b

  -- No steps at all, or steps that lead from the version of the first to the target.
  abbrev pub IsChain : List (Migration D) → ℕ → Type 0
  IsChain [] target = Unit
  IsChain (m ∷ ms) target = Leads m.from (m ∷ ms) target

  steps-Leads :
      (m : Migration D) (ms : List (Migration D)) (target : ℕ)
      → check_steps (some m) ms ≡ fine
      → ends_at target (last_of (some m) ms) ≡ fine
      → Leads m.to ms target
  unfolding check_steps last_of
  steps-Leads m [] target c e = ground arith
  steps-Leads m (n ∷ ms) target c e =
      let rest = steps-Leads n ms target (ground arith) e in
      let next : n.to ≡ m.to + 1 = ground arith in
      (ground arith, next, subst (λ a. Leads a ms target) next rest)

  first :
      (m : Migration D) (ms : List (Migration D)) (target : ℕ)
      → check_steps none (m ∷ ms) ≡ fine
      → ends_at target (last_of none (m ∷ ms)) ≡ fine
      → IsChain (m ∷ ms) target
  unfolding check_steps last_of
  first m ms target c e =
      let next : m.to ≡ m.from + 1 = ground arith in
      (refl, next, subst (λ a. Leads a ms target) next (steps-Leads m ms target (ground arith) e))

  parted :
      (ms : List (Migration D)) (target : ℕ) (c : Check)
      → assert_end target ms c ≡ fine
      → (c ≡ fine) × (ends_at target (last_of none ms) ≡ fine)
  unfolding assert_end
  parted ms target (refused e) h = cc
  parted ms target fine h = (refl, h)

  pub assert_chain-IsChain :
      (ms : List (Migration D)) (target : ℕ) → assert_chain target ms ≡ fine → IsChain ms target
  unfolding assert_chain
  assert_chain-IsChain [] target h = tt
  assert_chain-IsChain (m ∷ ms) target h =
      let (c, e) = parted (m ∷ ms) target (check_steps none (m ∷ ms)) h in first m ms target c e

  pub find_from-Leads :
      (ms : List (Migration D)) (a b current : ℕ)
      → Leads a ms b
      → a ≤ current
      → current < b
      → (m : Migration D) × (find_from current ms ≡ some m) × (m.to ≡ current + 1)
  unfolding find_from
  find_from-Leads [] a b current l h k = absurd (omega arith)
  find_from-Leads (m ∷ ms) a b current (f, t, l) h k = elim (Bool-cases (m.from == current)) [
    | inl here ↦ (m, rw here refl, ground arith)
    | inr past ↦ rw past (find_from-Leads ms (a + 1) b current l (ground arith) k)
  ]

  -- A version before the first step, or behind the last, has none.
  pub find_from-before :
      (ms : List (Migration D)) (a b current : ℕ)
      → Leads a ms b
      → current < a
      → find_from current ms ≡ none
  unfolding find_from
  find_from-before [] a b current l h = refl
  find_from-before (m ∷ ms) a b current (f, t, l) h =
      ground (arith, find_from-before ms (a + 1) b current l (omega arith))

  abbrev pub In : Migration D → List (Migration D) → Type 0
  In m [] = ⊥
  In m (n ∷ ms) = (n ≡ m) ⊎ In m ms

  -- The step that is found is one of the chain, and starts at the version.
  pub find_from-In :
      (ms : List (Migration D)) (current : ℕ) (m : Migration D)
      → find_from current ms ≡ some m
      → In m ms × (m.from ≡ current)
  unfolding find_from
  find_from-In [] current m f = cc
  find_from-In (n ∷ ms) current m f = elim (Bool-cases (n.from == current)) [
    | inl here ↦
        let same : n ≡ m = some_inj (rw here at f) in
        (inl same, subst (λ (k : Migration D). k.from ≡ current) same (ground (arith, here)))
    | inr past ↦ let (i, e) = find_from-In ms current m (rw past at f) in (inr i, e)
  ]
