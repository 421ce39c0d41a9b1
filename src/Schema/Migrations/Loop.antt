-- ===== src/Schema/Migrations/Loop.antt =====
-- The loop of `migrateDocument`: it ends, and it takes the steps up to the target or stops at one that
-- throws.
use hamboom.Base.{
  ap, sym, subst, ge→ltb, lt→ltb, ℕ, zero, suc, ◌+◌, ◌≤◌, ◌<◌, ◌≡◌, ◌≢◌, ◌⊎◌, ◌∙◌, refl, String,
  Option, none, some, List, [], ◌∷◌, ◌++◌, ltb, Bool-cases, inl, inr, arith,
}
use hamboom.Schema.Migrations.{
  Documents, Migration, MigrationResult, Outcome, Stepped, stepped, threw, step_threw, migrated,
  out_of_fuel, find_from, with_version, take_step, stamp, climb,
}
use hamboom.Schema.Migrations.Chain.{
  Leads, IsChain, In, find_from-In, find_from-Leads, find_from-before,
}

append-nil : (xs : List String) → xs ≡ xs ++ []
append-nil [] = refl
append-nil (x ∷ xs) = ap (λ ys. x ∷ ys) (append-nil xs)

append-append :
    (xs : List String) (y : String) (zs : List String) → (xs ++ y ∷ []) ++ zs ≡ xs ++ y ∷ zs
append-append [] y zs = refl
append-append (x ∷ xs) y zs = ap (λ ys. x ∷ ys) (append-append xs y zs)

module _ (D : Documents) where
  -- The target is written where the document had no version.
  abbrev pub stamped : Option ℕ → ℕ → D.Doc → D.Doc
  stamped none target doc = D.set_version target doc
  stamped (some _) target doc = doc

  stamp-ne-out_of_fuel :
      (from : ℕ) (v : Option ℕ) (c : ℕ) (applied : List String) (doc : D.Doc)
      → stamp D from v c applied doc ≢ out_of_fuel
  unfolding stamp
  stamp-ne-out_of_fuel from none c applied doc h = cc
  stamp-ne-out_of_fuel from (some v) c applied doc h = cc

module _ {D : Documents} where
  -- From a document at a version to one at a later version: at each version a step of the list that
  -- starts there, which did not throw, and behind it the next version is written; with what the
  -- steps describe.
  abbrev pub Taken : List (Migration D) → ℕ → D.Doc → ℕ → D.Doc → List String → Type 0
  Taken ms c doc at last [] = (c ≡ at) × (doc ≡ last)
  Taken ms c doc at last (what ∷ taken) =
      (m : Migration D) × (next : D.Doc) × In m ms
      × (m.from ≡ c)
      × (what ≡ m.describe)
      × (m.migrate doc ≡ stepped next)
      × Taken ms (c + 1) (D.set_version (c + 1) next) at last taken

  -- The step that the loop finds, if it finds one, is to the next version.
  abbrev OneStep : List (Migration D) → ℕ → Type 0
  OneStep ms c =
      (find_from c ms ≡ none) ⊎ ((m : Migration D) × (find_from c ms ≡ some m) × (m.to ≡ c + 1))

  chain-OneStep :
      (ms : List (Migration D)) (target c : ℕ) → IsChain ms target → c < target → OneStep ms c
  unfolding find_from
  chain-OneStep [] target c l h = inl refl
  chain-OneStep (m ∷ ms) target c l h = elim (Bool-cases (ltb c m.from)) [
    | inl early ↦ inl (find_from-before (m ∷ ms) m.from target c l (ground arith))
    | inr late ↦ inr (find_from-Leads (m ∷ ms) m.from target c l (ground arith) h)
  ]

  module _ (ms : List (Migration D)) (target from : ℕ) (v : Option ℕ) where
    -- what the loop does with a step that was taken
    abbrev after_step : (fuel : ℕ) → Migration D → List String → Stepped D.Doc → Outcome D.Doc
    after_step fuel m applied o = elim o [
      | threw left ↦ step_threw left
      | stepped next ↦ climb fuel ms target from v m.to (applied ++ m.describe ∷ []) next
    ]

    after_step-ends :
        (fuel : ℕ) (m : Migration D) (applied : List String) (o : Stepped D.Doc)
        → ((d : D.Doc)
            → climb fuel ms target from v m.to (applied ++ m.describe ∷ []) d ≢ out_of_fuel)
        → after_step fuel m applied o ≢ out_of_fuel
    after_step-ends fuel m applied (threw left) h = λ e. cc
    after_step-ends fuel m applied (stepped next) h = h next

    pub climb-ends :
        (fuel c : ℕ) (applied : List String) (doc : D.Doc)
        → IsChain ms target
        → target ≤ c + fuel
        → climb fuel ms target from v c applied doc ≢ out_of_fuel
    unfolding climb
    climb-ends zero c applied doc l h =
        rw (ge→ltb c target (omega arith)) (stamp-ne-out_of_fuel D from v c applied doc)
    climb-ends (suc fuel) c applied doc l h = elim (Bool-cases (ltb c target)) [
      | inr done ↦ rw (done, climb) (stamp-ne-out_of_fuel D from v c applied doc)
      | inl more ↦ elim (chain-OneStep ms target c l (ground arith)) [
        | inl lost ↦ rw (more, climb) (rw (lost, climb) (λ e. cc))
        | inr (m, found, next) ↦
            rw (more, climb)
              (rw (found, climb)
                (after_step-ends fuel m applied (take_step m doc)
                  (λ d. climb-ends fuel m.to (applied ++ m.describe ∷ []) d l (omega arith))))
      ]
    ]

    -- The loop from a version that the steps cover takes the steps up to the target and stamps it,
    -- or stops at the step that throws.
    abbrev Reaches : (c : ℕ) → D.Doc → List String → Outcome D.Doc → Type 0
    Reaches c doc applied o =
        (r : MigrationResult) × (after : D.Doc) × (last : D.Doc) × (taken : List String) × (o
          ≡ migrated r after)
        × Taken ms c doc target last taken
        × (after ≡ stamped D v target last)
        × (r.from ≡ from)
        × (r.to ≡ target)
        × (r.applied ≡ applied ++ taken)
        × (D.get_version after ≡ some target)

    abbrev Stops : (c : ℕ) → D.Doc → Outcome D.Doc → Type 0
    Stops c doc o =
        (at : ℕ) × (last : D.Doc) × (taken : List String) × (m : Migration D) × (left : D.Doc) × (o
          ≡ step_threw left)
        × Taken ms c doc at last taken
        × (at < target)
        × In m ms
        × (m.from ≡ at)
        × (m.migrate last ≡ threw left)

    abbrev Ends : (c : ℕ) → D.Doc → List String → Outcome D.Doc → Type 0
    Ends c doc applied o = Reaches c doc applied o ⊎ Stops c doc o

    -- The version that the loop is at is the document's, unless it has none.
    abbrev Known : ℕ → D.Doc → Type 0
    Known c doc = (v ≡ none) ⊎ (D.get_version doc ≡ some c)

    module _ (law : (n : ℕ) (doc : D.Doc) → D.get_version (D.set_version n doc) ≡ some n) where
      stamp-Reaches :
          (applied : List String) (doc : D.Doc)
          → (w : Option ℕ) → v ≡ w
          → Known target doc
          → Reaches target doc applied (stamp D from w target applied doc)
      unfolding stamp
      stamp-Reaches applied doc none e k = (
        _,
        D.set_version target doc,
        doc,
        [],
        refl,
        (refl, refl),
        ap (λ w. stamped D w target doc) (sym e),
        refl,
        refl,
        append-nil applied,
        law target doc,
      )
      stamp-Reaches applied doc (some n) e (inl f) = absurd (ground (arith, e, f))
      stamp-Reaches applied doc (some n) e (inr k) = (
        _,
        doc,
        doc,
        [],
        refl,
        (refl, refl),
        ap (λ w. stamped D w target doc) (sym e),
        refl,
        refl,
        append-nil applied,
        k,
      )

      -- one step of the loop put before what follows it
      further :
          (c : ℕ) (doc next : D.Doc) (m : Migration D) (applied : List String) (o : Outcome D.Doc)
          → In m ms
          → m.from ≡ c
          → c < target
          → m.migrate doc ≡ stepped next
          → Ends (c + 1) (D.set_version (c + 1) next) (applied ++ m.describe ∷ []) o
          → Ends c doc applied o
      further c doc next m applied o i f l e (inl (r, after, last, taken, d, k, s, a, b, n, w)) =
          inl (
            r,
            after,
            last,
            m.describe ∷ taken,
            d,
            (m, next, i, f, refl, e, k),
            s,
            a,
            b,
            n ∙ append-append applied m.describe taken,
            w,
          )
      further c doc next m applied o i f l e (inr (at, last, taken, n, left, d, k, b, j, g, w)) =
          inr (at, last, m.describe ∷ taken, n, left, d, (m, next, i, f, refl, e, k), b, j, g, w)

      after_step-Ends :
          (fuel c : ℕ) (m : Migration D) (applied : List String) (doc : D.Doc) (o : Stepped D.Doc)
          → m.migrate doc ≡ o
          → In m ms
          → m.from ≡ c
          → c < target
          → ((d : D.Doc)
              → Ends (c + 1) (D.set_version (c + 1) d) (applied ++ m.describe ∷ []) (
                  climb fuel ms target from v m.to
                    (applied ++ m.describe ∷ [])
                    (D.set_version m.to d)))
          → Ends c doc applied (after_step fuel m applied (with_version (D.set_version m.to) o))
      after_step-Ends fuel c m applied doc (threw left) e i f l rest =
          inr (c, doc, [], m, left, refl, (refl, refl), l, i, f, e)
      after_step-Ends fuel c m applied doc (stepped d) e i f l rest =
          further c doc d m applied _ i f l e (rest d)

      pub climb-Reaches :
          (a fuel c : ℕ) (applied : List String) (doc : D.Doc)
          → Leads a ms target
          → a ≤ c
          → c + fuel ≡ target
          → Known c doc
          → Ends c doc applied (climb fuel ms target from v c applied doc)
      unfolding climb take_step
      climb-Reaches a zero c applied doc l h k w =
          let here : c ≡ target = omega arith in
          rw (ge→ltb c target (omega arith), climb)
            (subst (λ n. Ends n doc applied (stamp D from v n applied doc)) (sym here)
              (inl (stamp-Reaches applied doc v refl (subst (λ n. Known n doc) here w))))
      climb-Reaches a (suc fuel) c applied doc l h k w =
          let more : c < target = omega arith in
          let (m, found, next) = find_from-Leads ms a target c l h more in
          let (i, f) = find_from-In ms c m found in
          rw (lt→ltb c target more, climb)
            (rw (found, climb)
              (after_step-Ends fuel c m applied doc (m.migrate doc) refl i f more (λ d.
                subst
                  (λ n. Ends (c + 1) (D.set_version (c + 1) d) (applied ++ m.describe ∷ []) (
                    climb fuel ms target from v n (applied ++ m.describe ∷ []) (D.set_version n d)))
                  (sym next)
                  (climb-Reaches a fuel (c + 1) (applied ++ m.describe ∷ [])
                    (D.set_version (c + 1) d) l (omega arith) (omega arith)
                    (inr (law (c + 1) d))))))
