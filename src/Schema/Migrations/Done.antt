-- ===== src/Schema/Migrations/Done.antt =====
-- A migration ends; unless a step throws, it takes one step for each version up to the target; and it
-- is done once.
use hamboom.Base.{
  ge→ltb, ℕ, ◌-◌, ◌≤◌, ◌<◌, ◌≡◌, ◌≢◌, ◌⊎◌, refl, false, String, Option, none, some, List, [], ◌∷◌,
  ltb, Bool-cases, inl, inr, arith,
}
use hamboom.Schema.Migrations.{
  Documents, Migration, MigrationResult, threw, step_threw, migrated, out_of_fuel, Check, fine,
  refused, assert_chain, stamp, climb, migrate_from, migrate_checked, migrate_document, or_earliest,
}
use hamboom.Schema.Migrations.Chain.{Leads, IsChain, In, assert_chain-IsChain}
use hamboom.Schema.Migrations.Loop.{Taken, stamped, climb-ends, climb-Reaches}

module _ (D : Documents) where
  known :
      (v : Option ℕ) (doc : D.Doc)
      → D.get_version doc ≡ v
      → (v ≡ none) ⊎ (D.get_version doc ≡ some (or_earliest v))
  known none doc e = inl refl
  known (some n) doc e = inr e

module _ {D : Documents} where
  checked-ends :
      (ms : List (Migration D)) (target : ℕ) (c : Check) (doc : D.Doc)
      → assert_chain target ms ≡ c
      → migrate_checked c ms target doc ≢ out_of_fuel
  unfolding migrate_checked migrate_from
  checked-ends ms target (refused e) doc f h = cc
  checked-ends ms target fine doc f h =
      let version = D.get_version doc in
      let from = or_earliest version in
      let ends =
        climb-ends ms target from version (target - from) from [] doc
          (assert_chain-IsChain ms target f) (omega arith) in
      elim (Bool-cases (ltb target from)) [
        | inl newer ↦ absurd (ground (arith, h, newer))
        | inr older ↦ ends (rw older at h)
      ]

  -- Bringing a document up always ends, whatever the migrations are, the document and the target:
  -- the chain is refused, or the document is too new, or a step is missing, or a step throws, or it
  -- is done.
  pub migrate_document-ends :
      (ms : List (Migration D)) (target : ℕ) (doc : D.Doc)
      → migrate_document ms target doc ≢ out_of_fuel
  unfolding migrate_document
  migrate_document-ends ms target doc = checked-ends ms target (assert_chain target ms) doc refl

  -- The first step starts at the version or before it, or the version is the target.
  abbrev pub Covers : List (Migration D) → (from target : ℕ) → Type 0
  Covers [] from target = from ≡ target
  Covers (m ∷ ms) from target = (m.from ≤ from) × (from ≤ target)

  covered-Leads :
      (ms : List (Migration D)) (from target : ℕ)
      → IsChain ms target
      → Covers ms from target
      → (a : ℕ) × Leads a ms target × (a ≤ from) × (from ≤ target)
  covered-Leads [] from target l c = (target, refl, omega arith, omega arith)
  covered-Leads (m ∷ ms) from target l (h, k) = (m.from, l, h, k)

  -- Where the chain of migrations is accepted and covers the document's version (1 where it has
  -- none), bringing it up to the target either succeeds or stops at a step that throws. It succeeds
  -- with exactly one step for each version from the document's to the target, each a step of the
  -- chain that starts at that version, applied to what the one before it left, and the next version
  -- written behind it; it reports the two versions and what the steps describe, in their order, and
  -- the target is the version of the document. It stops where a step of the chain throws at a
  -- version below the target, with those before it applied, and leaves what that step left.
  pub migrate_document-migrated :
      (law : (n : ℕ) (doc : D.Doc) → D.get_version (D.set_version n doc) ≡ some n)
      (ms : List (Migration D)) (target : ℕ) (doc : D.Doc)
      → let from = or_earliest (D.get_version doc) in
        let o = migrate_document ms target doc in
        assert_chain target ms ≡ fine
        → Covers ms from target
        → ((r : MigrationResult) × (after : D.Doc) × (last : D.Doc) × (taken : List String) × (o
              ≡ migrated r after)
            × Taken ms from doc target last taken
            × (after ≡ stamped D (D.get_version doc) target last)
            × (r.from ≡ from)
            × (r.to ≡ target)
            × (r.applied ≡ taken)
            × (D.get_version after ≡ some target))
          ⊎ ((at : ℕ) × (last : D.Doc) × (taken : List String) × (m : Migration D) × (left : D.Doc)
              × (o ≡ step_threw left)
              × Taken ms from doc at last taken
              × (at < target)
              × In m ms
              × (m.from ≡ at)
              × (m.migrate last ≡ threw left))
  unfolding migrate_document migrate_checked migrate_from
  migrate_document-migrated law ms target doc f c =
      let v = D.get_version doc in
      let from = or_earliest v in
      let (a, l, h, k) = covered-Leads ms from target (assert_chain-IsChain ms target f) c in
      rw (f, migrate_document)
        (rw (ge→ltb target from k) (
          climb-Reaches ms target from v law a (target - from) from [] doc l h (omega arith)
            (known D v doc refl)))

  -- A document that is at the target, with an accepted chain, is left exactly as it is: nothing is
  -- applied and nothing has changed, so a second migration does nothing.
  pub migrate_document_again :
      (ms : List (Migration D)) (target : ℕ) (doc : D.Doc)
      → assert_chain target ms ≡ fine
      → D.get_version doc ≡ some target
      → migrate_document ms target doc
        ≡ migrated (record { from = target; to = target; applied = []; changed = false }) doc
  unfolding migrate_document migrate_checked migrate_from climb stamp
  migrate_document_again ms target doc f e =
      let none_left : target - target ≡ 0 = omega arith in
      rw (f, migrate_document)
        (rw e (
          rw (ge→ltb target target (omega arith))
            (rw none_left (rw (ge→ltb target target (omega arith)) refl))))
