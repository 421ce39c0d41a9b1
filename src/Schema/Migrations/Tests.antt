-- ===== src/Schema/Migrations/Tests.antt =====
-- Documents that are a version and a number, and two migrations of them.
use hamboom.Schema.Migrations.Done.{migrate_document-ends, migrate_document-migrated}
use hamboom.Schema.Migrations.Loop.{Taken, stamped}
use hamboom.Schema.Migrations.Chain.{In}
use hamboom.Base.{
  ℕ, ◌+◌, ◌<◌, ◌⊎◌, ◌≡◌, ◌≢◌, refl, String, Option, none, some, List, [], ◌∷◌, arith,
}
use hamboom.Schema.Migrations.{
  Documents, Migration, MigrationResult, migrated, too_new, no_path, out_of_fuel, assert_chain,
  migrate_document, stepped, threw, step_threw,
}

abbrev pairs : Documents
pairs = record {
  Doc = Option ℕ × ℕ;
  get_version = λ doc. doc.0;
  set_version = λ n doc. (some n, doc.1);
}

abbrev one_two : Migration pairs
one_two = record {
  from = 1;
  to = 2;
  describe = "shadow";
  migrate = λ doc. stepped (doc.0, doc.1 + 10);
}

abbrev two_three : Migration pairs
two_three = record {
  from = 2;
  to = 3;
  describe = "angle";
  migrate = λ doc. stepped (none, doc.1 + 100);
}

abbrev failing : Migration pairs
failing = record { from = 2; to = 3; describe = "angle"; migrate = λ doc. threw (doc.0, doc.1 + 1) }

abbrev steps : List (Migration pairs)
steps = one_two ∷ two_three ∷ []

abbrev fresh : Option ℕ × ℕ
fresh = (none, 5)

migrate_document-migrated_example :
    let o = migrate_document {D = pairs} steps 3 fresh in
    ((r : MigrationResult) × (after last : Option ℕ × ℕ) × (taken : List String) × (o
        ≡ migrated r after)
      × Taken {D = pairs} steps 1 fresh 3 last taken
      × (after ≡ stamped pairs none 3 last)
      × (r.from ≡ 1)
      × (r.to ≡ 3)
      × (r.applied ≡ taken)
      × (after.0 ≡ some 3))
    ⊎ ((at : ℕ) × (last : Option ℕ × ℕ) × (taken : List String) × (m : Migration pairs)
        × (left : Option ℕ × ℕ) × (o ≡ step_threw left)
        × Taken {D = pairs} steps 1 fresh at last taken
        × (at < 3)
        × In {D = pairs} m steps
        × (m.from ≡ at)
        × (m.migrate last ≡ threw left))
unfolding assert_chain
migrate_document-migrated_example =
    migrate_document-migrated {D = pairs} (λ n doc. refl) steps 3 fresh refl
      (omega arith, omega arith)

-- A step that throws stops the migration, with the step before it done and stamped.
stops : migrate_document {D = pairs} (one_two ∷ failing ∷ []) 3 fresh ≡ step_threw (some 2, 16)
unfolding migrate_document
stops = refl

migrate_document-ends_example : migrate_document {D = pairs} steps 3 fresh ≢ out_of_fuel
migrate_document-ends_example = migrate_document-ends {D = pairs} steps 3 fresh

-- A document of a newer program is refused, and one below the first step has no path.
newer : migrate_document {D = pairs} steps 3 (some 4, 7) ≡ too_new 4 3
unfolding migrate_document
newer = refl

below : migrate_document {D = pairs} (two_three ∷ []) 3 (some 1, 7) ≡ no_path 1
unfolding migrate_document
below = refl
