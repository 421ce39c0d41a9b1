-- ===== src/Schema/Migrations.antt =====
-- packages/ydoc-schema/src/migrations: bringing a document to the version that the program knows.
-- A document of Yjs is a parameter, with the number under the key schemaVersion of its root "meta".
-- A step may throw, with the document as it had left it: Yjs takes nothing back.
pub mod Chain
pub mod Loop
pub mod Done
mod Tests
use hamboom.Base.{
  ℕ, zero, suc, ◌+◌, ◌-◌, Bool, true, false, not, ◌||◌, String, Option, none, some, List, [], ◌∷◌,
  ◌++◌, length, ltb, leb, ◌==◌, if◌then◌else◌, is_some,
}

pub record Documents : Type 1 where
  pub Doc : Type 0
  pub get_version : Doc → Option ℕ
  pub set_version : ℕ → Doc → Doc

-- How a step ends.
pub data Stepped (Doc : Type 0) : Type 0 where
  stepped threw : Doc → Stepped Doc

-- The transaction of a step: the version is written behind it, if it did not throw.
abbrev pub with_version : {Doc : Type 0} → (Doc → Doc) → Stepped Doc → Stepped Doc
with_version write (stepped doc) = stepped (write doc)
with_version write (threw doc) = threw doc

module _ (D : Documents) where
  pub record Migration : Type 0 where
    pub from : ℕ
    pub to : ℕ
    pub describe : String
    pub migrate : D.Doc → Stepped D.Doc

pub data ChainError : Type 0 where
  not_one_step broken wrong_end : ChainError

pub data Check : Type 0 where
  fine : Check
  refused : ChainError → Check

pub record MigrationResult : Type 0 where
  pub from : ℕ
  pub to : ℕ
  pub applied : List String
  pub changed : Bool

-- `out_of_fuel` stands for a loop that does not end.
pub data Outcome {ℓ} (A : Type ℓ) : Type ℓ where
  migrated : MigrationResult → A → Outcome A
  too_new : (document_version supported : ℕ) → Outcome A
  bad_chain : ChainError → Outcome A
  no_path : (current : ℕ) → Outcome A
  step_threw : A → Outcome A
  out_of_fuel : Outcome A

abbrev pub earliest_schema_version : ℕ
earliest_schema_version = 1

-- `stored ?? EARLIEST_SCHEMA_VERSION`
abbrev pub or_earliest : Option ℕ → ℕ
or_earliest none = earliest_schema_version
or_earliest (some version) = version

module _ (D : Documents) where
  -- What follows the loop; `current` and `applied` are its variables.
  unfoldable pub stamp : (from : ℕ) → Option ℕ → ℕ → List String → D.Doc → Outcome D.Doc
  stamp from (some _) current applied doc =
      migrated
        (record { from = from; to = current; applied = applied; changed = ltb 0 (length applied) })
        doc
  stamp from none current applied doc =
      migrated (record { from = from; to = current; applied = applied; changed = true })
        (D.set_version current doc)

module _ {D : Documents} where
  -- `previous && previous.to !== migration.from`
  abbrev pub is_broken : Option (Migration D) → Migration D → Bool
  is_broken none m = false
  is_broken (some previous) m = not (previous.to == m.from)

  -- the loop of `assertChain`
  unfoldable pub check_steps : Option (Migration D) → List (Migration D) → Check
  check_steps previous [] = fine
  check_steps previous (m ∷ ms) =
      let rest = check_steps (some m) ms in
      if not (m.to == m.from + 1)
      then refused not_one_step
      else if is_broken previous m
      then refused broken
      else rest

  -- `migrations.at(-1)`
  unfoldable pub last_of : Option (Migration D) → List (Migration D) → Option (Migration D)
  last_of found [] = found
  last_of found (m ∷ ms) = last_of (some m) ms

  abbrev pub ends_at : ℕ → Option (Migration D) → Check
  ends_at target none = fine
  ends_at target (some m) = if m.to == target then fine else refused wrong_end

  -- the test behind the loop of `assertChain`
  unfoldable pub assert_end : ℕ → List (Migration D) → Check → Check
  unfolding last_of
  assert_end target ms (refused e) = refused e
  assert_end target ms fine = ends_at target (last_of none ms)

  unfoldable pub assert_chain : ℕ → List (Migration D) → Check
  unfolding check_steps assert_end
  assert_chain target ms = assert_end target ms (check_steps none ms)

  -- `migrations.find((migration) => migration.from === current)`
  unfoldable pub find_from : ℕ → List (Migration D) → Option (Migration D)
  find_from current [] = none
  find_from current (m ∷ ms) = if m.from == current then some m else find_from current ms

  unfoldable pub take_step : Migration D → D.Doc → Stepped D.Doc
  take_step m doc = with_version (D.set_version m.to) (m.migrate doc)

  -- the `while` loop and what follows it
  unfoldable pub climb :
      (fuel : ℕ)
      → List (Migration D)
      → (target from : ℕ) → Option ℕ
      → (current : ℕ) → List String
      → D.Doc
      → Outcome D.Doc
  unfolding find_from take_step stamp
  climb zero ms target from version current applied doc =
      if ltb current target then out_of_fuel else stamp D from version current applied doc
  climb (suc fuel) ms target from version current applied doc = elim (ltb current target) [
    | false ↦ stamp D from version current applied doc
    | true ↦ elim (find_from current ms) [
      | none ↦ no_path current
      | some m ↦ elim (take_step m doc) [
        | threw left ↦ step_threw left
        | stepped next ↦ climb fuel ms target from version m.to (applied ++ m.describe ∷ []) next
      ]
    ]
  ]

  -- `migrateDocument` behind `assertChain`
  unfoldable pub migrate_from : List (Migration D) → ℕ → Option ℕ → D.Doc → Outcome D.Doc
  unfolding climb
  migrate_from ms target version doc =
      let from = or_earliest version in
      if ltb target from
      then too_new from target
      else climb (target - from) ms target from version from [] doc

  unfoldable pub migrate_checked : Check → List (Migration D) → ℕ → D.Doc → Outcome D.Doc
  unfolding migrate_from
  migrate_checked (refused e) ms target doc = bad_chain e
  migrate_checked fine ms target doc = migrate_from ms target (D.get_version doc) doc

  unfoldable pub migrate_document : List (Migration D) → ℕ → D.Doc → Outcome D.Doc
  unfolding migrate_checked assert_chain
  migrate_document ms target doc = migrate_checked (assert_chain target ms) ms target doc
