-- ===== src/Base/Table.antt =====
-- A `Map` whose keys are numbers or objects by identity, each object a number, and a `Set` of such.
use Prim.Native.Nat.{ℕ}
use mathlib.Core.Path.{◌≡◌, refl}
use mathlib.Core.Bool.{Bool, true, false}
use mathlib.Core.Option.{Option, none, some}
use mathlib.Core.List.{List, [], ◌∷◌}
use native.Mathlib.Omega.{arith}
use hamboom.Base.Tests.{◌==◌, if◌then◌else◌}

abbrev pub Table {ℓ} : Type ℓ → Type ℓ
Table V = List (ℕ × V)

module _ {ℓ} {V : Type ℓ} where
  -- `map.get(k)`
  unfoldable pub find : ℕ → Table V → Option V
  find k [] = none
  find k ((j, v) ∷ m) = if j == k then some v else find k m

  -- `map.set(k, v)`
  unfoldable pub store : ℕ → V → Table V → Table V
  store k v [] = (k, v) ∷ []
  store k v ((j, w) ∷ m) = if j == k then (k, v) ∷ m else (j, w) ∷ store k v m

  -- `map.delete(k)`
  unfoldable pub erase : ℕ → Table V → Table V
  erase k [] = []
  erase k ((j, w) ∷ m) = if j == k then erase k m else (j, w) ∷ erase k m

  pub find-store :
      (k j : ℕ) (v : V) (m : Table V) → find j (store k v m) ≡ (if k == j then some v else find j m)
  unfolding find store
  find-store k j v [] = refl
  find-store k j v ((i, w) ∷ m) = ground (arith, find-store k j v m)

  pub find-erase :
      (k j : ℕ) (m : Table V) → find j (erase k m) ≡ (if k == j then none else find j m)
  unfolding find erase
  find-erase k j [] = ground arith
  find-erase k j ((i, w) ∷ m) = ground (arith, find-erase k j m)

-- `set.has(k)`
unfoldable pub has : ℕ → List ℕ → Bool
has k [] = false
has k (j ∷ s) = if j == k then true else has k s

-- `set.add(k)`
unfoldable pub add : ℕ → List ℕ → List ℕ
add k [] = k ∷ []
add k (j ∷ s) = if j == k then j ∷ s else j ∷ add k s

-- `set.delete(k)`
unfoldable pub drop : ℕ → List ℕ → List ℕ
drop k [] = []
drop k (j ∷ s) = if j == k then drop k s else j ∷ drop k s

pub has-add : (k j : ℕ) (s : List ℕ) → has j (add k s) ≡ (if k == j then true else has j s)
unfolding has add
has-add k j [] = refl
has-add k j (i ∷ s) = ground (arith, has-add k j s)

pub has-drop : (k j : ℕ) (s : List ℕ) → has j (drop k s) ≡ (if k == j then false else has j s)
unfolding has drop
has-drop k j [] = ground arith
has-drop k j (i ∷ s) = ground (arith, has-drop k j s)
