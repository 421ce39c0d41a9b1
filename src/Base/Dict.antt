-- ===== src/Base/Dict.antt =====
-- A `Map<string, V>`: entries in the order of insertion, a write to a known key in its place.
use mathlib.Core.Logic.{inr, inl, ◌≢◌}
use hamboom.Base.Tests.{Bool-cases, if_both, ◌===◌, if◌then◌else◌}
use mathlib.Core.Bool.{true, Bool, false, not}
use Prim.Native.String.{String}
use mathlib.Core.Path.{◌≡◌, refl}
use mathlib.Core.List.{List, [], ◌∷◌}
use mathlib.Core.Option.{Option, none, some}
use native.Mathlib.Omega.{arith}
use text.Mathlib.TextEquality.{eq_iff}
use text.Mathlib.TextPositions.{eq_refl}

abbrev pub Dict {ℓ} : Type ℓ → Type ℓ
Dict V = List (String × V)

module _ {ℓ} {V : Type ℓ} where
  -- `map.get(k)`
  unfoldable pub get : String → Dict V → Option V
  get k [] = none
  get k ((j, v) ∷ m) = if j === k then some v else get k m

  -- `map.set(k, v)`
  unfoldable pub put : String → V → Dict V → Dict V
  put k v [] = (k, v) ∷ []
  put k v ((j, w) ∷ m) = if j === k then (k, v) ∷ m else (j, w) ∷ put k v m

  -- `for (const [k, v] of map) if (!keep(k, v)) map.delete(k)`
  unfoldable pub keep : (String → V → Bool) → Dict V → Dict V
  keep p [] = []
  keep p ((j, w) ∷ m) = if p j w then (j, w) ∷ keep p m else keep p m

  -- `map.delete(k)`
  unfoldable pub remove : String → Dict V → Dict V
  unfolding keep
  remove k m = keep (λ j _. not (j === k)) m

  pub get-put :
      (k j : String) (v : V) (m : Dict V)
      → get j (put k v m) ≡ (if k === j then some v else get j m)
  unfolding get put
  get-put k j v [] = refl
  get-put k j v ((i, w) ∷ m) = ground (arith, eq_iff k j, eq_iff i k, eq_iff i j, get-put k j v m)

  pub get-put_self : (k : String) (v : V) (m : Dict V) → get k (put k v m) ≡ some v
  get-put_self k v m = simp (get-put, eq_refl)

  pub get-remove :
      (k j : String) (m : Dict V) → get j (remove k m) ≡ (if k === j then none else get j m)
  unfolding get remove
  get-remove k j [] = ground arith
  get-remove k j ((i, w) ∷ m) = ground (arith, eq_iff k j, eq_iff i k, eq_iff i j, get-remove k j m)

  pub get-remove_self : (k : String) (m : Dict V) → get k (remove k m) ≡ none
  get-remove_self k m = simp (get-remove, eq_refl)

-- The test decides equality of texts.
pub ne_of_false : (s t : String) → (s === t) ≡ false → s ≢ t
ne_of_false s t h e = ground (arith, (eq_iff s t).1 e)

module _ {ℓ} {V : Type ℓ} where
  -- Every key stands once, as in a `Map`.
  abbrev pub IsDistinct : Dict V → Type ℓ
  IsDistinct [] = Unit
  IsDistinct ((k, v) ∷ m) = (get k m ≡ none) × IsDistinct m

  put-IsDistinct_none :
      (k j : String) (v : V) (m : Dict V)
      → get j m ≡ none
      → (k === j) ≡ false
      → get j (put k v m) ≡ none
  put-IsDistinct_none k j v m e n = rw (get-put k j v m) (rw n e)

  pub put-IsDistinct : (k : String) (v : V) (m : Dict V) → IsDistinct m → IsDistinct (put k v m)
  unfolding put get
  put-IsDistinct k v [] d = (refl, tt)
  put-IsDistinct k v ((j, w) ∷ m) (e, d) = elim (Bool-cases (j === k)) [
    | inl same ↦ rw same (rw⁻¹ ((eq_iff j k).0 same) e, d)
    | inr other ↦ rw other (
      put-IsDistinct_none k j v m e (ground (arith, eq_iff k j, eq_iff j k)),
      put-IsDistinct k v m d,
    )
  ]

  pub keep-none :
      (p : String → V → Bool) (j : String) (m : Dict V) → get j m ≡ none → get j (keep p m) ≡ none
  unfolding keep get
  keep-none p j [] e = refl
  keep-none p j ((i, w) ∷ m) e = ground (arith, keep-none p j m)

  pub keep-IsDistinct : (p : String → V → Bool) (m : Dict V) → IsDistinct m → IsDistinct (keep p m)
  unfolding keep
  keep-IsDistinct p [] d = tt
  keep-IsDistinct p ((i, w) ∷ m) (e, d) =
      if_both IsDistinct (p i w) (keep-none p i m e, keep-IsDistinct p m d) (keep-IsDistinct p m d)

  -- What is kept was there and passes the test.
  pub get-keep :
      (p : String → V → Bool) (j : String) (v : V) (m : Dict V)
      → get j (keep p m) ≡ some v
      → p j v ≡ true
  unfolding keep get
  get-keep p j v [] e = ground arith
  get-keep p j v ((i, w) ∷ m) e = ground (arith, get-keep p j v m, eq_iff i j)

  pub get-keep_old :
      (p : String → V → Bool) (j : String) (v : V) (m : Dict V)
      → IsDistinct m
      → get j (keep p m) ≡ some v
      → get j m ≡ some v
  unfolding keep get
  get-keep_old p j v [] d e = e
  get-keep_old p j v ((i, w) ∷ m) (f, d) e = ground (arith, get-keep_old p j v m d, eq_iff i j, f)

  pub get-keep_kept :
      (p : String → V → Bool) (j : String) (v : V) (m : Dict V)
      → get j m ≡ some v
      → p j v ≡ true
      → get j (keep p m) ≡ some v
  unfolding keep get
  get-keep_kept p j v [] e h = e
  get-keep_kept p j v ((i, w) ∷ m) e h = ground (arith, get-keep_kept p j v m, eq_iff i j)

  pub get-here :
      (k j : String) (v : V) (m : Dict V) → (k === j) ≡ true → get j ((k, v) ∷ m) ≡ some v
  unfolding get
  get-here k j v m e = rw e refl

  pub get-past :
      (k j : String) (v : V) (m : Dict V) → (k === j) ≡ false → get j ((k, v) ∷ m) ≡ get j m
  unfolding get
  get-past k j v m e = rw e refl

  pub get-put_same :
      (k j : String) (v : V) (m : Dict V) → (k === j) ≡ true → get j (put k v m) ≡ some v
  get-put_same k j v m e = rw (get-put k j v m) (rw e refl)

  pub get-put_other :
      (k j : String) (v : V) (m : Dict V) → (k === j) ≡ false → get j (put k v m) ≡ get j m
  get-put_other k j v m e = rw (get-put k j v m) (rw e refl)
