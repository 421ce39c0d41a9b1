-- ===== src/Base/Slices.antt =====
-- Parts of a list by native numbers.
use Prim.Native.Nat.{◌+◌, ℕ, zero, suc, ◌-◌, ◌≤◌, ◌<◌}
use mathlib.Core.Path.{◌≡◌, refl, ap, subst}
use hamboom.Base.Tests.{some_inj}
use mathlib.Core.Option.{Option, none, some}
use mathlib.Core.List.{List, [], ◌∷◌, ◌++◌}
use native.Mathlib.Omega.{arith}
use hamboom.Base.Lists.{length, All}

module _ {ℓ} {A : Type ℓ} where
  abbrev pub take : ℕ → List A → List A
  take zero xs = []
  take (suc n) [] = []
  take (suc n) (x ∷ xs) = x ∷ take n xs

  abbrev pub drop : ℕ → List A → List A
  drop zero xs = xs
  drop (suc n) [] = []
  drop (suc n) (x ∷ xs) = drop n xs

  abbrev pub get_elem? : List A → ℕ → Option A
  get_elem? [] i = none
  get_elem? (x ∷ xs) zero = some x
  get_elem? (x ∷ xs) (suc i) = get_elem? xs i

  pub take-append-drop : (n : ℕ) (xs : List A) → take n xs ++ drop n xs ≡ xs
  take-append-drop zero xs = refl
  take-append-drop (suc n) [] = refl
  take-append-drop (suc n) (x ∷ xs) = rw (take-append-drop n xs)

  pub length-take : (n : ℕ) (xs : List A) → n ≤ length xs → length (take n xs) ≡ n
  length-take zero xs h = refl
  length-take (suc n) [] h = absurd (omega arith)
  length-take (suc n) (x ∷ xs) h = ap suc (length-take n xs (omega arith))

  pub take-append : (xs ys : List A) → take (length xs) (xs ++ ys) ≡ xs
  take-append [] ys = refl
  take-append (x ∷ xs) ys = rw (take-append xs ys)

  pub drop-append : (xs ys : List A) → drop (length xs) (xs ++ ys) ≡ ys
  drop-append [] ys = refl
  drop-append (x ∷ xs) ys = drop-append xs ys

  take-nil : (n : ℕ) → ◌≡◌ {A = List A} (take n []) []
  take-nil zero = refl
  take-nil (suc n) = refl

  -- The middle and the end make what follows the start.
  pub slice-append-drop :
      (s e : ℕ) (xs : List A) → s ≤ e → take (e - s) (drop s xs) ++ drop e xs ≡ drop s xs
  slice-append-drop zero e xs h =
      let whole : e - 0 ≡ e = omega arith in rw whole (take-append-drop e xs)
  slice-append-drop (suc s) zero xs h = absurd (omega arith)
  slice-append-drop (suc s) (suc e) [] h = rw (take-nil (suc e - suc s)) refl
  slice-append-drop (suc s) (suc e) (x ∷ xs) h =
      let less : suc e - suc s ≡ e - s = omega arith in
      rw less (slice-append-drop s e xs (omega arith))

  -- One entry more.
  pub take-suc :
      (xs ys : List A) (i : ℕ) (x : A)
      → get_elem? xs i ≡ some x
      → get_elem? ys i ≡ some x
      → take i xs ≡ take i ys
      → take (suc i) xs ≡ take (suc i) ys
  take-suc [] ys i x f g e = cc
  take-suc (a ∷ xs) [] i x f g e = cc
  take-suc (a ∷ xs) (b ∷ ys) zero x f g e = cc
  take-suc (a ∷ xs) (b ∷ ys) (suc i) x f g e =
      let heads : a ≡ b = cc in
      let tails : take i xs ≡ take i ys = cc in cc (heads, take-suc xs ys i x f g tails)

  pub drop-get :
      (xs : List A) (i : ℕ) (x : A) → get_elem? xs i ≡ some x → drop i xs ≡ x ∷ drop (suc i) xs
  drop-get [] i x f = cc
  drop-get (a ∷ xs) zero x f = cc
  drop-get (a ∷ xs) (suc i) x f = drop-get xs i x f

  pub get_elem?-some : (xs : List A) (i : ℕ) → i < length xs → (x : A) × (get_elem? xs i ≡ some x)
  get_elem?-some [] i h = absurd (omega arith)
  get_elem?-some (a ∷ xs) zero h = (a, refl)
  get_elem?-some (a ∷ xs) (suc i) h = get_elem?-some xs i (omega arith)

  pub length-drop : (n : ℕ) (xs : List A) → n ≤ length xs → n + length (drop n xs) ≡ length xs
  length-drop zero xs h = omega arith
  length-drop (suc n) [] h = absurd (omega arith)
  length-drop (suc n) (x ∷ xs) h = omega (arith, length-drop n xs (omega arith))

  pub drop-length : (xs : List A) → drop (length xs) xs ≡ []
  drop-length [] = refl
  drop-length (x ∷ xs) = drop-length xs

module _ {ℓ κ} {A : Type ℓ} (P : A → Type κ) where
  pub All-take : (n : ℕ) (xs : List A) → All P xs → All P (take n xs)
  All-take zero xs a = tt
  All-take (suc n) [] a = tt
  All-take (suc n) (x ∷ xs) (h, a) = (h, All-take n xs a)

  pub All-drop : (n : ℕ) (xs : List A) → All P xs → All P (drop n xs)
  All-drop zero xs a = a
  All-drop (suc n) [] a = tt
  All-drop (suc n) (x ∷ xs) (_, a) = All-drop n xs a

  pub All-get_elem? : (xs : List A) (i : ℕ) (x : A) → All P xs → get_elem? xs i ≡ some x → P x
  All-get_elem? [] i x a f = cc
  All-get_elem? (y ∷ xs) zero x (h, _) f = subst P (some_inj f) h
  All-get_elem? (y ∷ xs) (suc i) x (_, a) f = All-get_elem? xs i x a f
