-- ===== src/Schema/TextDiff/Ends.antt =====
-- The two loops find a common start and a common end, and they run until their tests fail.
use mathlib.Core.Path.{◌≡⟨◌⟩◌, ◌∎}
use hamboom.Base.{
  and_true, ltb→lt, sym, ap, ge→ltb, ℕ, zero, suc, ◌+◌, ◌-◌, ◌≤◌, ◌<◌, ◌≡◌, ◌⊎◌, refl, Bool, true,
  false, ◌&&◌, Option, none, some, ◌∷◌, length, ltb, Bool-cases, inl, inr, arith,
}
use hamboom.Base.Slices.{take, drop, get_elem?, take-suc, drop-get, get_elem?-some}
use hamboom.Schema.Protocol.{Text}
use hamboom.Schema.TextDiff.{same_unit, find_start, find_ends}

same_unit-some : (o p : Option ℕ) (x : ℕ) → o ≡ some x → same_unit o p ≡ true → p ≡ some x
unfolding same_unit
same_unit-some none p x f h = cc
same_unit-some (some a) none x f h = cc
same_unit-some (some a) (some b) x f h = ground arith

-- The texts agree up to the index.
pub record IsStart (base next : Text) (s : ℕ) : Type 0 where
  pub below_base : s ≤ length base
  pub below_next : s ≤ length next
  pub same : take s base ≡ take s next

advance-IsStart :
    (base next : Text) (s : ℕ)
    → s < length base
    → s < length next
    → same_unit (get_elem? base s) (get_elem? next s) ≡ true
    → IsStart base next s
    → IsStart base next (s + 1)
advance-IsStart base next s h k e i =
    let (x, f) = get_elem?-some base s h in
    record {
      below_base = omega arith;
      below_next = omega arith;
      same =
          let one : s + 1 ≡ suc s = omega arith in
          rw one (
            take-suc base next s x f (same_unit-some (get_elem? base s) (get_elem? next s) x f e)
              i.same);
    }

pub find_start-IsStart :
    (rounds : ℕ) (base next : Text) (s : ℕ)
    → s + rounds ≤ length base
    → s + rounds ≤ length next
    → IsStart base next s
    → IsStart base next (find_start rounds base next s)
unfolding find_start
find_start-IsStart zero base next s h k i = i
find_start-IsStart (suc rounds) base next s h k i =
    elim (Bool-cases (same_unit (get_elem? base s) (get_elem? next s))) [
      | inl same ↦ rw same (
          find_start-IsStart rounds base next (s + 1) (omega arith) (omega arith)
            (advance-IsStart base next s (omega arith) (omega arith) same i))
      | inr other ↦ rw other i
    ]

-- What follows the two indices agrees, and both are behind the start.
pub record IsEnd (base next : Text) (s : ℕ) (ends : ℕ × ℕ) : Type 0 where
  pub start_base : s ≤ ends.0
  pub start_next : s ≤ ends.1
  pub below_base : ends.0 ≤ length base
  pub below_next : ends.1 ≤ length next
  pub same : drop ends.0 base ≡ drop ends.1 next

-- The test of the second loop.
abbrev pub goes_on : Text → Text → ℕ → ℕ × ℕ → Bool
goes_on base next s (eb, en) =
    ltb s eb && (ltb s en && same_unit (get_elem? base (eb - 1)) (get_elem? next (en - 1)))

find_ends_next :
    (base next : Text) (s eb en : ℕ)
    → goes_on base next s (eb, en) ≡ true
    → IsEnd base next s (eb, en)
    → IsEnd base next s (eb - 1, en - 1)
find_ends_next base next s eb en g i =
    let (a, rest) =
      and_true (ltb s eb)
        (ltb s en && same_unit (get_elem? base (eb - 1)) (get_elem? next (en - 1))) g in
    let (b, c) =
      and_true (ltb s en) (same_unit (get_elem? base (eb - 1)) (get_elem? next (en - 1))) rest in
    let before_base = ltb→lt s eb a in
    let before_next = ltb→lt s en b in
    let (x, f) = get_elem?-some base (eb - 1) (omega (arith, i.below_base)) in
    let h = same_unit-some (get_elem? base (eb - 1)) (get_elem? next (en - 1)) x f c in
    let whole_base : suc (eb - 1) ≡ eb = omega arith in
    let whole_next : suc (en - 1) ≡ en = omega arith in
    record {
      start_base = omega arith;
      start_next = omega arith;
      below_base = omega (arith, i.below_base);
      below_next = omega (arith, i.below_next);
      same =
          drop (eb - 1) base
          ≡⟨ drop-get base (eb - 1) x f ⟩ x ∷ drop (suc (eb - 1)) base
          ≡⟨ ap (λ n. x ∷ drop n base) whole_base ⟩ x ∷ drop eb base
          ≡⟨ ap (λ t. x ∷ t) i.same ⟩ x ∷ drop en next
          ≡⟨ ap (λ n. x ∷ drop n next) (sym whole_next) ⟩ x ∷ drop (suc (en - 1)) next
          ≡⟨ sym (drop-get next (en - 1) x h) ⟩ drop (en - 1) next ∎;
    }

pub find_ends-IsEnd :
    (rounds : ℕ) (base next : Text) (s eb en : ℕ)
    → IsEnd base next s (eb, en)
    → IsEnd base next s (find_ends rounds base next s eb en)
unfolding find_ends
find_ends-IsEnd zero base next s eb en i = i
find_ends-IsEnd (suc rounds) base next s eb en i =
    elim (Bool-cases (goes_on base next s (eb, en))) [
      | inl on ↦ rw on (
          find_ends-IsEnd rounds base next s (eb - 1) (en - 1)
            (find_ends_next base next s eb en on i))
      | inr off ↦ rw off i
    ]

lower :
    (rounds eb en : ℕ)
    → (eb ≤ suc rounds) ⊎ (en ≤ suc rounds)
    → (eb - 1 ≤ rounds) ⊎ (en - 1 ≤ rounds)
lower rounds eb en (inl h) = inl (omega arith)
lower rounds eb en (inr h) = inr (omega arith)

-- As many rounds as one text is long are enough: the second loop ends by its test.
pub find_ends-stops :
    (rounds : ℕ) (base next : Text) (s eb en : ℕ)
    → (eb ≤ rounds) ⊎ (en ≤ rounds)
    → goes_on base next s (find_ends rounds base next s eb en) ≡ false
unfolding find_ends
find_ends-stops zero base next s eb en (inl h) = rw (ge→ltb s eb (omega arith)) refl
find_ends-stops zero base next s eb en (inr h) = ground arith
find_ends-stops (suc rounds) base next s eb en h =
    elim (Bool-cases (goes_on base next s (eb, en))) [
      | inl on ↦ rw on (find_ends-stops rounds base next s (eb - 1) (en - 1) (lower rounds eb en h))
      | inr off ↦ rw off off
    ]
