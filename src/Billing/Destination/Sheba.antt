-- ===== src/Billing/Destination/Sheba.antt =====
-- Which typing errors the remainder modulo 97 catches.
use hamboom.Base.{
  ℕ, ◌+◌, ◌-◌, ◌*◌, ◌%◌, ◌<◌, ◌≡◌, ◌≢◌, inl, inr, refl, sym, ap, ◌∙◌, true, false, [], ◌∷◌, ◌++◌,
  arith, Bool-cases,
}
use mathlib.Core.List.{append_assoc}
use hamboom.Billing.Destination.{Text, mod_97, rearranged, sheba_ok}
use hamboom.Billing.Destination.Luhn.{IsDigit}

mod_97-append : (r : ℕ) (xs ys : Text) → mod_97 r (xs ++ ys) ≡ mod_97 (mod_97 r xs) ys
unfolding mod_97
mod_97-append r [] ys = refl
mod_97-append r (x ∷ xs) ys = mod_97-append ((r * 10 + (x - 48)) % 97) xs ys

-- 10 has an inverse modulo 97, so equal remainders come from equal remainders.
mod_97-injective : (r s : ℕ) (xs : Text) → r < 97 → s < 97 → mod_97 r xs ≡ mod_97 s xs → r ≡ s
unfolding mod_97
mod_97-injective r s [] h k p = p
mod_97-injective r s (x ∷ xs) h k p =
    let step : (r * 10 + (x - 48)) % 97 ≡ (s * 10 + (x - 48)) % 97 =
      mod_97-injective ((r * 10 + (x - 48)) % 97) ((s * 10 + (x - 48)) % 97) xs (omega arith)
        (omega arith) p in
    omega arith

mod_97-lt : (r : ℕ) (xs : Text) → r < 97 → mod_97 r xs < 97
unfolding mod_97
mod_97-lt r [] h = h
mod_97-lt r (x ∷ xs) h = mod_97-lt ((r * 10 + (x - 48)) % 97) xs (omega arith)

mod_97-detects :
    (before after : Text) (c d : ℕ)
    → IsDigit c
    → IsDigit d
    → mod_97 0 (before ++ c ∷ after) ≡ mod_97 0 (before ++ d ∷ after)
    → c ≡ d
unfolding mod_97
mod_97-detects before after c d hc hd p =
    let r = mod_97 0 before in
    let q : mod_97 ((r * 10 + (c - 48)) % 97) after ≡ mod_97 ((r * 10 + (d - 48)) % 97) after =
      sym (mod_97-append 0 before (c ∷ after)) ∙ (p ∙ mod_97-append 0 before (d ∷ after)) in
    let e : (r * 10 + (c - 48)) % 97 ≡ (r * 10 + (d - 48)) % 97 =
      mod_97-injective ((r * 10 + (c - 48)) % 97) ((r * 10 + (d - 48)) % 97) after (omega arith)
        (omega arith) q in
    omega arith

mod_97-detects_swap :
    (before after : Text) (c d : ℕ)
    → IsDigit c
    → IsDigit d
    → mod_97 0 (before ++ c ∷ d ∷ after) ≡ mod_97 0 (before ++ d ∷ c ∷ after)
    → c ≡ d
unfolding mod_97
mod_97-detects_swap before after c d hc hd p =
    let r = mod_97 0 before in
    let two = λ (x : ℕ) (y : ℕ). ((r * 10 + (x - 48)) % 97 * 10 + (y - 48)) % 97 in
    let q : mod_97 (two c d) after ≡ mod_97 (two d c) after =
      sym (mod_97-append 0 before (c ∷ d ∷ after)) ∙ (p ∙ mod_97-append 0 before (d ∷ c ∷ after)) in
    let e : two c d ≡ two d c =
      mod_97-injective (two c d) (two d c) after (omega arith) (omega arith) q in
    omega arith

-- `t` is the sheba `s` with one digit mistyped, among the two check digits or behind them, or with
-- two different digits behind them swapped that stand side by side.
pub data IsMistyped : Text → Text → Type 0 where
  first_check :
      (k : ℕ) (rest : Text) (c d : ℕ)
      → IsDigit c
      → IsDigit d
      → c ≢ d
      → IsMistyped (b'I' ∷ b'R' ∷ c ∷ k ∷ rest) (b'I' ∷ b'R' ∷ d ∷ k ∷ rest)
  second_check :
      (k : ℕ) (rest : Text) (c d : ℕ)
      → IsDigit c
      → IsDigit d
      → c ≢ d
      → IsMistyped (b'I' ∷ b'R' ∷ k ∷ c ∷ rest) (b'I' ∷ b'R' ∷ k ∷ d ∷ rest)
  one_digit :
      (j k : ℕ) (before after : Text) (c d : ℕ)
      → IsDigit c
      → IsDigit d
      → c ≢ d
      → IsMistyped
          (b'I' ∷ b'R' ∷ j ∷ k ∷ (before ++ c ∷ after))
          (b'I' ∷ b'R' ∷ j ∷ k ∷ (before ++ d ∷ after))
  swapped :
      (j k : ℕ) (before after : Text) (c d : ℕ)
      → IsDigit c
      → IsDigit d
      → c ≢ d
      → IsMistyped
          (b'I' ∷ b'R' ∷ j ∷ k ∷ (before ++ c ∷ d ∷ after))
          (b'I' ∷ b'R' ∷ j ∷ k ∷ (before ++ d ∷ c ∷ after))

sheba_ok-mod : (s : Text) → sheba_ok s ≡ true → mod_97 0 (rearranged s) ≡ 1
unfolding sheba_ok
sheba_ok-mod s h = ground arith

abbrev tail_of : ℕ → ℕ → Text
tail_of j k = b'1' ∷ b'8' ∷ b'2' ∷ b'7' ∷ j ∷ k ∷ []

mistyped-apart :
    {s t : Text} → IsMistyped s t → mod_97 0 (rearranged s) ≡ mod_97 0 (rearranged t) → ⊥
unfolding rearranged
mistyped-apart (first_check k rest c d hc hd differ) p = differ (
    mod_97-detects (rest ++ b'1' ∷ b'8' ∷ b'2' ∷ b'7' ∷ []) (k ∷ []) c d hc hd
      (around c ∙ (p ∙ sym (around d))))
  where
    around :
        (e : ℕ)
        → mod_97 0 ((rest ++ b'1' ∷ b'8' ∷ b'2' ∷ b'7' ∷ []) ++ e ∷ k ∷ [])
          ≡ mod_97 0 (rest ++ tail_of e k)
    around e = ap (mod_97 0) (append_assoc rest (b'1' ∷ b'8' ∷ b'2' ∷ b'7' ∷ []) (e ∷ k ∷ []))
mistyped-apart (second_check k rest c d hc hd differ) p = differ (
    mod_97-detects (rest ++ b'1' ∷ b'8' ∷ b'2' ∷ b'7' ∷ k ∷ []) [] c d hc hd
      (around c ∙ (p ∙ sym (around d))))
  where
    around :
        (e : ℕ)
        → mod_97 0 ((rest ++ b'1' ∷ b'8' ∷ b'2' ∷ b'7' ∷ k ∷ []) ++ e ∷ [])
          ≡ mod_97 0 (rest ++ tail_of k e)
    around e = ap (mod_97 0) (append_assoc rest (b'1' ∷ b'8' ∷ b'2' ∷ b'7' ∷ k ∷ []) (e ∷ []))
mistyped-apart (one_digit j k before after c d hc hd differ) p =
    differ
      (mod_97-detects before (after ++ tail_of j k) c d hc hd (sym (around c) ∙ (p ∙ around d)))
  where
    around :
        (e : ℕ)
        → mod_97 0 ((before ++ e ∷ after) ++ tail_of j k)
          ≡ mod_97 0 (before ++ e ∷ (after ++ tail_of j k))
    around e = ap (mod_97 0) (append_assoc before (e ∷ after) (tail_of j k))
mistyped-apart (swapped j k before after c d hc hd differ) p = differ (
    mod_97-detects_swap before (after ++ tail_of j k) c d hc hd
      (sym (around c d) ∙ (p ∙ around d c)))
  where
    around :
        (e f : ℕ)
        → mod_97 0 ((before ++ e ∷ f ∷ after) ++ tail_of j k)
          ≡ mod_97 0 (before ++ e ∷ f ∷ (after ++ tail_of j k))
    around e f = ap (mod_97 0) (append_assoc before (e ∷ f ∷ after) (tail_of j k))

-- A sheba that passes the check no longer passes it with one digit mistyped, or with two different
-- neighbouring digits of the account part swapped.
pub sheba_ok-detects : {s t : Text} → IsMistyped s t → sheba_ok s ≡ true → sheba_ok t ≡ false
sheba_ok-detects {s} {t} m passes = elim (Bool-cases (sheba_ok t)) [
  | inr fails ↦ fails
  | inl also ↦ absurd (mistyped-apart m (sheba_ok-mod s passes ∙ sym (sheba_ok-mod t also)))
]
