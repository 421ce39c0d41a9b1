-- ===== src/Billing/Destination/Luhn.antt =====
-- Which typing errors the Luhn check catches, and the one pair that it does not.
use hamboom.Base.{
  ℕ, ◌+◌, ◌-◌, ◌%◌, ◌<◌, ◌≤◌, ◌≡◌, ◌≢◌, inl, inr, refl, ap, sym, ◌∙◌, Bool, true, false, not, [],
  ◌∷◌, ◌++◌, arith, ◌==◌, Bool-cases,
}
use mathlib.Core.List.{reverse, reverse-append, reverse-cons, append_assoc}
use hamboom.Billing.Destination.{Text, luhn_digit, luhn_sum, luhn_ok}

abbrev pub IsDigit : ℕ → Type 0
IsDigit c = (b'0' ≤ c) × (c ≤ b'9')

-- The parity of a position, counted from the end of the number.
flips : Bool → Text → Bool
flips double [] = double
flips double (c ∷ cs) = flips (not double) cs

luhn_sum_add :
    (double : Bool) (cs : Text) (a b : ℕ) → luhn_sum double cs (a + b) ≡ luhn_sum double cs a + b
unfolding luhn_sum
luhn_sum_add double [] a b = refl
luhn_sum_add double (c ∷ cs) a b =
    ap (luhn_sum (not double) cs) (omega arith)
    ∙ luhn_sum_add (not double) cs (a + luhn_digit double (c - 48)) b

luhn_sum_from :
    (double : Bool) (cs : Text) (b : ℕ) → luhn_sum double cs b ≡ luhn_sum double cs 0 + b
luhn_sum_from double cs b = ap (luhn_sum double cs) (zero-add-eq b) ∙ luhn_sum_add double cs 0 b
  where
    zero-add-eq : (n : ℕ) → n ≡ 0 + n
    zero-add-eq n = omega arith

luhn_sum-append :
    (double : Bool) (xs ys : Text) (a : ℕ)
    → luhn_sum double (xs ++ ys) a ≡ luhn_sum (flips double xs) ys (luhn_sum double xs a)
unfolding luhn_sum flips
luhn_sum-append double [] ys a = refl
luhn_sum-append double (x ∷ xs) ys a =
    luhn_sum-append (not double) xs ys (a + luhn_digit double (x - 48))

-- The sum of a number whose digits are read from the end, around one digit.
luhn_around :
    (xs ys : Text) (c : ℕ)
    → luhn_sum false (xs ++ c ∷ ys) 0
      ≡ luhn_sum (not (flips false xs)) ys 0
        + (luhn_sum false xs 0 + luhn_digit (flips false xs) (c - 48))
unfolding luhn_sum
luhn_around xs ys c =
    luhn_sum-append false xs (c ∷ ys) 0
    ∙ luhn_sum_from (not (flips false xs)) ys
        (luhn_sum false xs 0 + luhn_digit (flips false xs) (c - 48))

luhn_digit_bound : (double : Bool) (d : ℕ) → d ≤ 9 → luhn_digit double d ≤ 9
unfolding luhn_digit
luhn_digit_bound false d h = h
luhn_digit_bound true d h = ground arith

luhn_digit-injective :
    (double : Bool) (d e : ℕ) → d ≤ 9 → e ≤ 9 → luhn_digit double d ≡ luhn_digit double e → d ≡ e
unfolding luhn_digit
luhn_digit-injective false d e h k p = p
luhn_digit-injective true d e h k p = ground arith

reverse-around : (xs ys : Text) (c : ℕ) → reverse (xs ++ c ∷ ys) ≡ reverse ys ++ c ∷ reverse xs
reverse-around xs ys c =
    reverse-append xs (c ∷ ys)
    ∙ (ap (λ l. l ++ reverse xs) (reverse-cons c ys)
        ∙ append_assoc (reverse ys) (c ∷ []) (reverse xs))

luhn_ok-mod : (cs : Text) → luhn_ok cs ≡ true → luhn_sum false (reverse cs) 0 % 10 ≡ 0
unfolding luhn_ok
luhn_ok-mod cs h = ground arith

-- A card number with one digit mistyped never passes the Luhn check along with the right one.
pub luhn_ok-detects :
    (before after : Text) (c d : ℕ)
    → IsDigit c
    → IsDigit d
    → c ≢ d
    → luhn_ok (before ++ c ∷ after) ≡ true
    → luhn_ok (before ++ d ∷ after) ≡ false
luhn_ok-detects before after c d hc hd differ passes =
    elim (Bool-cases (luhn_ok (before ++ d ∷ after))) [
      | inr fails ↦ fails
      | inl also ↦ absurd (differ (same also))
    ]
  where
    p : Bool
    p = flips false (reverse after)

    around :
        (e : ℕ)
        → luhn_ok (before ++ e ∷ after) ≡ true
        → (luhn_sum (not p) (reverse before) 0
              + (luhn_sum false (reverse after) 0 + luhn_digit p (e - 48)))
            % 10
          ≡ 0
    around e h =
        ap (λ (n : ℕ). n % 10)
          (sym (
            ap (λ l. luhn_sum false l 0) (reverse-around before after e)
            ∙ luhn_around (reverse after) (reverse before) e))
        ∙ luhn_ok-mod (before ++ e ∷ after) h

    same : luhn_ok (before ++ d ∷ after) ≡ true → c ≡ d
    same also =
        let digits : c - 48 ≡ d - 48 =
          luhn_digit-injective p (c - 48) (d - 48) (omega arith) (omega arith) (
            omega (
              arith,
              around c passes,
              around d also,
              luhn_digit_bound p (c - 48) (omega arith),
              luhn_digit_bound p (d - 48) (omega arith),
            )) in
        omega arith

luhn_pair :
    (xs ys : Text) (c d : ℕ)
    → luhn_sum false (xs ++ c ∷ d ∷ ys) 0
      ≡ luhn_sum (flips false xs) ys 0
        + (luhn_sum false xs 0
            + luhn_digit (flips false xs) (c - 48)
            + luhn_digit (not (flips false xs)) (d - 48))
unfolding luhn_sum
luhn_pair xs ys c d =
    luhn_sum-append false xs (c ∷ d ∷ ys) 0 ∙ back (flips false xs) (luhn_sum false xs 0)
  where
    back :
        (q : Bool) (n : ℕ)
        → luhn_sum (not (not q)) ys (n + luhn_digit q (c - 48) + luhn_digit (not q) (d - 48))
          ≡ luhn_sum q ys 0 + (n + luhn_digit q (c - 48) + luhn_digit (not q) (d - 48))
    back true n = luhn_sum_from true ys (n + luhn_digit true (c - 48) + luhn_digit false (d - 48))
    back false n = luhn_sum_from false ys (n + luhn_digit false (c - 48) + luhn_digit true (d - 48))

pair-around :
    (before after : Text) (c d : ℕ)
    → luhn_sum false (reverse (before ++ c ∷ d ∷ after)) 0
      ≡ luhn_sum (flips false (reverse after)) (reverse before) 0
        + (luhn_sum false (reverse after) 0
            + luhn_digit (flips false (reverse after)) (d - 48)
            + luhn_digit (not (flips false (reverse after))) (c - 48))
pair-around before after c d =
    ap (λ l. luhn_sum false l 0)
      (reverse-around before (d ∷ after) c
        ∙ (ap (λ l. l ++ c ∷ reverse before) (reverse-cons d after)
            ∙ append_assoc (reverse after) (d ∷ []) (c ∷ reverse before)))
    ∙ luhn_pair (reverse after) (reverse before) d c

-- Luhn takes a 9 and a 0 beside it for one another: swapping them never changes the verdict.
pub luhn_ok-misses :
    (before after : Text)
    → luhn_ok (before ++ b'9' ∷ b'0' ∷ after) ≡ luhn_ok (before ++ b'0' ∷ b'9' ∷ after)
luhn_ok-misses before after = unfold luhn_ok in ap (λ (n : ℕ). n % 10 == 0) sums
  where
    swap :
        (q : Bool) (m n : ℕ)
        → m + (n + luhn_digit q (b'0' - 48) + luhn_digit (not q) (b'9' - 48))
          ≡ m + (n + luhn_digit q (b'9' - 48) + luhn_digit (not q) (b'0' - 48))
    swap true m n = unfold luhn_digit in omega arith
    swap false m n = unfold luhn_digit in omega arith

    sums :
        luhn_sum false (reverse (before ++ b'9' ∷ b'0' ∷ after)) 0
        ≡ luhn_sum false (reverse (before ++ b'0' ∷ b'9' ∷ after)) 0
    sums =
        pair-around before after b'9' b'0'
        ∙ (swap (flips false (reverse after))
              (luhn_sum (flips false (reverse after)) (reverse before) 0)
              (luhn_sum false (reverse after) 0)
            ∙ sym (pair-around before after b'0' b'9'))

swap-apart :
    (q : Bool) (m n c d : ℕ)
    → c < d
    → d ≤ 9
    → (m + (n + luhn_digit q d + luhn_digit (not q) c)) % 10 ≡ 0
    → (m + (n + luhn_digit q c + luhn_digit (not q) d)) % 10 ≡ 0
    → (c ≡ 0) × (d ≡ 9)
unfolding luhn_digit
swap-apart true m n c d less small h k = ground arith
swap-apart false m n c d less small h k = ground arith

-- Any other swap of two neighbouring digits of a card number that passes makes it fail.
pub luhn_ok-detects_swap :
    (before after : Text) (c d : ℕ)
    → IsDigit c
    → IsDigit d
    → c < d
    → ¬ ((c ≡ b'0') × (d ≡ b'9'))
    → luhn_ok (before ++ c ∷ d ∷ after) ≡ true
    → luhn_ok (before ++ d ∷ c ∷ after) ≡ false
luhn_ok-detects_swap before after c d hc hd less not_09 passes =
    elim (Bool-cases (luhn_ok (before ++ d ∷ c ∷ after))) [
      | inr fails ↦ fails
      | inl also ↦
          let z =
            swap-apart q (luhn_sum q (reverse before) 0) (luhn_sum false (reverse after) 0) (c - 48)
              (d - 48) (omega arith) (omega arith) (zero c d passes) (zero d c also) in
          absurd (not_09 (omega arith, omega arith))
    ]
  where
    q : Bool
    q = flips false (reverse after)

    zero :
        (e f : ℕ)
        → luhn_ok (before ++ e ∷ f ∷ after) ≡ true
        → (luhn_sum q (reverse before) 0
              + (luhn_sum false (reverse after) 0
                  + luhn_digit q (f - 48)
                  + luhn_digit (not q) (e - 48)))
            % 10
          ≡ 0
    zero e f h =
        ap (λ (n : ℕ). n % 10) (sym (pair-around before after e f))
        ∙ luhn_ok-mod (before ++ e ∷ f ∷ after) h
