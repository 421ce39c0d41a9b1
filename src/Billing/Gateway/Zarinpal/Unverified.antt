-- ===== src/Billing/Gateway/Zarinpal/Unverified.antt =====
-- What is taken from Zarinpal's list of payments that were not verified, and when the reading of a
-- reply throws.
use hamboom.Base.{
  ◌<◌, ◌≤◌, ◌≡◌, ◌↔◌, ◌⊎◌, inl, inr, refl, subst, Bool, false, String, Option, none, some, some_inj,
  List, [], ◌∷◌, ◌++◌, All, ◌===◌, arith,
}
use hamboom.Base.Int.{pos, negsuc}
use hamboom.Billing.Money.{Number, int, other, is_safe_integer, below, max_safe_integer}
use hamboom.Billing.Reconcile.{UnverifiedPayment}
use hamboom.Billing.Gateway.Zarinpal.{
  Value, undefined, null, boolean, number, text, array, object, Items, nil, cons, property,
  member_of, text_in, amount_in, row_of, rows_of, listed, listed_in, list_unverified, Reply,
  answered, failed, body_of, code_of, verdict_of, verify_payment, ref_id_of, end,
}
use hamboom.Billing.Gateway.Zarinpal.Verdict.{
  CarriesCode, paid_with, same_body, code_of-CarriesCode, CarriesCode-code_of, verdict_of-none,
  verdict_of-throws,
}

-- A payment that can be matched: it names an authority, and its amount is a positive integer that
-- a double holds exactly.
abbrev pub IsUsable : UnverifiedPayment → Type 0
IsUsable e =
    ((e.authority === "") ≡ false) × (0 < e.amount_rial) × (e.amount_rial ≤ max_safe_integer)

All-append :
    (xs ys : List UnverifiedPayment) → All IsUsable xs → All IsUsable ys → All IsUsable (xs ++ ys)
All-append [] ys a b = b
All-append (x ∷ xs) ys (h, a) b = (h, All-append xs ys a b)

module _ (to_number : String → Number) where
  row_of-IsUsable : (s : Option String) (n : Option Number) → All IsUsable (row_of to_number s n)
  unfolding row_of is_safe_integer below
  row_of-IsUsable none n = tt
  row_of-IsUsable (some a) none = tt
  row_of-IsUsable (some a) (some other) = ground arith
  row_of-IsUsable (some a) (some (int (negsuc n))) = ground arith
  row_of-IsUsable (some a) (some (int (pos n))) = ground arith

  rows_of-IsUsable : (vs : Items) → All IsUsable (rows_of to_number vs)
  unfolding rows_of
  rows_of-IsUsable nil = tt
  rows_of-IsUsable (cons v vs) =
      All-append _ _
        (row_of-IsUsable (text_in (member_of "authority" v))
          (amount_in to_number (member_of "amount" v)))
        (rows_of-IsUsable vs)

  listed-IsUsable : (v : Value) → All IsUsable (listed to_number v)
  unfolding listed
  listed-IsUsable (array vs) = rows_of-IsUsable vs
  listed-IsUsable undefined = tt
  listed-IsUsable null = tt
  listed-IsUsable (boolean b) = tt
  listed-IsUsable (number n) = tt
  listed-IsUsable (text s) = tt
  listed-IsUsable (object fs) = tt

  found-IsUsable :
      (o : Option Value) (out : List UnverifiedPayment)
      → listed_in to_number o ≡ some out
      → All IsUsable out
  unfolding listed_in
  found-IsUsable none out e = ground arith
  found-IsUsable (some d) out e =
      subst (All IsUsable) (some_inj e) (listed-IsUsable (member_of "authorities" d))

  -- Whatever the gateway replies, every payment that is taken from its list names an authority and
  -- has a positive amount that is a safe integer: rows of any other shape are left out.
  pub list_unverified-IsUsable :
      (reply : Reply) (out : List UnverifiedPayment)
      → list_unverified to_number reply ≡ some out
      → All IsUsable out
  unfolding list_unverified
  list_unverified-IsUsable failed out e = subst (All IsUsable) (some_inj e) tt
  list_unverified-IsUsable (answered json) out e =
      found-IsUsable (property "data" (body_of json)) out e

-- A body that is JSON, but null (or, from no JSON, undefined).
abbrev pub IsNullish : Reply → Type 0
IsNullish r = (r ≡ answered (some null)) ⊎ (r ≡ answered (some undefined))

module _ (to_string : Value → Option String) (to_number : String → Number) where
  -- A paid reply whose reference number is a value that `String` throws on.
  abbrev pub IsUnreadable : Reply → Type 0
  IsUnreadable r =
      (body : Value) × (again : Bool) × (r ≡ answered (some body))
      × CarriesCode body (paid_with again)
      × (ref_id_of to_string (member_of "ref_id" (member_of "data" body)) ≡ none)

  nullish_lem : (body : Value) → code_of body ≡ none → IsNullish (answered (some body))
  unfolding code_of
  nullish_lem undefined e = inr refl
  nullish_lem null e = inl refl
  nullish_lem (boolean b) e = ground arith
  nullish_lem (number n) e = ground arith
  nullish_lem (text s) e = ground arith
  nullish_lem (array vs) e = ground arith
  nullish_lem (object fs) e = ground arith

  verdict-IsNullish :
      (body : Value)
      → (verdict_of to_string body (code_of body) ≡ none)
        ↔ (IsNullish (answered (some body)) ⊎ IsUnreadable (answered (some body)))
  unfolding verdict_of code_of
  verdict-IsNullish body = (
    λ h. elim (verdict_of-none to_string body (code_of body) h) [
      | inl e ↦ inl (nullish_lem body e)
      | inr (again, e, r) ↦ inr (body, again, refl, code_of-CarriesCode body (paid_with again) e, r)
    ],
    λ h. elim h [
      | inl (inl e) ↦
          subst (λ b. verdict_of to_string b (code_of b) ≡ none) (same_body null body e) refl
      | inl (inr e) ↦
          subst (λ b. verdict_of to_string b (code_of b) ≡ none) (same_body undefined body e) refl
      | inr (b, again, e, c, r) ↦
          subst (λ b. verdict_of to_string b (code_of b) ≡ none) (same_body b body e)
            (rw (CarriesCode-code_of b (paid_with again) c) (verdict_of-throws to_string b again r))
    ],
  )

  listed_lem :
      (body : Value)
      → (list_unverified to_number (answered (some body)) ≡ none) ↔ IsNullish (answered (some body))
  unfolding list_unverified listed_in property
  listed_lem null = (λ _. inl refl, λ _. refl)
  listed_lem undefined = (λ _. inr refl, λ _. refl)
  listed_lem (boolean b) = ground arith
  listed_lem (number n) = ground arith
  listed_lem (text s) = ground arith
  listed_lem (array vs) = ground arith
  listed_lem (object fs) = ground arith

  -- The reading of the list of unverified payments throws on a body that is null, and on no other.
  -- That of a verification throws on a body that is null, and on one that carries a paid code with
  -- a reference number that `String` throws on, and on no other. A call that failed and a body that
  -- is not JSON give an answer.
  pub list_unverified-IsNullish :
      (reply : Reply)
      → ((list_unverified to_number reply ≡ none) ↔ IsNullish reply)
        × ((verify_payment to_string reply ≡ none) ↔ (IsNullish reply ⊎ IsUnreadable reply))
  unfolding list_unverified listed_in property verify_payment
  list_unverified-IsNullish failed = (
    ground arith,
    (
      λ h. ground arith,
      λ h. elim h [ inl e ↦ ground arith | inr (b, again, e, c, r) ↦ ground arith ],
    ),
  )
  list_unverified-IsNullish (answered none) = (
    ground arith,
    (
      λ h. elim (verdict_of-none to_string (object end) (code_of (object end)) h) [
        | inl e ↦ ground (arith, nullish_lem (object end) e)
        | inr (again, e, r) ↦ absurd (no_code again (code_of-CarriesCode (object end) _ e))
      ],
      λ h. elim h [ inl e ↦ ground arith | inr (b, again, e, c, r) ↦ ground arith ],
    ),
  )
    where
      no_code : (again : Bool) → ¬ CarriesCode (object end) (paid_with again)
      no_code again c = ground (arith, CarriesCode-code_of (object end) (paid_with again) c)
  list_unverified-IsNullish (answered (some body)) = (listed_lem body, verdict-IsNullish body)
