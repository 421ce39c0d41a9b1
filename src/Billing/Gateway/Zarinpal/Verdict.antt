-- ===== src/Billing/Gateway/Zarinpal/Verdict.antt =====
-- What a reply of Zarinpal must carry for a payment to count as paid.
use hamboom.Base.{
  ◌≡◌, ◌↔◌, ◌∙◌, ◌⊎◌, inl, inr, Bool-cases, sym, refl, ap, subst, Bool, true, false, String, Option,
  none, some, some_inj, if◌then◌else◌, arith,
}
use hamboom.Base.Int.{pos, negsuc}
use hamboom.Billing.Money.{Number, int, other}
use hamboom.Billing.Gateway.{Paid, VerifyOutcome, paid, not_paid}
use hamboom.Billing.Gateway.Zarinpal.{
  Value, undefined, null, boolean, number, text, array, object, Fields, lookup, member_of,
  number_in, code_or, code_of, is_code, paid_code, outcome_of, verdict_of, verify_payment, paid_of,
  paid_record, paid_if, ref_id_of, Reply, answered, failed, end,
}

-- The code of a reply: a number under `data.code`, else one under `errors.code`.
pub data CarriesCode : Value → Number → Type 0 where
  in_data :
      {fs ds : Fields} {c : Number}
      → lookup "data" fs ≡ object ds
      → lookup "code" ds ≡ number c
      → CarriesCode (object fs) c
  in_errors :
      {fs es : Fields} {c : Number}
      → number_in (member_of "code" (lookup "data" fs)) ≡ none
      → lookup "errors" fs ≡ object es
      → lookup "code" es ≡ number c
      → CarriesCode (object fs) c

number_in-some : (v : Value) (c : Number) → number_in v ≡ some c → v ≡ number c
unfolding number_in
number_in-some (number n) c e = ap number (some_inj e)
number_in-some undefined c e = ground arith
number_in-some null c e = ground arith
number_in-some (boolean b) c e = ground arith
number_in-some (text s) c e = ground arith
number_in-some (array vs) c e = ground arith
number_in-some (object fs) c e = ground arith

code_inside :
    (v : Value) (c : Number)
    → number_in (member_of "code" v) ≡ some c
    → (ds : Fields) × (v ≡ object ds) × (lookup "code" ds ≡ number c)
unfolding member_of number_in
code_inside (object ds) c e = (ds, refl, number_in-some (lookup "code" ds) c e)
code_inside (number n) c e = ground arith
code_inside undefined c e = ground arith
code_inside null c e = ground arith
code_inside (boolean b) c e = ground arith
code_inside (text s) c e = ground arith
code_inside (array vs) c e = ground arith

code_or-CarriesCode :
    (fs : Fields) (o : Option Number) (c : Number)
    → number_in (member_of "code" (lookup "data" fs)) ≡ o
    → code_or o (lookup "errors" fs) ≡ some c
    → CarriesCode (object fs) c
unfolding code_or
code_or-CarriesCode fs none c e h =
    let (es, at, code) = code_inside (lookup "errors" fs) c h in in_errors e at code
code_or-CarriesCode fs (some d) c e h =
    let (ds, at, code) = code_inside (lookup "data" fs) d e in
    in_data at (code ∙ ap number (some_inj h))

pub code_of-CarriesCode :
    (body : Value) (c : Number) → code_of body ≡ some (some c) → CarriesCode body c
unfolding code_of member_of number_in code_or
code_of-CarriesCode (object fs) c e = code_or-CarriesCode fs _ c refl (some_inj e)
code_of-CarriesCode undefined c e = ground arith
code_of-CarriesCode null c e = ground arith
code_of-CarriesCode (boolean b) c e = ground arith
code_of-CarriesCode (number n) c e = ground arith
code_of-CarriesCode (text s) c e = ground arith
code_of-CarriesCode (array vs) c e = ground arith

pub CarriesCode-code_of :
    (body : Value) (c : Number) → CarriesCode body c → code_of body ≡ some (some c)
unfolding code_of member_of number_in code_or
CarriesCode-code_of _ c (in_data d e) = rw d (rw e refl)
CarriesCode-code_of _ c (in_errors none_ d e) = rw none_ (rw d (rw e refl))

-- A verdict that the payment is paid, for the first time or again.
abbrev pub IsPaid : Bool → Option VerifyOutcome → Type 0
IsPaid again o = (p : Paid) × (o ≡ some (paid p)) × (p.already_verified ≡ again)

-- The code that says so.
abbrev pub paid_with : Bool → Number
paid_with false = int (pos 100)
paid_with true = int (pos 101)

again_of : Option VerifyOutcome → Option Bool
again_of (some (paid p)) = some p.already_verified
again_of _ = none

already_of : Option Paid → Option Bool
already_of none = none
already_of (some p) = some p.already_verified

again_if :
    (b : Bool) (q : Option Paid) (c : Number)
    → again_of (if b then paid_if q else some (not_paid (some c)))
      ≡ (if b then already_of q else none)
unfolding again_of already_of
again_if true none c = refl
again_if true (some p) c = refl
again_if false q c = refl

code_again :
    (c : Number) (again : Bool)
    → (if paid_code c then some (is_code 101 c) else none) ≡ some again
    → c ≡ paid_with again
unfolding paid_code
code_again (int (pos n)) false h = ap (λ n. int (pos n)) (ground arith)
code_again (int (pos n)) true h = ap (λ n. int (pos n)) (ground arith)
code_again (int (negsuc n)) again h = ground arith
code_again other again h = ground arith

pub same_body : (b body : Value) → answered (some body) ≡ answered (some b) → b ≡ body
same_body b body e = cc

-- The reference number of a paid payment, where it can be written as a string.
abbrev pub HasRef : (Value → Option String) → Value → Type 0
HasRef to_string body =
    (ref : String) × (ref_id_of to_string (member_of "ref_id" (member_of "data" body)) ≡ some ref)

module _ (to_string : Value → Option String) where
  if_paid :
      (c : Number) (again : Bool) (d : Value) (o : Option String)
      → IsPaid again (if paid_code c then paid_if (paid_record c d o) else some (not_paid (some c)))
      → (c ≡ paid_with again) × (ref : String) × (o ≡ some ref)
  unfolding again_of already_of
  if_paid c again d none (p, e, f) =
      let k = sym (again_if (paid_code c) none c) ∙ (ap again_of e ∙ ap some f) in
      elim (Bool-cases (paid_code c)) [
        | inl yes_ ↦ ground (arith, k, yes_)
        | inr no_ ↦ ground (arith, k, no_)
      ]
  if_paid c again d (some ref) (p, e, f) = (
    code_again c again
        (sym (again_if (paid_code c) (paid_record c d (some ref)) c) ∙ (ap again_of e ∙ ap some f)),
    ref,
    refl,
  )

  IsPaid-verdict_of :
      (body : Value) (again : Bool) (o : Option (Option Number))
      → IsPaid again (verdict_of to_string body o)
      → (o ≡ some (some (paid_with again))) × HasRef to_string body
  unfolding verdict_of outcome_of paid_of
  IsPaid-verdict_of body again none (p, e, f) = ground arith
  IsPaid-verdict_of body again (some none) (p, e, f) = ground arith
  IsPaid-verdict_of body again (some (some c)) h =
      let (q, ref, e) = if_paid c again (member_of "data" body) _ h in
      (ap (λ n. some (some n)) q, (ref, e))

  verdict_of-IsPaid :
      (body : Value) (again : Bool)
      → HasRef to_string body
      → IsPaid again (verdict_of to_string body (some (some (paid_with again))))
  unfolding verdict_of outcome_of paid_code paid_of
  verdict_of-IsPaid body false (ref, e) = rw e (_, refl, refl)
  verdict_of-IsPaid body true (ref, e) = rw e (_, refl, refl)

  -- A reply makes a payment paid exactly when it carries the code 100 (paid now) or 101 (already
  -- verified), under `data` or, where `data` has no code, under `errors`, and the reference number
  -- under `data` can be made a string (one that is missing or null is the empty string); a call
  -- that failed and a body that is not JSON never do.
  pub verify_payment-IsPaid :
      (reply : Reply) (again : Bool)
      → IsPaid again (verify_payment to_string reply) ↔ (
          (body : Value) × (reply ≡ answered (some body))
          × CarriesCode body (paid_with again)
          × HasRef to_string body)
  unfolding verify_payment code_of
  verify_payment-IsPaid failed again = (λ (p, e, f). ground arith, λ (b, e, c, r). ground arith)
  verify_payment-IsPaid (answered none) again = (
    λ h.
        let q = (IsPaid-verdict_of (object end) again (code_of (object end)) h).0 in
        ground (arith, q),
    λ (b, e, c, r). ground arith,
  )
  verify_payment-IsPaid (answered (some body)) again = (
    λ h.
        let (q, ref) = IsPaid-verdict_of body again _ h in
        (body, refl, code_of-CarriesCode body (paid_with again) q, ref),
    λ (b, e, c, r).
        subst (λ b. IsPaid again (verdict_of to_string b (code_of b))) (same_body b body e)
          (subst (λ o. IsPaid again (verdict_of to_string b o))
            (sym (CarriesCode-code_of b (paid_with again) c)) (verdict_of-IsPaid b again r)),
  )

  if_none :
      (c : Number) (d : Value) (o : Option String)
      → (if paid_code c then paid_if (paid_record c d o) else some (not_paid (some c))) ≡ none
      → ((again : Bool) × (c ≡ paid_with again)) × (o ≡ none)
  if_none c d o h = elim (Bool-cases (paid_code c)) [
    | inr no_ ↦ ground (arith, h, no_)
    | inl yes_ ↦
        ((is_code 101 c, code_again c (is_code 101 c) (rw yes_ refl)), unpaid o (rw yes_ at h))
  ]
    where
      unpaid : (o : Option String) → paid_if (paid_record c d o) ≡ none → o ≡ none
      unpaid none e = refl
      unpaid (some ref) e = ground arith

  -- What makes the reading of a reply throw, once its code was read.
  pub verdict_of-none :
      (body : Value) (o : Option (Option Number))
      → verdict_of to_string body o ≡ none
      → (o ≡ none)
        ⊎ ((again : Bool) × (o ≡ some (some (paid_with again)))
            × (ref_id_of to_string (member_of "ref_id" (member_of "data" body)) ≡ none))
  unfolding verdict_of outcome_of paid_of
  verdict_of-none body none h = inl refl
  verdict_of-none body (some none) h = ground arith
  verdict_of-none body (some (some c)) h =
      let (w, r) = if_none c (member_of "data" body) _ h in
      let (again, q) = w in inr (again, ap (λ n. some (some n)) q, r)

  pub verdict_of-throws :
      (body : Value) (again : Bool)
      → ref_id_of to_string (member_of "ref_id" (member_of "data" body)) ≡ none
      → verdict_of to_string body (some (some (paid_with again))) ≡ none
  unfolding verdict_of outcome_of paid_code paid_of
  verdict_of-throws body false e = rw e refl
  verdict_of-throws body true e = rw e refl
