-- ===== src/Billing/Destination/Resolve.antt =====
-- When a destination is accepted at boot, and what is reported when it is not.
use hamboom.Base.{
  sym, subst, ◌≡◌, ◌≢◌, ◌⊎◌, inl, inr, true, false, Option, none, some, [], ◌∷◌, map, arith,
  Bool-cases,
}
use hamboom.Billing.Destination.{
  Text, Input, Destination, ok, Field, absent, refused, taken, value, problem, or_empty, read_card,
  read_sheba, finish, digits_only, without_spaces, with_ir, is_digits, luhn_ok, is_sheba_form,
  sheba_ok, trim, to_upper, resolve_transfer_destination,
}

-- What a read field must be to be accepted: left empty, or a number in the right form that passes
-- its check.
abbrev pub IsCard : Text → Type 0
IsCard s = (is_digits 16 s ≡ true) × (luhn_ok s ≡ true)

abbrev pub IsSheba : Text → Type 0
IsSheba s = (is_sheba_form s ≡ true) × (sheba_ok s ≡ true)

abbrev pub card_text : Input → Text
card_text input = trim (or_empty input.card)

abbrev pub sheba_text : Input → Text
sheba_text input = without_spaces (map to_upper (trim (or_empty input.sheba)))

abbrev pub holder_text : Input → Text
holder_text input = trim (or_empty input.holder_name)

-- A field is read as `some`, and this is the number taken.
pub data Reads (P : Text → Type 0) (normal : Text → Text) : Text → Option Text → Type 0 where
  left_out : Reads P normal [] none
  given : (s : Text) → s ≢ [] → P (normal s) → Reads P normal s (some (normal s))

pub record IsAccepted (input : Input) (d : Destination) : Type 0 where
  pub card : Reads IsCard digits_only (card_text input) d.card
  pub sheba : Reads IsSheba with_ir (sheba_text input) d.sheba
  pub reachable : (d.card ≢ none) ⊎ (d.sheba ≢ none)
  pub holder : d.holder_name ≡ holder_text input
  pub named : d.holder_name ≢ []

read_card-Reads :
    (s : Text) → problem (read_card s) ≡ [] → Reads IsCard digits_only s (value (read_card s))
unfolding read_card
read_card-Reads [] h = left_out
read_card-Reads (c ∷ cs) h = elim (Bool-cases (is_digits 16 (digits_only (c ∷ cs)))) [
  | inl form ↦ elim (Bool-cases (luhn_ok (digits_only (c ∷ cs)))) [
    | inl passes ↦ rw (form, passes, read_card) (given (c ∷ cs) (λ e. cc) (form, passes))
    | inr fails ↦ absurd (clash2 form fails)
  ]
  | inr misses ↦ absurd (clash1 misses)
]
  where
    clash1 : is_digits 16 (digits_only (c ∷ cs)) ≡ false → ⊥
    clash1 e = ground arith

    clash2 : is_digits 16 (digits_only (c ∷ cs)) ≡ true → luhn_ok (digits_only (c ∷ cs)) ≡ false → ⊥
    clash2 e f = ground arith

read_sheba-Reads :
    (s : Text) → problem (read_sheba s) ≡ [] → Reads IsSheba with_ir s (value (read_sheba s))
unfolding read_sheba
read_sheba-Reads [] h = left_out
read_sheba-Reads (c ∷ cs) h = elim (Bool-cases (is_sheba_form (with_ir (c ∷ cs)))) [
  | inl form ↦ elim (Bool-cases (sheba_ok (with_ir (c ∷ cs)))) [
    | inl passes ↦ rw (form, passes, read_sheba) (given (c ∷ cs) (λ e. cc) (form, passes))
    | inr fails ↦ absurd (clash2 form fails)
  ]
  | inr misses ↦ absurd (clash1 misses)
]
  where
    clash1 : is_sheba_form (with_ir (c ∷ cs)) ≡ false → ⊥
    clash1 e = ground arith

    clash2 : is_sheba_form (with_ir (c ∷ cs)) ≡ true → sheba_ok (with_ir (c ∷ cs)) ≡ false → ⊥
    clash2 e f = ground arith

-- What `finish` accepts.
record Finished (card sheba : Field) (holder : Text) (d : Destination) : Type 0 where
  card_fine : problem card ≡ []
  sheba_fine : problem sheba ≡ []
  card_is : d.card ≡ value card
  sheba_is : d.sheba ≡ value sheba
  some_way : (value card ≢ none) ⊎ (value sheba ≢ none)
  holder_is : d.holder_name ≡ holder
  holder_given : holder ≢ []

finish-Finished :
    (card sheba : Field) (holder bank : Text) (d : Destination)
    → finish card sheba holder bank ≡ ok d
    → Finished card sheba holder d
unfolding finish
finish-Finished (refused p) sheba holder bank d h = cc
finish-Finished absent (refused p) holder bank d h = cc
finish-Finished absent absent [] bank d h = cc
finish-Finished absent absent (c ∷ cs) bank d h = cc
finish-Finished absent (taken s) [] bank d h = cc
finish-Finished absent (taken s) (c ∷ cs) bank d h = ground arith
finish-Finished (taken n) (refused p) holder bank d h = cc
finish-Finished (taken n) absent [] bank d h = cc
finish-Finished (taken n) absent (c ∷ cs) bank d h = ground arith
finish-Finished (taken n) (taken s) [] bank d h = cc
finish-Finished (taken n) (taken s) (c ∷ cs) bank d h = ground arith

-- A destination is accepted only with a card number of 16 digits that passes Luhn or a sheba that
-- passes its remainder, or both; a number that was given is never dropped; and the account holder
-- is named.
pub resolve_transfer_destination-IsAccepted :
    (input : Input) {d : Destination}
    → resolve_transfer_destination input ≡ ok d
    → IsAccepted input d
resolve_transfer_destination-IsAccepted input {d} h =
    let f =
      finish-Finished (read_card (card_text input)) (read_sheba (sheba_text input))
        (holder_text input) (trim (or_empty input.bank_name)) d
        (unfold resolve_transfer_destination in h) in
    record {
      card =
          subst (Reads IsCard digits_only (card_text input)) (sym f.card_is)
            (read_card-Reads (card_text input) f.card_fine);
      sheba =
          subst (Reads IsSheba with_ir (sheba_text input)) (sym f.sheba_is)
            (read_sheba-Reads (sheba_text input) f.sheba_fine);
      reachable = rw (f.card_is, f.sheba_is) f.some_way;
      holder = f.holder_is;
      named = rw f.holder_is f.holder_given;
    }
