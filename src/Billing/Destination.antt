-- ===== src/Billing/Destination.antt =====
-- packages/billing-core/src/transfer-destination.ts: the card and the IBAN (sheba) that customers
-- pay to, checked at boot. Texts are lists of UTF-16 code units.
pub mod Luhn
pub mod Sheba
pub mod Resolve
mod Tests
use hamboom.Base.{
  ℕ, zero, suc, ◌+◌, ◌-◌, ◌*◌, ◌%◌, ◌<◌, ◌≤◌, Bool, true, false, ◌&&◌, ◌||◌, not, Option, none,
  some, List, [], ◌∷◌, ◌++◌, map, ltb, leb, ◌==◌, if◌then◌else◌, length, all, filterb, is_some,
}
use mathlib.Core.List.{reverse}

-- A text, as its code units.
abbrev pub Text : Type 0
Text = List ℕ

-- What JavaScript's `\s` and `trim` take for white space.
unfoldable pub is_space : ℕ → Bool
is_space c =
    (leb 9 c && leb c 13)
    || (c == 32)
    || (c == 160)
    || (c == 5760)
    || (leb 8192 c && leb c 8202)
    || (c == 8232)
    || (c == 8233)
    || (c == 8239)
    || (c == 8287)
    || (c == 12288)
    || (c == 65279)

-- `\d`
unfoldable pub is_digit : ℕ → Bool
is_digit c = leb b'0' c && leb c b'9'

-- `raw.replace(/[\s-]/g, "")`
unfoldable pub digits_only : Text → Text
unfolding is_space
digits_only = filterb λ c. not (is_space c || (c == b'-'))

-- `raw.replace(/\s/g, "")`
unfoldable pub without_spaces : Text → Text
unfolding is_space
without_spaces = filterb λ c. not (is_space c)

unfoldable pub trim_start : Text → Text
unfolding is_space
trim_start [] = []
trim_start (c ∷ cs) = if is_space c then trim_start cs else c ∷ cs

unfoldable pub trim : Text → Text
unfolding trim_start
trim s = reverse (trim_start (reverse (trim_start s)))

-- the body of the loop of `luhnOk`
unfoldable pub luhn_digit : Bool → ℕ → ℕ
luhn_digit false d = d
luhn_digit true d = if ltb 9 (d * 2) then d * 2 - 9 else d * 2

-- the loop of `luhnOk`, from the last digit to the first
unfoldable pub luhn_sum : Bool → Text → ℕ → ℕ
unfolding luhn_digit
luhn_sum double [] sum = sum
luhn_sum double (c ∷ cs) sum = luhn_sum (not double) cs (sum + luhn_digit double (c - 48))

unfoldable pub luhn_ok : Text → Bool
unfolding luhn_sum
luhn_ok digits = luhn_sum false (reverse digits) 0 % 10 == 0

-- the loop of `shebaOk`
unfoldable pub mod_97 : ℕ → Text → ℕ
mod_97 remainder [] = remainder
mod_97 remainder (c ∷ cs) = mod_97 ((remainder * 10 + (c - 48)) % 97) cs

-- `/^\d{n}$/`
unfoldable pub is_digits : ℕ → Text → Bool
unfolding is_digit
is_digits n s = (length s == n) && all is_digit s

-- `/^IR\d{24}$/`
unfoldable pub is_sheba_form : Text → Bool
unfolding is_digits
is_sheba_form (a ∷ b ∷ rest) = (a == b'I') && (b == b'R') && is_digits 24 rest
is_sheba_form _ = false

-- `value.slice(4)` then `1827` then `value.slice(2, 4)`
unfoldable pub rearranged : Text → Text
rearranged (a ∷ b ∷ c ∷ d ∷ rest) = rest ++ (b'1' ∷ b'8' ∷ b'2' ∷ b'7' ∷ c ∷ d ∷ [])
rearranged (a ∷ b ∷ c ∷ []) = b'1' ∷ b'8' ∷ b'2' ∷ b'7' ∷ c ∷ []
rearranged _ = b'1' ∷ b'8' ∷ b'2' ∷ b'7' ∷ []

unfoldable pub sheba_ok : Text → Bool
unfolding is_sheba_form mod_97 rearranged
sheba_ok value = is_sheba_form value && (mod_97 0 (rearranged value) == 1)

-- `toUpperCase`, where it matters: a letter outside ASCII keeps its place unless it turns into one
-- of `I` and `R` alone, which the dotless i does. Any other turns into no digit, no `I` and no `R`
-- alone, so that the form of a sheba is refused with it or without.
unfoldable pub to_upper : ℕ → ℕ
to_upper c = if leb b'a' c && leb c b'z' then c - 32 else if c == 305 then b'I' else c

pub record Input : Type 0 where
  pub card : Option Text
  pub sheba : Option Text
  pub holder_name : Option Text
  pub bank_name : Option Text

pub record Destination : Type 0 where
  pub card : Option Text
  pub sheba : Option Text
  pub holder_name : Text
  pub bank_name : Option Text

-- The messages of `problems`, in the order of the source.
pub data Problem : Type 0 where
  card_form card_luhn sheba_form sheba_mod_97 no_destination no_holder : Problem

pub data Result : Type 0 where
  ok : Destination → Result
  invalid : List Problem → Result

abbrev pub or_empty : Option Text → Text
or_empty none = []
or_empty (some s) = s

-- A field that is read: absent, refused with a problem, or taken.
pub data Field : Type 0 where
  absent : Field
  refused : Problem → Field
  taken : Text → Field

abbrev pub value : Field → Option Text
value absent = none
value (refused p) = none
value (taken s) = some s

abbrev pub problem : Field → List Problem
problem absent = []
problem (refused p) = p ∷ []
problem (taken s) = []

unfoldable pub read_card : Text → Field
unfolding digits_only is_digits luhn_ok
read_card [] = absent
read_card (c ∷ cs) =
    let normalized = digits_only (c ∷ cs) in
    if not (is_digits 16 normalized)
    then refused card_form
    else if not (luhn_ok normalized)
    then refused card_luhn
    else taken normalized

abbrev pub starts_with_ir : Text → Bool
starts_with_ir (a ∷ b ∷ rest) = (a == b'I') && (b == b'R')
starts_with_ir _ = false

unfoldable pub with_ir : Text → Text
with_ir s = if starts_with_ir s then s else b'I' ∷ b'R' ∷ s

unfoldable pub read_sheba : Text → Field
read_sheba [] = absent
read_sheba (c ∷ cs) =
    let normalized = with_ir (c ∷ cs) in
    if not (is_sheba_form normalized)
    then refused sheba_form
    else if not (sheba_ok normalized)
    then refused sheba_mod_97
    else taken normalized

abbrev pub empty : Text → Bool
empty [] = true
empty (c ∷ cs) = false

abbrev pub is_nil {ℓ} : {A : Type ℓ} → List A → Bool
is_nil [] = true
is_nil (x ∷ xs) = false

abbrev pub or_null : Text → Option Text
or_null [] = none
or_null (c ∷ cs) = some (c ∷ cs)

-- what follows the reading of the two fields
unfoldable pub finish : Field → Field → Text → Text → Result
finish card sheba holder bank =
    let field_problems = problem card ++ problem sheba in
    let missing =
      if not (is_some (value card)) && not (is_some (value sheba)) && is_nil field_problems
      then no_destination ∷ []
      else [] in
    let unnamed = if empty holder then no_holder ∷ [] else [] in
    let problems = field_problems ++ (missing ++ unnamed) in
    if is_nil problems
    then ok (record {
      card = value card;
      sheba = value sheba;
      holder_name = holder;
      bank_name = or_null bank;
    })
    else invalid problems

unfoldable pub resolve_transfer_destination : Input → Result
unfolding trim without_spaces to_upper read_card read_sheba finish is_sheba_form sheba_ok with_ir
resolve_transfer_destination input =
    finish (read_card (trim (or_empty input.card)))
      (read_sheba (without_spaces (map to_upper (trim (or_empty input.sheba)))))
      (trim (or_empty input.holder_name)) (trim (or_empty input.bank_name))
