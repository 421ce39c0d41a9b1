-- ===== src/Billing/Destination/Tests.antt =====
-- Destinations as an operator types them.
use hamboom.Base.{◌≡◌, ◌++◌, refl, none, some, true, [], ◌∷◌, codes}
use hamboom.Billing.Destination.{
  Input, Destination, card_luhn, no_destination, no_holder, ok, invalid, luhn_ok, sheba_ok,
  resolve_transfer_destination,
}
use hamboom.Billing.Destination.Luhn.{luhn_ok-misses}

abbrev typed : Input
typed = record {
  card = some (codes " 6037-9912 3456-7893 ");
  sheba = some (codes "");
  holder_name = some (codes "Hamboom ");
  bank_name = none;
}

abbrev destination : Destination
destination = record {
  card = some (codes "6037991234567893");
  sheba = none;
  holder_name = codes "Hamboom";
  bank_name = none;
}

accepted : resolve_transfer_destination typed ≡ ok destination
unfolding resolve_transfer_destination
accepted = refl

-- All problems are reported together.
reported :
    (resolve_transfer_destination (record {
      card = some (codes "6037991234567894");
      sheba = none;
      holder_name = none;
      bank_name = none;
    })
      ≡ invalid (card_luhn ∷ no_holder ∷ []))
    × (resolve_transfer_destination (record typed { card = none }) ≡ invalid (no_destination ∷ []))
unfolding resolve_transfer_destination
reported = (refl, refl)

sheba_passes : sheba_ok (codes "IR380170000000100000000001") ≡ true
unfolding sheba_ok
sheba_passes = refl

card_passes : luhn_ok (codes "6037991234567893") ≡ true
unfolding luhn_ok
card_passes = refl

luhn_ok-misses_example :
    luhn_ok (codes "6037" ++ b'9' ∷ b'0' ∷ codes "1234567893")
    ≡ luhn_ok (codes "6037" ++ b'0' ∷ b'9' ∷ codes "1234567893")
luhn_ok-misses_example = luhn_ok-misses (codes "6037") (codes "1234567893")
