-- ===== src/Auth/Tokens/Tests.antt =====
-- A token for board b1, presented for b1 and for another board.
use hamboom.Base.{◌≡◌, ◌≢◌, ◌↔◌, refl, String, ◌===◌, if◌then◌else◌}
use hamboom.Base.Int.{pos}
use hamboom.Billing.Money.{int, is_safe_integer}
use hamboom.Billing.Gateway.Zarinpal.{
  Value, text, number, object, field, end, text_in, member_of, number_in,
}
use hamboom.Auth.Roles.{BoardRole, editor, viewer}
use hamboom.Auth.Tokens.{
  Jwt, payload, signature_failed, RtTokenClaims, parse_claims, verify, admitted, refused,
  token_missing, token_invalid, board_forbidden, CurrentRole, gone, now_is, accept_connection,
  joins, forbidden,
}
use hamboom.Auth.Tokens.Admit.{IsAdmissible, accept_connection-IsAdmissible}

abbrev body : Value
body = object (
    field "sub" (text "u1") (
      field "boardId" (text "b1")
        (field "role" (text "editor") (field "exp" (number (int (pos 1060))) end))))

abbrev jose : String → Jwt
jose token = if token === "signed" then payload body else signature_failed

abbrev claims : RtTokenClaims
claims = record { sub = "u1"; board_id = "b1"; role = editor; exp = 1060 }

own_board : verify jose "signed" "b1" 60 1000 ≡ admitted claims
unfolding verify parse_claims is_safe_integer text_in member_of number_in
own_board = refl

other_board : verify jose "signed" "b2" 60 1000 ≡ refused board_forbidden
unfolding verify parse_claims is_safe_integer text_in member_of number_in
other_board = refl

too_long : verify jose "signed" "b1" 20 1000 ≡ refused token_invalid
unfolding verify parse_claims is_safe_integer text_in member_of number_in
too_long = refl

no_token : verify jose "" "b1" 60 1000 ≡ refused token_missing
unfolding verify
no_token = refl

-- The authority knows the user as a viewer by now, or that the access is gone.
abbrev demoted : RtTokenClaims → CurrentRole
demoted c = now_is viewer

abbrev removed : RtTokenClaims → CurrentRole
removed c = gone

joins_as_viewer : accept_connection jose demoted "signed" "b1" 60 1000 ≡ joins claims viewer
unfolding accept_connection parse_claims is_safe_integer text_in member_of number_in
joins_as_viewer = refl

access_gone : accept_connection jose removed "signed" "b1" 60 1000 ≡ forbidden
unfolding accept_connection parse_claims is_safe_integer text_in member_of number_in
access_gone = refl

accept_connection-IsAdmissible_example :
    (accept_connection jose demoted "signed" "b1" 60 1000 ≡ joins claims viewer) ↔ (
      (◌≢◌ {A = String} "signed" "")
      × IsAdmissible (jose "signed") "b1" 60 1000 claims
      × (◌≡◌ {A = BoardRole} viewer viewer))
accept_connection-IsAdmissible_example =
    accept_connection-IsAdmissible jose "b1" 60 1000 demoted "signed" claims viewer
