-- ===== src/Auth/Otp/Tests.antt =====
-- A login by code.
use hamboom.Base.{◌≡◌, ◌≤◌, refl, true, false, String, [], ◌∷◌, arith}
use hamboom.Base.Dict.{get}
use hamboom.Auth.Otp.{
  OtpStore, OtpConfig, accepted, no_challenge, expired, locked, mismatch, verify_otp, verify_found,
  request_otp, sent, silent, failed,
}
use hamboom.Auth.Otp.Guesses.{verify_all, compared, verify_all-compared}
use hamboom.Auth.Otp.Challenge.{request_otp-verify_otp}

abbrev same : String → String
same s = s

abbrev config : OtpConfig
config = record { ttl_seconds = 120; max_attempts = 2; cooldown_seconds = 60 }

abbrev asked : OtpStore
asked = (request_otp same config "0912" "123456" true 1000 []).1

wrong_codes-locked :
    verify_all same config "0912"
      (("1", 1001) ∷ ("2", 1002) ∷ ("123456", 1003) ∷ ("123456", 1200) ∷ ("123456", 1201) ∷ [])
      asked
    ≡ (mismatch ∷ mismatch ∷ locked ∷ expired ∷ no_challenge ∷ [])
unfolding verify_all verify_otp request_otp
wrong_codes-locked = refl

cooldown-silent : request_otp same config "0912" "654321" true 1059 asked ≡ (silent, asked)
unfolding request_otp
cooldown-silent = refl

failure-forgotten : request_otp same config "0912" "654321" false 1060 asked ≡ (failed, [])
unfolding request_otp
failure-forgotten = refl

verify_all-compared_example :
    compared (verify_all same config "0912" (("1", 1001) ∷ ("2", 1002) ∷ ("3", 1003) ∷ []) asked)
    ≤ 2
verify_all-compared_example =
    verify_all-compared same config "0912" (("1", 1001) ∷ ("2", 1002) ∷ ("3", 1003) ∷ []) asked

is_sent : (request_otp same config "0912" "123456" true 1000 []).0 ≡ sent
unfolding request_otp
is_sent = refl

request_otp-verify_otp_example : (verify_otp same config "0912" "123456" 1100 asked).0 ≡ accepted
request_otp-verify_otp_example =
    request_otp-verify_otp same config "0912" "123456" 1000 1100 [] is_sent (ground arith)
      (ground arith)

-- Three wrong codes presented at once have all read the same record: all are compared, though two
-- attempts are allowed.
at_once :
    let r = get "0912" asked in
    let first = verify_found same config "0912" "1" 1001 r asked in
    let second = verify_found same config "0912" "2" 1001 r first.1 in
    let third = verify_found same config "0912" "3" 1001 r second.1 in
    (first.0 ≡ mismatch) × (second.0 ≡ mismatch) × (third.0 ≡ mismatch)
unfolding verify_found request_otp get
at_once = (refl, refl, refl)
