-- ===== src/Auth/Otp.antt =====
-- packages/auth-core/src/otp.ts: one-time codes for a login by phone. Times are seconds. The code
-- that is drawn at random is an argument, and so is whether the SMS provider sent the message.
pub mod Guesses
pub mod Challenge
mod Tests
use hamboom.Base.{
  ℕ, ◌+◌, ◌≡◌, ◌&&◌, Bool, true, false, not, String, Option, none, some, List, [], ◌∷◌, leb, ltb,
  ◌===◌, if◌then◌else◌,
}
use hamboom.Base.Dict.{Dict, get, put, remove}

pub record OtpRecord : Type 0 where
  pub code_hash : String
  pub attempts : ℕ
  pub expires_at : ℕ
  pub created_at : ℕ

-- the map of `createMemoryOtpStore`, by phone
abbrev pub OtpStore : Type 0
OtpStore = Dict OtpRecord

pub record OtpConfig : Type 0 where
  pub ttl_seconds : ℕ
  pub max_attempts : ℕ
  pub cooldown_seconds : ℕ

-- How a request ends: nothing is done in the cooldown, the message is out, or `send` threw.
pub data Request : Type 0 where
  silent sent failed : Request

pub data OtpResult : Type 0 where
  accepted no_challenge expired locked mismatch : OtpResult

increment_found : String → Option OtpRecord → OtpStore → OtpStore
unfolding put
increment_found phone none s = s
increment_found phone (some r) s = put phone (record r { attempts = r.attempts + 1 }) s

unfoldable pub increment_attempts : String → OtpStore → OtpStore
unfolding increment_found get
increment_attempts phone s = increment_found phone (get phone s) s

cooling : ℕ → ℕ → Option OtpRecord → Bool
cooling now cooldown none = false
cooling now cooldown (some r) = ltb now (r.created_at + cooldown)

-- `hash` is SHA-256 in hexadecimal.
module _ (hash : String → String) (config : OtpConfig) where
  unfoldable pub challenge : String → ℕ → OtpRecord
  challenge code now = record {
    code_hash = hash code;
    attempts = 0;
    expires_at = now + config.ttl_seconds;
    created_at = now;
  }

  unfoldable pub request_otp : String → String → Bool → ℕ → OtpStore → Request × OtpStore
  unfolding cooling challenge get put remove
  request_otp phone code sends now s =
      if cooling now config.cooldown_seconds (get phone s)
      then (silent, s)
      else if sends
      then (sent, put phone (challenge code now) s)
      else (failed, remove phone (put phone (challenge code now) s))

  -- What follows the read of the store: the record that was read, and the store as it is then.
  verify_found : String → String → ℕ → Option OtpRecord → OtpStore → OtpResult × OtpStore
  verify_found phone code now none s = (no_challenge, s)
  verify_found phone code now (some r) s =
      if leb r.expires_at now
      then (expired, remove phone s)
      else if leb config.max_attempts r.attempts
      then (locked, s)
      else if not (r.code_hash === hash code)
      then (mismatch, increment_attempts phone s)
      else (accepted, remove phone s)

  -- A verification with no other call on the store between its read and its write.
  unfoldable pub verify_otp : String → String → ℕ → OtpStore → OtpResult × OtpStore
  unfolding verify_found get remove increment_attempts
  verify_otp phone code now s = verify_found phone code now (get phone s) s
