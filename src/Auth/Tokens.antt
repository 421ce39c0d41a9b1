-- ===== src/Auth/Tokens.antt =====
-- packages/auth-core/src/tokens.ts: the token that opens a board, and how the realtime service reads
-- it (apps/realtime/src/auth/auth-core-authority.ts, and server.ts up to the room). Checking a signature is the library jose's:
-- what it answers for a token is an argument. Times are seconds.
pub mod Admit
mod Tests
use hamboom.Base.{
  ℕ, ◌+◌, ◌*◌, ◌≡◌, Bool, true, false, not, String, Option, none, some, List, [], ◌∷◌, ◌===◌, ltb,
  leb, if◌then◌else◌,
}
use hamboom.Base.Int.{pos}
use hamboom.Billing.Money.{Number, int, is_safe_integer}
use hamboom.Billing.Gateway.Zarinpal.{Value, member_of, text_in, number_in}
use hamboom.Auth.Roles.{BoardRole, editor, commenter, viewer}

-- What `jwtVerify` gives: the payload, or one of its errors.
pub data Jwt : Type 0 where
  payload : Value → Jwt
  jwt_expired signature_failed algorithm_not_allowed other_error : Jwt

pub data TokenError : Type 0 where
  malformed signature expired shape exp_too_far wrong_board : TokenError

pub record RtTokenClaims : Type 0 where
  pub sub : String
  pub board_id : String
  pub role : BoardRole
  pub exp : ℕ

pub data Result {ℓ} (A : Type ℓ) : Type ℓ where
  ok : A → Result A
  err : TokenError → Result A

-- `z.string().min(1)`
nonempty : Option String → Option String
nonempty none = none
nonempty (some s) = if s === "" then none else some s

-- `z.enum(boardRoles)`
role_in : Option String → Option BoardRole
role_in none = none
role_in (some s) =
    if s === "owner"
    then some BoardRole.owner
    else if s === "editor"
    then some editor
    else if s === "commenter"
    then some commenter
    else if s === "viewer"
    then some viewer
    else none

-- `z.number().int().positive()`
exp_in : Option Number → Option ℕ
exp_in (some (int (pos n))) =
    if is_safe_integer (int (pos n)) then (if ltb 0 n then some n else none) else none
exp_in _ = none

claims_of : Option String → Option String → Option BoardRole → Option ℕ → Option RtTokenClaims
claims_of (some sub) (some board) (some role) (some exp) =
    some (record { sub = sub; board_id = board; role = role; exp = exp })
claims_of _ _ _ _ = none

-- `rtTokenClaims.safeParse`
unfoldable pub parse_claims : Value → Option RtTokenClaims
unfolding claims_of nonempty role_in exp_in
parse_claims p =
    claims_of (nonempty (text_in (member_of "sub" p))) (nonempty (text_in (member_of "boardId" p)))
      (role_in (text_in (member_of "role" p))) (exp_in (number_in (member_of "exp" p)))

unfoldable pub check_claims : String → ℕ → ℕ → Option RtTokenClaims → Result RtTokenClaims
check_claims expected ttl_seconds now none = err shape
check_claims expected ttl_seconds now (some c) =
    if ltb (now + 2 * ttl_seconds) c.exp
    then err exp_too_far
    else if not (c.board_id === expected)
    then err wrong_board
    else ok c

unfoldable pub verify_rt_token : Jwt → String → ℕ → ℕ → Result RtTokenClaims
unfolding check_claims parse_claims
verify_rt_token (payload p) expected ttl_seconds now =
    check_claims expected ttl_seconds now (parse_claims p)
verify_rt_token jwt_expired expected ttl_seconds now = err expired
verify_rt_token signature_failed expected ttl_seconds now = err signature
verify_rt_token algorithm_not_allowed expected ttl_seconds now = err signature
verify_rt_token other_error expected ttl_seconds now = err malformed

-- The codes that a connection is refused with.
pub data AuthError : Type 0 where
  token_missing token_expired token_invalid board_forbidden : AuthError

pub data Admission : Type 0 where
  admitted : RtTokenClaims → Admission
  refused : AuthError → Admission

unfoldable pub map_token_error : TokenError → AuthError
map_token_error expired = token_expired
map_token_error wrong_board = board_forbidden
map_token_error _ = token_invalid

unfoldable pub admission_of : Result RtTokenClaims → Admission
unfolding map_token_error
admission_of (ok c) = admitted c
admission_of (err e) = refused (map_token_error e)

-- `verify` of the realtime authority; `jwt` is what jose answers for a token.
module _ (jwt : String → Jwt) where
  unfoldable pub verify : String → String → ℕ → ℕ → Admission
  unfolding admission_of verify_rt_token
  verify token board ttl_seconds now =
      if token === ""
      then refused token_missing
      else admission_of (verify_rt_token (jwt token) board ttl_seconds now)

-- What `currentRole` of the authority answers for a user and a board: undefined (or there is no such
-- method), null, or a role. A call that throws is refused as null is.
pub data CurrentRole : Type 0 where
  unknown gone : CurrentRole
  now_is : BoardRole → CurrentRole

-- `effectiveRole`, none where it throws FORBIDDEN
unfoldable pub effective_role : CurrentRole → BoardRole → Option BoardRole
effective_role unknown role = some role
effective_role gone role = none
effective_role (now_is role) _ = some role

-- How `acceptConnection` goes on up to `onJoin`: a session is handed to the room, or the connection
-- is refused by the authority or for the access that is gone.
pub data Acceptance : Type 0 where
  joins : RtTokenClaims → BoardRole → Acceptance
  denied : AuthError → Acceptance
  forbidden : Acceptance

abbrev pub with_role : RtTokenClaims → Option BoardRole → Acceptance
with_role c none = forbidden
with_role c (some role) = joins c role

unfoldable pub accepted_of : (RtTokenClaims → CurrentRole) → Admission → Acceptance
unfolding effective_role
accepted_of current (refused e) = denied e
accepted_of current (admitted c) = with_role c (effective_role (current c) c.role)

module _ (jwt : String → Jwt) (current : RtTokenClaims → CurrentRole) where
  unfoldable pub accept_connection : String → String → ℕ → ℕ → Acceptance
  unfolding accepted_of verify
  accept_connection token board ttl_seconds now =
      accepted_of current (verify jwt token board ttl_seconds now)
