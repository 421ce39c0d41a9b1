-- ===== src/Auth/Refresh.antt =====
-- packages/auth-core/src/refresh.ts: sessions that are renewed with tokens of one use. Times are
-- seconds; a token and a family that the code draws at random are arguments.
pub mod Store
pub mod Spent
pub mod Reuse
pub mod Live
mod Tests
use hamboom.Base.{
  ℕ, ◌+◌, ◌≡◌, ◌&&◌, Bool, true, false, not, String, Option, none, some, List, [], ◌∷◌, leb, ltb,
  ◌===◌, if◌then◌else◌,
}
use hamboom.Base.Dict.{Dict, get, put, keep}

pub record SessionRecord : Type 0 where
  pub token_hash : String
  pub family_id : String
  pub sub : String
  pub used : Bool
  pub expires_at : ℕ

-- the map of `createMemorySessionStore`, by the hash of the token
abbrev pub SessionStore : Type 0
SessionStore = Dict SessionRecord

pub data RefreshError : Type 0 where
  invalid expired reuse : RefreshError

pub data Result {ℓ} (A : Type ℓ) : Type ℓ where
  ok : A → Result A
  err : RefreshError → Result A

unfoldable pub find_by_hash : String → SessionStore → Option SessionRecord
unfolding get
find_by_hash h s = get h s

unfoldable pub insert : SessionRecord → SessionStore → SessionStore
unfolding put
insert r s = put r.token_hash r s

mark_found : String → Option SessionRecord → SessionStore → SessionStore
unfolding put
mark_found h none s = s
mark_found h (some r) s = put h (record r { used = true }) s

unfoldable pub mark_used : String → SessionStore → SessionStore
unfolding mark_found get
mark_used h s = mark_found h (get h s) s

unfoldable pub burn_family : String → SessionStore → SessionStore
unfolding keep
burn_family family s = keep (λ h r. not (r.family_id === family)) s

-- the number that `revokeAllForUser` returns
unfoldable pub active_sessions : ℕ → String → SessionStore → ℕ
active_sessions now sub [] = 0
active_sessions now sub ((h, r) ∷ s) =
    let rest = active_sessions now sub s in
    if (r.sub === sub) && (not r.used && ltb now r.expires_at) then rest + 1 else rest

unfoldable pub revoke_all_for_user : ℕ → String → SessionStore → ℕ × SessionStore
unfolding active_sessions keep
revoke_all_for_user now sub s = (active_sessions now sub s, keep (λ h r. not (r.sub === sub)) s)

pub record RotateResult : Type 0 where
  pub sub : String
  pub refresh_token : String

-- What the service is run with: SHA-256 in hexadecimal, and how long a session lives.
module _ (hash : String → String) (ttl_seconds : ℕ) where
  unfoldable pub start_session : String → String → String → ℕ → SessionStore → String × SessionStore
  unfolding insert
  start_session sub token family now s = (
    token,
    insert
        (record {
          token_hash = hash token;
          family_id = family;
          sub = sub;
          used = false;
          expires_at = now + ttl_seconds;
        })
        s,
  )

  -- the record that takes the place of a used one
  unfoldable pub successor : SessionRecord → String → ℕ → SessionRecord
  successor r next later = record {
    token_hash = hash next;
    family_id = r.family_id;
    sub = r.sub;
    used = false;
    expires_at = later + ttl_seconds;
  }

  rotate_found :
      String
      → Option SessionRecord
      → String
      → ℕ
      → ℕ
      → SessionStore
      → Result RotateResult × SessionStore
  rotate_found h none next now later s = (err invalid, s)
  rotate_found h (some r) next now later s =
      if r.used
      then (err reuse, burn_family r.family_id s)
      else if leb r.expires_at now
      then (err expired, s)
      else (
        ok (record { sub = r.sub; refresh_token = next }),
        insert (successor r next later) (mark_used h s),
      )

  -- The clock is read twice: `now` for the test, `later` for the new expiry.
  unfoldable pub rotate_session :
      String → String → ℕ → ℕ → SessionStore → Result RotateResult × SessionStore
  unfolding rotate_found find_by_hash successor insert mark_used burn_family
  rotate_session raw_token next now later s =
      rotate_found (hash raw_token) (find_by_hash (hash raw_token) s) next now later s
