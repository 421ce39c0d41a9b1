-- ===== src/Realtime/OwnerLock.antt =====
-- apps/realtime/src/pubsub/redis-owner-lock.ts: the lock in Redis, with its two scripts. Redis is a
-- parameter: its commands at the time of its clock. The two commands of `acquire` run at one time.
pub mod Leased
mod Tests
use hamboom.Base.{
  ℕ, ◌+◌, ◌≤◌, ◌<◌, ◌≡◌, Bool, true, false, String, Option, none, some, ltb, ◌===◌, if◌then◌else◌,
}

-- `SET key value EX seconds NX` tells whether the key was set, and `GET` shows a key that has not
-- expired; `EXPIRE` renews the lease of a key, and `DEL` removes it.
pub record Redis : Type 1 where
  pub Store : Type 0
  pub get : (key : String) (now : ℕ) → Store → Option String
  pub set_nx : (key value : String) (seconds now : ℕ) → Store → Store × Bool
  pub expire : (key : String) (seconds now : ℕ) → Store → Store
  pub del : (key : String) → Store → Store

-- `redis.call("get", KEYS[1]) == ARGV[1]`
abbrev pub is_held_by : Option String → String → Bool
is_held_by none node = false
is_held_by (some holder) node = holder === node

module _ (R : Redis) where
  -- The key of a board is left as the board.
  unfoldable pub acquire : (board node : String) (seconds now : ℕ) → R.Store → R.Store × Bool
  acquire board node seconds now store =
      let tried = R.set_nx board node seconds now store in
      if tried.1 then tried else (tried.0, is_held_by (R.get board now tried.0) node)

  -- the script RENEW
  unfoldable pub renew : (board node : String) (seconds now : ℕ) → R.Store → R.Store × Bool
  renew board node seconds now store =
      if is_held_by (R.get board now store) node
      then (R.expire board seconds now store, true)
      else (store, false)

  -- the script RELEASE
  unfoldable pub release : (board node : String) (now : ℕ) → R.Store → R.Store
  release board node now store =
      if is_held_by (R.get board now store) node then R.del board store else store
