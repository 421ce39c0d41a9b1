-- ===== src/Api/Idempotency.antt =====
-- apps/api/src/idempotency.ts: a repeated POST with one key is answered once. A request is a number,
-- its identity; one that waits for the answer of another is listed with the key. SHA-256 is a
-- parameter.
pub mod Replayed
pub mod Kept
mod Tests
use hamboom.Base.{
  ℕ, ◌+◌, Bool, true, false, not, ◌&&◌, ◌||◌, String, Option, none, some, List, [], ◌∷◌, ◌++◌, ltb,
  leb, ◌===◌, if◌then◌else◌,
}
use hamboom.Base.Dict.{Dict, get, put, remove, keep}

pub record Entry : Type 0 where
  pub status : ℕ
  pub body : String
  pub content_type : String

pub record Stored : Type 0 where
  pub entry : Entry
  pub expires_at : ℕ

-- The maps `done` and `inflight`.
pub record Cache : Type 0 where
  pub done : Dict Stored
  pub inflight : Dict (List ℕ)

pub record Request : Type 0 where
  pub id : ℕ
  pub method : String
  pub idempotency_key : Option String
  pub authorization : Option String
  pub url : String

-- What the hook "preHandler" decides: the handler runs, with the key or without; the answer is
-- sent again; or the request waits for the one that runs.
pub data Decision : Type 0 where
  passes : Decision
  runs : (key : String) → Decision
  replays : Entry → Decision
  waits : (key : String) → Decision

module _ (scope_of : String → String) (join : List String → String) where
  -- `${scopeOf(auth)}:${url}:${header}`, or none where the hook returns at once
  unfoldable pub key_of : Request → Option String
  key_of r = elim r.idempotency_key [
    | none ↦ none
    | some header ↦ elim r.authorization [
      | none ↦ none
      | some auth ↦
          if not (r.method === "POST") || (header === "")
          then none
          else some (join (scope_of auth ∷ r.url ∷ header ∷ []))
    ]
  ]

-- `for (const [k, v] of done) if (v.expiresAt <= now) done.delete(k)`
unfoldable pub purge : (now : ℕ) → Cache → Cache
unfolding keep
purge now c = record c { done = keep (λ _ v. not (leb v.expires_at now)) c.done }

-- `inflight.get(key)` and what follows
unfoldable pub join_or_run : (id : ℕ) (key : String) → Option (List ℕ) → Cache → Cache × Decision
unfolding put
join_or_run id key none c = (record c { inflight = put key [] c.inflight }, runs key)
join_or_run id key (some waiting) c =
    (record c { inflight = put key (waiting ++ id ∷ []) c.inflight }, waits key)

unfoldable pub replay_or_join : (id : ℕ) (key : String) → Option Stored → Cache → Cache × Decision
unfolding join_or_run get
replay_or_join id key (some stored) c = (c, replays stored.entry)
replay_or_join id key none c = join_or_run id key (get key c.inflight) c

-- the hook "preHandler" behind its first test
unfoldable pub pre_handler_keyed : (id : ℕ) (key : String) (now : ℕ) → Cache → Cache × Decision
unfolding purge replay_or_join get
pre_handler_keyed id key now c = replay_or_join id key (get key (purge now c).done) (purge now c)

unfoldable pub pre_handler : (id : ℕ) → Option String → (now : ℕ) → Cache → Cache × Decision
unfolding pre_handler_keyed
pre_handler id none now c = (c, passes)
pre_handler id (some key) now c = pre_handler_keyed id key now c

-- A reply as the hook "onSend" sees it; the payload is none where it is not a text.
pub record Reply : Type 0 where
  pub status : ℕ
  pub payload : Option String
  pub content_type : String

abbrev pub or_blank : Option String → String
or_blank none = ""
or_blank (some s) = s

abbrev pub is_text : Option String → Bool
is_text none = false
is_text (some _) = true

abbrev pub entry_of : Reply → Entry
entry_of r = record { status = r.status; body = or_blank r.payload; content_type = r.content_type }

abbrev pub or_nobody : Option (List ℕ) → List ℕ
or_nobody none = []
or_nobody (some ids) = ids

-- the hook "onSend" of a request with a key: the requests that are answered with the entry too
unfoldable pub on_send_keyed : (ttl : ℕ) (key : String) (now : ℕ) → Reply → Cache → Cache × List ℕ
unfolding get put remove
on_send_keyed ttl key now r c =
    let settled = record c { inflight = remove key c.inflight } in
    (
      if (leb 200 r.status && ltb r.status 300) && is_text r.payload
          then record settled {
            done = put key (record { entry = entry_of r; expires_at = now + ttl }) c.done;
          }
          else settled,
      or_nobody (get key c.inflight),
    )

unfoldable pub on_send : (ttl : ℕ) → Option String → (now : ℕ) → Reply → Cache → Cache × List ℕ
unfolding on_send_keyed
on_send ttl none now r c = (c, [])
on_send ttl (some key) now r c = on_send_keyed ttl key now r c
