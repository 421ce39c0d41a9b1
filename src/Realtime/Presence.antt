-- ===== src/Realtime/Presence.antt =====
-- apps/realtime/src/awareness.ts: who is present in a room. The awareness of y-protocols is a
-- parameter; what the room adds to it is the record of which session brought which client. Where the
-- application of an update throws, the states are taken as before; the source may keep a part of it,
-- and its records of the clients are as they were either way.
pub mod Owned
pub mod Sample
mod Tests
use hamboom.Base.{
  ℕ, ◌≡◌, Bool, true, false, ◌&&◌, Option, none, some, List, [], ◌∷◌, ◌++◌, ◌==◌, if◌then◌else◌,
}
use hamboom.Base.Table.{Table, find, store, erase, add, drop}
use hamboom.Schema.Protocol.{Bytes}

-- What the event "update" of an Awareness names.
pub record Change : Type 0 where
  pub added : List ℕ
  pub updated : List ℕ
  pub removed : List ℕ

-- y-protocols/awareness. An update that cannot be read throws: none.
pub record Awareness : Type 1 where
  pub States : Type 0
  pub apply_update : States → Bytes → Option (States × Change)
  pub remove_states : States → List ℕ → States × Change
  pub encode_update : States → List ℕ → Bytes
  pub clients : States → List ℕ

pub data Origin : Type 0 where
  of_session : (session : ℕ) → Origin
  leaving remote : Origin

-- `owned.get(session) ?? new Set()`
abbrev pub or_empty : Option (List ℕ) → List ℕ
or_empty none = []
or_empty (some ids) = ids

module _ (A : Awareness) where
  pub record Presence : Type 0 where
    pub states : A.States
    pub owned : Table (List ℕ)
    pub owner : Table ℕ

-- What a presence sends: to every session of the room but one, and to the other servers.
pub record Told : Type 0 where
  pub to_room : List (Option ℕ × Bytes)
  pub to_bus : List Bytes

abbrev pub told_nothing : Told
told_nothing = record { to_room = []; to_bus = [] }

-- `for (const id of ids) { set.add(id); owner.set(id, session) }`
unfoldable pub claim_all : ℕ → List ℕ → List ℕ × Table ℕ → List ℕ × Table ℕ
unfolding add store
claim_all session [] (ids, owner) = (ids, owner)
claim_all session (id ∷ rest) (ids, owner) =
    claim_all session rest (add id ids, store id session owner)

abbrev pub is_held : Option ℕ → ℕ → Bool
is_held none session = false
is_held (some holder) session = holder == session

-- `for (const id of removed) { ids.delete(id); if (owner.get(id) === session) owner.delete(id) }`
unfoldable pub release_all : ℕ → List ℕ → List ℕ × Table ℕ → List ℕ × Table ℕ
unfolding drop erase find
release_all session [] (ids, owner) = (ids, owner)
release_all session (id ∷ rest) (ids, owner) =
    release_all session rest
      (drop id ids, if is_held (find id owner) session then erase id owner else owner)

-- `for (const id of ids) owner.delete(id)`
unfoldable pub erase_all {ℓ} : {V : Type ℓ} → List ℕ → Table V → Table V
unfolding erase
erase_all [] t = t
erase_all (id ∷ ids) t = erase_all ids (erase id t)

abbrev pub except : Origin → Option ℕ
except (of_session session) = some session
except leaving = none
except remote = none

abbrev pub bus_copy : Origin → Bytes → List Bytes
bus_copy remote update = []
bus_copy (of_session _) update = update ∷ []
bus_copy leaving update = update ∷ []

abbrev pub no_other : Option ℕ → ℕ → Bool
no_other none session = true
no_other (some holder) session = holder == session

module _ {A : Awareness} where
  -- The part of the handler that only a session's update runs.
  unfoldable pub record_owner : Origin → Change → Presence A → Presence A
  unfolding claim_all release_all store find
  record_owner (of_session session) c p =
      let after =
        release_all session c.removed
          (claim_all session (c.added ++ c.updated) (or_empty (find session p.owned), p.owner)) in
      record p { owned = store session after.0 p.owned; owner = after.1 }
  record_owner leaving c p = p
  record_owner remote c p = p

  -- What the handler does for some changed clients.
  unfoldable pub tell : List ℕ → Origin → Change → Presence A → Presence A × Told
  unfolding record_owner
  tell [] origin c p = (p, told_nothing)
  tell (id ∷ ids) origin c p =
      let update = A.encode_update p.states (id ∷ ids) in
      (
        record_owner origin c p,
        record { to_room = (except origin, update) ∷ []; to_bus = bus_copy origin update },
      )

  -- the handler of the event "update"
  unfoldable pub on_update : Origin → Change → Presence A → Presence A × Told
  unfolding tell
  on_update origin c p = tell (c.added ++ (c.updated ++ c.removed)) origin c p

  -- `applyAwarenessUpdate` under the `try`
  unfoldable pub applied : Origin → Option (A.States × Change) → Presence A → Presence A × Told
  unfolding on_update
  applied origin none p = (p, told_nothing)
  applied origin (some (states, c)) p = on_update origin c (record p { states = states })

  unfoldable pub receive : ℕ → Bytes → Presence A → Presence A × Told
  unfolding applied
  receive session payload p = applied (of_session session) (A.apply_update p.states payload) p

  unfoldable pub receive_remote : Bytes → Presence A → Presence A × Told
  unfolding applied
  receive_remote payload p = applied remote (A.apply_update p.states payload) p

  unfoldable pub owns_client : ℕ → ℕ → Presence A → Bool
  unfolding find
  owns_client session client_id p = no_other (find client_id p.owner) session

  -- `forget` of a session that brought the clients `ids`
  unfoldable pub forget_ids : List ℕ → Presence A → Presence A × Told
  unfolding erase_all on_update
  forget_ids [] p = (p, told_nothing)
  forget_ids (id ∷ ids) p =
      let removal = A.remove_states p.states (id ∷ ids) in
      on_update leaving removal.1
        (record p { states = removal.0; owner = erase_all (id ∷ ids) p.owner })

  unfoldable pub forget : ℕ → Presence A → Presence A × Told
  unfolding forget_ids find erase
  forget session p =
      forget_ids (or_empty (find session p.owned)) (record p { owned = erase session p.owned })

  unfoldable pub snapshot : Presence A → Option Bytes
  snapshot p = elim (A.clients p.states) [
    | [] ↦ none
    | id ∷ ids ↦ some (A.encode_update p.states (id ∷ ids))
  ]
