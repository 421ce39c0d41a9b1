-- ===== src/Realtime/Room/Messages.antt =====
-- apps/realtime/src/room.ts: what a session sends, sessions that come and go, changes of role and
-- of ownership, and the events of a room as steps.
use hamboom.Base.{
  ℕ, Bool, false, not, ◌&&◌, ◌||◌, String, Option, none, some, List, [], ◌∷◌, ◌++◌, map, length,
  filterb, ◌==◌, ◌===◌, if◌then◌else◌, codes,
}
use hamboom.Auth.Roles.{BoardRole, rank, role_name, may_write_document, may_broadcast_presence}
use hamboom.Schema.Protocol.{
  Bytes, Decoded, unknown, corrupt, message, sync, awareness, auth_refresh, permission, room_info,
  ephemeral, hb_error, saved, transient, decode_message,
}
use hamboom.Realtime.Presence.{receive, forget, owns_client, snapshot}
use hamboom.Realtime.Room.{
  Platform, Session, Out, sends, relays, by_client, Node, emit, with_room, others, announce,
  wire_document, tell_presence, persist_and_fanout, publish_to_bus,
}

abbrev pub may_write : Session → Bool
may_write s = may_write_document (some (role_name s.role))

abbrev pub may_tell : Session → Bool
may_tell s = may_broadcast_presence (some (role_name s.role))

-- `session.role = role`
abbrev pub set_role : ℕ → BoardRole → List Session → List Session
set_role id role [] = []
set_role id role (s ∷ ss) =
    (if s.id == id then record s { role = role } else s) ∷ set_role id role ss

-- `session.sub !== sub || session.role === role`, negated
abbrev pub is_changed : String → BoardRole → Session → Bool
is_changed sub role s = (s.sub === sub) && not (rank s.role == rank role)

abbrev pub change_roles : String → BoardRole → List Session → List Session
change_roles sub role [] = []
change_roles sub role (s ∷ ss) =
    (if is_changed sub role s then record s { role = role } else s) ∷ change_roles sub role ss

abbrev pub find_session : ℕ → List Session → Option Session
find_session id [] = none
find_session id (s ∷ ss) = if s.id == id then some s else find_session id ss

-- `isEmptyUpdate`, with its `catch`
abbrev pub empty_counts : Option (ℕ × ℕ) → Bool
empty_counts none = false
empty_counts (some (structs, deletes)) = (structs == 0) && (deletes == 0)

module _ (P : Platform) where
  abbrev pub empty_bytes : Option (Bytes × Bytes) → Bool
  empty_bytes none = false
  empty_bytes (some (payload, _)) = empty_counts (P.yjs.decode_update payload)

  unfoldable pub is_empty_update : Bytes → Bool
  is_empty_update rest = empty_bytes (P.lib0.read_bytes rest)

  abbrev pub is_write : ℕ → Bool
  is_write kind = (kind == P.yjs.step2) || (kind == P.yjs.update_kind)

abbrev pub reply_to : Session → Bytes → List Out
reply_to s [] = []
reply_to s (b ∷ bs) = sends s.id (sync (b ∷ bs)) ∷ []

abbrev pub present_to : Session → Option Bytes → List Out
present_to s none = []
present_to s (some payload) = sends s.id (awareness payload) ∷ []

module _ {P : Platform} where
  -- The texts of messages to people are left out.
  unfoldable pub deny_write : Session → Node P → Node P
  deny_write s n =
      emit (sends s.id (permission s.role) ∷ sends s.id (hb_error (codes "FORBIDDEN") []) ∷ []) n

  -- what `readSyncMessage` did; none: it threw
  unfoldable pub sync_read :
      Session → Option (P.yjs.Doc × Option Bytes × Bytes) → Node P → Option (Node P)
  unfolding wire_document
  sync_read s none n = none
  sync_read s (some (doc, changed, reply)) n = some (
      emit (reply_to s reply)
        (wire_document (by_client s.id) changed (with_room (record n.room { doc = doc }) n)))

  -- a SYNC message behind the number of its kind
  unfoldable pub handle_sync : Session → Bytes → Option (ℕ × Bytes) → Node P → Option (Node P)
  unfolding is_empty_update deny_write sync_read
  handle_sync s payload none n = none
  handle_sync s payload (some (kind, rest)) n =
      if is_write P kind && not (may_write s)
      then some (if is_empty_update P rest then n else deny_write s n)
      else sync_read s (P.yjs.read_sync payload n.room.doc) n

  unfoldable pub handle_ephemeral : Session → ℕ → Bytes → Node P → Node P
  unfolding owns_client publish_to_bus
  handle_ephemeral s client_id frame n =
      if may_tell s && owns_client s.id client_id n.room.present
      then publish_to_bus transient frame 0
          (emit (map (λ t. relays t.id frame) (others (some s.id) n.room.sessions)) n)
      else n

  unfoldable pub handle_decoded : Session → Bytes → Decoded → Node P → Option (Node P)
  unfolding handle_sync handle_ephemeral tell_presence receive may_broadcast_presence
  handle_decoded s frame unknown n = some n
  handle_decoded s frame (corrupt _) n = none
  handle_decoded s frame (message (awareness payload)) n =
      some (if may_tell s then tell_presence (receive s.id payload n.room.present) n else n)
  handle_decoded s frame (message (ephemeral client_id _)) n =
      some (handle_ephemeral s client_id frame n)
  handle_decoded s frame (message (sync payload)) n =
      handle_sync s payload (P.lib0.read_uint payload) n
  handle_decoded s frame (message (auth_refresh _)) n = some n
  handle_decoded s frame (message (permission _)) n = some n
  handle_decoded s frame (message (room_info _ _ _)) n = some n
  handle_decoded s frame (message (hb_error _ _)) n = some n

  -- `handleMessage`; none: it throws
  unfoldable pub handle_message : Session → Bytes → Node P → Option (Node P)
  unfolding handle_decoded decode_message
  handle_message s frame n = handle_decoded s frame (decode_message P.lib0 frame) n

  -- `applyRoleChange` of the room's board; the number of sessions whose role changed
  unfoldable pub apply_role_change : String → BoardRole → Node P → Node P × ℕ
  unfolding rank
  apply_role_change sub role n =
      let changed = filterb (is_changed sub role) n.room.sessions in
      (
        emit (map (λ s. sends s.id (permission role)) changed)
            (with_room (record n.room { sessions = change_roles sub role n.room.sessions }) n),
        length changed,
      )

  -- `join` of a session into the open room
  unfoldable pub join : Session → Node P → Node P
  unfolding announce snapshot
  join s n =
      let joined = with_room (record n.room { sessions = n.room.sessions ++ s ∷ [] }) n in
      announce saved (
        emit
          (sends s.id (permission s.role)
            ∷ sends s.id (sync (P.yjs.write_step1 n.room.doc))
            ∷ sends s.id (sync (P.yjs.write_step2 n.room.doc))
            ∷ present_to s (snapshot n.room.present))
          joined)

  unfoldable pub left : List Session → Node P → Node P
  unfolding announce
  left [] n = n
  left (s ∷ ss) n = announce saved n

  -- `leave` of a session, up to the timer of the eviction
  unfoldable pub leave : ℕ → Node P → Node P
  unfolding left tell_presence forget
  leave id n =
      let rest = filterb (λ s. not (s.id == id)) n.room.sessions in
      let gone = with_room (record n.room { sessions = rest }) n in
      left rest (tell_presence (forget id gone.room.present) gone)

  -- `refreshOwnership` by the answer of the lock; none: the lock could not be asked
  unfoldable pub refresh_ownership : (initial : Bool) → Option Bool → Node P → Node P
  unfolding persist_and_fanout
  refresh_ownership initial none n = with_room (record n.room { owner = false }) n
  refresh_ownership initial (some held) n =
      let known = with_room (record n.room { owner = held }) n in
      if held && (not n.room.owner && not initial)
      then persist_and_fanout (P.yjs.encode_state n.room.doc) none known
      else known

  -- What follows a compaction: it succeeded up to a number, or it failed.
  unfoldable pub compacted : (now : ℕ) → Option ℕ → Node P → Node P
  compacted now none n = with_room (record n.room { compacting = false }) n
  compacted now (some upto) n =
      with_room (record n.room { compacted_seq = upto; compacted_at = now; compacting = false }) n
