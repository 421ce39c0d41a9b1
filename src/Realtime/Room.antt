-- ===== src/Realtime/Room.antt =====
-- apps/realtime/src/room.ts: the room of one board on one server, with its document, sessions and
-- ownership. What it sends is collected in order. An update of a client is written to the log by a
-- task that is in flight between the call of `append` and its answer. The libraries are parameters.
pub mod Messages
pub mod Events
pub mod Kept
pub mod Steps
pub mod Written
pub mod Grown
pub mod Frames
pub mod Durable
pub mod Saved
pub mod Untouched
pub mod Demoted
mod Tests
use hamboom.Base.{
  ℕ, ◌+◌, Bool, true, false, not, ◌&&◌, ◌||◌, String, Option, none, some, List, [], ◌∷◌, ◌++◌, map,
  length, filterb, leb, ltb, ◌==◌, if◌then◌else◌,
}
use hamboom.Auth.Roles.{BoardRole}
use hamboom.Schema.Protocol.{
  Bytes, Text, Lib0, HbMessage, sync, awareness, room_info, SaveStatus, saved, saving, unsaved,
  BusKind, update, presence, transient, stored, state_request, BusEnvelope,
}
use hamboom.Realtime.Stores.{UpdateLog, append}
use hamboom.Realtime.Compactor.{Thresholds, should_compact, same_bytes}
use hamboom.Realtime.Presence.{Awareness, Presence, Told, receive_remote}

-- Yjs and y-protocols/sync. To apply an update gives the document and the update that its event
-- "update" names, if anything changed; reading a message may also throw (none), and has a reply.
pub record SyncLib : Type 1 where
  pub Doc : Type 0
  pub apply_update : Doc → Bytes → Doc × Option Bytes
  pub encode_state : Doc → Bytes
  pub step2 : ℕ
  pub update_kind : ℕ
  pub read_sync : Bytes → Doc → Option (Doc × Option Bytes × Bytes)
  pub write_update : Bytes → Bytes
  pub write_step1 : Doc → Bytes
  pub write_step2 : Doc → Bytes
  pub decode_update : Bytes → Option (ℕ × ℕ)

pub record Platform : Type 1 where
  pub lib0 : Lib0
  pub yjs : SyncLib
  pub aware : Awareness
  pub node_id : Text
  pub compactor : Option Thresholds

-- A session; its number is the identity of the object.
pub record Session : Type 0 where
  pub id : ℕ
  pub sub : String
  pub role : BoardRole

-- What the room sends: a message to a session; a SYNC message with an update; a frame as it came;
-- an envelope to the other servers; and the start of a compaction.
pub data Out : Type 0 where
  sends : (to : ℕ) → HbMessage → Out
  fans_out : (to : ℕ) (payload : Bytes) → Out
  relays : (to : ℕ) (frame : Bytes) → Out
  publishes : BusKind → (payload : Bytes) (seq : ℕ) → Out
  compacts : (upto : ℕ) → Out

-- A write of the log that was started. `row` is the sequence number of its row once the log has it.
pub record Task : Type 0 where
  pub payload : Bytes
  pub from : Option ℕ
  pub row : Option ℕ

pub data Source : Type 0 where
  by_client : (session : ℕ) → Source
  by_bus by_server : Source

module _ (P : Platform) where
  pub record Room : Type 0 where
    pub doc : P.yjs.Doc
    pub sessions : List Session
    pub seq : ℕ
    pub save : SaveStatus
    pub owner : Bool
    pub compacted_seq : ℕ
    pub compacted_at : ℕ
    pub compacting : Bool
    pub present : Presence P.aware

  pub record Node : Type 0 where
    pub board : String
    pub room : Room
    pub log : UpdateLog
    -- the rows that are in a snapshot of the board and no longer in its log
    pub folded : List Bytes
    pub in_flight : List Task
    pub out : List Out

abbrev pub max : ℕ → ℕ → ℕ
max a b = if ltb a b then b else a

-- `session === from`
abbrev pub is_from : Option ℕ → Session → Bool
is_from none s = false
is_from (some id) s = s.id == id

abbrev pub others : Option ℕ → List Session → List Session
others from = filterb (λ s. not (is_from from s))

-- What the presence of the room sends through it.
abbrev pub to_sessions : List Session → List (Option ℕ × Bytes) → List Out
to_sessions sessions [] = []
to_sessions sessions ((except, payload) ∷ rest) =
    map (λ s. sends s.id (awareness payload)) (others except sessions) ++ to_sessions sessions rest

module _ {P : Platform} where
  abbrev pub emit : List Out → Node P → Node P
  emit outs n = record n { out = n.out ++ outs }

  abbrev pub with_room : Room P → Node P → Node P
  with_room room n = record n { room = room }

  unfoldable pub broadcast : HbMessage → Node P → Node P
  broadcast m n = emit (map (λ s. sends s.id m) n.room.sessions) n

  -- `info`, which records the status that is told
  unfoldable pub info : SaveStatus → Node P → HbMessage × Node P
  info save n = (
    room_info (length n.room.sessions) n.room.seq save,
    with_room (record n.room { save = save }) n,
  )

  -- `broadcast(room, encodeMessage({ type: HB_ROOM_INFO, ...info(room, save) }))`
  unfoldable pub announce : SaveStatus → Node P → Node P
  unfolding info broadcast
  announce save n = let told = info save n in broadcast told.0 told.1

  unfoldable pub fanout_local : Bytes → Option ℕ → Node P → Node P
  fanout_local payload from n =
      emit (map (λ s. fans_out s.id payload) (others from n.room.sessions)) n

  unfoldable pub publish_to_bus : BusKind → Bytes → ℕ → Node P → Node P
  publish_to_bus kind payload seq n = emit (publishes kind payload seq ∷ []) n

  -- `!compactor.shouldCompact({ seq, sinceSeq, sinceAt })`, with no compactor too
  abbrev pub is_due : Option Thresholds → Room P → (now : ℕ) → Bool
  is_due none room now = false
  is_due (some thresholds) room now =
      should_compact thresholds room.seq room.compacted_seq room.compacted_at now

  unfoldable pub maybe_compact : (now : ℕ) → Node P → Node P
  unfolding should_compact
  maybe_compact now n =
      if not n.room.compacting && (n.room.owner && is_due P.compactor n.room now)
      then emit (compacts n.room.seq ∷ []) (with_room (record n.room { compacting = true }) n)
      else n

  -- the part of a server that does not own the board
  unfoldable pub fanout_unowned : Bytes → Option ℕ → Node P → Node P
  unfolding fanout_local announce
  fanout_unowned payload none n = fanout_local payload none n
  fanout_unowned payload (some id) n = announce saving (fanout_local payload (some id) n)

  -- `persistAndFanout` up to its `await`
  unfoldable pub persist_and_fanout : Bytes → Option ℕ → Node P → Node P
  unfolding fanout_unowned
  persist_and_fanout payload from n =
      if n.room.owner
      then record n {
        in_flight = n.in_flight ++ (record { payload = payload; from = from; row = none } ∷ []);
      }
      else fanout_unowned payload from n

  -- `persistAndFanout` from the answer of the log on
  unfoldable pub persisted : (now seq : ℕ) → Task → Node P → Node P
  unfolding fanout_local announce publish_to_bus maybe_compact
  persisted now seq task n =
      let raised = with_room (record n.room { seq = max n.room.seq seq }) n in
      let told = announce saved (fanout_local task.payload task.from raised) in
      maybe_compact now (publish_to_bus stored [] told.room.seq told)

  -- its `catch`
  unfoldable pub not_persisted : Node P → Node P
  unfolding announce
  not_persisted n = announce unsaved n

  -- the listener of the document's updates
  unfoldable pub wire_document : Source → Option Bytes → Node P → Node P
  unfolding publish_to_bus persist_and_fanout
  wire_document source none n = n
  wire_document by_server (some payload) n = n
  wire_document by_bus (some payload) n = persist_and_fanout payload none n
  wire_document (by_client id) (some payload) n =
      persist_and_fanout payload (some id) (publish_to_bus update payload 0 n)

  unfoldable pub tell_presence : Presence P.aware × Told → Node P → Node P
  tell_presence (p, told) n = emit (map (λ payload. publishes presence payload 0) told.to_bus) (
      emit (to_sessions n.room.sessions told.to_room) (with_room (record n.room { present = p }) n))

  -- the branches of the `switch` in `handleBus`
  unfoldable pub handle_kind : BusKind → BusEnvelope → Node P → Node P
  unfolding wire_document tell_presence announce publish_to_bus
  handle_kind update e n =
      let applied = P.yjs.apply_update n.room.doc e.payload in
      wire_document by_bus applied.1 (with_room (record n.room { doc = applied.0 }) n)
  handle_kind presence e n = tell_presence (receive_remote e.payload n.room.present) n
  handle_kind transient e n = emit (map (λ s. relays s.id e.payload) n.room.sessions) n
  handle_kind stored e n =
      if leb e.seq n.room.seq
      then n
      else announce saved (with_room (record n.room { seq = e.seq }) n)
  handle_kind state_request e n = publish_to_bus update (P.yjs.encode_state n.room.doc) 0 n

  unfoldable pub handle_bus : BusEnvelope → Node P → Node P
  unfolding handle_kind same_bytes
  handle_bus e n = if same_bytes e.node P.node_id then n else handle_kind e.kind e n
