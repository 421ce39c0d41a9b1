-- ===== src/Realtime/Room/Frames.antt =====
-- The frames of sessions and the envelopes of other servers on a server that owns its board.
use hamboom.Realtime.Room.Messages.{
  may_tell, may_write, is_write, is_empty_update, reply_to, deny_write, sync_read, handle_sync,
  handle_ephemeral, handle_decoded, handle_message, present_to,
}
use hamboom.Realtime.Presence.{receive, receive_remote, owns_client}
use hamboom.Realtime.Room.{
  Platform, Session, sends, relays, by_client, by_bus, Node, with_room, wire_document, handle_kind,
  handle_bus, others, emit,
}
use hamboom.Base.{
  codes, ℕ, not, ◌&&◌, String, Option, none, some, List, [], ◌∷◌, map, All, All-map, if_both, leb,
}
use hamboom.Schema.Protocol.{
  Bytes, saved, BusKind, update, presence, transient, stored, state_request, BusEnvelope, Decoded,
  unknown, corrupt, message, sync, awareness, auth_refresh, permission, room_info, ephemeral,
  hb_error, decode_message,
}
use hamboom.Realtime.Compactor.{same_bytes}
use hamboom.Realtime.Room.Events.{on_frame, or_same}
use hamboom.Realtime.Room.Written.{
  Disk, disk_of, IsTrue, IsTrueKind, IsWritten, emit-IsWritten, announce-IsWritten,
  publish_to_bus-IsWritten, wire_document-IsWritten, tell_presence-IsWritten,
}

reply-IsTrue :
    (board : String) (disk : Disk) (s : Session) (b : Bytes)
    → All (IsTrue board disk) (reply_to s b)
reply-IsTrue board disk s [] = tt
reply-IsTrue board disk s (b ∷ bs) = (tt, tt)

pub present-IsTrue :
    (board : String) (disk : Disk) (s : Session) (o : Option Bytes)
    → All (IsTrue board disk) (present_to s o)
present-IsTrue board disk s none = tt
present-IsTrue board disk s (some b) = (tt, tt)

module _ {P : Platform} where
  -- A document or other sessions leave what was told as it is.
  doc-IsWritten :
      (doc : P.yjs.Doc) (n : Node P)
      → IsWritten n
      → IsWritten (with_room (record n.room { doc = doc }) n)
  doc-IsWritten doc n w = record { owner = w.owner; out = w.out; tasks = w.tasks; seq = w.seq }

  pub sessions-IsWritten :
      (ss : List Session) (n : Node P)
      → IsWritten n
      → IsWritten (with_room (record n.room { sessions = ss }) n)
  sessions-IsWritten ss n w = record { owner = w.owner; out = w.out; tasks = w.tasks; seq = w.seq }

  -- What another server says is saved has been in the log, which all servers share.
  abbrev pub IsHonest : BusEnvelope → Node P → Type 0
  IsHonest e n = IsTrueKind n.board (disk_of n) e.kind e.seq

  kind-IsWritten :
      (k : BusKind) (e : BusEnvelope) (n : Node P)
      → IsTrueKind n.board (disk_of n) k e.seq
      → IsWritten n
      → IsWritten (handle_kind k e n)
  unfolding handle_kind
  kind-IsWritten update e n h w =
      let applied = P.yjs.apply_update n.room.doc e.payload in
      wire_document-IsWritten by_bus applied.1 (with_room (record n.room { doc = applied.0 }) n)
        (doc-IsWritten applied.0 n w)
  kind-IsWritten presence e n h w =
      tell_presence-IsWritten (receive_remote e.payload n.room.present) n w
  kind-IsWritten transient e n h w =
      emit-IsWritten (map (λ s. relays s.id e.payload) n.room.sessions) n
        (All-map (IsTrue n.board (disk_of n)) (λ s. relays s.id e.payload) n.room.sessions
          (λ s. tt))
        w
  kind-IsWritten stored e n h w = if_both IsWritten (leb e.seq n.room.seq) w (
      announce-IsWritten saved (with_room (record n.room { seq = e.seq }) n)
        (record { owner = w.owner; out = w.out; tasks = w.tasks; seq = h }))
  kind-IsWritten state_request e n h w =
      publish_to_bus-IsWritten update (P.yjs.encode_state n.room.doc) 0 n tt w

  pub bus-IsWritten :
      (e : BusEnvelope) (n : Node P) → IsHonest e n → IsWritten n → IsWritten (handle_bus e n)
  unfolding handle_bus
  bus-IsWritten e n h w =
      if_both IsWritten (same_bytes e.node P.node_id) w (kind-IsWritten e.kind e n h w)

  abbrev WrittenIf : Option (Node P) → Type 0
  WrittenIf none = Unit
  WrittenIf (some m) = IsWritten m

  sync_read-IsWritten :
      (s : Session) (o : Option (P.yjs.Doc × Option Bytes × Bytes)) (n : Node P)
      → IsWritten n
      → WrittenIf (sync_read s o n)
  unfolding sync_read
  sync_read-IsWritten s none n w = tt
  sync_read-IsWritten s (some (doc, changed, reply)) n w =
      let wired =
        wire_document (by_client s.id) changed (with_room (record n.room { doc = doc }) n) in
      emit-IsWritten (reply_to s reply) wired (reply-IsTrue wired.board (disk_of wired) s reply) (
        wire_document-IsWritten (by_client s.id) changed (with_room (record n.room { doc = doc }) n)
          (doc-IsWritten doc n w))

  handle_sync-IsWritten :
      (s : Session) (payload : Bytes) (o : Option (ℕ × Bytes)) (n : Node P)
      → IsWritten n
      → WrittenIf (handle_sync s payload o n)
  unfolding handle_sync deny_write
  handle_sync-IsWritten s payload none n w = tt
  handle_sync-IsWritten s payload (some (kind, rest)) n w =
      if_both WrittenIf (is_write P kind && not (may_write s))
        (if_both IsWritten (is_empty_update P rest) w (
          emit-IsWritten
            (sends s.id (permission s.role) ∷ sends s.id (hb_error (codes "FORBIDDEN") []) ∷ []) n
            (tt, (tt, tt)) w))
        (sync_read-IsWritten s (P.yjs.read_sync payload n.room.doc) n w)

  handle_ephemeral-IsWritten :
      (s : Session) (client_id : ℕ) (bytes : Bytes) (n : Node P)
      → IsWritten n
      → IsWritten (handle_ephemeral s client_id bytes n)
  unfolding handle_ephemeral
  handle_ephemeral-IsWritten s client_id bytes n w =
      let outs = map (λ t. relays t.id bytes) (others (some s.id) n.room.sessions) in
      if_both IsWritten (may_tell s && owns_client s.id client_id n.room.present)
        (publish_to_bus-IsWritten transient bytes 0 (emit outs n) tt (
          emit-IsWritten outs n
            (All-map (IsTrue n.board (disk_of n)) (λ t. relays t.id bytes)
              (others (some s.id) n.room.sessions) (λ t. tt))
            w))
        w

  handle_decoded-IsWritten :
      (s : Session) (bytes : Bytes) (d : Decoded) (n : Node P)
      → IsWritten n
      → WrittenIf (handle_decoded s bytes d n)
  unfolding handle_decoded
  handle_decoded-IsWritten s bytes unknown n w = w
  handle_decoded-IsWritten s bytes (corrupt _) n w = tt
  handle_decoded-IsWritten s bytes (message (awareness payload)) n w =
      if_both IsWritten (may_tell s)
        (tell_presence-IsWritten (receive s.id payload n.room.present) n w) w
  handle_decoded-IsWritten s bytes (message (ephemeral client_id _)) n w =
      handle_ephemeral-IsWritten s client_id bytes n w
  handle_decoded-IsWritten s bytes (message (sync payload)) n w =
      handle_sync-IsWritten s payload (P.lib0.read_uint payload) n w
  handle_decoded-IsWritten s bytes (message (auth_refresh _)) n w = w
  handle_decoded-IsWritten s bytes (message (permission _)) n w = w
  handle_decoded-IsWritten s bytes (message (room_info _ _ _)) n w = w
  handle_decoded-IsWritten s bytes (message (hb_error _ _)) n w = w

  or_same-IsWritten :
      (o : Option (Node P)) (n : Node P) → WrittenIf o → IsWritten n → IsWritten (or_same o n)
  or_same-IsWritten none n h w = w
  or_same-IsWritten (some m) n h w = h

  pub on_frame-IsWritten :
      (o : Option Session) (bytes : Bytes) (n : Node P)
      → IsWritten n
      → IsWritten (on_frame o bytes n)
  unfolding handle_message
  on_frame-IsWritten none bytes n w = w
  on_frame-IsWritten (some s) bytes n w =
      or_same-IsWritten (handle_decoded s bytes (decode_message P.lib0 bytes) n) n
        (handle_decoded-IsWritten s bytes (decode_message P.lib0 bytes) n w) w
