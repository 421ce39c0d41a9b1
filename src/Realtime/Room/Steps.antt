-- ===== src/Realtime/Room/Steps.antt =====
-- What the events of a room leave alone.
use hamboom.Base.{ℕ, refl, Bool, not, ◌&&◌, Option, none, some, List, if_both, arith}
use hamboom.Schema.Protocol.{
  Bytes, unsaved, Decoded, unknown, corrupt, message, sync, awareness, auth_refresh, permission,
  room_info, ephemeral, hb_error, decode_message,
}
use hamboom.Realtime.Presence.{receive, owns_client}
use hamboom.Realtime.Room.{
  Platform, Session, Task, by_client, Node, with_room, publish_to_bus, not_persisted,
}
use hamboom.Realtime.Room.Messages.{
  may_write, may_tell, deny_write, is_empty_update, is_write, sync_read, handle_sync,
  handle_ephemeral, handle_decoded, handle_message, refresh_ownership, compacted,
}
use hamboom.Realtime.Room.Events.{write_row, answer, fail, or_same, on_frame, without_task}
use hamboom.Realtime.Room.Kept.{
  Keeps, Keeps-refl, Keeps-trans, announce-Keeps, wire_document-Keeps, tell_presence-Keeps,
  persist_and_fanout-Keeps, persisted-Keeps,
}

module _ {P : Platform} where
  deny_write-Keeps : (s : Session) (n : Node P) → Keeps n (deny_write s n)
  unfolding deny_write
  deny_write-Keeps s n = record { sessions = refl; seq = omega arith }

  -- What a handler that may throw keeps.
  abbrev pub KeepsIf : Node P → Option (Node P) → Type 0
  KeepsIf n none = Unit
  KeepsIf n (some m) = Keeps n m

  sync_read-KeepsIf :
      (s : Session) (o : Option (P.yjs.Doc × Option Bytes × Bytes)) (n : Node P)
      → KeepsIf n (sync_read s o n)
  unfolding sync_read
  sync_read-KeepsIf s none n = tt
  sync_read-KeepsIf s (some (doc, changed, reply)) n =
      let wired =
        wire_document-Keeps (by_client s.id) changed (with_room (record n.room { doc = doc }) n) in
      record { sessions = wired.sessions; seq = wired.seq }

  handle_sync-KeepsIf :
      (s : Session) (payload : Bytes) (o : Option (ℕ × Bytes)) (n : Node P)
      → KeepsIf n (handle_sync s payload o n)
  unfolding handle_sync
  handle_sync-KeepsIf s payload none n = tt
  handle_sync-KeepsIf s payload (some (kind, rest)) n =
      if_both (KeepsIf n) (is_write P kind && not (may_write s))
        (if_both (Keeps n) (is_empty_update P rest) (Keeps-refl n) (deny_write-Keeps s n))
        (sync_read-KeepsIf s (P.yjs.read_sync payload n.room.doc) n)

  handle_ephemeral-Keeps :
      (s : Session) (client_id : ℕ) (frame : Bytes) (n : Node P)
      → Keeps n (handle_ephemeral s client_id frame n)
  unfolding handle_ephemeral publish_to_bus
  handle_ephemeral-Keeps s client_id frame n =
      if_both (Keeps n) (may_tell s && owns_client s.id client_id n.room.present)
        (record { sessions = refl; seq = omega arith }) (Keeps-refl n)

  handle_decoded-KeepsIf :
      (s : Session) (frame : Bytes) (d : Decoded) (n : Node P)
      → KeepsIf n (handle_decoded s frame d n)
  unfolding handle_decoded
  handle_decoded-KeepsIf s frame unknown n = Keeps-refl n
  handle_decoded-KeepsIf s frame (corrupt _) n = tt
  handle_decoded-KeepsIf s frame (message (awareness payload)) n =
      if_both (Keeps n) (may_tell s) (tell_presence-Keeps (receive s.id payload n.room.present) n)
        (Keeps-refl n)
  handle_decoded-KeepsIf s frame (message (ephemeral client_id _)) n =
      handle_ephemeral-Keeps s client_id frame n
  handle_decoded-KeepsIf s frame (message (sync payload)) n =
      handle_sync-KeepsIf s payload (P.lib0.read_uint payload) n
  handle_decoded-KeepsIf s frame (message (auth_refresh _)) n = Keeps-refl n
  handle_decoded-KeepsIf s frame (message (permission _)) n = Keeps-refl n
  handle_decoded-KeepsIf s frame (message (room_info _ _ _)) n = Keeps-refl n
  handle_decoded-KeepsIf s frame (message (hb_error _ _)) n = Keeps-refl n

  or_same-Keeps : (o : Option (Node P)) (n : Node P) → KeepsIf n o → Keeps n (or_same o n)
  or_same-Keeps none n k = Keeps-refl n
  or_same-Keeps (some m) n k = k

  pub on_frame-Keeps :
      (o : Option Session) (bytes : Bytes) (n : Node P) → Keeps n (on_frame o bytes n)
  unfolding handle_message
  on_frame-Keeps none bytes n = Keeps-refl n
  on_frame-Keeps (some s) bytes n =
      or_same-Keeps (handle_decoded s bytes (decode_message P.lib0 bytes) n) n
        (handle_decoded-KeepsIf s bytes (decode_message P.lib0 bytes) n)

  pub refresh_ownership-Keeps :
      (initial : Bool) (o : Option Bool) (n : Node P) → Keeps n (refresh_ownership initial o n)
  unfolding refresh_ownership
  refresh_ownership-Keeps initial none n = record { sessions = refl; seq = omega arith }
  refresh_ownership-Keeps initial (some held) n =
      let known = with_room (record n.room { owner = held }) n in
      let kept : Keeps n known = record { sessions = refl; seq = omega arith } in
      if_both (Keeps n) (held && (not n.room.owner && not initial))
        (Keeps-trans kept (persist_and_fanout-Keeps (P.yjs.encode_state n.room.doc) none known))
        kept

  pub write_row-Keeps : (i : ℕ) (o : Option Task) (n : Node P) → Keeps n (write_row i o n)
  unfolding write_row
  write_row-Keeps i none n = Keeps-refl n
  write_row-Keeps i (some t) n =
      elim t.row as (λ row. Keeps n (write_row i (some (record t { row = row })) n)) [
        | none ↦ record { sessions = refl; seq = omega arith }
        | some _ ↦ Keeps-refl n
      ]

  -- A task that is no longer in flight keeps the room.
  flight-Keeps :
      (tasks : List Task) (n : Node P) {m : Node P}
      → Keeps (record n { in_flight = tasks }) m
      → Keeps n m
  flight-Keeps tasks n k = record { sessions = k.sessions; seq = k.seq }

  pub answer-Keeps : (now i : ℕ) (o : Option Task) (n : Node P) → Keeps n (answer now i o n)
  unfolding answer
  answer-Keeps now i none n = Keeps-refl n
  answer-Keeps now i (some t) n =
      elim t.row as (λ row. Keeps n (answer now i (some (record t { row = row })) n)) [
        | none ↦ Keeps-refl n
        | some seq ↦
            let rest = without_task i n.in_flight in
            flight-Keeps rest n (
              persisted-Keeps now seq (record t { row = some seq }) (record n { in_flight = rest }))
      ]

  pub fail-Keeps : (i : ℕ) (o : Option Task) (n : Node P) → Keeps n (fail i o n)
  unfolding fail not_persisted
  fail-Keeps i none n = Keeps-refl n
  fail-Keeps i (some t) n =
      let rest = without_task i n.in_flight in
      flight-Keeps rest n (announce-Keeps unsaved (record n { in_flight = rest }))

  pub compacted-Keeps : (now : ℕ) (o : Option ℕ) (n : Node P) → Keeps n (compacted now o n)
  unfolding compacted
  compacted-Keeps now none n = record { sessions = refl; seq = omega arith }
  compacted-Keeps now (some upto) n = record { sessions = refl; seq = omega arith }
