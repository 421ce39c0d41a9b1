-- ===== src/Realtime/Room/Kept.antt =====
-- What the parts of the room leave alone: its sessions, and a sequence number that never falls.
use hamboom.Base.{
  ℕ, ◌≤◌, ◌≡◌, refl, ◌∙◌, not, ◌&&◌, Option, none, some, [], leb, if_both, if_split, arith,
}
use hamboom.Schema.Protocol.{
  Bytes, SaveStatus, saved, BusEnvelope, BusKind, update, presence, transient, stored,
  state_request,
}
use hamboom.Realtime.Presence.{Presence, Told, receive_remote}
use hamboom.Realtime.Compactor.{same_bytes}
use hamboom.Realtime.Room.{
  max, Platform, Task, Source, by_client, by_bus, by_server, Node, with_room, announce,
  fanout_local, publish_to_bus, maybe_compact, fanout_unowned, persist_and_fanout, persisted,
  wire_document, tell_presence, handle_kind, handle_bus, broadcast, info, is_due,
}

module _ {P : Platform} where
  pub record Keeps (before after : Node P) : Type 0 where
    pub sessions : after.room.sessions ≡ before.room.sessions
    pub seq : before.room.seq ≤ after.room.seq

  pub Keeps-refl : (n : Node P) → Keeps n n
  Keeps-refl n = record { sessions = refl; seq = omega arith }

  pub Keeps-trans : {a b c : Node P} → Keeps a b → Keeps b c → Keeps a c
  Keeps-trans f g = record { sessions = g.sessions ∙ f.sessions; seq = omega (arith, f.seq, g.seq) }

  pub announce-Keeps : (status : SaveStatus) (n : Node P) → Keeps n (announce status n)
  unfolding announce info broadcast
  announce-Keeps status n = record { sessions = refl; seq = omega arith }

  fanout_local-Keeps :
      (payload : Bytes) (from : Option ℕ) (n : Node P) → Keeps n (fanout_local payload from n)
  unfolding fanout_local
  fanout_local-Keeps payload from n = record { sessions = refl; seq = omega arith }

  publish_to_bus-Keeps :
      (kind : BusKind) (payload : Bytes) (seq : ℕ) (n : Node P)
      → Keeps n (publish_to_bus kind payload seq n)
  unfolding publish_to_bus
  publish_to_bus-Keeps kind payload seq n = record { sessions = refl; seq = omega arith }

  maybe_compact-Keeps : (now : ℕ) (n : Node P) → Keeps n (maybe_compact now n)
  unfolding maybe_compact
  maybe_compact-Keeps now n =
      if_both (Keeps n) (not n.room.compacting && (n.room.owner && is_due P.compactor n.room now))
        (record { sessions = refl; seq = omega arith }) (Keeps-refl n)

  fanout_unowned-Keeps :
      (payload : Bytes) (from : Option ℕ) (n : Node P) → Keeps n (fanout_unowned payload from n)
  unfolding fanout_unowned
  fanout_unowned-Keeps payload none n = fanout_local-Keeps payload none n
  fanout_unowned-Keeps payload (some id) n =
      Keeps-trans (fanout_local-Keeps payload (some id) n)
        (announce-Keeps SaveStatus.saving (fanout_local payload (some id) n))

  pub persist_and_fanout-Keeps :
      (payload : Bytes) (from : Option ℕ) (n : Node P) → Keeps n (persist_and_fanout payload from n)
  unfolding persist_and_fanout
  persist_and_fanout-Keeps payload from n =
      if_both (Keeps n) n.room.owner (record { sessions = refl; seq = omega arith })
        (fanout_unowned-Keeps payload from n)

  -- A number that does not fall keeps the rest.
  seq-Keeps :
      (seq : ℕ) (n : Node P)
      → n.room.seq ≤ seq
      → Keeps n (with_room (record n.room { seq = seq }) n)
  seq-Keeps seq n h = record { sessions = refl; seq = h }

  pub persisted-Keeps : (now seq : ℕ) (t : Task) (n : Node P) → Keeps n (persisted now seq t n)
  unfolding persisted
  persisted-Keeps now seq t n =
      let raised = with_room (record n.room { seq = max n.room.seq seq }) n in
      let fanned = fanout_local t.payload t.from raised in
      let told = announce saved fanned in
      let published = publish_to_bus stored [] told.room.seq told in
      Keeps-trans (seq-Keeps (max n.room.seq seq) n (ground arith)) (
        Keeps-trans (fanout_local-Keeps t.payload t.from raised) (
          Keeps-trans (announce-Keeps saved fanned) (
            Keeps-trans (publish_to_bus-Keeps stored [] told.room.seq told)
              (maybe_compact-Keeps now published))))

  pub wire_document-Keeps :
      (source : Source) (changed : Option Bytes) (n : Node P)
      → Keeps n (wire_document source changed n)
  unfolding wire_document
  wire_document-Keeps source none n = Keeps-refl n
  wire_document-Keeps by_server (some payload) n = Keeps-refl n
  wire_document-Keeps by_bus (some payload) n = persist_and_fanout-Keeps payload none n
  wire_document-Keeps (by_client id) (some payload) n =
      Keeps-trans (publish_to_bus-Keeps update payload 0 n)
        (persist_and_fanout-Keeps payload (some id) (publish_to_bus update payload 0 n))

  pub tell_presence-Keeps :
      (told : Presence P.aware × Told) (n : Node P) → Keeps n (tell_presence told n)
  unfolding tell_presence
  tell_presence-Keeps (p, told) n = record { sessions = refl; seq = omega arith }

  -- A document that takes another value keeps the rest.
  doc-Keeps :
      (doc : P.yjs.Doc) (n : Node P) {m : Node P}
      → Keeps (with_room (record n.room { doc = doc }) n) m
      → Keeps n m
  doc-Keeps doc n k = record { sessions = k.sessions; seq = k.seq }

  handle_kind-Keeps :
      (kind : BusKind) (e : BusEnvelope) (n : Node P) → Keeps n (handle_kind kind e n)
  unfolding handle_kind
  handle_kind-Keeps update e n =
      let applied = P.yjs.apply_update n.room.doc e.payload in
      doc-Keeps applied.0 n
        (wire_document-Keeps by_bus applied.1 (with_room (record n.room { doc = applied.0 }) n))
  handle_kind-Keeps presence e n = tell_presence-Keeps (receive_remote e.payload n.room.present) n
  handle_kind-Keeps transient e n = record { sessions = refl; seq = omega arith }
  handle_kind-Keeps stored e n =
      if_split (Keeps n) (leb e.seq n.room.seq) (λ _. Keeps-refl n)
        (λ later.
          Keeps-trans (seq-Keeps e.seq n (ground arith))
            (announce-Keeps saved (with_room (record n.room { seq = e.seq }) n)))
  handle_kind-Keeps state_request e n =
      publish_to_bus-Keeps update (P.yjs.encode_state n.room.doc) 0 n

  pub handle_bus-Keeps : (e : BusEnvelope) (n : Node P) → Keeps n (handle_bus e n)
  unfolding handle_bus
  handle_bus-Keeps e n =
      if_both (Keeps n) (same_bytes e.node P.node_id) (Keeps-refl n) (handle_kind-Keeps e.kind e n)
