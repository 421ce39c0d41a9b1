-- ===== src/Realtime/Room/Written.antt =====
-- A server that owns its board tells of an update only when the log or a snapshot has it.
use hamboom.Base.{
  ltb, length, ℕ, ◌≤◌, ◌≡◌, true, not, ◌&&◌, String, Option, none, some, List, [], ◌∷◌, map, ◌⊎◌,
  All, All-append, All-map, if_both, if_split, arith,
}
use hamboom.Schema.Protocol.{
  Bytes, HbMessage, SaveStatus, saved, saving, unsaved, BusKind, update, presence, transient,
  stored, state_request, room_info, sync, awareness, auth_refresh, permission, ephemeral, hb_error,
}
use hamboom.Realtime.Stores.{UpdateLog, entries, payloads, latest_seq}
use hamboom.Realtime.Presence.{Presence, Told}
use hamboom.Realtime.Room.{
  max, Platform, Session, Out, sends, fans_out, relays, publishes, compacts, Task, Source,
  by_client, by_bus, by_server, Node, with_room, announce, info, broadcast, fanout_local,
  publish_to_bus, maybe_compact, persist_and_fanout, persisted, wire_document, tell_presence,
  is_due, others, to_sessions, emit,
}

-- What is kept of a board: its log, and what a snapshot took from it.
pub record Disk : Type 0 where
  pub log : UpdateLog
  pub folded : List Bytes

abbrev pub disk_of : {P : Platform} → Node P → Disk
disk_of n = record { log = n.log; folded = n.folded }

abbrev pub Has : Bytes → List Bytes → Type 0
Has u [] = ⊥
Has u (x ∷ xs) = (x ≡ u) ⊎ Has u xs

-- A snapshot of the board or its log has the update.
abbrev pub Stored : String → Disk → Bytes → Type 0
Stored board disk u = Has u disk.folded ⊎ Has u (payloads (entries board disk.log))

-- What is said of saving is true of the log.
abbrev pub IsTrueMessage : String → Disk → HbMessage → Type 0
IsTrueMessage board disk (room_info _ seq saved) = seq ≤ latest_seq board disk.log
IsTrueMessage board disk (room_info _ seq saving) = Unit
IsTrueMessage board disk (room_info _ seq unsaved) = Unit
IsTrueMessage board disk (sync _) = Unit
IsTrueMessage board disk (awareness _) = Unit
IsTrueMessage board disk (auth_refresh _) = Unit
IsTrueMessage board disk (permission _) = Unit
IsTrueMessage board disk (ephemeral _ _) = Unit
IsTrueMessage board disk (hb_error _ _) = Unit

abbrev pub IsTrueKind : String → Disk → BusKind → ℕ → Type 0
IsTrueKind board disk stored seq = seq ≤ latest_seq board disk.log
IsTrueKind board disk update seq = Unit
IsTrueKind board disk presence seq = Unit
IsTrueKind board disk transient seq = Unit
IsTrueKind board disk state_request seq = Unit

abbrev pub IsTrue : String → Disk → Out → Type 0
IsTrue board disk (sends _ m) = IsTrueMessage board disk m
IsTrue board disk (fans_out _ u) = Stored board disk u
IsTrue board disk (relays _ _) = Unit
IsTrue board disk (publishes kind _ seq) = IsTrueKind board disk kind seq
IsTrue board disk (compacts upto) = upto ≤ latest_seq board disk.log

abbrev pub HasRow : String → Disk → Bytes → Option ℕ → Type 0
HasRow board disk u none = Unit
HasRow board disk u (some seq) = Stored board disk u × (seq ≤ latest_seq board disk.log)

abbrev pub IsTrueTask : String → Disk → Task → Type 0
IsTrueTask board disk t = HasRow board disk t.payload t.row

to_sessions-IsTrue :
    (board : String) (disk : Disk) (ss : List Session) (told : List (Option ℕ × Bytes))
    → All (IsTrue board disk) (to_sessions ss told)
to_sessions-IsTrue board disk ss [] = tt
to_sessions-IsTrue board disk ss ((except, u) ∷ told) =
    All-append (IsTrue board disk) (map (λ s. sends s.id (awareness u)) (others except ss))
      (to_sessions ss told)
      (All-map (IsTrue board disk) (λ s. sends s.id (awareness u)) (others except ss) (λ s. tt))
      (to_sessions-IsTrue board disk ss told)

module _ {P : Platform} where
  pub record IsWritten (n : Node P) : Type 0 where
    pub owner : n.room.owner ≡ true
    pub out : All (IsTrue n.board (disk_of n)) n.out
    pub tasks : All (IsTrueTask n.board (disk_of n)) n.in_flight
    pub seq : n.room.seq ≤ latest_seq n.board n.log

  pub emit-IsWritten :
      (outs : List Out) (n : Node P)
      → All (IsTrue n.board (disk_of n)) outs
      → IsWritten n
      → IsWritten (emit outs n)
  emit-IsWritten outs n a w = record {
    owner = w.owner;
    out = All-append (IsTrue n.board (disk_of n)) n.out outs w.out a;
    tasks = w.tasks;
    seq = w.seq;
  }

  told_true :
      (status : SaveStatus) (users : ℕ) (n : Node P)
      → IsWritten n
      → IsTrueMessage n.board (disk_of n) (room_info users n.room.seq status)
  told_true saved users n w = w.seq
  told_true saving users n w = tt
  told_true unsaved users n w = tt

  pub announce-IsWritten :
      (status : SaveStatus) (n : Node P) → IsWritten n → IsWritten (announce status n)
  unfolding announce info broadcast
  announce-IsWritten status n w =
      let told = (info status n).0 in
      record {
        owner = w.owner;
        out =
            All-append (IsTrue n.board (disk_of n)) n.out
              (map (λ s. sends s.id told) n.room.sessions) w.out
              (All-map (IsTrue n.board (disk_of n)) (λ s. sends s.id told) n.room.sessions
                (λ s. told_true status (length n.room.sessions) n w));
        tasks = w.tasks;
        seq = w.seq;
      }

  fanout_local-IsWritten :
      (u : Bytes) (from : Option ℕ) (n : Node P)
      → Stored n.board (disk_of n) u
      → IsWritten n
      → IsWritten (fanout_local u from n)
  unfolding fanout_local
  fanout_local-IsWritten u from n h w =
      emit-IsWritten (map (λ s. fans_out s.id u) (others from n.room.sessions)) n
        (All-map (IsTrue n.board (disk_of n)) (λ s. fans_out s.id u) (others from n.room.sessions)
          (λ s. h))
        w

  pub publish_to_bus-IsWritten :
      (kind : BusKind) (u : Bytes) (seq : ℕ) (n : Node P)
      → IsTrueKind n.board (disk_of n) kind seq
      → IsWritten n
      → IsWritten (publish_to_bus kind u seq n)
  unfolding publish_to_bus
  publish_to_bus-IsWritten kind u seq n h w = emit-IsWritten (publishes kind u seq ∷ []) n (h, tt) w

  maybe_compact-IsWritten : (now : ℕ) (n : Node P) → IsWritten n → IsWritten (maybe_compact now n)
  unfolding maybe_compact
  maybe_compact-IsWritten now n w =
      if_both IsWritten (not n.room.compacting && (n.room.owner && is_due P.compactor n.room now))
        (record {
          owner = w.owner;
          out =
              All-append (IsTrue n.board (disk_of n)) n.out (compacts n.room.seq ∷ []) w.out
                (w.seq, tt);
          tasks = w.tasks;
          seq = w.seq;
        })
        w

  -- The start of a write: a task without a row.
  persist_and_fanout-IsWritten :
      (u : Bytes) (from : Option ℕ) (n : Node P)
      → IsWritten n
      → IsWritten (persist_and_fanout u from n)
  unfolding persist_and_fanout
  persist_and_fanout-IsWritten u from n w =
      if_split IsWritten n.room.owner
        (λ _. record {
          owner = w.owner;
          out = w.out;
          tasks =
              All-append (IsTrueTask n.board (disk_of n)) n.in_flight
                (record { payload = u; from = from; row = none } ∷ []) w.tasks (tt, tt);
          seq = w.seq;
        })
        (λ lost. absurd (ground (arith, w.owner)))

  -- The answer of the log.
  pub persisted-IsWritten :
      (now seq : ℕ) (t : Task) (n : Node P)
      → Stored n.board (disk_of n) t.payload
      → seq ≤ latest_seq n.board n.log
      → IsWritten n
      → IsWritten (persisted now seq t n)
  unfolding persisted
  persisted-IsWritten now seq t n h le w =
      let raised = with_room (record n.room { seq = max n.room.seq seq }) n in
      let fanned = fanout_local t.payload t.from raised in
      let told = announce saved fanned in
      let published = publish_to_bus stored [] told.room.seq told in
      let raised_w : IsWritten raised = record {
        owner = w.owner;
        out = w.out;
        tasks = w.tasks;
        seq = if_both (λ s. s ≤ latest_seq n.board n.log) (ltb n.room.seq seq) le w.seq;
      } in
      let told_w : IsWritten told =
        announce-IsWritten saved fanned
          (fanout_local-IsWritten t.payload t.from raised h raised_w) in
      maybe_compact-IsWritten now published
        (publish_to_bus-IsWritten stored [] told.room.seq told told_w.seq told_w)

  pub wire_document-IsWritten :
      (source : Source) (changed : Option Bytes) (n : Node P)
      → IsWritten n
      → IsWritten (wire_document source changed n)
  unfolding wire_document
  wire_document-IsWritten source none n w = w
  wire_document-IsWritten by_server (some u) n w = w
  wire_document-IsWritten by_bus (some u) n w = persist_and_fanout-IsWritten u none n w
  wire_document-IsWritten (by_client id) (some u) n w =
      persist_and_fanout-IsWritten u (some id) (publish_to_bus update u 0 n)
        (publish_to_bus-IsWritten update u 0 n tt w)

  pub tell_presence-IsWritten :
      (told : Presence P.aware × Told) (n : Node P) → IsWritten n → IsWritten (tell_presence told n)
  unfolding tell_presence
  tell_presence-IsWritten (p, told) n w =
      let known = with_room (record n.room { present = p }) n in
      let rooms = to_sessions n.room.sessions told.to_room in
      let buses = map (λ u. publishes presence u 0) told.to_bus in
      emit-IsWritten buses (emit rooms known)
        (All-map (IsTrue n.board (disk_of n)) (λ u. publishes presence u 0) told.to_bus (λ u. tt))
        (emit-IsWritten rooms known
          (to_sessions-IsTrue n.board (disk_of n) n.room.sessions told.to_room)
          (record { owner = w.owner; out = w.out; tasks = w.tasks; seq = w.seq }))
