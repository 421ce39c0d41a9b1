-- ===== src/Realtime/Room/Events.antt =====
-- apps/realtime/src/room.ts: everything that can happen to a room, in any order. Between the start
-- of a write and its answer other events happen, and answers come in any order. A compaction runs
-- beside the room (Realtime/Compactor): of it the room sees that the log loses the rows that a
-- snapshot has, and later how it ended.
use hamboom.Base.{
  false, ℕ, zero, suc, Bool, String, Option, none, some, List, [], ◌∷◌, ◌++◌, filterb, leb,
}
use hamboom.Realtime.Room.{
  saved, UpdateLog, Presence, Platform, Session, Task, Node, with_room, persisted, not_persisted,
  handle_bus,
}
use hamboom.Realtime.Stores.{latest_seq, append, prune, entries, payloads}
use hamboom.Auth.Roles.{BoardRole}
use hamboom.Schema.Protocol.{Bytes, BusEnvelope}
use hamboom.Realtime.Room.Messages.{
  set_role, find_session, handle_message, apply_role_change, join, leave, refresh_ownership,
  compacted,
}

pub data Event : Type 0 where
  frame : (session : ℕ) (bytes : Bytes) → Event
  on_bus : BusEnvelope → Event
  joins : Session → Event
  leaves : (session : ℕ) → Event
  changes_role : (sub : String) → BoardRole → Event
  refreshes_role : (session : ℕ) → BoardRole → Event
  asks_lock : (initial : Bool) → Option Bool → Event
  writes : (task : ℕ) → Event
  answers : (now task : ℕ) → Event
  fails : (task : ℕ) → Event
  prunes : (upto : ℕ) → Event
  ends_compaction : (now : ℕ) → Option ℕ → Event

abbrev pub task_at : ℕ → List Task → Option Task
task_at i [] = none
task_at zero (t ∷ ts) = some t
task_at (suc i) (t ∷ ts) = task_at i ts

abbrev pub without_task : ℕ → List Task → List Task
without_task i [] = []
without_task zero (t ∷ ts) = ts
without_task (suc i) (t ∷ ts) = t ∷ without_task i ts

abbrev pub put_row : ℕ → ℕ → List Task → List Task
put_row i seq [] = []
put_row zero seq (t ∷ ts) = record t { row = some seq } ∷ ts
put_row (suc i) seq (t ∷ ts) = t ∷ put_row i seq ts

module _ {P : Platform} where
  abbrev pub or_same : Option (Node P) → Node P → Node P
  or_same none n = n
  or_same (some after) n = after

  -- A frame reaches the session that its connection belongs to. Where the handler throws, the
  -- room is as it was.
  abbrev pub on_frame : Option Session → Bytes → Node P → Node P
  on_frame none bytes n = n
  on_frame (some s) bytes n = or_same (handle_message s bytes n) n

  -- The log takes the row of a task, once.
  unfoldable pub write_row : ℕ → Option Task → Node P → Node P
  unfolding append
  write_row i none n = n
  write_row i (some t) n = elim t.row [
    | none ↦
        let written = append n.board t.payload n.log in
        record n { log = written.1; in_flight = put_row i written.0 n.in_flight }
    | some _ ↦ n
  ]

  -- The answer of a write that is in the log reaches the task.
  unfoldable pub answer : (now : ℕ) → ℕ → Option Task → Node P → Node P
  unfolding persisted
  answer now i none n = n
  answer now i (some t) n = elim t.row [
    | none ↦ n
    | some seq ↦ persisted now seq t (record n { in_flight = without_task i n.in_flight })
  ]

  unfoldable pub fail : ℕ → Option Task → Node P → Node P
  unfolding not_persisted
  fail i none n = n
  fail i (some t) n = not_persisted (record n { in_flight = without_task i n.in_flight })

  -- `log.prune` at the end of a compaction (apps/realtime/src/persistence/compactor.ts): the rows up
  -- to `upto`, which its snapshot has by then, leave the log.
  unfoldable pub prune_rows : (upto : ℕ) → Node P → Node P
  unfolding prune
  prune_rows upto n = record n {
    log = (prune n.board upto n.log).1;
    folded = n.folded ++ payloads (filterb (λ e. leb e.seq upto) (entries n.board n.log));
  }

  unfoldable pub step : Event → Node P → Node P
  unfolding handle_message handle_bus join leave apply_role_change refresh_ownership write_row
      answer fail compacted prune_rows
  step (frame id bytes) n = on_frame (find_session id n.room.sessions) bytes n
  step (on_bus e) n = handle_bus e n
  step (joins s) n = join s n
  step (leaves id) n = leave id n
  step (changes_role sub role) n = (apply_role_change sub role n).0
  step (refreshes_role id role) n =
      with_room (record n.room { sessions = set_role id role n.room.sessions }) n
  step (asks_lock initial answer) n = refresh_ownership initial answer n
  step (writes i) n = write_row i (task_at i n.in_flight) n
  step (answers now i) n = answer now i (task_at i n.in_flight) n
  step (fails i) n = fail i (task_at i n.in_flight) n
  step (prunes upto) n = prune_rows upto n
  step (ends_compaction now result) n = compacted now result n

  abbrev pub run : List Event → Node P → Node P
  run [] n = n
  run (e ∷ es) n = run es (step e n)

  -- The room that `open` makes of the document it loaded, with nothing sent and no write begun.
  unfoldable pub new_node :
      String
      → P.yjs.Doc
      → Presence P.aware
      → (owner : Bool) → (seq_upto now : ℕ) → UpdateLog
      → Node P
  unfolding latest_seq
  new_node board doc present owner seq_upto now log = record {
    board = board;
    room = record {
      doc = doc;
      sessions = [];
      seq = latest_seq board log;
      save = saved;
      owner = owner;
      compacted_seq = seq_upto;
      compacted_at = now;
      compacting = false;
      present = present;
    };
    log = log;
    folded = [];
    in_flight = [];
    out = [];
  }
