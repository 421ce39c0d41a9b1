-- ===== src/Realtime/Room/Tests.antt =====
-- A server whose documents are lists of updates, and a board with an editor and a viewer.
use hamboom.Base.{
  ℕ, ◌≡◌, refl, true, Option, none, some, List, [], ◌∷◌, ◌++◌, ◌||◌, ap, subst, some_inj, ◌==◌,
  if◌then◌else◌,
}
use hamboom.Auth.Roles.{editor, viewer, role_name, may_write_document}
use hamboom.Schema.Protocol.{Bytes, saved, unsaved}
use hamboom.Schema.Protocol.Sample.{simple}
use hamboom.Realtime.Stores.{UpdateLog}
use hamboom.Realtime.Presence.Sample.{counting}
use hamboom.Realtime.Presence.Owned.{new_presence}
use hamboom.Realtime.Room.{SyncLib, Platform, Session, Node, Task, Out}
use hamboom.Realtime.Room.Messages.{apply_role_change}
use hamboom.Realtime.Room.Events.{
  Event, frame, joins, writes, answers, fails, prunes, step, run, new_node,
}
use hamboom.Realtime.Room.Untouched.{IsReadOnly, Untouched}
use hamboom.Realtime.Room.Demoted.{demoted-Untouched}
use hamboom.Realtime.Room.Saved.{told, fail-join}

-- A message is its kind and, but for kind 0, an update.
abbrev read_message : Bytes → List Bytes → Option (List Bytes × Option Bytes × Bytes)
read_message [] doc = none
read_message (kind ∷ rest) doc =
    if (kind == 1) || (kind == 2)
    then some (doc ++ rest ∷ [], some rest, [])
    else some (doc, none, 1 ∷ [])

abbrev lists : SyncLib
lists = record {
  Doc = List Bytes;
  apply_update = λ doc u. (doc ++ u ∷ [], some u);
  encode_state = λ doc. [];
  step2 = 1;
  update_kind = 2;
  read_sync = read_message;
  write_update = λ u. 2 ∷ u;
  write_step1 = λ doc. 0 ∷ [];
  write_step2 = λ doc. 1 ∷ [];
  decode_update = λ u. none;
}

abbrev server : Platform
server = record {
  lib0 = simple;
  yjs = lists;
  aware = counting;
  node_id = 110 ∷ [];
  compactor = none;
}

abbrev first : Option (ℕ × Bytes) → ℕ
first none = 0
first (some (kind, _)) = kind

abbrev SameRead : List Bytes × Option Bytes × Bytes → List Bytes → Type 0
SameRead r doc = (r.0 ≡ doc) × (r.1 ≡ none)

server-IsReadOnly : IsReadOnly server
server-IsReadOnly kind [] rest doc r e w f = cc
server-IsReadOnly kind (k ∷ ks) rest doc r e w f =
    let g = rw w at (rw (ap first e) at f) in subst (λ r. SameRead r doc) (some_inj g) (refl, refl)

abbrev empty_log : UpdateLog
empty_log = record { logs = []; high_water = [] }

abbrev ann : Session
ann = record { id = 1; sub = "ann"; role = editor }

abbrev bob : Session
bob = record { id = 2; sub = "bob"; role = editor }

abbrev opened : Node server
opened = new_node "b" [] (new_presence counting []) true 0 0 empty_log

-- A SYNC message with the update 7.
abbrev edit : Bytes
edit = 0x00 ∷ 2 ∷ 2 ∷ 7 ∷ []

abbrev edited : List Event
edited = joins ann ∷ joins bob ∷ frame 1 edit ∷ writes 0 ∷ answers 50 0 ∷ prunes 1 ∷ []

abbrev after_edit : Node server
after_edit = run edited opened

-- The other session gets the update, and the log has it under number 1.
told_bob : after_edit.room.seq ≡ 1
unfolding new_node step may_write_document role_name
told_bob = refl

abbrev begun : Node server
begun = run (joins ann ∷ frame 1 edit ∷ []) opened

-- The task of the edit.
abbrev task : Task
task = record { payload = 7 ∷ []; from = some 1; row = none }

fail-join_example :
    let failed = step (fails 0) begun in
    let after = step (joins bob) failed in
    ((failed.out ≡ begun.out ++ told unsaved 0 (ann ∷ []))
      × (failed.room.save ≡ unsaved)
      × (failed.log ≡ begun.log)
      × (failed.in_flight ≡ []))
    × ((greeting : List Out) × (after.out
          ≡ (failed.out ++ greeting) ++ told saved 0 (ann ∷ bob ∷ []))
        × (after.room.save ≡ saved)
        × (after.log ≡ begun.log)
        × (after.in_flight ≡ []))
unfolding new_node step may_write_document role_name
fail-join_example = fail-join 0 task bob begun refl refl

abbrev demoted : Node server
demoted = run edited opened

demoted-Untouched_example :
    let after = (apply_role_change "bob" viewer demoted).0 in
    Untouched (run (frame 1 edit ∷ []) after) (step (frame 2 edit) (run (frame 1 edit ∷ []) after))
unfolding new_node step apply_role_change may_write_document role_name
demoted-Untouched_example =
    demoted-Untouched server-IsReadOnly "bob" viewer demoted (frame 1 edit ∷ []) refl (tt, tt) 2
      (record { id = 2; sub = "bob"; role = viewer }) edit refl refl
