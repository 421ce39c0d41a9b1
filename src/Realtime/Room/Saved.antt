-- ===== src/Realtime/Room/Saved.antt =====
-- What a room says about saving.
use hamboom.Schema.Protocol.{SaveStatus, saved, unsaved, permission, sync, room_info}
use hamboom.Base.{none, map, length, ◌++◌, refl, some, ◌≡◌, ℕ, List, [], ◌∷◌}
use hamboom.Realtime.Room.{
  Out, sends, Task, not_persisted, Platform, Session, Node, announce, info, broadcast,
}
use hamboom.Realtime.Room.Events.{fail, joins, fails, task_at, without_task, step}
use hamboom.Realtime.Presence.{snapshot}
use hamboom.Realtime.Room.Messages.{join, present_to}

-- What all the sessions are told of saving.
abbrev pub told : SaveStatus → (seq : ℕ) → List Session → List Out
told status seq ss = map (λ u. sends u.id (room_info (length ss) seq status)) ss

module _ {P : Platform} where
  -- When the write of an update failed that the log does not have, all the sessions are sent
  -- "unsaved", the log is as it was and no write of the update is left; but the next session that
  -- joins makes the room send "saved" to all its sessions, the new one included, with the log still
  -- as it was and no write begun.
  pub fail-join :
      (i : ℕ) (t : Task) (s : Session) (n : Node P)
      → task_at i n.in_flight ≡ some t
      → t.row ≡ none
      → let failed = step (fails i) n in
        let after = step (joins s) failed in
        let others = n.room.sessions in
        ((failed.out ≡ n.out ++ told unsaved n.room.seq others)
          × (failed.room.save ≡ unsaved)
          × (failed.log ≡ n.log)
          × (failed.in_flight ≡ without_task i n.in_flight))
        × ((greeting : List Out) × (after.out
              ≡ (failed.out ++ greeting) ++ told saved n.room.seq (others ++ s ∷ []))
            × (after.room.save ≡ saved)
            × (after.log ≡ n.log)
            × (after.in_flight ≡ without_task i n.in_flight))
  unfolding step fail not_persisted join announce info broadcast
  fail-join i t s n f unwritten =
      let failed = fail i (some t) n in
      let greeting =
        sends s.id (permission s.role)
        ∷ sends s.id (sync (P.yjs.write_step1 failed.room.doc))
        ∷ sends s.id (sync (P.yjs.write_step2 failed.room.doc))
        ∷ present_to s (snapshot failed.room.present) in
      rw f ((refl, refl, refl, refl), (greeting, refl, refl, refl, refl))
