-- ===== src/Realtime/Room/Durable.antt =====
-- The events of a room on a server that owns its board, and what it has told.
use hamboom.Base.{List, [], ◌∷◌}
use hamboom.Realtime.Presence.{Presence}
use hamboom.Realtime.Room.Events.{
  Event, frame, on_bus, joins, leaves, changes_role, refreshes_role, asks_lock, writes, answers,
  fails, prunes, ends_compaction, step,
}
use hamboom.Realtime.Room.{Platform, Node}
use hamboom.Realtime.Room.Frames.{IsHonest}

module _ {P : Platform} where
  -- The envelopes are honest, and the board stays with this server.
  abbrev pub Allows : Event → Node P → Type 0
  Allows (on_bus e) n = IsHonest e n
  Allows (asks_lock _ _) n = ⊥
  Allows (frame _ _) n = Unit
  Allows (joins _) n = Unit
  Allows (leaves _) n = Unit
  Allows (changes_role _ _) n = Unit
  Allows (refreshes_role _ _) n = Unit
  Allows (writes _) n = Unit
  Allows (answers _ _) n = Unit
  Allows (fails _) n = Unit
  Allows (prunes _) n = Unit
  Allows (ends_compaction _ _) n = Unit

  abbrev pub AllowsAll : List Event → Node P → Type 0
  AllowsAll [] n = Unit
  AllowsAll (e ∷ es) n = Allows e n × AllowsAll es (step e n)
