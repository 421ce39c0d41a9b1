-- ===== src/Realtime/Presence/Sample.antt =====
-- An awareness that counts, for the tests: an update is the client and 1 for presence, 0 for its end.
use hamboom.Base.{ℕ, Option, none, some, List, [], ◌∷◌, ◌==◌, if◌then◌else◌}
use hamboom.Base.Table.{add, drop}
use hamboom.Schema.Protocol.{Bytes}
use hamboom.Realtime.Presence.{Awareness, Change}

abbrev pub joins : ℕ → Change
joins id = record { added = id ∷ []; updated = []; removed = [] }

abbrev pub leaves : ℕ → Change
leaves id = record { added = []; updated = []; removed = id ∷ [] }

abbrev pub read : List ℕ → Bytes → Option (List ℕ × Change)
read present [] = none
read present (id ∷ []) = none
read present (id ∷ n ∷ _) =
    if n == 0 then some (drop id present, leaves id) else some (add id present, joins id)

abbrev pub remove_each : List ℕ → List ℕ → List ℕ
remove_each [] present = present
remove_each (id ∷ ids) present = remove_each ids (drop id present)

abbrev pub counting : Awareness
counting = record {
  States = List ℕ;
  apply_update = read;
  remove_states =
      λ present ids. (remove_each ids present, record { added = []; updated = []; removed = ids });
  encode_update = λ present ids. ids;
  clients = λ present. present;
}
