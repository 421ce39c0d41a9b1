-- ===== src/Sync/EmitLocal/Tests.antt =====
-- Two notes that are dragged, written and deleted.
use hamboom.Base.{
  ap, ◌∙◌, false, ◌≡◌, refl, true, Bool, String, Option, none, some, List, [], ◌∷◌, ◌++◌, is_some,
  ◌===◌, if◌then◌else◌,
}
use hamboom.Sync.EmitLocal.{local_user, EmitSink, EmitSchedulerOptions, Changes, Emit, flush, push}
use hamboom.Sync.EmitLocal.Merged.{Writes, upserted, erased}
use hamboom.Sync.EmitLocal.Written.{
  Event, pushes, fires, new_emit, run, IsArmed, run-IsArmed, intended, flush-run,
}
use hamboom.Sync.EmitLocal.Files.{Files, push-files}

-- An element: its id, its text and whether it is deleted.
record Note : Type 0 where
  name : String
  said : Option String
  gone : Bool

-- A document: the note under an id, and the files.
abbrev Board : Type 0
Board = (String → Option Note) × List String

abbrev erase_note : Note → Note
erase_note n = record n { gone = true }

abbrev set_notes : List Note → (String → Option Note) → String → Option Note
set_notes [] f = f
set_notes (e ∷ es) f = set_notes es (λ k. if e.name === k then some e else f k)

abbrev mark : Bool → Option Note → Option Note
mark b none = none
mark b (some e) = some (if b then erase_note e else e)

abbrev mark_notes : List String → (String → Option Note) → String → Option Note
mark_notes [] f = f
mark_notes (id ∷ ids) f = mark_notes ids (λ k. mark (id === k) (f k))

abbrev notes : EmitSink
notes = record {
  Element = Note;
  Asset = String;
  Doc = Board;
  id = λ n. n.name;
  original_text = λ n. n.said;
  commit = λ c doc. (mark_notes c.deleted (set_notes c.upserted doc.0), c.assets ++ doc.1);
  has = λ k doc. is_some (doc.0 k);
  text_of = λ k doc. none;
}

set_notes-upserted :
    (k : String) (es : List Note) (f : String → Option Note)
    → set_notes es f k ≡ upserted notes k es (f k)
unfolding upserted
set_notes-upserted k [] f = refl
set_notes-upserted k (e ∷ es) f =
    set_notes-upserted k es (λ j. if e.name === j then some e else f j)

erased-mark :
    (k id : String) (ids : List String) (o : Option Note)
    → erased notes erase_note k ids (mark (id === k) o) ≡ erased notes erase_note k (id ∷ ids) o
unfolding erased
erased-mark k id [] none = refl
erased-mark k id (j ∷ ids) none = refl
erased-mark k id ids (some e) = refl

erased-empty : (k : String) (o : Option Note) → o ≡ erased notes erase_note k [] o
unfolding erased
erased-empty k none = refl
erased-empty k (some e) = refl

mark_notes-erased :
    (k : String) (ids : List String) (f : String → Option Note)
    → mark_notes ids f k ≡ erased notes erase_note k ids (f k)
mark_notes-erased k [] f = erased-empty k (f k)
mark_notes-erased k (id ∷ ids) f =
    mark_notes-erased k ids (λ j. mark (id === j) (f j)) ∙ erased-mark k id ids (f k)

abbrev notes_written : Writes notes
notes_written = record {
  find = λ k doc. doc.0 k;
  erase = erase_note;
  found = λ k c doc.
      mark_notes-erased k c.deleted (set_notes c.upserted doc.0)
      ∙ ap (erased notes erase_note k c.deleted) (set_notes-upserted k c.upserted doc.0);
}

abbrev notes_files : Files notes
notes_files = record {
  Table = List String;
  files = λ doc. doc.1;
  unaltered = λ c doc e. ap (λ fs. fs ++ doc.1) e;
}

abbrev note : String → String → Note
note name said = record { name = name; said = some said; gone = false }

abbrev change : List Note → List String → List String → Option String → Changes notes
change es ids fs g = record {
  upserted = es;
  deleted = ids;
  assets = fs;
  origin = local_user;
  gesture_id = g;
}

abbrev options : EmitSchedulerOptions
options = record { gesture_ms = 50; text_debounce_ms = 150 }

abbrev empty_board : Board
empty_board = (λ k. none, [])

abbrev events : List (Event notes)
events =
    pushes (change (note "a" "one" ∷ note "b" "two" ∷ []) [] [] none)
    ∷ pushes (change (note "a" "left" ∷ []) [] [] (some "drag"))
    ∷ pushes (change (note "a" "right" ∷ []) [] [] (some "drag"))
    ∷ fires
    ∷ pushes (change (note "b" "more" ∷ []) [] [] (some "type"))
    ∷ pushes (change [] ("a" ∷ []) [] none)
    ∷ []

abbrev ended : Emit notes
ended = flush notes (run notes options events (new_emit notes empty_board))

both_arrived :
    (ended.document.0 "a" ≡ some (record (note "a" "right") { gone = true }))
    × (ended.document.0 "b" ≡ some (note "b" "more"))
unfolding flush run
both_arrived = (refl, refl)

flush-run_example :
    ended.document.0 "b" ≡ intended notes options notes_written "b" events (empty_board.0 "b")
flush-run_example = flush-run notes options notes_written "b" events empty_board

run-IsArmed_example : IsArmed notes options (run notes options events (new_emit notes empty_board))
run-IsArmed_example = run-IsArmed notes options events empty_board

abbrev board : Emit notes
board = new_emit notes (λ k. some (note k "old"), "picture" ∷ [])

push-files_example :
    (flush notes (
      push notes options
        (change (note "a" "new" ∷ []) [] ("photo" ∷ []) (some "drop"))
        board)).document.1
    ≡ "picture" ∷ []
push-files_example =
    push-files notes notes_files options
      (change (note "a" "new" ∷ []) [] ("photo" ∷ []) (some "drop")) board refl refl refl
