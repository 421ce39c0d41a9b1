-- ===== src/Realtime/Compactor/Tests.antt =====
-- A board with three updates, folded twice, with a document that is the sequence of its updates.
use hamboom.Realtime.Compactor.{
  apply_all, perform, Yjs, document, compact, perform_all, compacted, should_compact,
}
use hamboom.Realtime.Stores.{latest_seq, Bytes, Stores, UpdateLog, append, since, load}
use hamboom.Base.{◌≤◌, ◌≡◌, refl, false, none, some, [], ◌∷◌, ◌++◌, length, arith}
use hamboom.Realtime.Keys.{snapshot_key}
use hamboom.Realtime.Compactor.Folded.{take, loaded, IsSound}
use hamboom.Realtime.Compactor.Durable.{
  empty, appended, Reach, start, appends, compacts, Reach-loaded,
}

-- Updates are appended; the encoding of a document is the document.
abbrev joined : Yjs
joined = record {
  Doc = Bytes;
  new_doc = [];
  apply_update = λ d u. d ++ u;
  encode_state_as_update = λ d. d;
  encode_state_vector = λ d. d;
  element_count = length;
  has_pending_structs = λ d. false;
}

abbrev log : UpdateLog
log =
    (append "b" (3 ∷ [])
      (append "b" (2 ∷ []) (append "b" (1 ∷ []) (record { logs = []; high_water = [] })).1).1).1

abbrev fresh : Stores
fresh = record { log = log; objects = []; catalog = [] }

abbrev folded : Stores
folded = perform_all (compact joined "b" 2 fresh).1 fresh

abbrev folded_again : Stores
folded_again = perform_all (compact joined "b" 3 folded).1 folded

log-numbered : since "b" 1 none log ≡ ((2 ∷ []) ∷ (3 ∷ []) ∷ [])
unfolding since append
log-numbered = refl

fresh-loaded : loaded joined "b" fresh ≡ some (1 ∷ 2 ∷ 3 ∷ [])
unfolding loaded load append document
fresh-loaded = refl

folded-compacted :
    (compact joined "b" 2 fresh).0
    ≡ compacted (record { seq_upto = 2; byte_size = 2; element_count = 2; pruned = 2 })
unfolding compact append snapshot_key
folded-compacted = refl

folded-loaded : loaded joined "b" folded ≡ some (1 ∷ 2 ∷ 3 ∷ [])
unfolding loaded load append document compact perform_all perform snapshot_key
folded-loaded = refl

stale-dropped : folded_again.objects ≡ (("b/000000000003.ybin", 1 ∷ 2 ∷ 3 ∷ []) ∷ [])
unfolding append compact perform_all perform snapshot_key
stale-dropped = refl

no_update-kept : should_compact (record { every_updates = 2; every_ms = 10 }) 3 3 0 1000 ≡ false
unfolding should_compact
no_update-kept = refl

folded-IsSound : IsSound "b" folded
unfolding append compact perform_all perform snapshot_key
folded-IsSound = record { rising = (ground arith, tt); keyed = (refl, tt) }

two_logged : 2 ≤ latest_seq "b" (appended "b" (2 ∷ []) (appended "b" (1 ∷ []) empty)).log
unfolding append latest_seq
two_logged = omega arith

-- Two updates, a compaction of both that stops before the log is pruned, a third update.
abbrev history :
    Reach joined "b"
      (appended "b" (3 ∷ []) (
        perform_all
          (take 2 (compact joined "b" 2 (appended "b" (2 ∷ []) (appended "b" (1 ∷ []) empty))).1)
          (appended "b" (2 ∷ []) (appended "b" (1 ∷ []) empty))))
      ((1 ∷ []) ∷ (2 ∷ []) ∷ (3 ∷ []) ∷ [])
history = appends (compacts (appends (appends start (1 ∷ [])) (2 ∷ [])) 2 2 two_logged) (3 ∷ [])

Reach-loaded_example :
    loaded joined "b" (
      appended "b" (3 ∷ []) (
        perform_all
          (take 2 (compact joined "b" 2 (appended "b" (2 ∷ []) (appended "b" (1 ∷ []) empty))).1)
          (appended "b" (2 ∷ []) (appended "b" (1 ∷ []) empty))))
    ≡ some (apply_all joined [] ((1 ∷ []) ∷ (2 ∷ []) ∷ (3 ∷ []) ∷ []))
Reach-loaded_example = Reach-loaded joined "b" (λ d _. refl) _ _ history
