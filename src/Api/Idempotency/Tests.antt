-- ===== src/Api/Idempotency/Tests.antt =====
-- Two requests with one key, and a third after the answer.
use hamboom.Base.{◌≡◌, refl, some, [], ◌∷◌, arith}
use hamboom.Api.Idempotency.{Cache, waits, replays, pre_handler, Reply, entry_of, on_send}
use hamboom.Api.Idempotency.Replayed.{arrives, run, pre_handler-waits}
use hamboom.Api.Idempotency.Kept.{on_send-replays}

abbrev empty : Cache
empty = record { done = []; inflight = [] }

abbrev created : Reply
created = record { status = 201; payload = some "{}"; content_type = "application/json" }

pre_handler-waits_example :
    (pre_handler 2
      (some "k")
      11
      (run 100 (arrives 7 (some "j") 10 ∷ []) (pre_handler 1 (some "k") 10 empty).0)).1
    ≡ waits "k"
unfolding pre_handler
pre_handler-waits_example =
    pre_handler-waits 100 "k" 1 10 empty (arrives 7 (some "j") 10 ∷ []) 2 11 refl (tt, tt)

abbrev running : Cache
running = (pre_handler 1 (some "k") 10 empty).0

on_send-replays_example :
    (pre_handler 3
      (some "k")
      60
      (run 100 (arrives 7 (some "j") 30 ∷ []) (on_send 100 (some "k") 20 created running).0)).1
    ≡ replays (entry_of created)
on_send-replays_example =
    on_send-replays 100 "k" "{}" 20 60 3 created running (arrives 7 (some "j") 30 ∷ [])
      (omega arith) (omega arith) refl (omega arith, tt) (omega arith)
