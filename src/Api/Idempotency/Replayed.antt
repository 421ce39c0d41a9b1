-- ===== src/Api/Idempotency/Replayed.antt =====
-- One request of a key runs, and the others get its answer.
use hamboom.Base.{
  ℕ, ◌+◌, ◌≡◌, refl, true, false, not, ◌&&◌, String, Option, none, some, List, [], ◌∷◌, ◌++◌, ltb,
  leb, ◌===◌, if_both, is_some,
}
use hamboom.Base.Dict.{get, put, remove, get-put, get-remove, get-put_self, keep-none}
use hamboom.Api.Idempotency.{
  Stored, Cache, runs, waits, purge, join_or_run, replay_or_join, pre_handler_keyed, pre_handler,
  Reply, entry_of, is_text, on_send_keyed, on_send,
}

-- A request arrives with its key, or the handler of the running request of a key has answered.
pub data Event : Type 0 where
  arrives : (id : ℕ) (key : Option String) (now : ℕ) → Event
  answers : (key : String) (now : ℕ) → Reply → Event

module _ (ttl : ℕ) where
  abbrev pub step : Event → Cache → Cache
  step (arrives id key now) c = (pre_handler id key now c).0
  step (answers key now r) c = (on_send ttl (some key) now r c).0

  abbrev pub run : List Event → Cache → Cache
  run [] c = c
  run (e ∷ es) c = run es (step e c)

  module _ (key : String) where
    -- The answer is of another key.
    abbrev Others : Event → Type 0
    Others (arrives _ _ _) = Unit
    Others (answers k _ _) = (k === key) ≡ false

    abbrev pub AllOthers : List Event → Type 0
    AllOthers [] = Unit
    AllOthers (e ∷ es) = Others e × AllOthers es

    -- A request of the key runs, and no answer of it is kept.
    pub record Running (c : Cache) : Type 0 where
      pub there : is_some (get key c.inflight) ≡ true
      pub undone : get key c.done ≡ none

    purge-Running : (now : ℕ) (c : Cache) → Running c → Running (purge now c)
    unfolding purge
    purge-Running now c h = record {
      there = h.there;
      undone = keep-none (λ _ v. not (leb v.expires_at now)) key c.done h.undone;
    }

    put-Running :
        (k : String) (ids : List ℕ) (c : Cache)
        → Running c
        → Running (record c { inflight = put k ids c.inflight })
    put-Running k ids c h = record {
      there =
          rw (get-put k key ids c.inflight)
            (if_both (λ o. is_some o ≡ true) (k === key) refl h.there);
      undone = h.undone;
    }

    join-Running :
        (id : ℕ) (k : String) (o : Option (List ℕ)) (c : Cache)
        → Running c
        → Running (join_or_run id k o c).0
    unfolding join_or_run
    join-Running id k none c h = put-Running k [] c h
    join-Running id k (some ids) c h = put-Running k (ids ++ id ∷ []) c h

    replay-Running :
        (id : ℕ) (k : String) (o : Option Stored) (c : Cache)
        → Running c
        → Running (replay_or_join id k o c).0
    unfolding replay_or_join
    replay-Running id k none c h = join-Running id k (get k c.inflight) c h
    replay-Running id k (some stored) c h = h

    arrival-Running :
        (id : ℕ) (o : Option String) (now : ℕ) (c : Cache)
        → Running c
        → Running (pre_handler id o now c).0
    unfolding pre_handler pre_handler_keyed
    arrival-Running id none now c h = h
    arrival-Running id (some k) now c h =
        replay-Running id k (get k (purge now c).done) (purge now c) (purge-Running now c h)

    answer-Running :
        (k : String) (now : ℕ) (r : Reply) (c : Cache)
        → (k === key) ≡ false
        → Running c
        → Running (on_send ttl (some k) now r c).0
    unfolding on_send on_send_keyed
    answer-Running k now r c n h =
        let there : is_some (get key (remove k c.inflight)) ≡ true =
          rw (get-remove k key c.inflight) (rw n h.there) in
        if_both Running ((leb 200 r.status && ltb r.status 300) && is_text r.payload)
          (record {
            there = there;
            undone =
                rw (get-put k key (record { entry = entry_of r; expires_at = now + ttl }) c.done)
                  (rw n h.undone);
          })
          (record { there = there; undone = h.undone })

    run-Running : (es : List Event) (c : Cache) → AllOthers es → Running c → Running (run es c)
    run-Running [] c a h = h
    run-Running (arrives id o now ∷ es) c (_, a) h =
        run-Running es (pre_handler id o now c).0 a (arrival-Running id o now c h)
    run-Running (answers k now r ∷ es) c (n, a) h =
        run-Running es (on_send ttl (some k) now r c).0 a (answer-Running k now r c n h)

    join-runs :
        (id : ℕ) (o : Option (List ℕ)) (c : Cache)
        → get key c.done ≡ none
        → (join_or_run id key o c).1 ≡ runs key
        → Running (join_or_run id key o c).0
    unfolding join_or_run
    join-runs id none c u e = record {
      there = rw (get-put_self key [] c.inflight) refl;
      undone = u;
    }
    join-runs id (some ids) c u e = cc

    replay-runs :
        (id : ℕ) (o : Option Stored) (c : Cache)
        → get key c.done ≡ o
        → (replay_or_join id key o c).1 ≡ runs key
        → Running (replay_or_join id key o c).0
    unfolding replay_or_join
    replay-runs id none c u e = join-runs id (get key c.inflight) c u e
    replay-runs id (some stored) c u e = cc

    joins_lem :
        (id : ℕ) (o : Option (List ℕ)) (c : Cache)
        → is_some o ≡ true
        → (join_or_run id key o c).1 ≡ waits key
    unfolding join_or_run
    joins_lem id none c h = cc
    joins_lem id (some ids) c h = refl

    waits_lem :
        (id : ℕ) (now : ℕ) (c : Cache) → Running c → (pre_handler id (some key) now c).1 ≡ waits key
    unfolding pre_handler pre_handler_keyed replay_or_join purge
    waits_lem id now c h =
        rw (purge-Running now c h).undone (joins_lem id (get key c.inflight) (purge now c) h.there)

  -- While the request of a key runs, every other request with the key waits for its answer, and
  -- never runs: after a request that ran, and any arrivals of whatever requests and answers of
  -- other keys, at whatever times.
  pub pre_handler-waits :
      (key : String) (id now : ℕ) (c : Cache) (es : List Event) (other later : ℕ)
      → let first = pre_handler id (some key) now c in
        first.1 ≡ runs key
        → AllOthers key es
        → (pre_handler other (some key) later (run es first.0)).1 ≡ waits key
  unfolding pre_handler pre_handler_keyed
  pre_handler-waits key id now c es other later e a =
      let first = (pre_handler id (some key) now c).0 in
      let h : Running key first =
        replay-runs key id (get key (purge now c).done) (purge now c) refl e in
      waits_lem key other later (run es first) (run-Running key es first a h)
