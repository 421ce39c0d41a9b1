-- ===== src/Api/Idempotency/Kept.antt =====
-- A good answer is sent again until it expires.
use hamboom.Base.{
  ℕ, ◌+◌, ◌≤◌, ◌<◌, ◌≡◌, refl, true, false, not, ◌&&◌, String, Option, none, some, List, [], ◌∷◌,
  ◌++◌, ltb, leb, ◌===◌, if_both, arith, Bool-cases, inl, inr, eq_iff, is_some,
}
use hamboom.Base.Dict.{
  get, put, remove, get-put, get-put_self, get-remove, get-remove_self, get-keep_kept,
}
use hamboom.Api.Idempotency.{
  Stored, Cache, replays, purge, join_or_run, replay_or_join, pre_handler_keyed, pre_handler, Reply,
  entry_of, is_text, on_send_keyed, on_send,
}
use hamboom.Api.Idempotency.Replayed.{Event, arrives, answers, step, run}

module _ (ttl : ℕ) where
  module _ (key : String) (s : Stored) where
    -- The answer is kept, and no request of the key runs.
    pub record IsKept (c : Cache) : Type 0 where
      pub kept : get key c.done ≡ some s
      pub idle : get key c.inflight ≡ none

    -- Requests arrive before the answer expires, and an answer is of a request that runs.
    abbrev pub IsEarly : Event → Cache → Type 0
    IsEarly (arrives _ _ now) c = now < s.expires_at
    IsEarly (answers k _ _) c = is_some (get k c.inflight) ≡ true

    abbrev pub AreEarly : List Event → Cache → Type 0
    AreEarly [] c = Unit
    AreEarly (e ∷ es) c = IsEarly e c × AreEarly es (step ttl e c)

    purge-IsKept : (now : ℕ) (c : Cache) → now < s.expires_at → IsKept c → IsKept (purge now c)
    unfolding purge
    purge-IsKept now c l h = record {
      kept = get-keep_kept (λ _ v. not (leb v.expires_at now)) key s c.done h.kept (ground arith);
      idle = h.idle;
    }

    put-IsKept :
        (k : String) (ids : List ℕ) (c : Cache)
        → (k === key) ≡ false
        → IsKept c
        → IsKept (record c { inflight = put k ids c.inflight })
    put-IsKept k ids c n h = record {
      kept = h.kept;
      idle = rw (get-put k key ids c.inflight) (rw n h.idle);
    }

    join-IsKept :
        (id : ℕ) (k : String) (o : Option (List ℕ)) (c : Cache)
        → (k === key) ≡ false
        → IsKept c
        → IsKept (join_or_run id k o c).0
    unfolding join_or_run
    join-IsKept id k none c n h = put-IsKept k [] c n h
    join-IsKept id k (some ids) c n h = put-IsKept k (ids ++ id ∷ []) c n h

    replay-IsKept :
        (id : ℕ) (k : String) (o : Option Stored) (c : Cache)
        → get k c.done ≡ o
        → IsKept c
        → IsKept (replay_or_join id k o c).0
    unfolding replay_or_join
    replay-IsKept id k (some stored) c e h = h
    replay-IsKept id k none c e h = elim (Bool-cases (k === key)) [
      | inl same ↦
          let there : get k c.done ≡ some s = rw ((eq_iff k key).0 same) h.kept in
          absurd (ground (arith, e, there))
      | inr other ↦ join-IsKept id k (get k c.inflight) c other h
    ]

    other_key :
        (k : String) (c : Cache)
        → is_some (get k c.inflight) ≡ true
        → IsKept c
        → (k === key) ≡ false
    other_key k c l h = elim (Bool-cases (k === key)) [
      | inr other ↦ other
      | inl same ↦
          let idle : get k c.inflight ≡ none = rw ((eq_iff k key).0 same) h.idle in
          absurd (ground (arith, l, idle))
    ]

    answer-IsKept :
        (k : String) (now : ℕ) (r : Reply) (c : Cache)
        → (k === key) ≡ false
        → IsKept c
        → IsKept (on_send ttl (some k) now r c).0
    unfolding on_send on_send_keyed
    answer-IsKept k now r c n h =
        let idle : get key (remove k c.inflight) ≡ none =
          rw (get-remove k key c.inflight) (rw n h.idle) in
        if_both IsKept ((leb 200 r.status && ltb r.status 300) && is_text r.payload)
          (record {
            kept =
                rw (get-put k key (record { entry = entry_of r; expires_at = now + ttl }) c.done)
                  (rw n h.kept);
            idle = idle;
          })
          (record { kept = h.kept; idle = idle })

    step-IsKept : (e : Event) (c : Cache) → IsEarly e c → IsKept c → IsKept (step ttl e c)
    unfolding pre_handler pre_handler_keyed on_send on_send_keyed
    step-IsKept (arrives id none now) c l h = h
    step-IsKept (arrives id (some k) now) c l h =
        replay-IsKept id k (get k (purge now c).done) (purge now c) refl (purge-IsKept now c l h)
    step-IsKept (answers k now r) c l h = answer-IsKept k now r c (other_key k c l h) h

    run-IsKept : (es : List Event) (c : Cache) → AreEarly es c → IsKept c → IsKept (run ttl es c)
    run-IsKept [] c a h = h
    run-IsKept (e ∷ es) c (l, a) h = run-IsKept es (step ttl e c) a (step-IsKept e c l h)

    replays_lem :
        (id now : ℕ) (c : Cache)
        → now < s.expires_at
        → IsKept c
        → (pre_handler id (some key) now c).1 ≡ replays s.entry
    unfolding pre_handler pre_handler_keyed replay_or_join
    replays_lem id now c l h = rw (purge-IsKept now c l h).kept refl

  answered-IsKept :
      (key body : String) (now : ℕ) (r : Reply) (c : Cache)
      → 200 ≤ r.status
      → r.status < 300
      → r.payload ≡ some body
      → IsKept key
          (record { entry = entry_of r; expires_at = now + ttl })
          (on_send ttl (some key) now r c).0
  unfolding on_send on_send_keyed
  answered-IsKept key body now r c a b e =
      let text : is_text r.payload ≡ true = rw e refl in
      let good : ((leb 200 r.status && ltb r.status 300) && is_text r.payload) ≡ true =
        ground arith in
      rw good (record {
        kept = get-put_self key (record { entry = entry_of r; expires_at = now + ttl }) c.done;
        idle = get-remove_self key c.inflight;
      })

  -- Once a request of a key is answered with a status from 200 to 299 and a text, every request of
  -- the key that arrives before the answer expires is sent the same answer and does not run,
  -- whatever else arrives and is answered in between.
  pub on_send-replays :
      (key body : String) (at later id : ℕ) (r : Reply) (c : Cache) (es : List Event)
      → let entry = entry_of r in
        let after = (on_send ttl (some key) at r c).0 in
        200 ≤ r.status
        → r.status < 300
        → r.payload ≡ some body
        → AreEarly key (record { entry = entry; expires_at = at + ttl }) es after
        → later < at + ttl
        → (pre_handler id (some key) later (run ttl es after)).1 ≡ replays entry
  on_send-replays key body at later id r c es a b e early l =
      let s : Stored = record { entry = entry_of r; expires_at = at + ttl } in
      let after = (on_send ttl (some key) at r c).0 in
      replays_lem key s id later (run ttl es after) l
        (run-IsKept key s es after early (answered-IsKept key body at r c a b e))
