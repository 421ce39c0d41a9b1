-- ===== src/Realtime/Room/Grown.antt =====
-- What was true of the log and the snapshots stays true when the log takes a row, and when rows
-- that a snapshot has leave it.
use hamboom.Base.{
  All-imp, ◌∙◌, some_inj, ℕ, zero, suc, ◌+◌, ◌≤◌, ◌≡◌, refl, String, Option, none, some, List, [],
  ◌∷◌, ◌++◌, All, arith, ◌⊎◌, inl, inr, ap, sym, subst, false, true, filterb, leb, ltb, Bool-cases,
}
use hamboom.Realtime.Stores.{
  or_nil, or_zero, UpdateLog, Entry, append, entries, payloads, latest_seq, prune,
}
use hamboom.Base.Dict.{get-put_self}
use hamboom.Schema.Protocol.{
  Bytes, saved, saving, unsaved, BusKind, update, presence, transient, state_request, sync,
  awareness, auth_refresh, permission, room_info, ephemeral, hb_error, HbMessage,
}
use hamboom.Realtime.Room.{Out, sends, fans_out, relays, publishes, compacts, Task}
use hamboom.Realtime.Room.Events.{task_at, put_row}
use hamboom.Realtime.Room.Written.{
  Disk, Has, Stored, IsTrue, IsTrueMessage, IsTrueKind, HasRow, IsTrueTask,
}

entries-append :
    (board : String) (u : Bytes) (log : UpdateLog)
    → entries board (append board u log).1
      ≡ entries board log ++ record { payload = u; seq = latest_seq board log + 1 } ∷ []
unfolding append latest_seq
entries-append board u log = ap or_nil (
    get-put_self board
      (entries board log ++ record { payload = u; seq = latest_seq board log + 1 } ∷ []) log.logs)

latest-append :
    (board : String) (u : Bytes) (log : UpdateLog)
    → latest_seq board (append board u log).1 ≡ latest_seq board log + 1
unfolding append latest_seq
latest-append board u log =
    ap or_zero (get-put_self board (latest_seq board log + 1) log.high_water)

seq-append :
    (board : String) (u : Bytes) (log : UpdateLog)
    → (append board u log).0 ≡ latest_seq board log + 1
unfolding append latest_seq
seq-append board u log = refl

Has-older :
    (u : Bytes) (es : List Entry) (e : Entry)
    → Has u (payloads es)
    → Has u (payloads (es ++ e ∷ []))
Has-older u [] e h = absurd h
Has-older u (x ∷ es) e (inl here) = inl here
Has-older u (x ∷ es) e (inr h) = inr (Has-older u es e h)

Has-newest : (es : List Entry) (e : Entry) → Has e.payload (payloads (es ++ e ∷ []))
Has-newest [] e = inl refl
Has-newest (x ∷ es) e = inr (Has-newest es e)

Has-left : (u : Bytes) (us vs : List Bytes) → Has u us → Has u (us ++ vs)
Has-left u [] vs h = absurd h
Has-left u (x ∷ us) vs (inl here) = inl here
Has-left u (x ∷ us) vs (inr h) = inr (Has-left u us vs h)

Has-right : (u : Bytes) (us vs : List Bytes) → Has u vs → Has u (us ++ vs)
Has-right u [] vs h = h
Has-right u (x ∷ us) vs h = inr (Has-right u us vs h)

-- A disk that still has what another had, and whose log has reached as far.
pub record Extends (board : String) (old disk : Disk) : Type 0 where
  pub stored : (u : Bytes) → Stored board old u → Stored board disk u
  pub latest : latest_seq board old.log ≤ latest_seq board disk.log

module _ (board : String) (old disk : Disk) (x : Extends board old disk) where
  message-kept : (m : HbMessage) → IsTrueMessage board old m → IsTrueMessage board disk m
  message-kept (room_info _ seq saved) h = omega (arith, x.latest)
  message-kept (room_info _ seq saving) h = tt
  message-kept (room_info _ seq unsaved) h = tt
  message-kept (sync _) h = tt
  message-kept (awareness _) h = tt
  message-kept (auth_refresh _) h = tt
  message-kept (permission _) h = tt
  message-kept (ephemeral _ _) h = tt
  message-kept (hb_error _ _) h = tt

  kind-kept : (k : BusKind) (seq : ℕ) → IsTrueKind board old k seq → IsTrueKind board disk k seq
  kind-kept BusKind.stored seq h = omega (arith, x.latest)
  kind-kept update seq h = tt
  kind-kept presence seq h = tt
  kind-kept transient seq h = tt
  kind-kept state_request seq h = tt

  pub IsTrue-kept : (o : Out) → IsTrue board old o → IsTrue board disk o
  IsTrue-kept (sends _ m) h = message-kept m h
  IsTrue-kept (fans_out _ v) h = x.stored v h
  IsTrue-kept (relays _ _) h = tt
  IsTrue-kept (publishes k _ seq) h = kind-kept k seq h
  IsTrue-kept (compacts upto) h = omega (arith, x.latest)

  pub row-kept : (v : Bytes) (row : Option ℕ) → HasRow board old v row → HasRow board disk v row
  row-kept v none h = tt
  row-kept v (some seq) (h, le) = (x.stored v h, omega (arith, x.latest))

-- The log after a row more.
module _ (board : String) (u : Bytes) (disk : Disk) where
  abbrev pub grown : Disk
  grown = record { log = (append board u disk.log).1; folded = disk.folded }

  Stored-grown : (v : Bytes) → Stored board disk v → Stored board grown v
  Stored-grown v (inl h) = inl h
  Stored-grown v (inr h) = inr (
      rw (entries-append board u disk.log) (
        Has-older v (entries board disk.log)
          (record { payload = u; seq = latest_seq board disk.log + 1 }) h))

  Stored-new : Stored board grown u
  Stored-new = inr (
      rw (entries-append board u disk.log) (
        Has-newest (entries board disk.log)
          (record { payload = u; seq = latest_seq board disk.log + 1 })))

  pub latest-grown : latest_seq board disk.log ≤ latest_seq board grown.log
  latest-grown = omega (arith, latest-append board u disk.log)

  pub grown-Extends : Extends board disk grown
  grown-Extends = record { stored = Stored-grown; latest = latest-grown }

  pub tasks-written :
      (i : ℕ) (ts : List Task) (t : Task)
      → task_at i ts ≡ some t
      → t.payload ≡ u
      → All (IsTrueTask board disk) ts
      → All (IsTrueTask board grown) (put_row i (append board u disk.log).0 ts)
  tasks-written i [] t f e a = tt
  tasks-written zero (s ∷ ts) t f e (a, as') = (
    (
      rw (ap (λ (r : Task). r.payload) (some_inj f) ∙ e) Stored-new,
      omega (arith, latest-append board u disk.log, seq-append board u disk.log),
    ),
    All-imp (IsTrueTask board disk) (IsTrueTask board grown) ts
        (λ r. row-kept board disk grown grown-Extends r.payload r.row) as',
  )
  tasks-written (suc i) (s ∷ ts) t f e (a, as') =
      (row-kept board disk grown grown-Extends s.payload s.row a, tasks-written i ts t f e as')

-- The log after the rows up to a number went to a snapshot.
module _ (board : String) (upto : ℕ) (disk : Disk) where
  abbrev pub pruned : Disk
  pruned = record {
    log = (prune board upto disk.log).1;
    folded = disk.folded ++ payloads (filterb (λ e. leb e.seq upto) (entries board disk.log));
  }

  -- A row is in the snapshot, or it stays.
  Has-parts :
      (v : Bytes) (es : List Entry)
      → Has v (payloads es)
      → Has v (payloads (filterb (λ e. leb e.seq upto) es))
        ⊎ Has v (payloads (filterb (λ e. ltb upto e.seq) es))
  Has-parts v [] h = absurd h
  Has-parts v (e ∷ es) h = elim (Bool-cases (leb e.seq upto)) [
    | inl old ↦
        let gone : ltb upto e.seq ≡ false = ground (arith, old) in
        rw old (
          rw gone (elim h [
            | inl here ↦ inl (inl here)
            | inr there ↦ elim (Has-parts v es there) [ inl l ↦ inl (inr l) | inr r ↦ inr r ]
          ]))
    | inr young ↦
        let kept : ltb upto e.seq ≡ true = ground (arith, young) in
        rw young (
          rw kept (elim h [
            | inl here ↦ inr (inl here)
            | inr there ↦ elim (Has-parts v es there) [ inl l ↦ inl l | inr r ↦ inr (inr r) ]
          ]))
  ]

  entries-prune :
      entries board (prune board upto disk.log).1
      ≡ filterb (λ e. ltb upto e.seq) (entries board disk.log)
  unfolding prune
  entries-prune =
      ap or_nil
        (get-put_self board (filterb (λ e. ltb upto e.seq) (entries board disk.log)) disk.log.logs)

  Stored-pruned : (v : Bytes) → Stored board disk v → Stored board pruned v
  Stored-pruned v (inl h) = inl (Has-left v disk.folded _ h)
  Stored-pruned v (inr h) = elim (Has-parts v (entries board disk.log) h) [
    | inl gone ↦ inl (Has-right v disk.folded _ gone)
    | inr kept ↦ inr (subst (λ es. Has v (payloads es)) (sym entries-prune) kept)
  ]

  pub pruned-Extends : Extends board disk pruned
  unfolding prune latest_seq
  pruned-Extends = record { stored = Stored-pruned; latest = omega arith }
