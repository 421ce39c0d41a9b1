-- ===== src/Realtime/Compactor/Durable.antt =====
-- No update is lost: what a board loads is what was appended, whatever compactions did meanwhile.
use hamboom.Base.{
  Bool-cases, inl, inr, ℕ, ◌+◌, ◌≤◌, ◌<◌, ◌≡◌, ◌∙◌, sym, refl, ap, subst, false, String, Option,
  none, some, List, [], ◌∷◌, ◌++◌, filterb, ltb, lt→ltb, All, arith,
}
use hamboom.Base.Dict.{Dict, get, get-put_self}
use hamboom.Realtime.Stores.{
  Bytes, Entry, UpdateLog, entries, within, payloads, since, SnapshotRecord, rows, or_nil, or_zero,
  Stores, append, latest_seq, latest, load, load_from, load_found,
}
use hamboom.Realtime.Compactor.{Yjs, apply_all, document, perform_all, compact}
use hamboom.Realtime.Compactor.Fold.{IsRising, AtTop, top_row-All, apply_all-append}
use hamboom.Realtime.Compactor.Folded.{take, loaded, doc_of}
use hamboom.Realtime.Compactor.Crash.{compact-loaded}
use hamboom.Realtime.Compactor.Kept.{
  IsKept, IsKept-IsSound, last-All, last-IsRising, compact-IsKept,
}

abbrev pub empty : Stores
empty = record { log = record { logs = []; high_water = [] }; objects = []; catalog = [] }

abbrev pub appended : String → Bytes → Stores → Stores
appended board u s = record s { log = (append board u s.log).1 }

module _ (y : Yjs) (board : String) where
  -- The stores that appends and compactions reach from the empty ones, where a compaction folds no
  -- more than was logged and stops after any number of its writes; with them, all the updates that
  -- were appended.
  pub data Reach : Stores → List Bytes → Type 0 where
    start : Reach empty []
    appends :
        {s : Stores} {us : List Bytes}
        → Reach s us
        → (u : Bytes) → Reach (appended board u s) (us ++ (u ∷ []))
    compacts :
        {s : Stores} {us : List Bytes}
        → Reach s us
        → (target stop : ℕ) → target ≤ latest_seq board s.log
        → Reach (perform_all (take stop (compact y board target s).1) s) us

  weaken : (top : ℕ) (es : List Entry) → All (λ e. e.seq ≤ top) es → All (λ e. e.seq ≤ top + 1) es
  weaken top [] a = tt
  weaken top (e ∷ es) (h, a) = (omega (arith, h), weaken top es a)

  weaken_rows :
      (top : ℕ) (rs : List SnapshotRecord)
      → All (λ r. r.seq_upto ≤ top) rs
      → All (λ r. r.seq_upto ≤ top + 1) rs
  weaken_rows top [] a = tt
  weaken_rows top (e ∷ es) (h, a) = (omega (arith, h), weaken_rows top es a)

  abbrev entry_of : Bytes → ℕ → Entry
  entry_of u n = record { payload = u; seq = n }

  entries-append :
      (u : Bytes) (log : UpdateLog)
      → entries board (append board u log).1
        ≡ entries board log ++ (entry_of u (latest_seq board log + 1) ∷ [])
  unfolding append latest_seq
  entries-append u log = ap or_nil (get-put_self board _ log.logs)

  mark_next :
      (top : ℕ) (u : Bytes) (log : UpdateLog)
      → latest_seq board log ≡ top
      → latest_seq board (append board u log).1 ≡ top + 1
  unfolding append latest_seq
  mark_next top u log e = ap or_zero (get-put_self board _ log.high_water) ∙ ap (λ n. n + 1) e

  append-IsKept :
      (top : ℕ) (u : Bytes) (s : Stores)
      → IsKept board top s
      → IsKept board (top + 1) (appended board u s)
  append-IsKept top u s k =
      let es : entries board (append board u s.log).1
          ≡ entries board s.log ++ (entry_of u (top + 1) ∷ []) =
        entries-append u s.log
        ∙ ap (λ n. entries board s.log ++ (entry_of u (n + 1) ∷ [])) k.mark in
      record {
        mark = mark_next top u s.log k.mark;
        rising = subst (IsRising 0) (sym es) (
            last-IsRising 0 top (entries board s.log) (entry_of u (top + 1)) (omega arith) k.rising
              k.logged (omega arith));
        logged =
            subst (All (λ e. e.seq ≤ top + 1)) (sym es)
              (last-All _ (entries board s.log) _ (weaken top _ k.logged) (omega arith));
        keyed = k.keyed;
        covered = weaken_rows top _ k.covered;
      }

  payloads-last :
      (a : ℕ) (es : List Entry) (e : Entry)
      → a < e.seq
      → payloads (filterb (within a none) (es ++ (e ∷ [])))
        ≡ payloads (filterb (within a none) es) ++ (e.payload ∷ [])
  payloads-last a [] e l = rw (lt→ltb a e.seq l) refl
  payloads-last a (x ∷ es) e l = elim (Bool-cases (ltb a x.seq)) [
    | inl h ↦ rw h (ap (λ us. x.payload ∷ us) (payloads-last a es e l))
    | inr h ↦ rw h (payloads-last a es e l)
  ]

  since-append :
      (a : ℕ) (u : Bytes) (log : UpdateLog)
      → a ≤ latest_seq board log
      → since board a none (append board u log).1 ≡ since board a none log ++ (u ∷ [])
  unfolding since
  since-append a u log l =
      ap (λ es. payloads (filterb (within a none) es)) (entries-append u log)
      ∙ payloads-last a (entries board log) (entry_of u (latest_seq board log + 1))
          (omega (arith, l))

  -- A document with one more update.
  abbrev updated : Bytes → Option y.Doc → Option y.Doc
  updated u none = none
  updated u (some d) = some (y.apply_update d u)

  apply_last :
      (d : y.Doc) (us : List Bytes) (u : Bytes)
      → apply_all y d (us ++ (u ∷ [])) ≡ y.apply_update (apply_all y d us) u
  unfolding apply_all
  apply_last d us u = sym (apply_all-append y d us (u ∷ []))

  found-append :
      (u : Bytes) (log : UpdateLog) (row : SnapshotRecord) (o : Option Bytes)
      → row.seq_upto ≤ latest_seq board log
      → doc_of y board (load_found board (append board u log).1 row o)
        ≡ updated u (doc_of y board (load_found board log row o))
  unfolding load_found document
  found-append u log row none l = refl
  found-append u log row (some base) l = ap some (
      ap (apply_all y (y.apply_update y.new_doc base)) (since-append row.seq_upto u log l)
      ∙ apply_last (y.apply_update y.new_doc base) (since board row.seq_upto none log) u)

  from-append :
      (u : Bytes) (log : UpdateLog) (objects : Dict Bytes) (o : Option SnapshotRecord)
      → AtTop (λ row. row.seq_upto ≤ latest_seq board log) o
      → doc_of y board (load_from board (append board u log).1 o objects)
        ≡ updated u (doc_of y board (load_from board log o objects))
  unfolding load_from document
  from-append u log objects none l = ap some (
      ap (apply_all y y.new_doc) (since-append 0 u log (omega arith))
      ∙ apply_last y.new_doc (since board 0 none log) u)
  from-append u log objects (some row) l = found-append u log row (get row.storage_key objects) l

  append-loaded :
      (top : ℕ) (u : Bytes) (s : Stores)
      → IsKept board top s
      → loaded y board (appended board u s) ≡ updated u (loaded y board s)
  unfolding loaded load latest
  append-loaded top u s k = from-append u s.log s.objects (latest board s.catalog) (
      top_row-All (λ row. row.seq_upto ≤ latest_seq board s.log) none (rows board s.catalog) tt
        (subst (λ n. All (λ row. row.seq_upto ≤ n) (rows board s.catalog)) (sym k.mark) k.covered))

module _ (y : Yjs) (board : String)
    (restores : (d : y.Doc)
      → y.has_pending_structs d ≡ false
      → y.apply_update y.new_doc (y.encode_state_as_update d) ≡ d) where
  abbrev Whole : Stores → List Bytes → Type 0
  Whole s us = (top : ℕ) × IsKept board top s × (loaded y board s ≡ some (apply_all y y.new_doc us))

  whole : (s : Stores) (us : List Bytes) → Reach y board s us → Whole s us
  unfolding latest_seq loaded load load_from latest document since get
  whole _ _ start =
      (0, record { mark = refl; rising = tt; logged = tt; keyed = tt; covered = tt }, refl)
  whole _ _ (appends {s = s} {us = us} reach u) =
      let (top, k, e) = whole s us reach in
      (
        top + 1,
        append-IsKept y board top u s k,
        append-loaded y board top u s k
            ∙ (ap (updated y board u) e ∙ ap some (sym (apply_last y board y.new_doc us u))),
      )
  whole _ us (compacts {s = s} reach target stop l) =
      let (top, k, e) = whole s us reach in
      (
        top,
        compact-IsKept board top y target s (subst (λ n. target ≤ n) k.mark l) stop k,
        compact-loaded y board target s stop restores (IsKept-IsSound board top s k) ∙ e,
      )

  -- No update is lost: after any appends and any compactions, each stopped after any number of its
  -- writes, the board loads the document of all the updates that were appended, in their order. A
  -- compaction folds no more than was logged. Of Yjs this needs that a document without missing
  -- updates is restored by its encoding.
  pub Reach-loaded :
      (s : Stores) (us : List Bytes)
      → Reach y board s us
      → loaded y board s ≡ some (apply_all y y.new_doc us)
  Reach-loaded s us reach = (whole s us reach).2
