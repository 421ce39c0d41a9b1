-- ===== src/Realtime/Compactor/Write.antt =====
-- The writes of one compaction: whichever of them are done, the board loads the same document.
use hamboom.Realtime.Compactor.Fold.{top_row-IsBelow, top_row-All, AtTop}
use hamboom.Base.Dict.{get-put_other, put, get, get-put_self}
use hamboom.Realtime.Compactor.{
  reads_back, Outcome, finish, write, perform_all, apply_all, drop_stale, older, record_row, row_of,
  from_seq, Yjs, apply_all, Effect, puts, records, prunes, perform, perform_all,
}
use hamboom.Realtime.Keys.{snapshot_key-inj, snapshot_key}
use hamboom.Base.{
  ◌≢◌, ltb→lt, eq_iff, ◌===◌, Bool-cases, inl, inr, if_split, ℕ, zero, suc, ◌<◌, ◌≡◌, ◌∙◌, inl, inr,
  sym, refl, ap, subst, false, not, String, Option, none, some, List, [], ◌∷◌, ◌++◌, filterb, ltb,
  ◌===◌, All, arith, Bool-cases, if_split,
}
use hamboom.Realtime.Stores.{
  or_nil, older, record_row, load, since, latest, Bytes, SnapshotRecord, rows, Stores, since,
  latest, load, load_from, load_found,
}
use hamboom.Realtime.Compactor.Folded.{
  take, IsKeyed, IsSound, doc_of, loaded, IsFolded, IsHarmless, run-IsFolded, IsFolded-loaded,
}

module _ (board : String) (target : ℕ) where
  -- The key of an older snapshot is not the new one.
  older_key :
      (row : SnapshotRecord)
      → IsKeyed board row
      → row.seq_upto < target
      → row.storage_key ≢ snapshot_key board target
  older_key row k l e =
      let same : row.seq_upto ≡ target = snapshot_key-inj board row.seq_upto target (sym k ∙ e) in
      omega (arith, same, l)

  abbrev IsStale : SnapshotRecord → Type 0
  IsStale row = IsKeyed board row × (row.seq_upto < target)

  filterb-IsStale :
      (rs : List SnapshotRecord)
      → All (IsKeyed board) rs
      → All IsStale (filterb (λ row. ltb row.seq_upto target) rs)
  filterb-IsStale [] k = tt
  filterb-IsStale (r ∷ rs) (k, ks) =
      if_split (All IsStale) (ltb r.seq_upto target)
        (λ e. ((k, ltb→lt r.seq_upto target e), filterb-IsStale rs ks)) (λ _. filterb-IsStale rs ks)

ne→false : (s t : String) → s ≢ t → (s === t) ≡ false
ne→false s t n = elim (Bool-cases (s === t)) [ inl e ↦ absurd (n ((eq_iff s t).0 e)) | inr e ↦ e ]

All-append {ℓ κ} :
    {A : Type ℓ} (P : A → Type κ) (xs : List A) (x : A) → All P xs → P x → All P (xs ++ (x ∷ []))
All-append P [] x a p = (p, tt)
All-append P (z ∷ xs) x (q, a) p = (q, All-append P xs x a p)

pub unwritten-loaded :
    (y : Yjs) (board : String) (s : Stores) (n : ℕ)
    → loaded y board (perform_all (take n []) s) ≡ loaded y board s
unfolding perform_all
unwritten-loaded y board s zero = refl
unwritten-loaded y board s (suc n) = refl

module _ (y : Yjs) (board : String) (target : ℕ) (d : y.Doc) (s : Stores) (sound : IsSound board s)
    (newer : from_seq (latest board s.catalog) < target) where
  abbrev key : String
  key = snapshot_key board target

  abbrev bytes : Bytes
  bytes = y.encode_state_as_update d

  abbrev stored : Stores
  stored = perform (puts key bytes) s

  abbrev recorded : Stores
  recorded = perform (records board (row_of y board target d)) stored

  abbrev tail : List Bytes
  tail = since board target none s.log

  -- Writing the snapshot under its key leaves the one that is loaded.
  put-found :
      (o : Option SnapshotRecord)
      → AtTop (IsKeyed board) o
      → from_seq o < target
      → load_from board s.log o (put key bytes s.objects) ≡ load_from board s.log o s.objects
  unfolding load_from
  put-found none k l = refl
  put-found (some row) k l = ap (load_found board s.log row) (
      get-put_other key row.storage_key bytes s.objects
        (ne→false key row.storage_key (λ e. older_key board target row k l (sym e))))

  put-loaded : loaded y board stored ≡ loaded y board s
  unfolding loaded load perform latest
  put-loaded = ap (doc_of y board) (
      put-found (latest board s.catalog)
        (top_row-All (IsKeyed board) none (rows board s.catalog) tt sound.keyed) newer)

  recorded-IsFolded :
      IsFolded y board target bytes tail (row_of y board target d) refl refl recorded
  unfolding perform record_row latest
  recorded-IsFolded = record {
    olds = rows board s.catalog;
    listed = ap or_nil (get-put_self board _ s.catalog);
    below = top_row-IsBelow target none (rows board s.catalog) newer;
    stored = get-put_self key bytes s.objects;
    rest = refl;
  }

  drop_stale-IsHarmless :
      (rs : List SnapshotRecord)
      → All (IsStale board target) rs
      → All
          (IsHarmless y board target bytes tail (row_of y board target d) refl refl)
          (drop_stale board rs)
  unfolding drop_stale
  drop_stale-IsHarmless [] a = tt
  drop_stale-IsHarmless (r ∷ rs) ((k, l), a) = (
    ne→false r.storage_key key (older_key board target r k l),
    ((refl, l), drop_stale-IsHarmless rs a),
  )

  older-IsStale :
      All
        (IsStale board target)
        (older board target (perform (prunes board target) recorded).catalog)
  unfolding older perform record_row
  older-IsStale = filterb-IsStale board target (rows board recorded.catalog) (
      subst (λ o. All (IsKeyed board) (or_nil o)) (sym (get-put_self board _ s.catalog))
        (All-append (IsKeyed board) (rows board s.catalog) (row_of y board target d) sound.keyed
          refl))

  put_only-loaded :
      (n : ℕ) → loaded y board (perform_all (take n (puts key bytes ∷ [])) s) ≡ loaded y board s
  unfolding perform_all
  put_only-loaded zero = refl
  put_only-loaded (suc zero) = put-loaded
  put_only-loaded (suc (suc n)) = put-loaded

  -- A document that reads back as itself, where the board loaded it with the rest of the log.
  module _ (restored : y.apply_update y.new_doc bytes ≡ d)
      (before : loaded y board s ≡ some (apply_all y d tail)) where
    abbrev cleanup : List Effect
    cleanup =
        prunes board target
        ∷ drop_stale board (older board target (perform (prunes board target) recorded).catalog)

    cleanup-loaded :
        (n : ℕ) → loaded y board (perform_all (take n cleanup) recorded) ≡ loaded y board s
    cleanup-loaded n =
        let f =
          run-IsFolded y board target bytes tail (row_of y board target d) refl refl n cleanup
            recorded ((refl, refl), drop_stale-IsHarmless _ older-IsStale) recorded-IsFolded in
        IsFolded-loaded y board target bytes tail (row_of y board target d) refl refl _ f
        ∙ (ap (λ e. some (apply_all y e tail)) restored ∙ sym before)

    whole-loaded :
        (n : ℕ)
        → loaded y board (
            perform_all
              (take n (puts key bytes ∷ records board (row_of y board target d) ∷ cleanup))
              s)
          ≡ loaded y board s
    unfolding perform_all
    whole-loaded zero = refl
    whole-loaded (suc zero) = put-loaded
    whole-loaded (suc (suc n)) = cleanup-loaded n

  pub write-loaded :
      (n : ℕ)
      → (y.has_pending_structs d ≡ false → y.apply_update y.new_doc bytes ≡ d)
      → loaded y board s ≡ some (apply_all y d tail)
      → loaded y board (perform_all (take n (write y board target d s).1) s) ≡ loaded y board s
  unfolding write finish
  write-loaded n restores before =
      let P : Outcome × List Effect → Type 0 =
        λ o. loaded y board (perform_all (take n o.1) s) ≡ loaded y board s in
      if_split P (y.has_pending_structs d) (λ _. unwritten-loaded y board s n)
        λ whole.
          if_split P (not (reads_back y (get key stored.objects) d)) (λ _. put_only-loaded n)
            λ _. whole-loaded (restores whole) before n
