-- ===== src/Realtime/Compactor/Folded.antt =====
-- The stores from the moment that the new snapshot is in the catalog: whatever is cleaned up after
-- that, they load the snapshot and the updates that follow it.
use hamboom.Base.{
  ℕ, zero, suc, ◌<◌, ◌≡◌, ◌∙◌, inl, inr, sym, refl, ap, subst, Bool, false, not, String, Option,
  none, some, List, [], ◌∷◌, ◌++◌, filterb, ltb, ◌==◌, ◌===◌, All, arith, Bool-cases, if_split,
  if_both,
}
use hamboom.Base.Dict.{Dict, get, get-put_self, get-remove}
use hamboom.Realtime.Keys.{snapshot_key}
use hamboom.Realtime.Stores.{
  Bytes, UpdateLog, entries, payloads, SnapshotRecord, rows, Stores, BoardSnapshot, since, prune,
  latest, forget, load, load_from, load_found, top_row,
}
use hamboom.Realtime.Compactor.{
  Yjs, apply_all, document, Effect, puts, records, prunes, deletes, forgets, perform, perform_all,
}
use hamboom.Realtime.Compactor.Fold.{IsRising, filter_twice, IsBelow, top_row-last}

-- The first n entries.
abbrev pub take {ℓ} : {A : Type ℓ} → ℕ → List A → List A
take zero xs = []
take (suc n) [] = []
take (suc n) (x ∷ xs) = x ∷ take n xs

abbrev pub IsKeyed : String → SnapshotRecord → Type 0
IsKeyed board row = row.storage_key ≡ snapshot_key board row.seq_upto

-- What holds of a board's stores: the log rises, and every snapshot lies under the key of its row.
pub record IsSound (board : String) (s : Stores) : Type 0 where
  pub rising : IsRising 0 (entries board s.log)
  pub keyed : All (IsKeyed board) (rows board s.catalog)

module _ (y : Yjs) (board : String) where
  abbrev pub doc_of : Option BoardSnapshot → Option y.Doc
  doc_of none = none
  doc_of (some b) = some (document y b)

  -- The document that a room loads; none is the error of a missing snapshot.
  unfoldable pub loaded : Stores → Option y.Doc
  loaded s = doc_of (load board s)

  pub loaded_row :
      (log : UpdateLog) (objects : Dict Bytes) (row : SnapshotRecord) (bytes : Bytes)
      → get row.storage_key objects ≡ some bytes
      → doc_of (load_from board log (some row) objects)
        ≡ some (apply_all y (y.apply_update y.new_doc bytes) (since board row.seq_upto none log))
  unfolding load_from load_found document
  loaded_row log objects row bytes e = ap (λ o. doc_of (load_found board log row o)) e

  module _ (target : ℕ) (bytes : Bytes) (tail : List Bytes) (row : SnapshotRecord)
      (at_target : row.seq_upto ≡ target)
      (at_key : row.storage_key ≡ snapshot_key board target) where
    -- The stores once the new row is in the catalog: it is the newest, its snapshot is there, and
    -- the log still has all that comes after it.
    pub record IsFolded (s : Stores) : Type 0 where
      pub olds : List SnapshotRecord
      pub listed : rows board s.catalog ≡ olds ++ (row ∷ [])
      pub below : All (IsBelow target) olds
      pub stored : get (snapshot_key board target) s.objects ≡ some bytes
      pub rest : since board target none s.log ≡ tail

    -- An effect that leaves this so.
    abbrev pub IsHarmless : Effect → Type 0
    IsHarmless (puts key b) = ⊥
    IsHarmless (records b r) = ⊥
    IsHarmless (prunes b upto) = (b ≡ board) × (upto ≡ target)
    IsHarmless (deletes key) = (key === snapshot_key board target) ≡ false
    IsHarmless (forgets b seq) = (b ≡ board) × (seq < target)

    since-prune :
        (log : UpdateLog)
        → since board target none (prune board target log).1 ≡ since board target none log
    unfolding since prune
    since-prune log =
        rw (get-put_self board (filterb (λ e. ltb target e.seq) (entries board log)) log.logs)
          (ap payloads (filter_twice target (entries board log)))

    forget_last :
        (seq : ℕ) (olds : List SnapshotRecord)
        → seq < target
        → filterb (λ r. not (r.seq_upto == seq)) (olds ++ (row ∷ []))
          ≡ filterb (λ r. not (r.seq_upto == seq)) olds ++ (row ∷ [])
    forget_last seq [] l =
        if_split (λ xs. xs ≡ row ∷ []) (not (row.seq_upto == seq)) (λ _. refl)
          (λ e. ground (arith, e, at_target, l))
    forget_last seq (r ∷ olds) l = elim (Bool-cases (r.seq_upto == seq)) [
      | inl e ↦ rw e (forget_last seq olds l)
      | inr e ↦ rw e (ap (λ xs. r ∷ xs) (forget_last seq olds l))
    ]

    filter-All :
        (p : SnapshotRecord → Bool) (rs : List SnapshotRecord)
        → All (IsBelow target) rs
        → All (IsBelow target) (filterb p rs)
    filter-All p [] a = tt
    filter-All p (r ∷ rs) (b, a) =
        if_both (All (IsBelow target)) (p r) (b, filter-All p rs a) (filter-All p rs a)

    step-IsFolded : (e : Effect) (s : Stores) → IsHarmless e → IsFolded s → IsFolded (perform e s)
    unfolding perform forget
    step-IsFolded (puts key b) s h f = absurd h
    step-IsFolded (records b r) s h f = absurd h
    step-IsFolded (prunes b upto) s (p, q) f = record {
      olds = f.olds;
      listed = f.listed;
      below = f.below;
      stored = f.stored;
      rest = rw p (rw q (since-prune s.log ∙ f.rest));
    }
    step-IsFolded (deletes key) s other f = record {
      olds = f.olds;
      listed = f.listed;
      below = f.below;
      stored = rw (get-remove key (snapshot_key board target) s.objects) (rw other f.stored);
      rest = f.rest;
    }
    step-IsFolded (forgets b seq) s (p, q) f = record {
      olds = filterb (λ r. not (r.seq_upto == seq)) f.olds;
      listed = rw p (
          rw
            (get-put_self board (filterb (λ r. not (r.seq_upto == seq)) (rows board s.catalog))
              s.catalog)
            (ap (filterb (λ r. not (r.seq_upto == seq))) f.listed ∙ forget_last seq f.olds q));
      below = filter-All _ f.olds f.below;
      stored = f.stored;
      rest = f.rest;
    }

    pub run-IsFolded :
        (n : ℕ) (es : List Effect) (s : Stores)
        → All IsHarmless es
        → IsFolded s
        → IsFolded (perform_all (take n es) s)
    unfolding perform_all
    run-IsFolded zero es s a f = f
    run-IsFolded (suc n) [] s a f = f
    run-IsFolded (suc n) (e ∷ es) s (h, a) f =
        run-IsFolded n es (perform e s) a (step-IsFolded e s h f)

    newest : (s : Stores) → IsFolded s → latest board s.catalog ≡ some row
    unfolding latest
    newest s f =
        ap (top_row none) f.listed
        ∙ top_row-last row none f.olds tt
            (subst (λ n. All (IsBelow n) f.olds) (sym at_target) f.below)

    -- What such stores load.
    pub IsFolded-loaded :
        (s : Stores)
        → IsFolded s
        → loaded s ≡ some (apply_all y (y.apply_update y.new_doc bytes) tail)
    unfolding loaded load load_from latest document
    IsFolded-loaded s f =
        ap (λ o. doc_of (load_from board s.log o s.objects)) (newest s f)
        ∙ (loaded_row s.log s.objects row bytes (ap (λ k. get k s.objects) at_key ∙ f.stored)
            ∙ ap (λ us. some (apply_all y (y.apply_update y.new_doc bytes) us))
                (ap (λ n. since board n none s.log) at_target ∙ f.rest))
