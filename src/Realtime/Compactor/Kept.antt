-- ===== src/Realtime/Compactor/Kept.antt =====
-- What every append and every write of a compaction keeps of a board's stores.
use hamboom.Base.{
  ℕ, zero, suc, ◌≤◌, ◌<◌, ◌≡◌, sym, refl, ap, subst, Bool, not, String, Option, none, some, List,
  [], ◌∷◌, ◌++◌, filterb, ltb, leb, ◌==◌, All, arith, if_both,
}
use hamboom.Base.Dict.{get, put, get-put_self}
use hamboom.Realtime.Keys.{snapshot_key}
use hamboom.Realtime.Stores.{
  Bytes, Entry, entries, SnapshotRecord, rows, or_nil, Stores, prune, latest_seq, record_row,
  forget, latest,
}
use hamboom.Realtime.Compactor.{
  unwritten, Yjs, Effect, puts, records, prunes, deletes, forgets, perform, perform_all, Outcome,
  write, finish, drop_stale, compact, compact_from, compact_over, from_seq, reads_back,
}
use hamboom.Realtime.Compactor.Fold.{IsRising}
use hamboom.Realtime.Compactor.Folded.{take, IsKeyed, IsSound}

module _ {ℓ κ} {A : Type ℓ} (P : A → Type κ) where
  filterb-All : (p : A → Bool) (xs : List A) → All P xs → All P (filterb p xs)
  filterb-All p [] a = tt
  filterb-All p (x ∷ xs) (h, a) = if_both (All P) (p x) (h, filterb-All p xs a) (filterb-All p xs a)

  pub last-All : (xs : List A) (x : A) → All P xs → P x → All P (xs ++ (x ∷ []))
  last-All [] x a h = (h, tt)
  last-All (z ∷ xs) x (g, a) h = (g, last-All xs x a h)

lower : (low high : ℕ) (es : List Entry) → low ≤ high → IsRising high es → IsRising low es
lower low high [] h r = tt
lower low high (e ∷ es) h (l, r) = (omega (arith, h, l), r)

filterb-IsRising :
    (p : Entry → Bool) (low : ℕ) (es : List Entry) → IsRising low es → IsRising low (filterb p es)
filterb-IsRising p low [] r = tt
filterb-IsRising p low (e ∷ es) (l, r) =
    if_both (IsRising low) (p e) (l, filterb-IsRising p e.seq es r)
      (filterb-IsRising p low es (lower low e.seq es (omega (arith, l)) r))

pub last-IsRising :
    (low top : ℕ) (es : List Entry) (e : Entry)
    → low < e.seq
    → IsRising low es
    → All (λ x. x.seq ≤ top) es
    → top < e.seq
    → IsRising low (es ++ (e ∷ []))
last-IsRising low top [] e b r a l = (b, tt)
last-IsRising low top (x ∷ es) e b (h, r) (g, a) l =
    (h, last-IsRising x.seq top es e (omega (arith, g, l)) r a l)

-- The log rises up to the board's high water, snapshots lie under the keys of their rows, and none
-- covers more than was logged.
pub record IsKept (board : String) (top : ℕ) (s : Stores) : Type 0 where
  pub mark : latest_seq board s.log ≡ top
  pub rising : IsRising 0 (entries board s.log)
  pub logged : All (λ e. e.seq ≤ top) (entries board s.log)
  pub keyed : All (IsKeyed board) (rows board s.catalog)
  pub covered : All (λ row. row.seq_upto ≤ top) (rows board s.catalog)

pub IsKept-IsSound : (board : String) (top : ℕ) (s : Stores) → IsKept board top s → IsSound board s
IsKept-IsSound board top s k = record { rising = k.rising; keyed = k.keyed }

module _ (board : String) (top : ℕ) where
  -- An effect on this board whose row, if it has one, is right.
  abbrev IsLawful : Effect → Type 0
  IsLawful (puts key bytes) = Unit {0}
  IsLawful (records b row) = (b ≡ board) × IsKeyed board row × (row.seq_upto ≤ top)
  IsLawful (prunes b upto) = b ≡ board
  IsLawful (deletes key) = Unit {0}
  IsLawful (forgets b seq) = b ≡ board

  rows-IsKept :
      (xs : List SnapshotRecord) (s : Stores)
      → IsKept board top s
      → All (IsKeyed board) xs
      → All (λ row. row.seq_upto ≤ top) xs
      → IsKept board top (record s { catalog = put board xs s.catalog })
  rows-IsKept xs s k keyed covered =
      let e = ap or_nil (get-put_self board xs s.catalog) in
      record {
        mark = k.mark;
        rising = k.rising;
        logged = k.logged;
        keyed = subst (All (IsKeyed board)) (sym e) keyed;
        covered = subst (All (λ row. row.seq_upto ≤ top)) (sym e) covered;
      }

  entries-IsKept :
      (p : Entry → Bool) (s : Stores)
      → IsKept board top s
      → IsKept board top (record s {
        log = record s.log { logs = put board (filterb p (entries board s.log)) s.log.logs };
      })
  unfolding latest_seq
  entries-IsKept p s k =
      let e = ap or_nil (get-put_self board (filterb p (entries board s.log)) s.log.logs) in
      record {
        mark = k.mark;
        rising = subst (IsRising 0) (sym e) (filterb-IsRising p 0 (entries board s.log) k.rising);
        logged = subst (All (λ e. e.seq ≤ top)) (sym e) (filterb-All _ p _ k.logged);
        keyed = k.keyed;
        covered = k.covered;
      }

  perform-IsKept :
      (e : Effect) (s : Stores) → IsLawful e → IsKept board top s → IsKept board top (perform e s)
  unfolding perform record_row forget prune
  perform-IsKept (puts key bytes) s h k = record {
    mark = k.mark;
    rising = k.rising;
    logged = k.logged;
    keyed = k.keyed;
    covered = k.covered;
  }
  perform-IsKept (deletes key) s h k = record {
    mark = k.mark;
    rising = k.rising;
    logged = k.logged;
    keyed = k.keyed;
    covered = k.covered;
  }
  perform-IsKept (records b row) s (same, keyed, covered) k = rw same (
      rows-IsKept (rows board s.catalog ++ (row ∷ [])) s k
        (last-All _ (rows board s.catalog) row k.keyed keyed)
        (last-All _ (rows board s.catalog) row k.covered covered))
  perform-IsKept (prunes b upto) s same k = rw same (entries-IsKept (λ e. ltb upto e.seq) s k)
  perform-IsKept (forgets b seq) s same k = rw same (
      rows-IsKept (filterb (λ row. not (row.seq_upto == seq)) (rows board s.catalog)) s k
        (filterb-All _ _ _ k.keyed) (filterb-All _ _ _ k.covered))

  perform_all-IsKept :
      (n : ℕ) (es : List Effect) (s : Stores)
      → All IsLawful es
      → IsKept board top s
      → IsKept board top (perform_all (take n es) s)
  unfolding perform_all
  perform_all-IsKept zero es s a k = k
  perform_all-IsKept (suc n) [] s a k = k
  perform_all-IsKept (suc n) (e ∷ es) s (h, a) k =
      perform_all-IsKept n es (perform e s) a (perform-IsKept e s h k)

  drop_stale-IsLawful : (rs : List SnapshotRecord) → All IsLawful (drop_stale board rs)
  unfolding drop_stale
  drop_stale-IsLawful [] = tt
  drop_stale-IsLawful (r ∷ rs) = (tt, (refl, drop_stale-IsLawful rs))

  module _ (y : Yjs) (target : ℕ) (s : Stores) (within_log : target ≤ top) where
    abbrev AreLawful : Outcome × List Effect → Type 0
    AreLawful o = All IsLawful o.1

    finish-IsLawful : (d : y.Doc) (s : Stores) → AreLawful (finish y board target d s)
    unfolding finish
    finish-IsLawful d s = ((refl, refl, within_log), (refl, drop_stale-IsLawful _))

    write-IsLawful : (d : y.Doc) → AreLawful (write y board target d s)
    unfolding write finish
    write-IsLawful d =
        let put_ : Effect = puts (snapshot_key board target) (y.encode_state_as_update d) in
        let rest : Outcome × List Effect = finish y board target d (perform put_ s) in
        if_both AreLawful (y.has_pending_structs d) tt (
          if_both AreLawful
            (not (reads_back y (get (snapshot_key board target) (perform put_ s).objects) d))
            {x = (unwritten, put_ ∷ [])} {y = (rest.0, put_ ∷ rest.1)} (tt, tt)
            (tt, finish-IsLawful d (perform put_ s)))

    over-IsLawful :
        (row : SnapshotRecord) (o : Option Bytes) → AreLawful (compact_over y row o board target s)
    unfolding compact_over
    over-IsLawful row none = tt
    over-IsLawful row (some base) = write-IsLawful _

    from-IsLawful : (o : Option SnapshotRecord) → AreLawful (compact_from y o board target s)
    unfolding compact_from
    from-IsLawful none = write-IsLawful _
    from-IsLawful (some row) = over-IsLawful row _

    pub compact-IsKept :
        (n : ℕ)
        → IsKept board top s
        → IsKept board top (perform_all (take n (compact y board target s).1) s)
    unfolding compact
    compact-IsKept n k =
        perform_all-IsKept n _ s
          (if_both AreLawful (leb target (from_seq (latest board s.catalog))) tt
            (from-IsLawful (latest board s.catalog)))
          k
