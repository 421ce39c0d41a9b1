-- ===== src/Realtime/Compactor/Fold.antt =====
-- The newest row of a catalog, and a log split at a sequence number.
use hamboom.Base.{
  ge→ltb, leb→le, lt→ltb, refl, lt→ltb, ℕ, ◌≤◌, ◌<◌, ◌≡◌, inl, inr, refl, ap, subst, true, false,
  ◌&&◌, Option, none, some, List, [], ◌∷◌, ◌++◌, filterb, leb, ltb, All, arith, Bool-cases,
  if_split, if_both,
}
use hamboom.Realtime.Stores.{Bytes, Entry, within, payloads, SnapshotRecord, top_of, top_row}
use hamboom.Realtime.Compactor.{Yjs, apply_all, from_seq}

module _ (y : Yjs) where
  pub apply_all-append :
      (d : y.Doc) (us vs : List Bytes)
      → apply_all y (apply_all y d us) vs ≡ apply_all y d (us ++ vs)
  unfolding apply_all
  apply_all-append d [] vs = refl
  apply_all-append d (u ∷ us) vs = apply_all-append (y.apply_update d u) us vs

-- Sequence numbers that rise, all above the first one given.
abbrev pub IsRising : ℕ → List Entry → Type 0
IsRising low [] = Unit
IsRising low (e ∷ es) = (low < e.seq) × IsRising e.seq es

after_all :
    (low a : ℕ) (es : List Entry) → IsRising low es → a ≤ low → filterb (within a none) es ≡ es
after_all low a [] r h = refl
after_all low a (e ∷ es) (l, r) h =
    if_split (λ xs. xs ≡ e ∷ es) (ltb a e.seq)
      (λ _. ap (λ xs. e ∷ xs) (after_all e.seq a es r (omega (arith, l, h)))) (λ left. ground arith)

none_upto :
    (low a t : ℕ) (es : List Entry)
    → IsRising low es
    → t ≤ low
    → filterb (within a (some t)) es ≡ []
none_upto low a t [] r h = refl
none_upto low a t (e ∷ es) (l, r) h =
    if_split (λ xs. xs ≡ []) (ltb a e.seq && leb e.seq t) (λ kept. ground arith)
      (λ _. none_upto e.seq a t es r (omega (arith, l, h)))

after_t :
    (a t : ℕ) (e : Entry) (es : List Entry)
    → IsRising e.seq es
    → t < e.seq
    → a ≤ t
    → leb e.seq t ≡ false
    → payloads (filterb (within a (some t)) (e ∷ es)) ++ payloads (filterb (within t none) (e ∷ es))
      ≡ payloads (filterb (within a none) (e ∷ es))
after_t a t e es r l h late = rw (lt→ltb a e.seq (omega (arith, l, h))) (
    rw late (
      rw (lt→ltb t e.seq l) (
        rw (none_upto e.seq a t es r (omega (arith, l))) (
          rw (after_all e.seq t es r (omega (arith, l)))
            (rw (after_all e.seq a es r (omega (arith, l, h))) refl)))))

-- What is folded up to t, then what comes after t, is what comes after a.
pub split_at :
    (low a t : ℕ) (es : List Entry)
    → IsRising low es
    → a ≤ t
    → payloads (filterb (within a (some t)) es) ++ payloads (filterb (within t none) es)
      ≡ payloads (filterb (within a none) es)
split_at low a t [] r h = refl
split_at low a t (e ∷ es) (l, r) h = elim (Bool-cases (leb e.seq t)) [
  | inl below ↦
      let gone : ltb t e.seq ≡ false = ge→ltb t e.seq (leb→le e.seq t below) in
      let rest = split_at e.seq a t es r h in
      elim (Bool-cases (ltb a e.seq)) [
        | inl above ↦ rw above (rw below (rw gone (ap (λ us. e.payload ∷ us) rest)))
        | inr old ↦ rw old (rw gone rest)
      ]
  | inr late ↦ after_t a t e es r (ground arith) h late
]

pub filter_twice :
    (t : ℕ) (es : List Entry)
    → filterb (within t none) (filterb (λ e. ltb t e.seq) es) ≡ filterb (within t none) es
filter_twice t [] = refl
filter_twice t (e ∷ es) = elim (Bool-cases (ltb t e.seq)) [
  | inl kept ↦ rw kept (rw kept (ap (λ xs. e ∷ xs) (filter_twice t es)))
  | inr left ↦ rw left (filter_twice t es)
]

-- A predicate of all rows holds of the newest.
abbrev pub AtTop : (SnapshotRecord → Type 0) → Option SnapshotRecord → Type 0
AtTop P none = Unit
AtTop P (some row) = P row

pub top_row-All :
    (P : SnapshotRecord → Type 0) (top : Option SnapshotRecord) (rs : List SnapshotRecord)
    → AtTop P top
    → All P rs
    → AtTop P (top_row top rs)
unfolding top_row top_of
top_row-All P top [] p a = p
top_row-All P none (r ∷ rs) p (q, a) = top_row-All P (some r) rs q a
top_row-All P (some t) (r ∷ rs) p (q, a) =
    top_row-All P _ rs (if_both (AtTop P) (ltb t.seq_upto r.seq_upto) q p) a

-- No row is newer than the newest.
abbrev pub IsBelow : ℕ → SnapshotRecord → Type 0
IsBelow n row = row.seq_upto < n

top-le :
    (top : Option SnapshotRecord) (rs : List SnapshotRecord)
    → from_seq top ≤ from_seq (top_row top rs)
unfolding top_row top_of
top-le top [] = omega arith
top-le none (r ∷ rs) = omega arith
top-le (some t) (r ∷ rs) = elim (Bool-cases (ltb t.seq_upto r.seq_upto)) [
  | inl e ↦ rw e (let h = top-le (some r) rs in ground (arith, h, e))
  | inr e ↦ rw e (top-le (some t) rs)
]

new_top : (t r : SnapshotRecord) → ltb t.seq_upto r.seq_upto ≡ true → top_of (some t) r ≡ some r
unfolding top_of
new_top t r e = rw e refl

kept_top : (t r : SnapshotRecord) → ltb t.seq_upto r.seq_upto ≡ false → top_of (some t) r ≡ some t
unfolding top_of
kept_top t r e = rw e refl

pub top_row-IsBelow :
    (n : ℕ) (top : Option SnapshotRecord) (rs : List SnapshotRecord)
    → from_seq (top_row top rs) < n
    → All (IsBelow n) rs
unfolding top_row top_of
top_row-IsBelow n top [] h = tt
top_row-IsBelow n none (r ∷ rs) h =
    (let l = top-le (some r) rs in omega (arith, l, h), top_row-IsBelow n (some r) rs h)
top_row-IsBelow n (some t) (r ∷ rs) h = elim (Bool-cases (ltb t.seq_upto r.seq_upto)) [
  | inl e ↦
      let g : from_seq (top_row (some r) rs) < n =
        subst (λ o. from_seq (top_row o rs) < n) (new_top t r e) h in
      ((let l = top-le (some r) rs in omega (arith, l, g)), top_row-IsBelow n (some r) rs g)
  | inr e ↦
      let g : from_seq (top_row (some t) rs) < n =
        subst (λ o. from_seq (top_row o rs) < n) (kept_top t r e) h in
      ((let l = top-le (some t) rs in ground (arith, l, g)), top_row-IsBelow n (some t) rs g)
]

-- A row above all others, added last, is the newest.
pub top_row-last :
    (row : SnapshotRecord) (top : Option SnapshotRecord) (rs : List SnapshotRecord)
    → AtTop (IsBelow row.seq_upto) top
    → All (IsBelow row.seq_upto) rs
    → top_row top (rs ++ (row ∷ [])) ≡ some row
unfolding top_row top_of
top_row-last row none [] p a = refl
top_row-last row (some t) [] p a = rw (lt→ltb t.seq_upto row.seq_upto p) refl
top_row-last row none (r ∷ rs) p (q, a) = top_row-last row (some r) rs q a
top_row-last row (some t) (r ∷ rs) p (q, a) =
    top_row-last row _ rs (if_both (AtTop (IsBelow row.seq_upto)) (ltb t.seq_upto r.seq_upto) q p) a
