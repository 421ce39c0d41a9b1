-- ===== src/Sync/EmitLocal/Merged.antt =====
-- Merging by element changes nothing: the document with the queue laid over it is the document that
-- would have come of writing each change at once.
use hamboom.Base.{
  ◌≡◌, refl, sym, ap, ◌∙◌, Bool, true, false, String, Option, none, some, List, [], ◌∷◌, ◌===◌,
  if◌then◌else◌, if_both, All, Bool-cases, inl, inr, eq_iff,
}
use hamboom.Base.Dict.{Dict, get, put, get-put, IsDistinct, put-IsDistinct}
use hamboom.Sync.EmitLocal.{EmitSink, Changes, Emit, put_all, values, write_pending}

module _ (S : EmitSink) where
  -- The last of the elements with the id `k`, or else `o`.
  unfoldable pub upserted : String → List S.Element → Option S.Element → Option S.Element
  upserted k [] o = o
  upserted k (e ∷ es) o = upserted k es (if S.id e === k then some e else o)

  -- A deletion leaves a mark on the element.
  unfoldable pub erased :
      (S.Element → S.Element) → String → List String → Option S.Element → Option S.Element
  erased erase k [] none = none
  erased erase k [] (some e) = some e
  erased erase k (id ∷ ids) none = none
  erased erase k (id ∷ ids) (some e) = erased erase k ids (some (if id === k then erase e else e))

  -- What a change makes of the element with the id `k`.
  abbrev pub changed :
      (S.Element → S.Element) → String → Changes S → Option S.Element → Option S.Element
  changed erase k c o = erased erase k c.deleted (upserted k c.upserted o)

  -- What the scheduler relies on: the sink writes the change that it is given.
  pub record Writes : Type 0 where
    pub find : String → S.Doc → Option S.Element
    pub erase : S.Element → S.Element
    pub found :
        (k : String) (c : Changes S) (doc : S.Doc)
        → find k (S.commit c doc) ≡ changed erase k c (find k doc)

  abbrev pub over : Option S.Element → Option S.Element → Option S.Element
  over none o = o
  over (some e) o = some e

  -- The queue has each element under its id, once.
  pub record IsQueue (pending : Dict S.Element) : Type 0 where
    pub keyed : All (λ entry. S.id entry.1 ≡ entry.0) pending
    pub distinct : IsDistinct pending

  over-if :
      (b : Bool) (e : S.Element) (p o : Option S.Element)
      → over (if b then some e else p) o ≡ (if b then some e else over p o)
  over-if true e p o = refl
  over-if false e p o = refl

  pub put_all-over :
      (k : String) (es : List S.Element) (p : Dict S.Element) (o : Option S.Element)
      → over (get k (put_all S es p)) o ≡ upserted k es (over (get k p) o)
  unfolding put_all upserted
  put_all-over k [] p o = refl
  put_all-over k (e ∷ es) p o =
      put_all-over k es (put (S.id e) e p) o
      ∙ ap (upserted k es)
          (ap (λ x. over x o) (get-put (S.id e) k e p) ∙ over-if (S.id e === k) e (get k p) o)

  one_over :
      (k j : String) (e : S.Element) (m : Dict S.Element) (o : Option S.Element)
      → S.id e ≡ j
      → get j m ≡ none
      → over (get k m) (if S.id e === k then some e else o)
        ≡ over (if j === k then some e else get k m) o
  one_over k j e m o keyed absent = elim (Bool-cases (j === k)) [
    | inl same ↦
        let here : get k m ≡ none = ap (λ i. get i m) (sym ((eq_iff j k).0 same)) ∙ absent in
        let test : (S.id e === k) ≡ true = ap (λ i. i === k) keyed ∙ same in
        rw here (rw test (rw same refl))
    | inr other ↦
        let test : (S.id e === k) ≡ false = ap (λ i. i === k) keyed ∙ other in
        rw test (rw other refl)
  ]

  values-over :
      (k : String) (p : Dict S.Element) (o : Option S.Element)
      → IsQueue p
      → upserted k (values S p) o ≡ over (get k p) o
  unfolding upserted get
  values-over k [] o q = refl
  values-over k ((j, e) ∷ m) o q =
      let rest : IsQueue m = record { keyed = q.keyed.1; distinct = q.distinct.1 } in
      values-over k m (if S.id e === k then some e else o) rest
      ∙ one_over k j e m o q.keyed.0 q.distinct.0

  put-keyed :
      (e : S.Element) (p : Dict S.Element)
      → All (λ entry. S.id entry.1 ≡ entry.0) p
      → All (λ entry. S.id entry.1 ≡ entry.0) (put (S.id e) e p)
  unfolding put
  put-keyed e [] h = (refl, tt)
  put-keyed e ((j, f) ∷ m) h =
      if_both (All (λ (entry : String × S.Element). S.id entry.1 ≡ entry.0)) (j === S.id e)
        (refl, h.1) (h.0, put-keyed e m h.1)

  pub put_all-IsQueue :
      (es : List S.Element) (p : Dict S.Element) → IsQueue p → IsQueue (put_all S es p)
  unfolding put_all
  put_all-IsQueue [] p q = q
  put_all-IsQueue (e ∷ es) p q =
      put_all-IsQueue es (put (S.id e) e p) (record {
        keyed = put-keyed e p q.keyed;
        distinct = put-IsDistinct (S.id e) e p q.distinct;
      })

  pub erased-none :
      (erase : S.Element → S.Element) (k : String) (o : Option S.Element) → erased erase k [] o ≡ o
  unfolding erased
  erased-none erase k none = refl
  erased-none erase k (some a) = refl

  module _ (W : Writes) where
    -- The element with the id `k` as the user left it.
    abbrev pub seen : String → Emit S → Option S.Element
    seen k s = over (get k s.pending) (W.find k s.document)

    pub write_pending-seen :
        (k : String) (p : Dict S.Element) (s : Emit S)
        → s.pending ≡ p
        → IsQueue p
        → seen k (write_pending S p s) ≡ over (get k p) (W.find k s.document)
    unfolding write_pending get
    write_pending-seen k [] s e q = rw e refl
    write_pending-seen k (x ∷ rest) s e q =
        W.found k _ s.document
        ∙ erased-none W.erase k (upserted k (values S (x ∷ rest)) (W.find k s.document))
        ∙ values-over k (x ∷ rest) (W.find k s.document) q
