-- ===== src/Sync/EmitLocal/Kept.antt =====
-- Every operation of the scheduler does to the elements what the changes say.
use hamboom.Base.{
  ◌≡◌, refl, sym, ap, ◌∙◌, not, ◌&&◌, ◌||◌, String, none, List, [], ◌∷◌, if◌then◌else◌, if_both,
  is_some, all, subst,
}
use hamboom.Base.Dict.{Dict, get}
use hamboom.Sync.EmitLocal.{
  EmitSink, Mode, gesture, text, is_text, is_same_mode, is_named, differs, EmitSchedulerOptions,
  Changes, Emit, put_all, write_pending, flush, set_timer, schedule, enqueue, is_text_only,
  are_known, push_deleting, push,
}
use hamboom.Sync.EmitLocal.Merged.{
  upserted, erased, changed, Writes, over, IsQueue, put_all-over, put_all-IsQueue, erased-none,
  seen, write_pending-seen,
}

module _ (S : EmitSink) where
  write_pending-pending :
      (p : Dict S.Element) (s : Emit S) → s.pending ≡ p → (write_pending S p s).pending ≡ []
  unfolding write_pending
  write_pending-pending [] s e = e
  write_pending-pending (x ∷ rest) s e = refl

  pub flush-empty : (s : Emit S) → (flush S s).pending ≡ []
  unfolding flush
  flush-empty s = write_pending-pending s.pending (record s { timer = none }) refl

module _ (S : EmitSink) (W : Writes S) where
  pub empty-IsQueue : IsQueue S []
  empty-IsQueue = record { keyed = tt; distinct = tt }

  -- The queue of `t` is in order, and what the user left is what it was in `s`.
  pub record Keeps (s t : Emit S) : Type 0 where
    pub queue : IsQueue S t.pending
    pub same : (k : String) → seen S W k t ≡ seen S W k s

  pub flush-Keeps : (s : Emit S) → IsQueue S s.pending → Keeps s (flush S s)
  flush-Keeps s q = record {
    queue = subst (IsQueue S) (sym (flush-empty S s)) empty-IsQueue;
    same =
        λ k. unfold flush in write_pending-seen S W k s.pending (record s { timer = none }) refl q;
  }

  module _ (options : EmitSchedulerOptions) where
    set_timer-Keeps : (m : Mode) (s t : Emit S) → Keeps s t → Keeps s (set_timer S options m t)
    unfolding set_timer
    set_timer-Keeps m s t h =
        if_both (Keeps s) (is_some t.timer) h (record { queue = h.queue; same = h.same })

    schedule-Keeps :
        (m : Mode) (s : Emit S) → IsQueue S s.pending → Keeps s (schedule S options m s)
    unfolding schedule
    schedule-Keeps m s q =
        let written : Emit S =
          if is_some s.timer && not (is_same_mode m s.mode) then flush S s else s in
        let h : Keeps s written =
          if_both (Keeps s) (is_some s.timer && not (is_same_mode m s.mode)) (flush-Keeps s q)
            (record { queue = q; same = λ k. refl }) in
        set_timer-Keeps m s _ (
          if_both (Keeps s) (is_text m) (record { queue = h.queue; same = h.same })
            (record { queue = h.queue; same = h.same }))

    -- The same, with a change: the queue is in order and the change is seen.
    pub record Makes (c : Changes S) (s t : Emit S) : Type 0 where
      pub queue : IsQueue S t.pending
      pub made : (k : String) → seen S W k t ≡ changed S W.erase k c (seen S W k s)

    enqueue-Makes :
        (c : Changes S) (s : Emit S)
        → c.deleted ≡ []
        → IsQueue S s.pending
        → Makes c s (enqueue S options c s)
    unfolding enqueue
    enqueue-Makes c s none_deleted q =
        let closed : Emit S = if differs s.pending_gesture c.gesture_id then flush S s else s in
        let h : Keeps s closed =
          if_both (Keeps s) (differs s.pending_gesture c.gesture_id) (flush-Keeps s q)
            (record { queue = q; same = λ k. refl }) in
        let mode : Mode =
          if all (is_text_only S options closed.document) c.upserted then text else gesture in
        let queued : Emit S = record closed {
          pending = put_all S c.upserted closed.pending;
          pending_gesture = c.gesture_id;
          pending_origin = c.origin;
        } in
        let g : Keeps queued (schedule S options mode queued) =
          schedule-Keeps mode queued (put_all-IsQueue S c.upserted closed.pending h.queue) in
        record {
          queue = g.queue;
          made = λ k.
              g.same k
              ∙ put_all-over S k c.upserted closed.pending (W.find k closed.document)
              ∙ ap (upserted S k c.upserted) (h.same k)
              ∙ sym (erased-none S W.erase k (upserted S k c.upserted (seen S W k s)))
              ∙ ap (λ ids. erased S W.erase k ids (upserted S k c.upserted (seen S W k s)))
                  (sym none_deleted);
        }

    -- A change that is written at once, behind what was queued.
    written-Makes :
        (c : Changes S) (s : Emit S)
        → IsQueue S s.pending
        → Makes c s (record (flush S s) { document = S.commit c (flush S s).document })
    unfolding get
    written-Makes c s q =
        let h : Keeps s (flush S s) = flush-Keeps s q in
        record {
          queue = h.queue;
          made = λ k.
              ap (λ p. over S (get k p) (W.find k (S.commit c (flush S s).document)))
                (flush-empty S s)
              ∙ W.found k c (flush S s).document
              ∙ ap (changed S W.erase k c) (
                  sym (ap (λ p. over S (get k p) (W.find k (flush S s).document)) (flush-empty S s))
                  ∙ h.same k);
        }

    deleting-Makes :
        (ids : List String) (c : Changes S) (s : Emit S)
        → c.deleted ≡ ids
        → IsQueue S s.pending
        → Makes c s (push_deleting S options ids c s)
    unfolding push_deleting
    deleting-Makes (id ∷ ids) c s e q = written-Makes c s q
    deleting-Makes [] c s e q =
        if_both (Makes c s)
          (not (are_known S options s.document c.upserted) || not (is_named c.gesture_id))
          (written-Makes c s q) (enqueue-Makes c s e q)

    pub push-Makes :
        (c : Changes S) (s : Emit S) → IsQueue S s.pending → Makes c s (push S options c s)
    unfolding push
    push-Makes c s q = deleting-Makes c.deleted c s refl q
