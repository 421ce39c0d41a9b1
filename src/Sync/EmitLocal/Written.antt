-- ===== src/Sync/EmitLocal/Written.antt =====
-- Runs of the scheduler: what is pushed arrives in the document, and a queue has its timer.
use hamboom.Base.{
  ◌≡◌, refl, sym, ap, ◌∙◌, true, not, ◌||◌, String, Option, none, List, [], ◌∷◌, if_both, if_split,
  is_some, ◌⊎◌, inl, inr,
}
use hamboom.Base.Dict.{get}
use hamboom.Sync.EmitLocal.{
  local_user, EmitSink, Mode, gesture, is_named, EmitSchedulerOptions, Changes, Emit, flush,
  set_timer, schedule, enqueue, are_known, push_deleting, push,
}
use hamboom.Sync.EmitLocal.Merged.{changed, Writes, over, IsQueue, seen}
use hamboom.Sync.EmitLocal.Kept.{empty-IsQueue, flush-empty, Keeps, flush-Keeps, Makes, push-Makes}

module _ (S : EmitSink) where
  -- `fires` is the timer, or a call of `flush` or `dispose`.
  pub data Event : Type 0 where
    pushes : Changes S → Event
    fires : Event

  abbrev pub new_emit : S.Doc → Emit S
  new_emit doc = record {
    pending = [];
    pending_gesture = none;
    pending_origin = local_user;
    mode = gesture;
    timer = none;
    document = doc;
  }

  module _ (options : EmitSchedulerOptions) where
    unfoldable pub run : List Event → Emit S → Emit S
    unfolding push flush
    run [] s = s
    run (pushes c ∷ rest) s = run rest (push S options c s)
    run (fires ∷ rest) s = run rest (flush S s)

    -- No element waits without a timer that will write it.
    abbrev pub IsArmed : Emit S → Type 0
    IsArmed s = (s.pending ≡ []) ⊎ (is_some s.timer ≡ true)

    set_timer-armed : (m : Mode) (s : Emit S) → is_some (set_timer S options m s).timer ≡ true
    unfolding set_timer
    set_timer-armed m s =
        if_split (λ (t : Emit S). is_some t.timer ≡ true) (is_some s.timer) (λ set. set) (λ _. refl)

    deleting-IsArmed :
        (ids : List String) (c : Changes S) (s : Emit S) → IsArmed (push_deleting S options ids c s)
    unfolding push_deleting enqueue schedule
    deleting-IsArmed (id ∷ ids) c s = inl (flush-empty S s)
    deleting-IsArmed [] c s =
        if_both IsArmed
          (not (are_known S options s.document c.upserted) || not (is_named c.gesture_id))
          (inl (flush-empty S s)) (inr (set_timer-armed _ _))

    run-IsArmed_from : (events : List Event) (s : Emit S) → IsArmed s → IsArmed (run events s)
    unfolding run push
    run-IsArmed_from [] s h = h
    run-IsArmed_from (pushes c ∷ rest) s h =
        run-IsArmed_from rest _ (deleting-IsArmed c.deleted c s)
    run-IsArmed_from (fires ∷ rest) s h = run-IsArmed_from rest _ (inl (flush-empty S s))

    -- Whatever is pushed and whenever the timer fires: as long as elements wait in the queue, the
    -- timer that will write them is set.
    pub run-IsArmed : (events : List Event) (doc : S.Doc) → IsArmed (run events (new_emit doc))
    run-IsArmed events doc = run-IsArmed_from events (new_emit doc) (inl refl)

    module _ (W : Writes S) where
      -- What the pushed changes make of the element with the id `k`, one after the other.
      unfoldable pub intended : String → List Event → Option S.Element → Option S.Element
      intended k [] o = o
      intended k (pushes c ∷ rest) o = intended k rest (changed S W.erase k c o)
      intended k (fires ∷ rest) o = intended k rest o

      run-seen :
          (k : String) (events : List Event) (s : Emit S)
          → IsQueue S s.pending
          → seen S W k (flush S (run events s)) ≡ intended k events (seen S W k s)
      unfolding run intended
      run-seen k [] s q = (flush-Keeps S W s q).same k
      run-seen k (pushes c ∷ rest) s q =
          let h : Makes S W options c s (push S options c s) = push-Makes S W options c s q in
          run-seen k rest (push S options c s) h.queue ∙ ap (intended k rest) (h.made k)
      run-seen k (fires ∷ rest) s q =
          let h : Keeps S W s (flush S s) = flush-Keeps S W s q in
          run-seen k rest (flush S s) h.queue ∙ ap (intended k rest) (h.same k)

      -- Queueing and merging lose nothing: whatever is pushed and whenever the timer fires, after
      -- the last flush each element of the document is what the pushed changes make of it one after
      -- the other, for a sink that writes the change that it is given.
      pub flush-run :
          (k : String) (events : List Event) (doc : S.Doc)
          → W.find k (flush S (run events (new_emit doc))).document
            ≡ intended k events (W.find k doc)
      unfolding get
      flush-run k events doc =
          sym (
            ap (λ p. over S (get k p) (W.find k (flush S (run events (new_emit doc))).document))
              (flush-empty S (run events (new_emit doc))))
          ∙ run-seen k events (new_emit doc) (empty-IsQueue S W)
