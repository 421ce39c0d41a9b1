-- ===== src/Sync/EmitLocal/Files.antt =====
-- The files that a queued change refers to.
use hamboom.Base.{◌≡◌, refl, ◌∙◌, true, not, ◌&&◌, none, [], ◌∷◌, if◌then◌else◌, if_both, is_some}
use hamboom.Base.Dict.{Dict}
use hamboom.Sync.EmitLocal.{
  EmitSink, Mode, is_text, is_same_mode, is_named, differs, EmitSchedulerOptions, Changes, Emit,
  put_all, write_pending, flush, set_timer, schedule, enqueue, are_known, push_deleting, push,
}

module _ (S : EmitSink) where
  -- What the document says of files, which only a change that brings some alters.
  pub record Files : Type 1 where
    pub Table : Type 0
    pub files : S.Doc → Table
    pub unaltered :
        (c : Changes S) (doc : S.Doc) → c.assets ≡ [] → files (S.commit c doc) ≡ files doc

  module _ (F : Files) where
    abbrev SameFiles : S.Doc → Emit S → Type 0
    SameFiles doc s = F.files s.document ≡ F.files doc

    write-SameFiles : (p : Dict S.Element) (s : Emit S) → SameFiles s.document (write_pending S p s)
    unfolding write_pending
    write-SameFiles [] s = refl
    write-SameFiles (x ∷ rest) s = F.unaltered _ s.document refl

    flush-SameFiles : (s : Emit S) → SameFiles s.document (flush S s)
    unfolding flush
    flush-SameFiles s = write-SameFiles s.pending (record s { timer = none })

    module _ (options : EmitSchedulerOptions) where
      schedule-SameFiles : (m : Mode) (s : Emit S) → SameFiles s.document (schedule S options m s)
      unfolding schedule set_timer
      schedule-SameFiles m s =
          let P : Emit S → Type 0 = SameFiles s.document in
          let written : Emit S =
            if is_some s.timer && not (is_same_mode m s.mode) then flush S s else s in
          let h : P written =
            if_both P (is_some s.timer && not (is_same_mode m s.mode)) (flush-SameFiles s) refl in
          let moded : Emit S = record written { mode = m } in
          let next : Emit S = if is_text m then record moded { timer = none } else moded in
          let g : P next = if_both P (is_text m) h h in if_both P (is_some next.timer) g g

      enqueue-SameFiles :
          (c : Changes S) (s : Emit S) → SameFiles s.document (enqueue S options c s)
      unfolding enqueue
      enqueue-SameFiles c s =
          let closed : Emit S = if differs s.pending_gesture c.gesture_id then flush S s else s in
          let h : SameFiles s.document closed =
            if_both (SameFiles s.document) (differs s.pending_gesture c.gesture_id)
              (flush-SameFiles s) refl in
          schedule-SameFiles _ (record closed {
            pending = put_all S c.upserted closed.pending;
            pending_gesture = c.gesture_id;
            pending_origin = c.origin;
          })
          ∙ h

-- A queued change loses its files: when a change of a named gesture deletes nothing and brings no
-- element that the document does not have, then after the push and the flush that writes it the
-- document says of files what it said before, whatever files the change brought.
pub push-files :
    (S : EmitSink) (F : Files S) (options : EmitSchedulerOptions) (c : Changes S) (s : Emit S)
    → c.deleted ≡ []
    → are_known S options s.document c.upserted ≡ true
    → is_named c.gesture_id ≡ true
    → F.files (flush S (push S options c s)).document ≡ F.files s.document
unfolding push push_deleting
push-files S F options c s none_deleted known named =
    flush-SameFiles S F (push S options c s)
    ∙ rw none_deleted (rw known (rw named (enqueue-SameFiles S F options c s)))
