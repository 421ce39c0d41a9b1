-- ===== src/Sync/EmitLocal.antt =====
-- packages/canvas-sync/src/emit-local.ts: local changes are queued, merged by element, and written
-- to the document when a timer fires. The sink, which is the document, is a parameter, as it is in
-- the code. A timer is the delay it was set with.
pub mod Merged
pub mod Kept
pub mod Written
pub mod Files
mod Tests
use hamboom.Base.{
  ℕ, ◌≡◌, Bool, true, false, not, ◌&&◌, ◌||◌, String, Option, none, some, List, [], ◌∷◌, map, ◌===◌,
  if◌then◌else◌, is_some, all,
}
use hamboom.Base.Dict.{Dict, put}

pub data ChangeOrigin : Type 0 where
  local_user remote undo system : ChangeOrigin

pub record ElementChangeSet (Element Asset : Type 0) : Type 0 where
  pub upserted : List Element
  pub deleted : List String
  pub assets : List Asset
  pub origin : ChangeOrigin
  pub gesture_id : Option String

-- The elements and the sink.
pub record EmitSink : Type 1 where
  pub Element : Type 0
  pub Asset : Type 0
  pub Doc : Type 0
  pub id : Element → String
  pub original_text : Element → Option String
  pub commit : ElementChangeSet Element Asset → Doc → Doc
  pub has : String → Doc → Bool
  pub text_of : String → Doc → Option String

pub data Mode : Type 0 where
  gesture text : Mode

abbrev pub is_text : Mode → Bool
is_text gesture = false
is_text text = true

abbrev pub is_same_mode : Mode → Mode → Bool
is_same_mode gesture gesture = true
is_same_mode text text = true
is_same_mode _ _ = false

-- `!gestureId` of JavaScript: the empty text counts as none.
abbrev pub is_named : Option String → Bool
is_named none = false
is_named (some t) = not (t === "")

abbrev pub named : Option String → Option String
named none = none
named (some t) = if t === "" then none else some t

abbrev pub differs : Option String → Option String → Bool
differs none _ = false
differs (some _) none = true
differs (some t) (some u) = not (t === u)

pub record EmitSchedulerOptions : Type 0 where
  pub gesture_ms : ℕ
  pub text_debounce_ms : ℕ

unfoldable pub is_new_text : Option String → Option String → Bool
is_new_text none _ = false
is_new_text (some current) none = false
is_new_text (some current) (some next) = not (next === current)

module _ (S : EmitSink) where
  abbrev pub Changes : Type 0
  Changes = ElementChangeSet S.Element S.Asset

  -- The variables of the scheduler, and the document behind the sink.
  pub record Emit : Type 0 where
    pub pending : Dict S.Element
    pub pending_gesture : Option String
    pub pending_origin : ChangeOrigin
    pub mode : Mode
    pub timer : Option ℕ
    pub document : S.Doc

  -- `pending.set` for each element
  unfoldable pub put_all : List S.Element → Dict S.Element → Dict S.Element
  unfolding put
  put_all [] pending = pending
  put_all (e ∷ es) pending = put_all es (put (S.id e) e pending)

  abbrev pub values : Dict S.Element → List S.Element
  values = map (λ entry. entry.1)

  -- what is left to do when the queue is not empty
  unfoldable pub write_pending : Dict S.Element → Emit → Emit
  write_pending [] s = s
  write_pending (entry ∷ rest) s = record s {
    pending = [];
    pending_gesture = none;
    document =
        S.commit
          (record {
            upserted = values (entry ∷ rest);
            deleted = [];
            assets = [];
            origin = s.pending_origin;
            gesture_id = named s.pending_gesture;
          })
          s.document;
  }

  unfoldable pub flush : Emit → Emit
  unfolding write_pending
  flush s = write_pending s.pending (record s { timer = none })

  module _ (options : EmitSchedulerOptions) where
    unfoldable pub set_timer : Mode → Emit → Emit
    set_timer next s = if is_some s.timer then s else record s {
      timer = some (if is_text next then options.text_debounce_ms else options.gesture_ms);
    }

    unfoldable pub schedule : Mode → Emit → Emit
    unfolding flush set_timer
    schedule next s =
        let written = if is_some s.timer && not (is_same_mode next s.mode) then flush s else s in
        let moded = record written { mode = next } in
        set_timer next (if is_text next then record moded { timer = none } else moded)

    abbrev pub is_text_only : S.Doc → S.Element → Bool
    is_text_only doc e = is_new_text (S.text_of (S.id e) doc) (S.original_text e)

    -- what is not written at once is queued
    unfoldable pub enqueue : Changes → Emit → Emit
    unfolding schedule is_new_text put_all flush
    enqueue c s =
        let closed = if differs s.pending_gesture c.gesture_id then flush s else s in
        let text_only = all (is_text_only closed.document) c.upserted in
        schedule (if text_only then text else gesture) (record closed {
          pending = put_all c.upserted closed.pending;
          pending_gesture = c.gesture_id;
          pending_origin = c.origin;
        })

    abbrev pub are_known : S.Doc → List S.Element → Bool
    are_known doc = all (λ e. S.has (S.id e) doc)

    -- a deletion, a creation and a change without a gesture are written at once
    unfoldable pub push_deleting : List String → Changes → Emit → Emit
    unfolding enqueue flush
    push_deleting (id ∷ ids) c s =
        let flushed = flush s in record flushed { document = S.commit c flushed.document }
    push_deleting [] c s =
        let flushed = flush s in
        if not (are_known s.document c.upserted) || not (is_named c.gesture_id)
        then record flushed { document = S.commit c flushed.document }
        else enqueue c s

    unfoldable pub push : Changes → Emit → Emit
    unfolding push_deleting
    push c s = push_deleting c.deleted c s
