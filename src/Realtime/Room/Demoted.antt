-- ===== src/Realtime/Room/Demoted.antt =====
-- A user whose role is taken away stops writing at once.
use hamboom.Base.{
  subst, if_split, some_inj, ℕ, ◌≡◌, refl, true, false, not, String, some, List, [], ◌∷◌, filterb,
  ◌==◌, ◌===◌, Bool-cases, inl, inr, All, All-append, All-filterb, arith, eq_iff,
}
use hamboom.Auth.Roles.{BoardRole, editor, commenter, viewer, rank}
use hamboom.Schema.Protocol.{Bytes}
use hamboom.Realtime.Presence.{forget}
use hamboom.Realtime.Room.{
  Platform, Session, Node, with_room, tell_presence, announce, info, broadcast,
}
use hamboom.Realtime.Room.Messages.{
  may_write, find_session, set_role, is_changed, change_roles, apply_role_change, join, leave, left,
}
use hamboom.Realtime.Room.Kept.{handle_bus-Keeps}
use hamboom.Realtime.Room.Steps.{
  on_frame-Keeps, refresh_ownership-Keeps, write_row-Keeps, answer-Keeps, fail-Keeps,
  compacted-Keeps,
}
use hamboom.Realtime.Room.Events.{
  Event, frame, on_bus, joins, leaves, changes_role, refreshes_role, asks_lock, writes, answers,
  fails, prunes, prune_rows, ends_compaction, task_at, step, run,
}
use hamboom.Realtime.Room.Untouched.{IsReadOnly, writes_as, Untouched, handle_message-Untouched}

rank-inj : (a b : BoardRole) → rank a ≡ rank b → a ≡ b
unfolding rank
rank-inj BoardRole.owner BoardRole.owner h = refl
rank-inj BoardRole.owner editor h = absurd (omega (arith, h))
rank-inj BoardRole.owner commenter h = absurd (omega (arith, h))
rank-inj BoardRole.owner viewer h = absurd (omega (arith, h))
rank-inj editor BoardRole.owner h = absurd (omega (arith, h))
rank-inj editor editor h = refl
rank-inj editor commenter h = absurd (omega (arith, h))
rank-inj editor viewer h = absurd (omega (arith, h))
rank-inj commenter BoardRole.owner h = absurd (omega (arith, h))
rank-inj commenter editor h = absurd (omega (arith, h))
rank-inj commenter commenter h = refl
rank-inj commenter viewer h = absurd (omega (arith, h))
rank-inj viewer BoardRole.owner h = absurd (omega (arith, h))
rank-inj viewer editor h = absurd (omega (arith, h))
rank-inj viewer commenter h = absurd (omega (arith, h))
rank-inj viewer viewer h = refl

-- No session of the user writes.
abbrev pub MayNot : String → List Session → Type 0
MayNot sub = All λ s. (s.sub === sub) ≡ true → may_write s ≡ false

same_role :
    (sub : String) (role : BoardRole) (s : Session)
    → is_changed sub role s ≡ false
    → (s.sub === sub) ≡ true
    → s.role ≡ role
same_role sub role s e h = rank-inj s.role role (ground arith)

change_roles-MayNot :
    (sub : String) (role : BoardRole) (ss : List Session)
    → writes_as role ≡ false
    → MayNot sub (change_roles sub role ss)
change_roles-MayNot sub role [] h = tt
change_roles-MayNot sub role (s ∷ ss) h = (
  if_split (λ t. (t.sub === sub) ≡ true → may_write t ≡ false) (is_changed sub role s) (λ _ _. h)
      (λ same here. rw (same_role sub role s same here) h),
  change_roles-MayNot sub role ss h,
)

-- A role that is given to one user's sessions leaves the others' alone, and may not write where it
-- is the user's own.
change_roles-MayNot_other :
    (sub other : String) (role : BoardRole) (ss : List Session)
    → ((other === sub) ≡ true → writes_as role ≡ false)
    → MayNot sub ss
    → MayNot sub (change_roles other role ss)
change_roles-MayNot_other sub other role [] h m = tt
change_roles-MayNot_other sub other role (s ∷ ss) h (first, rest) = (
  if_split (λ t. (t.sub === sub) ≡ true → may_write t ≡ false) (is_changed other role s)
      (λ changed here. h (ground (arith, eq_iff s.sub other, eq_iff s.sub sub, eq_iff other sub)))
      (λ _. first),
  change_roles-MayNot_other sub other role ss h rest,
)

-- The role that a session's token is refreshed to does not write if the session is the user's.
abbrev pub IsHarmless : String → ℕ → BoardRole → List Session → Type 0
IsHarmless sub id role =
    All λ s. (s.id == id) ≡ true → (s.sub === sub) ≡ true → writes_as role ≡ false

set_role-MayNot :
    (sub : String) (id : ℕ) (role : BoardRole) (ss : List Session)
    → IsHarmless sub id role ss
    → MayNot sub ss
    → MayNot sub (set_role id role ss)
set_role-MayNot sub id role [] h m = tt
set_role-MayNot sub id role (s ∷ ss) (first, rest) (now, later) = (
  if_split (λ t. (t.sub === sub) ≡ true → may_write t ≡ false) (s.id == id) first (λ _. now),
  set_role-MayNot sub id role ss rest later,
)

find_session-MayNot :
    (sub : String) (id : ℕ) (ss : List Session) (s : Session)
    → MayNot sub ss
    → find_session id ss ≡ some s
    → (s.sub === sub) ≡ true
    → may_write s ≡ false
find_session-MayNot sub id [] s m f h = cc
find_session-MayNot sub id (t ∷ ts) s (now, later) f h = elim (Bool-cases (t.id == id)) [
  | inl here ↦
      let e : t ≡ s = some_inj (rw here at f) in
      subst (λ u. (u.sub === sub) ≡ true → may_write u ≡ false) e now h
  | inr past ↦ find_session-MayNot sub id ts s later (rw past at f) h
]

module _ {P : Platform} where
  -- The event gives no session of the user a role that writes.
  abbrev pub GivesNone : String → Event → Node P → Type 0
  GivesNone sub (joins s) n = (s.sub === sub) ≡ true → may_write s ≡ false
  GivesNone sub (changes_role other role) n = (other === sub) ≡ true → writes_as role ≡ false
  GivesNone sub (refreshes_role id role) n = IsHarmless sub id role n.room.sessions
  GivesNone sub (frame _ _) n = Unit
  GivesNone sub (on_bus _) n = Unit
  GivesNone sub (leaves _) n = Unit
  GivesNone sub (asks_lock _ _) n = Unit
  GivesNone sub (writes _) n = Unit
  GivesNone sub (answers _ _) n = Unit
  GivesNone sub (fails _) n = Unit
  GivesNone sub (prunes _) n = Unit
  GivesNone sub (ends_compaction _ _) n = Unit

  abbrev pub GiveNone : String → List Event → Node P → Type 0
  GiveNone sub [] n = Unit
  GiveNone sub (e ∷ es) n = GivesNone sub e n × GiveNone sub es (step e n)

  left-sessions : (ss : List Session) (n : Node P) → (left ss n).room.sessions ≡ n.room.sessions
  unfolding left announce info broadcast
  left-sessions [] n = refl
  left-sessions (s ∷ ss) n = refl

  leave-sessions :
      (id : ℕ) (n : Node P)
      → (leave id n).room.sessions ≡ filterb (λ s. not (s.id == id)) n.room.sessions
  unfolding leave tell_presence
  leave-sessions id n =
      let rest = filterb (λ s. not (s.id == id)) n.room.sessions in
      let gone = with_room (record n.room { sessions = rest }) n in
      left-sessions rest (tell_presence (forget id gone.room.present) gone)

  step-MayNot :
      (sub : String) (e : Event) (n : Node P)
      → GivesNone sub e n
      → MayNot sub n.room.sessions
      → MayNot sub (step e n).room.sessions
  unfolding step apply_role_change join announce info broadcast
  step-MayNot sub (frame id bytes) n g m =
      rw (on_frame-Keeps (find_session id n.room.sessions) bytes n).sessions m
  step-MayNot sub (on_bus e) n g m = rw (handle_bus-Keeps e n).sessions m
  step-MayNot sub (joins s) n g m =
      All-append (λ t. (t.sub === sub) ≡ true → may_write t ≡ false) n.room.sessions (s ∷ []) m
        (g, tt)
  step-MayNot sub (leaves id) n g m = rw (leave-sessions id n) (
      All-filterb (λ t. (t.sub === sub) ≡ true → may_write t ≡ false) (λ t. not (t.id == id))
        n.room.sessions m)
  step-MayNot sub (changes_role other role) n g m =
      change_roles-MayNot_other sub other role n.room.sessions g m
  step-MayNot sub (refreshes_role id role) n g m = set_role-MayNot sub id role n.room.sessions g m
  step-MayNot sub (asks_lock initial o) n g m = rw (refresh_ownership-Keeps initial o n).sessions m
  step-MayNot sub (writes i) n g m = rw (write_row-Keeps i (task_at i n.in_flight) n).sessions m
  step-MayNot sub (answers now i) n g m =
      rw (answer-Keeps now i (task_at i n.in_flight) n).sessions m
  step-MayNot sub (fails i) n g m = rw (fail-Keeps i (task_at i n.in_flight) n).sessions m
  step-MayNot sub (prunes upto) n g m = unfold prune_rows in m
  step-MayNot sub (ends_compaction now o) n g m = rw (compacted-Keeps now o n).sessions m

  run-MayNot :
      (sub : String) (es : List Event) (n : Node P)
      → GiveNone sub es n
      → MayNot sub n.room.sessions
      → MayNot sub (run es n).room.sessions
  run-MayNot sub [] n g m = m
  run-MayNot sub (e ∷ es) n (g, gs) m = run-MayNot sub es (step e n) gs (step-MayNot sub e n g m)

  -- Once a user is given a role that does not write, no frame of the user's sessions changes the
  -- document, reaches the log or starts to be written, whatever happens in between (frames of all
  -- sessions, joins, answers of the log, envelopes, other changes of role), until the user is given
  -- a role that writes by a change, a refresh of a token or a new session. It rests on what
  -- y-protocols promises: only its two kinds of message that carry changes make any.
  pub demoted-Untouched :
      (law : IsReadOnly P) (sub : String) (role : BoardRole) (n : Node P) (es : List Event)
      → let after = (apply_role_change sub role n).0 in
        writes_as role ≡ false
        → GiveNone sub es after
        → (id : ℕ) (s : Session) (bytes : Bytes)
        → find_session id (run es after).room.sessions ≡ some s
        → (s.sub === sub) ≡ true
        → Untouched (run es after) (step (frame id bytes) (run es after))
  unfolding step apply_role_change
  demoted-Untouched law sub role n es h g id s bytes f u =
      let after = (apply_role_change sub role n).0 in
      let last = run es after in
      let m = run-MayNot sub es after g (change_roles-MayNot sub role n.room.sessions h) in
      rw f (
        handle_message-Untouched law s (find_session-MayNot sub id last.room.sessions s m f u) bytes
          last)
