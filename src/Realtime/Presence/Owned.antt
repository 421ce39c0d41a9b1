-- ===== src/Realtime/Presence/Owned.antt =====
-- Which session a client belongs to: a session that leaves keeps none.
use hamboom.Base.{
  ◌∙◌, ap, sym, ℕ, ◌≡◌, refl, ◌≢◌, true, Option, none, some, List, [], ◌∷◌, ◌++◌, ◌==◌,
  if◌then◌else◌, arith, Bool-cases, inl, inr,
}
use hamboom.Base.Table.{
  Table, find, store, erase, has, add, drop, find-store, find-erase, has-add, has-drop,
}
use hamboom.Schema.Protocol.{Bytes}
use hamboom.Realtime.Presence.{
  Awareness, Presence, Change, Origin, of_session, leaving, remote, or_empty, claim_all,
  release_all, erase_all, record_owner, tell, on_update, applied, receive, receive_remote, forget,
  forget_ids, owns_client, is_held,
}

-- Every client that the session holds is in its set.
abbrev Holds : ℕ → List ℕ × Table ℕ → Type 0
Holds s (ids, owner) = (id : ℕ) → find id owner ≡ some s → has id ids ≡ true

-- Another session has gained no client.
abbrev GainsNone : ℕ → Table ℕ → Table ℕ → Type 0
GainsNone s before after = (id : ℕ) → find id after ≡ some s → find id before ≡ some s

claim-Holds :
    (s : ℕ) (new ids : List ℕ) (owner : Table ℕ)
    → Holds s (ids, owner)
    → Holds s (claim_all s new (ids, owner))
unfolding claim_all
claim-Holds s [] ids owner h = h
claim-Holds s (x ∷ new) ids owner h =
    claim-Holds s new (add x ids) (store x s owner)
      (λ id e. ground (arith, h id, has-add x id ids, find-store x id s owner))

release-Holds :
    (s : ℕ) (gone ids : List ℕ) (owner : Table ℕ)
    → Holds s (ids, owner)
    → Holds s (release_all s gone (ids, owner))
unfolding release_all
release-Holds s [] ids owner h = h
release-Holds s (x ∷ gone) ids owner h =
    release-Holds s gone (drop x ids) (if is_held (find x owner) s then erase x owner else owner)
      (λ id e. ground (arith, h id, has-drop x id ids, find-erase x id owner))

claim-GainsNone :
    (t s : ℕ) (new ids : List ℕ) (owner : Table ℕ)
    → t ≢ s
    → GainsNone t owner (claim_all s new (ids, owner)).1
unfolding claim_all
claim-GainsNone t s [] ids owner n id e = e
claim-GainsNone t s (x ∷ new) ids owner n id e =
    ground
      (arith, claim-GainsNone t s new (add x ids) (store x s owner) n id e, find-store x id s owner)

release-GainsNone :
    (t s : ℕ) (gone ids : List ℕ) (owner : Table ℕ)
    → GainsNone t owner (release_all s gone (ids, owner)).1
unfolding release_all
release-GainsNone t s [] ids owner id e = e
release-GainsNone t s (x ∷ gone) ids owner id e = ground (
  arith,
  release-GainsNone t s gone (drop x ids)
      (if is_held (find x owner) s then erase x owner else owner) id e,
  find-erase x id owner,
)

find-erase_all :
    (ids : List ℕ) (id : ℕ) (owner : Table ℕ)
    → find id (erase_all ids owner) ≡ (if has id ids then none else find id owner)
unfolding erase_all has
find-erase_all [] id owner = refl
find-erase_all (x ∷ ids) id owner =
    ground (arith, find-erase_all ids id (erase x owner), find-erase x id owner)

module _ {A : Awareness} where
  -- The two maps of the room agree.
  abbrev pub IsAgreed : Presence A → Type 0
  IsAgreed p = (s id : ℕ) → find id p.owner ≡ some s → has id (or_empty (find s p.owned)) ≡ true

  abbrev claimed : ℕ → Change → Presence A → List ℕ × Table ℕ
  claimed s c p = claim_all s (c.added ++ c.updated) (or_empty (find s p.owned), p.owner)

  claimed-Holds :
      (s : ℕ) (c : Change) (p : Presence A)
      → IsAgreed p
      → Holds s (release_all s c.removed (claimed s c p))
  claimed-Holds s c p h =
      release-Holds s c.removed (claimed s c p).0 (claimed s c p).1
        (claim-Holds s (c.added ++ c.updated) (or_empty (find s p.owned)) p.owner (h s))

  claimed-GainsNone :
      (t s : ℕ) (c : Change) (p : Presence A)
      → t ≢ s
      → GainsNone t p.owner (release_all s c.removed (claimed s c p)).1
  claimed-GainsNone t s c p n id e =
      claim-GainsNone t s (c.added ++ c.updated) (or_empty (find s p.owned)) p.owner n id
        (release-GainsNone t s c.removed (claimed s c p).0 (claimed s c p).1 id e)

  session-IsAgreed :
      (s : ℕ) (c : Change) (p : Presence A)
      → IsAgreed p
      → IsAgreed (record_owner (of_session s) c p)
  unfolding record_owner
  session-IsAgreed s c p h t id e =
      rw (find-store s t (release_all s c.removed (claimed s c p)).0 p.owned)
        (elim (Bool-cases (s == t)) [
          | inl same ↦
              let st : s ≡ t = ground arith in
              rw same (claimed-Holds s c p h id (e ∙ ap some (sym st)))
          | inr other ↦
              let ts : t ≢ s = ground arith in rw other (h t id (claimed-GainsNone t s c p ts id e))
        ])

  record_owner-IsAgreed :
      (origin : Origin) (c : Change) (p : Presence A)
      → IsAgreed p
      → IsAgreed (record_owner origin c p)
  unfolding record_owner
  record_owner-IsAgreed (of_session s) c p h = session-IsAgreed s c p h
  record_owner-IsAgreed leaving c p h = h
  record_owner-IsAgreed remote c p h = h

  tell-IsAgreed :
      (ids : List ℕ) (origin : Origin) (c : Change) (p : Presence A)
      → IsAgreed p
      → IsAgreed (tell ids origin c p).0
  unfolding tell
  tell-IsAgreed [] origin c p h = h
  tell-IsAgreed (id ∷ ids) origin c p h = record_owner-IsAgreed origin c p h

  on_update-IsAgreed :
      (origin : Origin) (c : Change) (p : Presence A)
      → IsAgreed p
      → IsAgreed (on_update origin c p).0
  unfolding on_update
  on_update-IsAgreed origin c p h = tell-IsAgreed (c.added ++ (c.updated ++ c.removed)) origin c p h

  applied-IsAgreed :
      (origin : Origin) (o : Option (A.States × Change)) (p : Presence A)
      → IsAgreed p
      → IsAgreed (applied origin o p).0
  unfolding applied
  applied-IsAgreed origin none p h = h
  applied-IsAgreed origin (some (states, c)) p h =
      on_update-IsAgreed origin c (record p { states = states }) h

  -- The removal of a session's clients is told with no session as its origin.
  tell_leaving :
      (ids : List ℕ) (c : Change) (p : Presence A)
      → ((tell ids leaving c p).0.owner ≡ p.owner) × ((tell ids leaving c p).0.owned ≡ p.owned)
  unfolding tell record_owner
  tell_leaving [] c p = (refl, refl)
  tell_leaving (id ∷ ids) c p = (refl, refl)

  forget_maps :
      (ids : List ℕ) (p : Presence A)
      → ((forget_ids ids p).0.owner ≡ erase_all ids p.owner)
        × ((forget_ids ids p).0.owned ≡ p.owned)
  unfolding forget_ids on_update erase_all
  forget_maps [] p = (refl, refl)
  forget_maps (id ∷ ids) p =
      let removal = A.remove_states p.states (id ∷ ids) in
      tell_leaving (removal.1.added ++ (removal.1.updated ++ removal.1.removed)) removal.1
        (record p { states = removal.0; owner = erase_all (id ∷ ids) p.owner })

  -- The clients of a session that leaves, and the maps when it has left.
  abbrev ids_of : ℕ → Presence A → List ℕ
  ids_of s p = or_empty (find s p.owned)

  forget-owner :
      (s id : ℕ) (p : Presence A)
      → find id (forget s p).0.owner ≡ (if has id (ids_of s p) then none else find id p.owner)
  unfolding forget
  forget-owner s id p =
      rw (forget_maps (ids_of s p) (record p { owned = erase s p.owned })).0
        (find-erase_all (ids_of s p) id p.owner)

  forget-owned :
      (s t : ℕ) (p : Presence A)
      → find t (forget s p).0.owned ≡ (if s == t then none else find t p.owned)
  unfolding forget
  forget-owned s t p =
      rw (forget_maps (ids_of s p) (record p { owned = erase s p.owned })).1
        (find-erase s t p.owned)

  pub forget-free : (s id : ℕ) (p : Presence A) → IsAgreed p → find id (forget s p).0.owner ≢ some s
  forget-free s id p h e = ground (arith, forget-owner s id p, h s id)

  forget-IsAgreed : (s : ℕ) (p : Presence A) → IsAgreed p → IsAgreed (forget s p).0
  forget-IsAgreed s p h t id e =
      rw (forget-owned s t p) (ground (arith, forget-owner s id p, h t id, forget-free s id p h))

-- The calls that a room makes of its presence.
pub data Call : Type 0 where
  receives : (session : ℕ) (payload : Bytes) → Call
  receives_remote : (payload : Bytes) → Call
  forgets : (session : ℕ) → Call

module _ {A : Awareness} where
  abbrev pub call : Call → Presence A → Presence A
  call (receives s payload) p = (receive s payload p).0
  call (receives_remote payload) p = (receive_remote payload p).0
  call (forgets s) p = (forget s p).0

  abbrev pub calls : List Call → Presence A → Presence A
  calls [] p = p
  calls (c ∷ cs) p = calls cs (call c p)

  call-IsAgreed : (c : Call) (p : Presence A) → IsAgreed p → IsAgreed (call c p)
  unfolding receive receive_remote
  call-IsAgreed (receives s payload) p h =
      applied-IsAgreed (of_session s) (A.apply_update p.states payload) p h
  call-IsAgreed (receives_remote payload) p h =
      applied-IsAgreed remote (A.apply_update p.states payload) p h
  call-IsAgreed (forgets s) p h = forget-IsAgreed s p h

  calls-IsAgreed : (cs : List Call) (p : Presence A) → IsAgreed p → IsAgreed (calls cs p)
  calls-IsAgreed [] p h = h
  calls-IsAgreed (c ∷ cs) p h = calls-IsAgreed cs (call c p) (call-IsAgreed c p h)

-- `createRoomPresence`
module _ (A : Awareness) where
  abbrev pub new_presence : A.States → Presence A
  new_presence states = record { states = states; owned = []; owner = [] }

  new-IsAgreed : (states : A.States) → IsAgreed (new_presence states)
  unfolding find
  new-IsAgreed states s id e = cc

  -- When a session has left, after whatever calls on a new presence, no client is its own, and
  -- every client that was may be used by any other session.
  pub forget-owns_client :
      (states : A.States) (cs : List Call) (s other id : ℕ)
      → let p = calls cs (new_presence states) in
        find id p.owner ≡ some s
        → (find id (forget s p).0.owner ≢ some s) × (owns_client other id (forget s p).0 ≡ true)
  unfolding owns_client
  forget-owns_client states cs s other id e =
      let p = calls cs (new_presence states) in
      let h : IsAgreed p = calls-IsAgreed cs (new_presence states) (new-IsAgreed states) in
      (forget-free s id p h, rw (forget-owner s id p) (rw (h s id e)))
