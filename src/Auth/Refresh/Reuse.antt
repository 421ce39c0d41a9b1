-- ===== src/Auth/Refresh/Reuse.antt =====
-- A token works once, and a second use of it ends every session of its family.
use hamboom.Base.{
  ◌∙◌, sym, ◌≡◌, ◌⊎◌, inl, inr, ◌∙◌, sym, refl, ap, subst, true, false, not, String, Option, none,
  some, List, [], ◌∷◌, ◌===◌, arith, ℕ, if_both, leb, All, ◌↔◌, ◌<◌,
}
use hamboom.Base.Dict.{get, IsDistinct, get-keep, get-keep_old, get-keep_kept}
use hamboom.Auth.Refresh.{
  Result, RotateResult, ok, err, invalid, reuse, SessionRecord, SessionStore, start_session,
  rotate_session, rotate_found, revoke_all_for_user, find_by_hash, insert, mark_used, burn_family,
  successor,
}
use hamboom.Auth.Refresh.Spent.{IsSpent, keep-IsSpent, put-IsSpent, mark-IsSpent, get-IsSpent}
use hamboom.Auth.Refresh.Store.{mark_used_lem}
use hamboom.Auth.Refresh.Live.{Call, starts, presents, revokes, step, Reach, reached-IsSingle}

module _ (hash : String → String) (ttl_seconds : ℕ) where
  -- The call hands out no token of this hash anew.
  abbrev pub Spares : String → Call → Type 0
  Spares h (starts sub token family now) = (hash token === h) ≡ false
  Spares h (presents token next now later) = (hash next === h) ≡ false
  Spares h (revokes now sub) = Unit

  unfoldable pub run : SessionStore → List Call → SessionStore
  run s [] = s
  run s (c ∷ cs) = run (step hash ttl_seconds s c) cs

  rotate_found-IsSpent :
      (h k next : String) (now later : ℕ) (s : SessionStore) (o : Option SessionRecord)
      → find_by_hash k s ≡ o
      → (hash next === h) ≡ false
      → IsSpent h s
      → IsSpent h (rotate_found hash ttl_seconds k o next now later s).1
  unfolding rotate_found successor insert burn_family find_by_hash
  rotate_found-IsSpent h k next now later s none e n v = v
  rotate_found-IsSpent h k next now later s (some r) e n v =
      let P : Result RotateResult × SessionStore → Type 0 = λ o. IsSpent h o.1 in
      if_both P r.used (keep-IsSpent h _ s v) (
        if_both P (leb r.expires_at now) v (
          put-IsSpent h (hash next) _ _ (inl n)
            (subst (IsSpent h) (sym (mark_used_lem k r s e)) (put-IsSpent h k _ s (inr refl) v))))

  step-IsSpent :
      (h : String) (s : SessionStore) (c : Call)
      → Spares h c
      → IsSpent h s
      → IsSpent h (step hash ttl_seconds s c)
  unfolding step start_session insert rotate_session revoke_all_for_user
  step-IsSpent h s (starts sub token family now) n v = put-IsSpent h (hash token) _ s (inl n) v
  step-IsSpent h s (presents token next now later) n v =
      rotate_found-IsSpent h (hash token) next now later s _ refl n v
  step-IsSpent h s (revokes now sub) n v = keep-IsSpent h _ s v

  run-IsSpent :
      (h : String) (s : SessionStore) (cs : List Call)
      → All (Spares h) cs
      → IsSpent h s
      → IsSpent h (run s cs)
  unfolding run
  run-IsSpent h s [] ss v = v
  run-IsSpent h s (c ∷ cs) (n, ss) v =
      run-IsSpent h (step hash ttl_seconds s c) cs ss (step-IsSpent h s c n v)

  -- What a token must be to be taken, and what is handed out for it.
  pub record IsTaken (token next : String) (now : ℕ) (s : SessionStore) (res : RotateResult)
      : Type 0 where
    pub entry : SessionRecord
    pub found : find_by_hash (hash token) s ≡ some entry
    pub unused : entry.used ≡ false
    pub current : now < entry.expires_at
    pub answer : res ≡ record { sub = entry.sub; refresh_token = next }

  taken_of :
      (token next : String) (now later : ℕ) (s : SessionStore) (res : RotateResult)
      (r : SessionRecord)
      → (rotate_found hash ttl_seconds (hash token) (some r) next now later s).0 ≡ ok res
      → (r.used ≡ false)
        × (now < r.expires_at)
        × (res ≡ record { sub = r.sub; refresh_token = next })
  unfolding rotate_found
  taken_of token next now later s res r h = ground arith

  taken_back :
      (token next : String) (now later : ℕ) (s : SessionStore) (r : SessionRecord)
      → r.used ≡ false
      → now < r.expires_at
      → rotate_found hash ttl_seconds (hash token) (some r) next now later s ≡ (
        ok (record { sub = r.sub; refresh_token = next }),
        insert (successor hash ttl_seconds r next later) (mark_used (hash token) s),
      )
  unfolding rotate_found
  taken_back token next now later s r u c = ground arith

  rotate_found-IsTaken :
      (token next : String) (now later : ℕ) (s : SessionStore) (res : RotateResult)
      (o : Option SessionRecord)
      → find_by_hash (hash token) s ≡ o
      → (rotate_found hash ttl_seconds (hash token) o next now later s).0 ≡ ok res
      → IsTaken token next now s res
  unfolding rotate_found
  rotate_found-IsTaken token next now later s res none e h = ground arith
  rotate_found-IsTaken token next now later s res (some r) e h =
      let (u, c, a) = taken_of token next now later s res r h in
      record { entry = r; found = e; unused = u; current = c; answer = a }

  IsTaken-rotate :
      (token next : String) (now later : ℕ) (s : SessionStore) (res : RotateResult)
      → (t : IsTaken token next now s res)
      → rotate_session hash ttl_seconds token next now later s ≡ (
        ok res,
        insert (successor hash ttl_seconds t.entry next later) (mark_used (hash token) s),
      )
  unfolding rotate_session
  IsTaken-rotate token next now later s res t =
      ap (λ o. rotate_found hash ttl_seconds (hash token) o next now later s) t.found
      ∙ (taken_back token next now later s t.entry t.unused t.current
          ∙ ap
              (λ a. (
                ok a,
                insert (successor hash ttl_seconds t.entry next later) (mark_used (hash token) s),
              ))
              (sym t.answer))

  -- A token is taken exactly when the store has its record, unused and not expired; the answer then
  -- names the user of the record and the new token.
  pub rotate_session-ok_iff :
      (token next : String) (now later : ℕ) (s : SessionStore) (res : RotateResult)
      → ((rotate_session hash ttl_seconds token next now later s).0 ≡ ok res)
        ↔ IsTaken token next now s res
  unfolding rotate_session
  rotate_session-ok_iff token next now later s res = (
    rotate_found-IsTaken token next now later s res _ refl,
    λ t. ap (λ o. o.0) (IsTaken-rotate token next now later s res t),
  )

  refused_of :
      (h next : String) (now later : ℕ) (s s' : SessionStore) (o : Option SessionRecord)
      → get h s ≡ o
      → IsSpent h s
      → ((rotate_found hash ttl_seconds h o next now later s').0 ≡ err invalid)
        ⊎ ((rotate_found hash ttl_seconds h o next now later s').0 ≡ err reuse)
  unfolding rotate_found
  refused_of h next now later s s' none e v = inl refl
  refused_of h next now later s s' (some r) e v = let u = get-IsSpent h s r v e in ground (arith, u)

  taken-IsSpent :
      (token next : String) (now later : ℕ) (s : SessionStore) (res : RotateResult)
      → IsDistinct s
      → (hash next === hash token) ≡ false
      → IsTaken token next now s res
      → IsSpent (hash token) (rotate_session hash ttl_seconds token next now later s).1
  unfolding insert successor find_by_hash
  taken-IsSpent token next now later s res d n t =
      rw (IsTaken-rotate token next now later s res t) (
        put-IsSpent (hash token) (hash next) _ _ (inl n) (
          subst (IsSpent (hash token)) (sym (mark_used_lem (hash token) t.entry s t.found))
            (mark-IsSpent (hash token) _ s refl d)))

  -- A token is taken once: after that, and any later calls that do not hand out the same token
  -- again, presenting it is refused as invalid or as a reuse, whenever it is presented.
  pub rotate_session_once :
      (s : SessionStore) (token next : String) (now later : ℕ) {res : RotateResult} (cs : List Call)
      (next' : String) (now' later' : ℕ)
      → Reach hash ttl_seconds s
      → (rotate_session hash ttl_seconds token next now later s).0 ≡ ok res
      → (hash next === hash token) ≡ false
      → All (Spares (hash token)) cs
      → let s' = run (rotate_session hash ttl_seconds token next now later s).1 cs in
        ((rotate_session hash ttl_seconds token next' now' later' s').0 ≡ err invalid)
        ⊎ ((rotate_session hash ttl_seconds token next' now' later' s').0 ≡ err reuse)
  unfolding rotate_session find_by_hash
  rotate_session_once s token next now later {res} cs next' now' later' reach h n spares =
      let t = (rotate_session-ok_iff token next now later s res).0 h in
      let d = (reached-IsSingle hash ttl_seconds s reach).distinct in
      refused_of (hash token) next' now' later' _ _ _ refl
        (run-IsSpent (hash token) _ cs spares (taken-IsSpent token next now later s res d n t))

  -- A token that was used before burns its family: it is refused as a reuse, and what the store
  -- then holds is exactly what it held of other families.
  pub rotate_session-burns :
      (s : SessionStore) (token next : String) (now later : ℕ) (r : SessionRecord) (h : String)
      (r' : SessionRecord)
      → Reach hash ttl_seconds s
      → find_by_hash (hash token) s ≡ some r
      → r.used ≡ true
      → let out = rotate_session hash ttl_seconds token next now later s in
        (out.0 ≡ err reuse)
        × ((find_by_hash h out.1 ≡ some r')
            ↔ ((find_by_hash h s ≡ some r') × ((r'.family_id === r.family_id) ≡ false)))
  unfolding rotate_session rotate_found find_by_hash burn_family
  rotate_session-burns s token next now later r h r' reach e u =
      let d = (reached-IsSingle hash ttl_seconds s reach).distinct in
      let p = λ (_ : String) (x : SessionRecord). not (x.family_id === r.family_id) in
      rw e (
        rw u (
          refl,
          (
            λ g. (get-keep_old p h r' s d g, ground (arith, get-keep p h r' s g)),
            λ (g, o). get-keep_kept p h r' s g (rw o refl),
          ),
        ))
