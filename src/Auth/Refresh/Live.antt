-- ===== src/Auth/Refresh/Live.antt =====
-- In every store that the service reaches, a family has one token that can still be used.
use hamboom.Auth.Refresh.{
  RotateResult, Result, SessionRecord, SessionStore, start_session, rotate_session, rotate_found,
  revoke_all_for_user, find_by_hash, insert, burn_family, successor,
}
use hamboom.Base.{
  if_split, ◌≡◌, inl, inr, ◌∙◌, sym, refl, subst, Bool, true, false, String, Option, none, some, [],
  arith, ℕ, leb,
}
use hamboom.Base.Dict.{get, put, keep, IsDistinct, put-IsDistinct, keep-IsDistinct}
use hamboom.Auth.Refresh.Store.{
  mark_used_lem, IsLive, IsUnknown, IsLive-IsUnknown, put-IsLive, keep-IsLive,
}

-- What changes the store: a session starts, a token is presented, a user's sessions are revoked.
pub data Call : Type 0 where
  starts : (sub token family : String) (now : ℕ) → Call
  presents : (token next : String) (now later : ℕ) → Call
  revokes : (now : ℕ) (sub : String) → Call

pub record IsSingle (s : SessionStore) : Type 0 where
  pub distinct : IsDistinct s
  pub single : (f h k : String) → IsLive f s h → IsLive f s k → h ≡ k

module _ (hash : String → String) (ttl_seconds : ℕ) where
  unfoldable pub step : SessionStore → Call → SessionStore
  step s (starts sub token family now) = (start_session hash ttl_seconds sub token family now s).1
  step s (presents token next now later) =
      (rotate_session hash ttl_seconds token next now later s).1
  step s (revokes now sub) = (revoke_all_for_user now sub s).1

  -- What is drawn at random is new: a family that no record has; tokens may even repeat.
  abbrev pub IsFresh : SessionStore → Call → Type 0
  IsFresh s (starts sub token family now) = IsUnknown family s
  IsFresh s (presents token next now later) = Unit
  IsFresh s (revokes now sub) = Unit

  -- The stores that calls reach from the empty one.
  pub data Reach : SessionStore → Type 0 where
    start : Reach []
    after : {s : SessionStore} → Reach s → (c : Call) → IsFresh s c → Reach (step s c)

nothing_live : (f h : String) → IsLive f [] h → ⊥
unfolding get
nothing_live f h l = ground (arith, l.found)

-- A write of a record whose family has no live token leaves one live token in each family.
put-IsSingle :
    (k : String) (v : SessionRecord) (s : SessionStore)
    → IsSingle s
    → ((h : String) → IsLive v.family_id s h → ⊥)
    → IsSingle (put k v s)
put-IsSingle k v s i none_live = record {
  distinct = put-IsDistinct k v s i.distinct;
  single = λ f g h l m. elim (put-IsLive f k g v s l) [
    | inl (e, u, same) ↦ elim (put-IsLive f k h v s m) [
      | inl (e', u', same') ↦ e ∙ sym e'
      | inr (ne, m') ↦ absurd (none_live h (subst (λ f. IsLive f s h) (sym same) m'))
    ]
    | inr (ne, l') ↦ elim (put-IsLive f k h v s m) [
      | inl (e', u', same') ↦ absurd (none_live g (subst (λ f. IsLive f s g) (sym same') l'))
      | inr (ne', m') ↦ i.single f g h l' m'
    ]
  ];
}

keep-IsSingle :
    (p : String → SessionRecord → Bool) (s : SessionStore) → IsSingle s → IsSingle (keep p s)
keep-IsSingle p s i = record {
  distinct = keep-IsDistinct p s i.distinct;
  single = λ f g h l m.
      i.single f g h (keep-IsLive p f g s i.distinct l) (keep-IsLive p f h s i.distinct m);
}

-- Marking the one live token of a family as used leaves the family without one.
module _ (h : String) (r : SessionRecord) (s : SessionStore) (i : IsSingle s)
    (found : get h s ≡ some r) (unused : r.used ≡ false) where
  abbrev spent : SessionRecord
  spent = record r { used = true }

  spent-IsLive : (k : String) → IsLive r.family_id (put h spent s) k → ⊥
  spent-IsLive k l = elim (put-IsLive r.family_id h k spent s l) [
    | inl (e, u, same) ↦ ground (arith, u)
    | inr (ne, m) ↦ ne (
        i.single r.family_id h k
          (record { entry = r; found = found; unused = unused; family = refl }) m)
  ]

  spent-IsSingle : IsSingle (put h spent s)
  spent-IsSingle = record {
    distinct = put-IsDistinct h spent s i.distinct;
    single = λ f g k l m. elim (put-IsLive f h g spent s l) [
      | inl (e, u, same) ↦ ground (arith, u)
      | inr (ne, l') ↦ elim (put-IsLive f h k spent s m) [
        | inl (e, u, same) ↦ ground (arith, u)
        | inr (ne', m') ↦ i.single f g k l' m'
      ]
    ];
  }

module _ (hash : String → String) (ttl_seconds : ℕ) where
  rotate_found-IsSingle :
      (h next : String) (now later : ℕ) (s : SessionStore) (o : Option SessionRecord)
      → find_by_hash h s ≡ o
      → IsSingle s
      → IsSingle (rotate_found hash ttl_seconds h o next now later s).1
  unfolding rotate_found successor insert burn_family find_by_hash
  rotate_found-IsSingle h next now later s none e i = i
  rotate_found-IsSingle h next now later s (some r) e i =
      let P : Result RotateResult × SessionStore → Type 0 = λ o. IsSingle o.1 in
      if_split P r.used (λ u. keep-IsSingle _ s i)
        λ u.
          if_split P (leb r.expires_at now) (λ _. i)
            λ _.
              subst (λ s'. IsSingle (insert (successor hash ttl_seconds r next later) s'))
                (sym (mark_used_lem h r s e))
                (put-IsSingle (hash next) (successor hash ttl_seconds r next later) _
                  (spent-IsSingle h r s i e u) (spent-IsLive h r s i e u))

  step-IsSingle :
      (s : SessionStore) (c : Call)
      → IsFresh hash ttl_seconds s c
      → IsSingle s
      → IsSingle (step hash ttl_seconds s c)
  unfolding step start_session insert rotate_session revoke_all_for_user
  step-IsSingle s (starts sub token family now) fresh i =
      put-IsSingle (hash token) _ s i λ h. IsLive-IsUnknown family h s fresh
  step-IsSingle s (presents token next now later) fresh i =
      rotate_found-IsSingle (hash token) next now later s _ refl i
  step-IsSingle s (revokes now sub) fresh i = keep-IsSingle _ s i

  pub reached-IsSingle : (s : SessionStore) → Reach hash ttl_seconds s → IsSingle s
  reached-IsSingle _ start = record {
    distinct = tt;
    single = λ f h k l. absurd (nothing_live f h l);
  }
  reached-IsSingle _ (after {s = s} reach c fresh) =
      step-IsSingle s c fresh (reached-IsSingle s reach)

  -- In every store that calls reach from the empty one, a family of tokens (one login, with all its
  -- renewals) has at most one token that can still be used, if each login draws a family that no
  -- record has.
  pub Reach-IsSingle :
      (s : SessionStore) (f h k : String)
      → Reach hash ttl_seconds s
      → IsLive f s h
      → IsLive f s k
      → h ≡ k
  Reach-IsSingle s f h k reach l m = (reached-IsSingle s reach).single f h k l m
