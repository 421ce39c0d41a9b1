-- ===== src/Auth/Refresh/Spent.antt =====
-- Hashes whose records can no longer be used.
use hamboom.Base.{
  ◌∙◌, sym, ◌≡◌, ◌⊎◌, inl, inr, ◌∙◌, sym, ap, subst, Bool, true, false, String, none, some, [], ◌∷◌,
  Bool-cases, some_inj, ◌===◌, arith, eq_iff, if_both, if_split, All,
}
use hamboom.Base.Dict.{get, put, keep, IsDistinct, get-here, get-past}
use hamboom.Auth.Refresh.{SessionRecord, SessionStore}

-- No record of the hash can be used.
abbrev pub IsSpent : String → SessionStore → Type 0
IsSpent h = All λ (e : String × SessionRecord). ((e.0 === h) ≡ false) ⊎ (e.1.used ≡ true)

module _ (h : String) where
  pub keep-IsSpent :
      (p : String → SessionRecord → Bool) (s : SessionStore) → IsSpent h s → IsSpent h (keep p s)
  unfolding keep
  keep-IsSpent p [] v = tt
  keep-IsSpent p ((k, r) ∷ s) (e, v) =
      if_both (IsSpent h) (p k r) (e, keep-IsSpent p s v) (keep-IsSpent p s v)

  pub put-IsSpent :
      (k : String) (r : SessionRecord) (s : SessionStore)
      → ((k === h) ≡ false) ⊎ (r.used ≡ true)
      → IsSpent h s
      → IsSpent h (put k r s)
  unfolding put
  put-IsSpent k r [] n v = (n, tt)
  put-IsSpent k r ((j, w) ∷ s) n (e, v) =
      if_both (IsSpent h) (j === k) (n, v) (e, put-IsSpent k r s n v)

  none-IsSpent : (s : SessionStore) → get h s ≡ none → IsSpent h s
  unfolding get
  none-IsSpent [] e = tt
  none-IsSpent ((k, r) ∷ s) e = elim (Bool-cases (k === h)) [
    | inl same ↦ ground (arith, same)
    | inr other ↦ (inl other, none-IsSpent s (sym (get-past k h r s other) ∙ e))
  ]

  pub mark-IsSpent :
      (r : SessionRecord) (s : SessionStore) → r.used ≡ true → IsDistinct s → IsSpent h (put h r s)
  unfolding put
  mark-IsSpent r [] u d = (inr u, tt)
  mark-IsSpent r ((k, w) ∷ s) u (e, d) =
      if_split (IsSpent h) (k === h)
        (λ same. (inr u, none-IsSpent s (subst (λ j. get j s ≡ none) ((eq_iff k h).0 same) e)))
        (λ other. (inl other, mark-IsSpent r s u d))

  pub get-IsSpent :
      (s : SessionStore) (r : SessionRecord) → IsSpent h s → get h s ≡ some r → r.used ≡ true
  unfolding get
  get-IsSpent [] r v e = ground arith
  get-IsSpent ((k, w) ∷ s) r (n, v) e = elim (Bool-cases (k === h)) [
    | inl same ↦
        let q : w ≡ r = some_inj (sym (get-here k h w s same) ∙ e) in
        ground (arith, same, ap (λ x. x.used) q)
    | inr other ↦ get-IsSpent s r v (sym (get-past k h w s other) ∙ e)
  ]
