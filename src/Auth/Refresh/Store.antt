-- ===== src/Auth/Refresh/Store.antt =====
-- The live tokens of a family, and how the operations of the store change them.
use hamboom.Auth.Refresh.{true, mark_used, mark_found, find_by_hash, SessionRecord, SessionStore}
use hamboom.Base.{
  ap, subst, ◌≡◌, ◌≢◌, ◌⊎◌, inl, inr, ◌∙◌, sym, Bool, false, String, some, [], ◌∷◌, All, Bool-cases,
  some_inj, ◌===◌, arith, eq_iff,
}
use hamboom.Base.Dict.{
  get-here, get-past, get-put_same, get-put_other, get, put, keep, IsDistinct, get-keep_old,
  ne_of_false,
}

-- A token of the family that was handed out and not used.
pub record IsLive (f : String) (s : SessionStore) (h : String) : Type 0 where
  pub entry : SessionRecord
  pub found : get h s ≡ some entry
  pub unused : entry.used ≡ false
  pub family : entry.family_id ≡ f

-- No record belongs to the family.
abbrev pub IsUnknown : String → SessionStore → Type 0
IsUnknown f = All λ (e : String × SessionRecord). (e.1.family_id === f) ≡ false

get-IsUnknown :
    (f h : String) (s : SessionStore) (r : SessionRecord)
    → IsUnknown f s
    → get h s ≡ some r
    → r.family_id ≢ f
unfolding get
get-IsUnknown f h [] r u e = ground arith
get-IsUnknown f h ((k, v) ∷ s) r (n, u) e = elim (Bool-cases (k === h)) [
  | inl same ↦
      let q : v ≡ r = some_inj (sym (get-here k h v s same) ∙ e) in
      subst (λ x. x.family_id ≢ f) q (ne_of_false v.family_id f n)
  | inr other ↦ get-IsUnknown f h s r u (sym (get-past k h v s other) ∙ e)
]

pub IsLive-IsUnknown : (f h : String) (s : SessionStore) → IsUnknown f s → IsLive f s h → ⊥
IsLive-IsUnknown f h s u l = get-IsUnknown f h s l.entry u l.found l.family

-- After a write, a live token is the written one or was live before under another hash.
pub put-IsLive :
    (f k h : String) (v : SessionRecord) (s : SessionStore)
    → IsLive f (put k v s) h
    → ((h ≡ k) × (v.used ≡ false) × (v.family_id ≡ f)) ⊎ ((k ≢ h) × IsLive f s h)
put-IsLive f k h v s l = elim (Bool-cases (k === h)) [
  | inl same ↦
      let q : v ≡ l.entry = some_inj (sym (get-put_same k h v s same) ∙ l.found) in
      inl (
        sym ((eq_iff k h).0 same),
        ap (λ x. x.used) q ∙ l.unused,
        ap (λ x. x.family_id) q ∙ l.family,
      )
  | inr other ↦ inr (
    ne_of_false k h other,
    record {
      entry = l.entry;
      found = sym (get-put_other k h v s other) ∙ l.found;
      unused = l.unused;
      family = l.family;
    },
  )
]

pub keep-IsLive :
    (p : String → SessionRecord → Bool) (f h : String) (s : SessionStore)
    → IsDistinct s
    → IsLive f (keep p s) h
    → IsLive f s h
keep-IsLive p f h s d l = record {
  entry = l.entry;
  found = get-keep_old p h l.entry s d l.found;
  unused = l.unused;
  family = l.family;
}

pub mark_used_lem :
    (h : String) (r : SessionRecord) (s : SessionStore)
    → find_by_hash h s ≡ some r
    → mark_used h s ≡ put h (record r { used = true }) s
unfolding mark_used find_by_hash mark_found
mark_used_lem h r s e = ap (λ o. mark_found h o s) e
