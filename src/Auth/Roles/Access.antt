-- ===== src/Auth/Roles/Access.antt =====
-- The role of a user on a board is the highest of those that something grants.
use hamboom.Auth.Roles.{
  effective_board_role, BoardRole, TeamRole, BoardAccessMode, BoardAccessInput, rank, best_of,
  max_role, map_team_role, team_candidates, link_candidates, editor, viewer, private, team,
  link_view, link_edit, when, if_given,
}
use hamboom.Base.{
  if◌then◌else◌, some_inj, sym, Bool-cases, subst, ◌≡◌, ◌⊎◌, ◌↔◌, inl, inr, ◌≤◌, ◌++◌, Bool, true,
  false, Option, none, some, List, [], ◌∷◌, arith, refl, ltb,
}

-- What gives a user a role on a board: being staff, owning it, a role on the board itself, a role
-- in the team of a board that is open to its team, a link to a board that is open by link.
pub data Grants (i : BoardAccessInput) : BoardRole → Type 0 where
  as_staff : i.is_staff ≡ true → Grants i viewer
  as_owner : i.is_board_owner ≡ true → Grants i BoardRole.owner
  directly : {r : BoardRole} → i.direct_role ≡ some r → Grants i r
  by_team :
      {t : TeamRole} → i.access_mode ≡ team → i.team_role ≡ some t → Grants i (map_team_role t)
  to_view : i.access_mode ≡ link_view → i.has_valid_link ≡ true → Grants i viewer
  to_edit : i.access_mode ≡ link_edit → i.has_valid_link ≡ true → Grants i editor

-- A role of at least this rank.
abbrev pub AtLeast : BoardRole → Option BoardRole → Type 0
AtLeast q o = (s : BoardRole) × (o ≡ some s) × (rank q ≤ rank s)

abbrev Any : BoardRole → List BoardRole → Type 0
Any q [] = ⊥
Any q (r ∷ rs) = (rank q ≤ rank r) ⊎ Any q rs

module _ (q : BoardRole) where
  best_of-Any :
      (b : BoardRole) (rs : List BoardRole)
      → (rank q ≤ rank (best_of b rs)) ↔ ((rank q ≤ rank b) ⊎ Any q rs)
  unfolding best_of
  best_of-Any b [] = ground arith
  best_of-Any b (r ∷ rs) = elim (Bool-cases (ltb (rank b) (rank r))) [
    | inl h ↦ rw h (let e = best_of-Any r rs in ground (arith, e))
    | inr h ↦ rw h (let e = best_of-Any b rs in ground (arith, e))
  ]

  max_role-Any : (rs : List BoardRole) → AtLeast q (max_role rs) ↔ Any q rs
  unfolding max_role
  max_role-Any [] = ground arith
  max_role-Any (r ∷ rs) =
      let e = best_of-Any r rs in
      (
        λ (s, same, le). e.0 (subst (λ b. rank q ≤ rank b) (sym (some_inj same)) le),
        λ a. (best_of r rs, refl, e.1 a),
      )

  Any-append : (xs ys : List BoardRole) → Any q (xs ++ ys) ↔ (Any q xs ⊎ Any q ys)
  Any-append [] ys = ground arith
  Any-append (x ∷ xs) ys = let e = Any-append xs ys in ground (arith, e)

  later : (xs ys : List BoardRole) → Any q ys → Any q (xs ++ ys)
  later xs ys a = (Any-append xs ys).1 (inr a)

-- A role of at least this rank that something grants.
abbrev pub Granted : BoardAccessInput → BoardRole → Type 0
Granted i q = (r : BoardRole) × Grants i r × (rank q ≤ rank r)

module _ (i : BoardAccessInput) (q : BoardRole) where
  when-Any : (b : Bool) (r : BoardRole) → Any q (when b r) → (b ≡ true) × (rank q ≤ rank r)
  when-Any true r h = ground arith
  when-Any false r h = ground arith

  if_given-Any :
      (o : Option BoardRole)
      → Any q (if_given o)
      → (r : BoardRole) × (o ≡ some r) × (rank q ≤ rank r)
  if_given-Any none h = ground arith
  if_given-Any (some r) (inl h) = (r, refl, h)
  if_given-Any (some r) (inr h) = ground arith

  team-Any :
      (mode : BoardAccessMode) (o : Option TeamRole)
      → Any q (team_candidates mode o)
      → (t : TeamRole) × (mode ≡ team) × (o ≡ some t) × (rank q ≤ rank (map_team_role t))
  unfolding team_candidates
  team-Any team (some t) (inl h) = (t, refl, refl, h)
  team-Any team (some t) (inr h) = ground arith
  team-Any team none h = ground arith
  team-Any private o h = ground arith
  team-Any link_view o h = ground arith
  team-Any link_edit o h = ground arith

  link-Any :
      (mode : BoardAccessMode) (b : Bool)
      → Any q (link_candidates mode b)
      → (b ≡ true)
        × (((mode ≡ link_view) × (rank q ≤ rank viewer))
            ⊎ ((mode ≡ link_edit) × (rank q ≤ rank editor)))
  unfolding link_candidates
  link-Any team b h = ground arith
  link-Any private b h = ground arith
  link-Any link_view true (inl h) = (refl, inl (refl, h))
  link-Any link_edit true (inl h) = (refl, inr (refl, h))
  link-Any link_view true (inr h) = ground arith
  link-Any link_edit true (inr h) = ground arith
  link-Any link_view false h = ground arith
  link-Any link_edit false h = ground arith

  by_link :
      (i.has_valid_link ≡ true)
        × (((i.access_mode ≡ link_view) × (rank q ≤ rank viewer))
            ⊎ ((i.access_mode ≡ link_edit) × (rank q ≤ rank editor)))
      → Granted i q
  by_link (valid, inl (m, le)) = (viewer, to_view m valid, le)
  by_link (valid, inr (m, le)) = (editor, to_edit m valid, le)

  abbrev candidates : List BoardRole
  candidates =
      when i.is_staff viewer
      ++ (when i.is_board_owner BoardRole.owner
          ++ (if_given i.direct_role
              ++ (team_candidates i.access_mode i.team_role
                  ++ link_candidates i.access_mode i.has_valid_link)))

  candidates-Granted : Any q candidates → Granted i q
  candidates-Granted h = elim ((Any-append q (when i.is_staff viewer) _).0 h) [
    | inl a ↦ (viewer, as_staff (when-Any i.is_staff viewer a).0, (when-Any i.is_staff viewer a).1)
    | inr h ↦ elim ((Any-append q (when i.is_board_owner BoardRole.owner) _).0 h) [
      | inl a ↦
          let (e, le) = when-Any i.is_board_owner BoardRole.owner a in
          (BoardRole.owner, as_owner e, le)
      | inr h ↦ elim ((Any-append q (if_given i.direct_role) _).0 h) [
        | inl a ↦ let (r, e, le) = if_given-Any i.direct_role a in (r, directly e, le)
        | inr h ↦ elim ((Any-append q (team_candidates i.access_mode i.team_role) _).0 h) [
          | inl a ↦
              let (t, m, e, le) = team-Any i.access_mode i.team_role a in
              (map_team_role t, by_team m e, le)
          | inr a ↦ by_link (link-Any i.access_mode i.has_valid_link a)
        ]
      ]
    ]
  ]

  Granted-candidates : (r : BoardRole) → Grants i r → rank q ≤ rank r → Any q candidates
  unfolding team_candidates link_candidates
  Granted-candidates _ (as_staff e) le = rw e (inl le)
  Granted-candidates _ (as_owner e) le = later q (when i.is_staff viewer) _ (rw e (inl le))
  Granted-candidates r (directly e) le =
      later q (when i.is_staff viewer) _
        (later q (when i.is_board_owner BoardRole.owner) _ (rw e (inl le)))
  Granted-candidates r (by_team m e) le = later q (when i.is_staff viewer) _ (
      later q (when i.is_board_owner BoardRole.owner) _
        (later q (if_given i.direct_role) _ (rw m (rw e (inl le)))))
  Granted-candidates r (to_view m e) le = later q (when i.is_staff viewer) _ (
      later q (when i.is_board_owner BoardRole.owner) _ (
        later q (if_given i.direct_role) _
          (later q (team_candidates i.access_mode i.team_role) _ (rw m (rw e (inl le))))))
  Granted-candidates r (to_edit m e) le = later q (when i.is_staff viewer) _ (
      later q (when i.is_board_owner BoardRole.owner) _ (
        later q (if_given i.direct_role) _
          (later q (team_candidates i.access_mode i.team_role) _ (rw m (rw e (inl le))))))

suspended-AtLeast :
    (q : BoardRole) (b : Bool) (o : Option BoardRole)
    → AtLeast q (if b then none else o) ↔ ((b ≡ false) × AtLeast q o)
suspended-AtLeast q true o = ground arith
suspended-AtLeast q false o = (λ h. (refl, h), λ h. h.1)

-- A user has at least the rights of a role exactly when the account is not suspended and some
-- source (staff, ownership, a direct role, the team of a team board, a valid link of a link board)
-- grants a role of at least that rank: the highest grant decides, and without one there is no role.
pub effective_board_role-Granted :
    (i : BoardAccessInput) (q : BoardRole)
    → AtLeast q (effective_board_role i) ↔ ((i.is_suspended ≡ false) × Granted i q)
unfolding effective_board_role
effective_board_role-Granted i q =
    let g = suspended-AtLeast q i.is_suspended (max_role (candidates i q)) in
    let m = max_role-Any q (candidates i q) in
    (
      λ h. ((g.0 h).0, candidates-Granted i q (m.0 (g.0 h).1)),
      λ (f, (r, grant, le)). g.1 (f, m.1 (Granted-candidates i q r grant le)),
    )
