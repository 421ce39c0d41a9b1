-- ===== src/Auth/Roles/Writers.antt =====
-- Who may write: the roles that may, on the server and on the client, and the users who have them.
use hamboom.Base.{
  ◌≤◌, ◌≡◌, ◌↔◌, ◌⊎◌, inl, inr, true, false, String, Option, none, some, arith, refl, eq_iff,
}
use hamboom.Auth.Roles.{
  TeamRole, admin, member, guest, map_team_role, BoardRole, BoardAccessInput, effective_board_role,
  may_write_document, is_board_role, permissions_for_role, role_name, editor, commenter, viewer,
  team, link_edit, rank,
}
use hamboom.Auth.Roles.Access.{
  Grants, as_staff, as_owner, directly, by_team, to_view, to_edit, AtLeast, Granted,
  effective_board_role-Granted,
}

-- The client shows a board as editable exactly for the roles whose edits the server accepts, for
-- every text a token may carry as the role: neither side refuses what the other allows.
pub permissions_for_role-may_write_document :
    (role : String) → (permissions_for_role role).can_edit ≡ may_write_document (some role)
unfolding permissions_for_role may_write_document is_board_role
permissions_for_role-may_write_document role = ground (
  arith,
  eq_iff "owner" role,
  eq_iff "editor" role,
  eq_iff "commenter" role,
  eq_iff "viewer" role,
)

-- The role as the server gets it: nothing for a user without a role.
abbrev pub carried : Option BoardRole → Option String
carried none = none
carried (some r) = some (role_name r)

writer-AtLeast : (o : Option BoardRole) → (may_write_document (carried o) ≡ true) ↔ AtLeast editor o
unfolding may_write_document is_board_role role_name rank
writer-AtLeast none = ground arith
writer-AtLeast (some BoardRole.owner) = (λ h. (BoardRole.owner, refl, ground arith), λ h. refl)
writer-AtLeast (some editor) = (λ h. (editor, refl, ground arith), λ h. refl)
writer-AtLeast (some commenter) = ground arith
writer-AtLeast (some viewer) = ground arith

-- Owning the board, being its owner or an editor by a direct role, a team role other than guest on
-- a board that is open to its team, a valid link on a board whose link gives editing.
abbrev pub CanWrite : BoardAccessInput → Type 0
CanWrite i =
    (i.is_board_owner ≡ true)
    ⊎ (i.direct_role ≡ some BoardRole.owner)
    ⊎ (i.direct_role ≡ some editor)
    ⊎ ((i.access_mode ≡ team)
        × ((i.team_role ≡ some TeamRole.owner)
            ⊎ (i.team_role ≡ some admin)
            ⊎ (i.team_role ≡ some member)))
    ⊎ ((i.access_mode ≡ link_edit) × (i.has_valid_link ≡ true))

writes : (i : BoardAccessInput) (r : BoardRole) → Grants i r → rank editor ≤ rank r → CanWrite i
unfolding rank map_team_role
writes i _ (as_staff e) le = ground arith
writes i _ (as_owner e) le = inl e
writes i BoardRole.owner (directly e) le = inr (inl e)
writes i editor (directly e) le = inr (inr (inl e))
writes i commenter (directly e) le = ground arith
writes i viewer (directly e) le = ground arith
writes i _ (by_team {t = TeamRole.owner} m e) le = inr (inr (inr (inl (m, inl e))))
writes i _ (by_team {t = admin} m e) le = inr (inr (inr (inl (m, inr (inl e)))))
writes i _ (by_team {t = member} m e) le = inr (inr (inr (inl (m, inr (inr e)))))
writes i _ (by_team {t = guest} m e) le = ground arith
writes i _ (to_view m e) le = ground arith
writes i _ (to_edit m e) le = inr (inr (inr (inr (m, e))))

granted : (i : BoardAccessInput) → CanWrite i → Granted i editor
unfolding rank map_team_role
granted i (inl e) = (BoardRole.owner, as_owner e, ground arith)
granted i (inr (inl e)) = (BoardRole.owner, directly e, ground arith)
granted i (inr (inr (inl e))) = (editor, directly e, ground arith)
granted i (inr (inr (inr (inl (m, inl e))))) = (editor, by_team m e, ground arith)
granted i (inr (inr (inr (inl (m, inr (inl e)))))) = (editor, by_team m e, ground arith)
granted i (inr (inr (inr (inl (m, inr (inr e)))))) = (editor, by_team m e, ground arith)
granted i (inr (inr (inr (inr (m, e))))) = (editor, to_edit m e, ground arith)

-- The server takes an edit from a user exactly when the account is not suspended and the user owns
-- the board, has the direct role owner or editor, is in the team (other than as a guest) of a board
-- that is open to its team, or holds a valid link of a board whose link gives editing. Being staff
-- never gives it.
pub effective_board_role-CanWrite :
    (i : BoardAccessInput)
    → (may_write_document (carried (effective_board_role i)) ≡ true)
      ↔ ((i.is_suspended ≡ false) × CanWrite i)
effective_board_role-CanWrite i =
    let w = writer-AtLeast (effective_board_role i) in
    let g = effective_board_role-Granted i editor in
    (
      λ h. let (f, (r, grant, le)) = g.0 (w.0 h) in (f, writes i r grant le),
      λ (f, c). w.1 (g.1 (f, granted i c)),
    )
