-- ===== src/Auth/Roles/Tests.antt =====
-- Concrete users for Auth/Roles.
use hamboom.Base.{◌≡◌, ◌↔◌, refl, true, false, none, some}
use hamboom.Auth.Roles.{
  BoardAccessInput, effective_board_role, editor, commenter, team, link_view, member,
}
use hamboom.Auth.Roles.Access.{AtLeast, Granted, effective_board_role-Granted}

abbrev teammate : BoardAccessInput
teammate = record {
  is_staff = true;
  is_suspended = false;
  is_board_owner = false;
  access_mode = team;
  direct_role = some commenter;
  team_role = some member;
  has_valid_link = false;
}

teammate-edits : effective_board_role teammate ≡ some editor
unfolding effective_board_role
teammate-edits = refl

suspended-none : effective_board_role (record teammate { is_suspended = true }) ≡ none
unfolding effective_board_role
suspended-none = refl

link-views :
    effective_board_role (record teammate { access_mode = link_view; has_valid_link = true })
    ≡ some commenter
unfolding effective_board_role
link-views = refl

effective_board_role-Granted_example :
    AtLeast editor (effective_board_role teammate) ↔ ((false ≡ false) × Granted teammate editor)
effective_board_role-Granted_example = effective_board_role-Granted teammate editor
