-- ===== src/Auth/Roles.antt =====
-- packages/auth-core/src/roles.ts: the role of a user on a board. With it, the two tables that say
-- what a role may do: apps/realtime/src/permission.ts on the server and
-- packages/canvas-sync/src/permissions.ts on the client.
pub mod Access
pub mod Writers
mod Tests
use hamboom.Base.{
  ℕ, ◌≡◌, ◌+◌, ◌&&◌, Bool, true, false, String, Option, none, some, List, [], ◌∷◌, ◌++◌, ltb, ◌===◌,
  if◌then◌else◌,
}

pub data BoardRole : Type 0 where
  owner editor commenter viewer : BoardRole

pub data TeamRole : Type 0 where
  owner admin member guest : TeamRole

pub data BoardAccessMode : Type 0 where
  private team link_view link_edit : BoardAccessMode

unfoldable pub rank : BoardRole → ℕ
rank BoardRole.owner = 3
rank editor = 2
rank commenter = 1
rank viewer = 0

pub record BoardAccessInput : Type 0 where
  pub is_staff : Bool
  pub is_suspended : Bool
  pub is_board_owner : Bool
  pub access_mode : BoardAccessMode
  pub direct_role : Option BoardRole
  pub team_role : Option TeamRole
  pub has_valid_link : Bool

unfoldable pub map_team_role : TeamRole → BoardRole
map_team_role TeamRole.owner = editor
map_team_role admin = editor
map_team_role member = editor
map_team_role guest = viewer

-- the callback of `reduce`, folded
unfoldable pub best_of : BoardRole → List BoardRole → BoardRole
unfolding rank
best_of best [] = best
best_of best (r ∷ rs) = best_of (if ltb (rank best) (rank r) then r else best) rs

unfoldable pub max_role : List BoardRole → Option BoardRole
unfolding best_of
max_role [] = none
max_role (r ∷ rs) = some (best_of r rs)

-- `if (c) candidates.push(r)`
abbrev pub when : Bool → BoardRole → List BoardRole
when true r = r ∷ []
when false r = []

abbrev pub if_given : Option BoardRole → List BoardRole
if_given none = []
if_given (some r) = r ∷ []

unfoldable pub team_candidates : BoardAccessMode → Option TeamRole → List BoardRole
unfolding map_team_role
team_candidates team (some t) = map_team_role t ∷ []
team_candidates _ _ = []

unfoldable pub link_candidates : BoardAccessMode → Bool → List BoardRole
link_candidates link_view true = viewer ∷ []
link_candidates link_edit true = editor ∷ []
link_candidates _ _ = []

unfoldable pub effective_board_role : BoardAccessInput → Option BoardRole
unfolding max_role team_candidates link_candidates
effective_board_role input =
    if input.is_suspended
    then none
    else max_role (
        when input.is_staff viewer
        ++ (when input.is_board_owner BoardRole.owner
            ++ (if_given input.direct_role
                ++ (team_candidates input.access_mode input.team_role
                    ++ link_candidates input.access_mode input.has_valid_link))))

-- `list.includes(s)`
abbrev pub includes : List String → String → Bool
includes [] s = false
includes (t ∷ ts) s = if t === s then true else includes ts s

abbrev pub board_roles : List String
board_roles = "owner" ∷ "editor" ∷ "commenter" ∷ "viewer" ∷ []

abbrev pub writers : List String
writers = "owner" ∷ "editor" ∷ []

-- A role that the server is given is any value; `none` is one that is not a text.
unfoldable pub is_board_role : Option String → Bool
is_board_role none = false
is_board_role (some s) = includes board_roles s

unfoldable pub may_write_document : Option String → Bool
unfolding is_board_role
may_write_document none = false
may_write_document (some s) = is_board_role (some s) && includes writers s

unfoldable pub may_broadcast_presence : Option String → Bool
unfolding is_board_role
may_broadcast_presence role = is_board_role role

pub record CanvasPermissions : Type 0 where
  pub can_edit : Bool
  pub can_comment : Bool
  pub can_export : Bool
  pub can_manage_access : Bool

abbrev pub read_only_permissions : CanvasPermissions
read_only_permissions = record {
  can_edit = false;
  can_comment = false;
  can_export = true;
  can_manage_access = false;
}

unfoldable pub permissions_for_role : String → CanvasPermissions
permissions_for_role role =
    if includes board_roles role
    then record {
      can_edit = includes writers role;
      can_comment = includes ("owner" ∷ "editor" ∷ "commenter" ∷ []) role;
      can_export = true;
      can_manage_access = includes ("owner" ∷ []) role;
    }
    else read_only_permissions

-- The text of a role, as the token carries it.
unfoldable pub role_name : BoardRole → String
role_name BoardRole.owner = "owner"
role_name editor = "editor"
role_name commenter = "commenter"
role_name viewer = "viewer"
