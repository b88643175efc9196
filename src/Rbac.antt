-- ===== src/Rbac.antt =====
-- Role-based access control (internal/rbac/rbac.go, and the roles of internal/model/types.go).
--
-- The directory is the store as an access check needs it: it enters as a record of its two reads. The
-- error of a read is `no_rows` (`sql.ErrNoRows`) or any other.
pub mod Grounds
mod Examples
use tokayops.Prelude.{
  String, Bool, true, false, not, ◌&&◌, ◌||◌, Result, ok, err, str_eq, if◌then◌else◌, ◌>>=◌,
}

pub data Action : Type 0 where
  alert_view alert_note_add alert_create team_list team_view schedule_view : Action
  user_list user_view alert_ack alert_resolve override_create override_update : Action
  override_delete team_update team_member_add team_member_remove schedule_edit : Action
  team_create team_delete user_create user_update user_delete user_role_assign : Action
  user_password_update integration_list integration_view integration_create : Action
  integration_update integration_delete delivery_view delivery_resolve token_list : Action
  token_create token_delete policy_list policy_view policy_create policy_update : Action
  policy_delete : Action
  unlisted : String → Action

pub data ScopeType : Type 0 where
  global team user : ScopeType
  unlisted : String → ScopeType

pub record Scope : Type 0 where
  pub type : ScopeType
  pub team_id : String
  pub user_id : String

unfoldable pub global_scope : Scope
global_scope = record { type = ScopeType.global; team_id = ""; user_id = "" }

unfoldable pub team_scope : String → Scope
team_scope team_id = record { type = ScopeType.team; team_id = team_id; user_id = "" }

unfoldable pub user_scope : String → Scope
user_scope user_id = record { type = ScopeType.user; team_id = ""; user_id = user_id }

pub data UserRole : Type 0 where
  admin user : UserRole
  unlisted : String → UserRole

pub data TeamMemberRole : Type 0 where
  admin member : TeamMemberRole
  unlisted : String → TeamMemberRole

pub data LookupError : Type 0 where
  no_rows : LookupError
  failed : String → LookupError

-- What is read of a user.
pub record User : Type 0 where
  pub id : String
  pub role : UserRole

pub record Directory : Type 0 where
  pub get_active_user_by_id : String → Result LookupError User
  pub get_user_team_role : String → String → Result LookupError TeamMemberRole

unfoldable pub public_internal_actions : Action → Bool
public_internal_actions Action.alert_view = true
public_internal_actions Action.alert_note_add = true
public_internal_actions Action.alert_create = true
public_internal_actions Action.team_list = true
public_internal_actions Action.team_view = true
public_internal_actions Action.schedule_view = true
public_internal_actions Action.user_list = true
public_internal_actions Action.user_view = true
public_internal_actions Action.policy_list = true
public_internal_actions _ = false

unfoldable pub team_member_actions : Action → Bool
team_member_actions Action.alert_ack = true
team_member_actions Action.alert_resolve = true
team_member_actions Action.override_create = true
team_member_actions Action.override_update = true
team_member_actions Action.override_delete = true
team_member_actions Action.policy_view = true
team_member_actions _ = false

unfoldable pub team_admin_actions : Action → Bool
team_admin_actions Action.team_update = true
team_admin_actions Action.team_member_add = true
team_admin_actions Action.team_member_remove = true
team_admin_actions Action.schedule_edit = true
team_admin_actions Action.policy_create = true
team_admin_actions Action.policy_update = true
team_admin_actions Action.policy_delete = true
team_admin_actions Action.integration_list = true
team_admin_actions Action.integration_view = true
team_admin_actions Action.integration_create = true
team_admin_actions Action.integration_update = true
team_admin_actions Action.integration_delete = true
team_admin_actions _ = false

unfoldable pub global_admin_actions : Action → Bool
global_admin_actions Action.team_create = true
global_admin_actions Action.team_delete = true
global_admin_actions Action.user_create = true
global_admin_actions Action.user_update = true
global_admin_actions Action.user_delete = true
global_admin_actions Action.user_role_assign = true
global_admin_actions Action.delivery_view = true
global_admin_actions Action.delivery_resolve = true
global_admin_actions _ = false

abbrev pub is_admin_role : UserRole → Bool
is_admin_role UserRole.admin = true
is_admin_role _ = false

abbrev pub is_team_admin_role : TeamMemberRole → Bool
is_team_admin_role TeamMemberRole.admin = true
is_team_admin_role _ = false

abbrev pub is_member_role : TeamMemberRole → Bool
is_member_role TeamMemberRole.member = true
is_member_role _ = false

abbrev pub is_team_type : ScopeType → Bool
is_team_type ScopeType.team = true
is_team_type _ = false

abbrev pub is_user_type : ScopeType → Bool
is_user_type ScopeType.user = true
is_user_type _ = false

abbrev pub is_global_type : ScopeType → Bool
is_global_type ScopeType.global = true
is_global_type _ = false

abbrev pub is_policy_view : Action → Bool
is_policy_view Action.policy_view = true
is_policy_view _ = false

-- Rules 5 and 6, and the default.
unfoldable pub user_rules : String → Action → Scope → Bool
user_rules user_id action scope =
    if is_user_type scope.type && not (str_eq scope.user_id "")
    then str_eq scope.user_id user_id
    else is_policy_view action && is_global_type scope.type

-- Rule 4, from the role's read.
unfoldable pub team_rules :
    String → Action → Scope → Result LookupError TeamMemberRole → Result LookupError Bool
unfolding user_rules
team_rules user_id action scope (err no_rows) = ok false
team_rules user_id action scope (err (failed e)) = err (failed e)
team_rules user_id action scope (ok role) =
    if team_admin_actions action
    then ok (is_team_admin_role role)
    else if team_member_actions action
    then ok (is_team_admin_role role || is_member_role role)
    else ok (user_rules user_id action scope)

-- Rules 1 to 6, of an active user.
unfoldable pub user_permission :
    Directory → User → String → Action → Scope → Result LookupError Bool
unfolding team_rules user_rules
user_permission d account user_id action scope =
    if is_admin_role account.role
    then ok true
    else if public_internal_actions action
    then ok true
    else if global_admin_actions action
    then ok false
    else if is_team_type scope.type && not (str_eq scope.team_id "")
    then team_rules user_id action scope (d.get_user_team_role user_id scope.team_id)
    else ok (user_rules user_id action scope)

unfoldable pub has_permission : Directory → String → Action → Scope → Result LookupError Bool
unfolding user_permission
has_permission d user_id action scope = do
  account ← d.get_active_user_by_id user_id
  user_permission d account user_id action scope

unfoldable pub is_admin : Directory → String → Result LookupError Bool
is_admin d user_id = do account ← d.get_active_user_by_id user_id; ok (is_admin_role account.role)

-- The answer to a membership question: no row is no, any other error is passed on.
abbrev membership :
    (TeamMemberRole → Bool) → Result LookupError TeamMemberRole → Result LookupError Bool
membership test (ok role) = ok (test role)
membership test (err no_rows) = ok false
membership test (err (failed e)) = err (failed e)

unfoldable pub is_team_member : Directory → String → String → Result LookupError Bool
is_team_member d user_id team_id = membership (λ role. true) (d.get_user_team_role user_id team_id)

unfoldable pub is_team_admin : Directory → String → String → Result LookupError Bool
is_team_admin d user_id team_id =
    membership is_team_admin_role (d.get_user_team_role user_id team_id)
