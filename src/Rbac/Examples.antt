-- ===== src/Rbac/Examples.antt =====
-- Permissions in a small directory.
use tokayops.Prelude.{true, false, ◌≡◌, ◌⊎◌, ok, err, refl, str_eq, if◌then◌else◌}
use tokayops.Rbac.{
  Action, UserRole, TeamMemberRole, LookupError, User, Directory, team_scope, team_member_actions,
  team_admin_actions, public_internal_actions, global_admin_actions, is_admin_role, has_permission,
}
use tokayops.Rbac.Grounds.{Scoped, has_permission-Scoped}

-- One user, with this role in one team.
abbrev staff : TeamMemberRole → Directory
staff role = record {
  get_active_user_by_id = λ id.
      if str_eq id "ann"
      then ok (record { id = "ann"; role = UserRole.user })
      else err LookupError.no_rows;
  get_user_team_role = λ id team. if str_eq team "infra" then ok role else err LookupError.no_rows;
}

acknowledges :
    has_permission (staff TeamMemberRole.member) "ann" Action.alert_ack (team_scope "infra")
    ≡ ok true
unfolding has_permission team_member_actions team_admin_actions public_internal_actions
    global_admin_actions team_scope
acknowledges = refl

elsewhere :
    has_permission (staff TeamMemberRole.member) "ann" Action.alert_ack (team_scope "db") ≡ ok false
unfolding has_permission public_internal_actions global_admin_actions team_scope
elsewhere = refl

has_permission-Scoped_example :
    (user : User) × ((staff TeamMemberRole.member).get_active_user_by_id "ann" ≡ ok user)
    × ((is_admin_role user.role ≡ true)
        ⊎ (public_internal_actions Action.alert_ack ≡ true)
        ⊎ (global_admin_actions Action.alert_ack ≡ false)
          × Scoped (staff TeamMemberRole.member) "ann" Action.alert_ack (team_scope "infra"))
has_permission-Scoped_example =
    has_permission-Scoped (staff TeamMemberRole.member) "ann" Action.alert_ack (team_scope "infra")
      acknowledges
