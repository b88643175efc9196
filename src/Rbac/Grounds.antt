-- ===== src/Rbac/Grounds.antt =====
-- On what grounds an action is permitted, and what a permission hangs on.
use tokayops.Prelude.{
  String, Bool, true, false, not, ◌&&◌, ◌||◌, ◌≡◌, ◌⊎◌, Result, ok, err, arith, refl, eq_iff,
  str_eq, inl, inr, Bool-cases, first_step,
}
use tokayops.Rbac.{
  Action, ScopeType, Scope, TeamMemberRole, LookupError, User, Directory, public_internal_actions,
  team_member_actions, team_admin_actions, global_admin_actions, is_admin_role, is_team_type,
  is_policy_view, user_rules, team_rules, user_permission, has_permission,
}

has_permission-eq-ok :
    (d : Directory) (user_id : String) (action : Action) (scope : Scope)
    → has_permission d user_id action scope ≡ ok true
    → (user : User) × (d.get_active_user_by_id user_id ≡ ok user)
      × (user_permission d user user_id action scope ≡ ok true)
has_permission-eq-ok d u a s h = first_step (d.get_active_user_by_id u) (unfold has_permission in h)

-- A role that the action asks for in a team.
abbrev pub role_suffices : TeamMemberRole → Action → Bool
role_suffices TeamMemberRole.admin a = team_admin_actions a || team_member_actions a
role_suffices TeamMemberRole.member a = not (team_admin_actions a) && team_member_actions a
role_suffices (TeamMemberRole.unlisted s) a = false

abbrev pub InTeam : Directory → String → Action → Scope → Type 0
InTeam d user_id action scope =
    (scope.type ≡ ScopeType.team)
    × ((role : TeamMemberRole) × (d.get_user_team_role user_id scope.team_id ≡ ok role)
        × (role_suffices role action ≡ true))

-- What may permit an action to a user who is no global admin, of an action that is not public.
abbrev pub Scoped : Directory → String → Action → Scope → Type 0
Scoped d user_id action scope =
    InTeam d user_id action scope
    ⊎ (scope.type ≡ ScopeType.user) × (scope.user_id ≡ user_id)
    ⊎ (scope.type ≡ ScopeType.global) × (action ≡ Action.policy_view)

is_policy_view-eq : (a : Action) → is_policy_view a ≡ true → a ≡ Action.policy_view
is_policy_view-eq a h = ground arith

user_rules-Scoped :
    (d : Directory) (user_id : String) (action : Action) (scope : Scope)
    → user_rules user_id action scope ≡ true
    → Scoped d user_id action scope
unfolding user_rules
user_rules-Scoped d u a s h = ground (arith, eq_iff s.user_id u, is_policy_view-eq a)

team_rules-Scoped :
    (d : Directory) (user_id : String) (action : Action) (scope : Scope)
    (r : Result LookupError TeamMemberRole)
    → d.get_user_team_role user_id scope.team_id ≡ r
    → scope.type ≡ ScopeType.team
    → team_rules user_id action scope r ≡ ok true
    → Scoped d user_id action scope
unfolding team_rules
team_rules-Scoped d u a s (ok TeamMemberRole.admin) e t h =
    inl (t, (TeamMemberRole.admin, e, ground arith))
team_rules-Scoped d u a s (ok TeamMemberRole.member) e t h =
    inl (t, (TeamMemberRole.member, e, ground arith))
team_rules-Scoped d u a s (ok (TeamMemberRole.unlisted x)) e t h = ground arith
team_rules-Scoped d u a s (err LookupError.no_rows) e t h = ground arith
team_rules-Scoped d u a s (err (LookupError.failed m)) e t h = ground arith

user_permission-Scoped :
    (d : Directory) (user : User) (user_id : String) (action : Action) (scope : Scope)
    → user_permission d user user_id action scope ≡ ok true
    → (is_admin_role user.role ≡ true)
      ⊎ (public_internal_actions action ≡ true)
      ⊎ (global_admin_actions action ≡ false) × Scoped d user_id action scope
unfolding user_permission
user_permission-Scoped d user u a s h =
    elim (Bool-cases (is_team_type s.type && not (str_eq s.team_id ""))) [
      | inl e ↦
          let t : s.type ≡ ScopeType.team = ground arith in
          ground (arith, team_rules-Scoped d u a s (d.get_user_team_role u s.team_id) refl t)
      | inr e ↦ ground (arith, user_rules-Scoped d u a s)
    ]

-- A permission has one of these grounds and no other: the user is active, and is a global admin; or
-- the action is public; or it is no action of global admins, and the user has a role that it asks for
-- in the team of the scope, or the scope is the user, or it is the view of a global policy.
pub has_permission-Scoped :
    (d : Directory) (user_id : String) (action : Action) (scope : Scope)
    → has_permission d user_id action scope ≡ ok true
    → (user : User) × (d.get_active_user_by_id user_id ≡ ok user)
      × ((is_admin_role user.role ≡ true)
          ⊎ (public_internal_actions action ≡ true)
          ⊎ (global_admin_actions action ≡ false) × Scoped d user_id action scope)
has_permission-Scoped d u a s h =
    let (user, e, p) = has_permission-eq-ok d u a s h in
    (user, e, user_permission-Scoped d user u a s p)

-- A better role in the team loses no permission: what a member may do, its team's admin may do.
pub has_permission_promoted :
    (d e : Directory) (user_id : String) (action : Action) (scope : Scope)
    → d.get_active_user_by_id user_id ≡ e.get_active_user_by_id user_id
    → d.get_user_team_role user_id scope.team_id ≡ ok TeamMemberRole.member
    → e.get_user_team_role user_id scope.team_id ≡ ok TeamMemberRole.admin
    → has_permission d user_id action scope ≡ ok true
    → has_permission e user_id action scope ≡ ok true
unfolding has_permission user_permission team_rules
has_permission_promoted d e u a s x m p h = ground arith
