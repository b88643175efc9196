-- ===== src/Engine/Resolver.antt =====
-- internal/engine/plan.go: who is on duty for a step, one answer to one question (`scheduleResolver`).
pub mod Answers
use tokayops.Prelude.{Option, none, some, List, [], ◌∷◌, Bytes, Result, ok, err}
use tokayops.Engine.Types.{
  User, LayerOnCall, OnCall, TeamOnCallResult, ProjectionError, failure_reason_of, put, StoreError,
  PlanError, unavailable, users, team_on_call, schedule, Services, Reading, Plan,
}
use tokayops.Engine.Roster.{people}

-- What a list of ids names: absent, as `OnCall.L1`, or of one layer.
abbrev pub on_duty : Option LayerOnCall → List Bytes
on_duty none = []
on_duty (some layer) = layer.user_ids

abbrev pub as_plan_error :
    {World : Type 0}
    → Reading World × Result StoreError (List User)
    → Reading World × Result PlanError (List User)
as_plan_error (s, ok us) = (s, ok us)
as_plan_error (s, err e) = (s, err (unavailable (users e)))

module _ {World : Type 0} (services : Services World) where
  abbrev pub hydrate_ids : List Bytes → Plan World (List User)
  hydrate_ids [] s = (s, ok [])
  hydrate_ids (id ∷ ids) s = as_plan_error (people services (id ∷ ids) s)

  unfoldable pub hydrate : OnCall → Plan World (List User)
  hydrate on_call = hydrate_ids (on_duty on_call.l1)

  -- The answer of a schedule that was read by its id: damaged data answers with nobody.
  abbrev pub answered :
      Reading World → Result ProjectionError OnCall → Reading World × Result PlanError (List User)
  answered s (ok on_call) = hydrate on_call s
  answered s (err e) = elim (failure_reason_of e) [
    | some reason ↦ (s, ok [])
    | none ↦ (s, err (unavailable (schedule e)))
  ]

  abbrev pub ask_schedule : Bytes → Plan World (List User)
  ask_schedule id s =
      let (w, read) = services.current_on_call s.world id in answered (record s { world = w }) read

  abbrev pub keep_team :
      Reading World × Result PlanError (List User) → Reading World × Result PlanError (List User)
  keep_team (s, answer) = (record s { team_users = some answer }, answer)

  abbrev pub keep_schedule :
      Bytes
      → Reading World × Result PlanError (List User)
      → Reading World × Result PlanError (List User)
  keep_schedule id (s, answer) = (record s { by_id = put id answer s.by_id }, answer)

  abbrev pub remembered :
      Option (Result PlanError (List User)) → Plan World (List User) → Plan World (List User)
  remembered (some answer) asked s = (s, answer)
  remembered none asked s = asked s

  -- The team answers for itself when it has a schedule.
  abbrev pub team_users_for : OnCall → Plan World (List User)
  team_users_for on_call s = remembered s.team_users (λ t. keep_team (hydrate on_call t)) s

  abbrev pub schedule_users_for : Bytes → Plan World (List User)
  schedule_users_for [] s = (s, ok [])
  schedule_users_for (b ∷ id) s =
      remembered (s.by_id (b ∷ id)) (λ t. keep_schedule (b ∷ id) (ask_schedule (b ∷ id) t)) s

  abbrev pub users_of_team : OnCall → Bytes → Bytes → Plan World (List User)
  users_of_team on_call [] fallback = schedule_users_for fallback
  users_of_team on_call (b ∷ schedule_id) fallback = team_users_for on_call

  -- `scheduleResolver.usersFor`
  unfoldable pub users_for : TeamOnCallResult → Bytes → Plan World (List User)
  users_for (err e) fallback s = (s, err (unavailable (team_on_call e)))
  users_for (ok team) fallback s = users_of_team team.on_call team.schedule_id fallback s
