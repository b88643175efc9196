-- ===== src/Engine/Plan/Agreement.antt =====
-- Whom a group records as on call is whom it pages (internal/engine/plan.go, `onCallSnapshot` after
-- `commitments`).
use tokayops.Prelude.{
  true, ◌≡◌, ◌≢◌, refl, sym, ap, ◌∙◌, subst, inl, inr, Bool-cases, Option, none, some, List, [],
  ◌∷◌, map, ℤ, pos, Bytes, bytes_eq, Result, ok, err, Memᴰ, arith,
}
use tokayops.Outbound.Keys.Grammar.{Target}
use tokayops.Engine.Types.{
  User, EscalationStep, EscalationPolicy, LayerOnCall, TeamOnCall, StoreError, PlanError, Services,
  Reading, go_on, add_int64,
}
use tokayops.Engine.Roster.{people}
use tokayops.Engine.Roster.Memory.{AnswersAsked}
use tokayops.Engine.Resolver.{on_duty, users_of_team, users_for}
use tokayops.Engine.Steps.Asked.{go_on-pure, plan_step-state}
use tokayops.Engine.Steps.{
  schedule_type, delivers_through, Draft, user_target, recipients, plan_step, plan_steps, delay_of,
  steps_of, start_draft, commitments,
}
use tokayops.Engine.Steps.Loop.{recipients-cases}
use tokayops.Engine.Steps.Owed.{commitments-Owed}
use tokayops.Engine.Steps.Backing.{Some, IsTo}
use tokayops.Engine.Records.{
  nobody, OnCallRecord, on_call_record, with_first, with_second, second_ids, first_layer, recorded,
}
use tokayops.Engine.Plan.{fresh}
use tokayops.Engine.Plan.Growth.{
  Faithful, Grows, Grows-trans, Grows-refl, users_of_team-Grows, team_answer-people,
}

module _ {World : Type 0} (services : Services World) (asked : AnswersAsked services)
    (team : TeamOnCall) where
  users_for-Grows :
      (id : Bytes) (s : Reading World)
      → Grows services asked team.on_call s (users_for services (ok team) id s).0
  unfolding users_for
  users_for-Grows id s = users_of_team-Grows services asked team.on_call team.schedule_id id s

  recipients-Grows :
      (step : EscalationStep) (s : Reading World)
      → Grows services asked team.on_call s (recipients services (ok team) step s).0
  unfolding recipients
  recipients-Grows step s = elim (Bool-cases (bytes_eq step.target_type schedule_type)) [
    | inl schedule ↦ rw schedule (
        subst (Grows services asked team.on_call s)
          (sym (go_on-pure (map user_target) (users_for services (ok team) step.target_id s)))
          (users_for-Grows step.target_id s))
    | inr other ↦ rw other (Grows-refl services asked team.on_call s)
  ]

  plan_step-Grows :
      (step : EscalationStep) (offset : ℤ) (d : Draft) (s : Reading World)
      → Grows services asked team.on_call s (plan_step services (ok team) step offset d s).0
  plan_step-Grows step offset d s = elim (plan_step-state services (ok team) step offset d s) [
    | inl (_, e) ↦ rw e (Grows-refl services asked team.on_call s)
    | inr e ↦ rw e (recipients-Grows step s)
  ]

  continue-Grows :
      (steps : List (Option EscalationStep)) (offset : ℤ)
      (m : Reading World × Result PlanError Draft)
      → ((d : Draft) (s : Reading World)
          → Grows services asked team.on_call s (plan_steps services (ok team) steps offset d s).0)
      → Grows services asked team.on_call m.0
          (go_on (plan_steps services (ok team) steps offset) m).0
  continue-Grows steps offset (s, ok d) h = h d s
  continue-Grows steps offset (s, err e) h = Grows-refl services asked team.on_call s

  plan_steps-Grows :
      (steps : List (Option EscalationStep)) (offset : ℤ) (d : Draft) (s : Reading World)
      → Grows services asked team.on_call s (plan_steps services (ok team) steps offset d s).0
  plan_steps-Grows [] offset d s = Grows-refl services asked team.on_call s
  plan_steps-Grows (none ∷ steps) offset d s = plan_steps-Grows steps offset d s
  plan_steps-Grows (some step ∷ steps) offset d s =
      let due = add_int64 offset (delay_of step) in
      let first = plan_step services (ok team) step due d s in
      Grows-trans services asked team.on_call s first.0 _ (plan_step-Grows step due d s)
        (continue-Grows steps due first (λ d' s'. plan_steps-Grows steps due d' s'))

  -- What is recorded of the first layer is what the roster says of its ids.
  with_second-first :
      (out out' : OnCallRecord) (r : Reading World × Result StoreError (List User))
      → (with_second out r).1 ≡ some out'
      → out.l1_users ≡ out'.l1_users
  with_second-first out out' (s, ok us) h = ground arith
  with_second-first out out' (s, err e) h = ground arith

  with_first-users :
      (layer : LayerOnCall) (r : Reading World × Result StoreError (List User)) (us : List User)
      (out : OnCallRecord)
      → r.1 ≡ ok us
      → (with_first services team.on_call layer r).1 ≡ some out
      → us ≡ out.l1_users
  with_first-users layer (s, ok found) us out told h =
      sym (cc told)
      ∙ with_second-first (first_layer layer found) out
          (people services (second_ids team.on_call.l2) s) h
  with_first-users layer (s, err e) us out told h = ground arith

  recorded-users :
      (l1 : Option LayerOnCall) (t : Reading World) (us : List User) (out : OnCallRecord)
      → (people services (on_duty l1) t).1 ≡ ok us
      → (recorded services team.on_call l1 t).1 ≡ some out
      → us ≡ out.l1_users
  unfolding people
  recorded-users none t us out told h =
      let empty : [] ≡ us = cc told in
      sym empty ∙ with_second-first nobody out (people services (second_ids team.on_call.l2) t) h
  recorded-users (some layer) t us out told h =
      with_first-users layer (people services layer.user_ids t) us out told h

  users_of_team-people :
      (schedule_id id : Bytes) (t : Reading World) (us : List User)
      → schedule_id ≢ []
      → Faithful services asked team.on_call t
      → (users_of_team services team.on_call schedule_id id t).1 ≡ ok us
      → (people services (on_duty team.on_call.l1) t).1 ≡ ok us
  users_of_team-people [] id t us owns f h = absurd (owns refl)
  users_of_team-people (b ∷ schedule_id) id t us owns f h =
      team_answer-people services asked team.on_call t f h

  -- The people recorded as on call are the people paged: when a team owns a schedule, the plan is made
  -- from nothing known, and the record is not left out for an error, then a step that names a schedule
  -- and whose provider is delivered through names exactly the recorded first layer, and each of them has
  -- a commitment in the step's slot; if the store's answer about users holds only those asked for.
  pub commitments-recorded :
      (firehose : Bytes) (policy : Option EscalationPolicy) (w : World) (d : Draft)
      (step : EscalationStep) (out : OnCallRecord)
      → team.schedule_id ≢ []
      → (commitments services (ok team) firehose policy (fresh w)).1 ≡ ok d
      → (on_call_record services
          (ok team)
          (commitments services (ok team) firehose policy (fresh w)).0).1
        ≡ some out
      → Memᴰ (some step) (steps_of policy)
      → delivers_through step.provider ≡ true
      → bytes_eq step.target_type schedule_type ≡ true
      → let t = (commitments services (ok team) firehose policy (fresh w)).0 in
        ((recipients services (ok team) step t).1 ≡ ok (map user_target out.l1_users))
        × ((target : Target)
            → Memᴰ target (map user_target out.l1_users)
            → Some (IsTo step target) d.planned)
  unfolding commitments on_call_record users_for
  commitments-recorded firehose policy w d step out owns made record_made m delivers schedule =
      let t =
        (plan_steps services (ok team) (steps_of policy) (pos 0) (start_draft firehose)
          (fresh w)).0 in
      let grows = plan_steps-Grows (steps_of policy) (pos 0) (start_draft firehose) (fresh w) in
      let faithful = grows.faithful (λ us e. cc) in
      let (targets, named, to) =
        commitments-Owed services (ok team) firehose policy (fresh w) d step made m delivers in
      elim (recipients-cases services (ok team) step t named) [
        | inl (_, us, answer, are) ↦
            let told =
              users_of_team-people team.schedule_id step.target_id t us owns faithful answer in
            let same : targets ≡ map user_target out.l1_users =
              are
              ∙ ap (map user_target) (recorded-users team.on_call.l1 t us out told record_made) in
            (
              named ∙ ap (λ (x : List Target). ok x) same,
              λ target n. to target (subst (Memᴰ target) (sym same) n),
            )
        | inr (other, _) ↦ cc
      ]
