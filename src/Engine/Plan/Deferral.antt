-- ===== src/Engine/Plan/Deferral.antt =====
-- When a plan is put off (internal/engine/plan.go, `ErrOnCallResolutionUnavailable`).
use tokayops.Prelude.{
  true, ◌≡◌, refl, sym, ap, ◌∙◌, subst, inl, inr, Bool-cases, Option-cases, Option, none, some,
  List, [], ◌∷◌, map, ℤ, pos, Bytes, bytes_eq, Result, ok, err, Memᴰ, arith,
}
use tokayops.Engine.Types.{
  User, EscalationStep, EscalationPolicy, OnCall, TeamOnCallResult, ProjectionError,
  failure_reason_of, StoreError, Unavailable, PlanError, unavailable, team_on_call, users, schedule,
  Services, Reading, go_on, pure, add_int64,
}
use tokayops.Engine.Roster.{people}
use tokayops.Engine.Resolver.{
  on_duty, as_plan_error, hydrate_ids, hydrate, answered, ask_schedule, team_users_for,
  schedule_users_for, users_of_team, users_for,
}
use tokayops.Engine.Resolver.Answers.{
  KeepsAnswers, hydrate-KeepsAnswers, answered-KeepsAnswers, team_answered, schedule_answered,
  first_asked, schedule_first_asked,
}
use tokayops.Engine.Plan.{fresh}
use tokayops.Engine.Steps.{
  schedule_type, delivers_through, Draft, user_target, unpromise, no_channel, recipients, plan_step,
  plan_steps, delay_of, steps_of, start_draft, commitments, commit_step, named_target,
}
use tokayops.Engine.Steps.Owed.{commitments-Owed}

-- A computation fails in one way only, and remembers no other failure.
abbrev IsPutOff : PlanError → Type 0
IsPutOff e = (u : Unavailable) × (e ≡ unavailable u)

abbrev FailsPutOff : {A : Type 0} → Result PlanError A → Type 0
FailsPutOff r = (e : PlanError) → r ≡ err e → IsPutOff e

record HoldsPutOff {World : Type 0} (s : Reading World) : Type 0 where
  of_team : (r : Result PlanError (List User)) → s.team_users ≡ some r → FailsPutOff r
  of_schedule :
      (id : Bytes) (r : Result PlanError (List User)) → s.by_id id ≡ some r → FailsPutOff r

HoldsPutOff-kept :
    {World : Type 0} (s t : Reading World) → KeepsAnswers s t → HoldsPutOff s → HoldsPutOff t
HoldsPutOff-kept s t (team, by_id) h = record {
  of_team = λ r e. h.of_team r (sym team ∙ e);
  of_schedule = λ id r e.
      h.of_schedule id r
        (ap (λ (f : Bytes → Option (Result PlanError (List User))). f id) (sym by_id) ∙ e);
}

abbrev IsSound : {World A : Type 0} → Reading World × Result PlanError A → Type 0
IsSound r = HoldsPutOff r.0 × FailsPutOff r.1

ok_FailsPutOff : {A : Type 0} (a : A) → FailsPutOff (ok a)
ok_FailsPutOff a e h = ground arith

go_on-IsSound :
    {World A B : Type 0} (f : A → Reading World → Reading World × Result PlanError B)
    (m : Reading World × Result PlanError A)
    → IsSound m
    → ((a : A) → HoldsPutOff m.0 → IsSound (f a m.0))
    → IsSound (go_on f m)
go_on-IsSound f (s, ok a) sound next = next a sound.0
go_on-IsSound f (s, err e) sound next = (sound.0, λ e' h. sound.1 e' (cc h))

module _ {World : Type 0} (services : Services World) where
  as_plan_error-FailsPutOff :
      (r : Reading World × Result StoreError (List User)) → FailsPutOff (as_plan_error r).1
  as_plan_error-FailsPutOff (s, ok us) e h = ground arith
  as_plan_error-FailsPutOff (s, err why) e h = (users why, sym (cc h))

  hydrate-FailsPutOff :
      (on_call : OnCall) (s : Reading World) → FailsPutOff (hydrate services on_call s).1
  unfolding hydrate
  hydrate-FailsPutOff on_call s = hydrate_ids-FailsPutOff (on_duty on_call.l1)
    where
      hydrate_ids-FailsPutOff : (ids : List Bytes) → FailsPutOff (hydrate_ids services ids s).1
      hydrate_ids-FailsPutOff [] = ok_FailsPutOff []
      hydrate_ids-FailsPutOff (id ∷ ids) = as_plan_error-FailsPutOff (people services (id ∷ ids) s)

  answered-FailsPutOff :
      (s : Reading World) (r : Result ProjectionError OnCall)
      → FailsPutOff (answered services s r).1
  unfolding failure_reason_of
  answered-FailsPutOff s (ok on_call) = hydrate-FailsPutOff on_call s
  answered-FailsPutOff s (err ProjectionError.snapshot_decode) = ok_FailsPutOff []
  answered-FailsPutOff s (err ProjectionError.revision_metadata_decode) = ok_FailsPutOff []
  answered-FailsPutOff s (err ProjectionError.revision_gap) = ok_FailsPutOff []
  answered-FailsPutOff s (err ProjectionError.revision_overlap) = ok_FailsPutOff []
  answered-FailsPutOff s (err ProjectionError.override_collision) = ok_FailsPutOff []
  answered-FailsPutOff s (err ProjectionError.rotation) = ok_FailsPutOff []
  answered-FailsPutOff s (err (ProjectionError.unread text)) =
      λ e h. (schedule (ProjectionError.unread text), sym (cc h))

  team_users_for-IsSound :
      (on_call : OnCall) (s : Reading World)
      → HoldsPutOff s
      → IsSound (team_users_for services on_call s)
  team_users_for-IsSound on_call s holds = elim (Option-cases s.team_users) [
    | inl unasked ↦
        let kept =
          HoldsPutOff-kept s (hydrate services on_call s).0
            (hydrate-KeepsAnswers services on_call s) holds in
        let fails = hydrate-FailsPutOff on_call s in
        subst IsSound (sym (first_asked services on_call s unasked)) (
          record {
            of_team = λ r e. subst FailsPutOff (cc e) fails;
            of_schedule = kept.of_schedule;
          },
          fails,
        )
    | inr (a, known) ↦
        subst IsSound (sym (team_answered services on_call s known)) (holds, holds.of_team a known)
  ]

  schedule_users_for-IsSound :
      (id : Bytes) (s : Reading World) → HoldsPutOff s → IsSound (schedule_users_for services id s)
  schedule_users_for-IsSound [] s holds = (holds, ok_FailsPutOff [])
  schedule_users_for-IsSound (b ∷ id) s holds = elim (Option-cases (s.by_id (b ∷ id))) [
    | inl unasked ↦
        let r = ask_schedule services (b ∷ id) s in
        let kept = HoldsPutOff-kept s r.0 (answered-KeepsAnswers services _ _) holds in
        let fails : FailsPutOff r.1 =
          answered-FailsPutOff (record s { world = (services.current_on_call s.world (b ∷ id)).0 })
            (services.current_on_call s.world (b ∷ id)).1 in
        subst IsSound (sym (schedule_first_asked services b id s unasked)) (
          record {
            of_team = kept.of_team;
            of_schedule = λ other answer e. elim (Bool-cases (bytes_eq other (b ∷ id))) [
              | inl one ↦ subst FailsPutOff (cc (rw one at e)) fails
              | inr apart ↦ kept.of_schedule other answer (rw apart at e)
            ];
          },
          fails,
        )
    | inr (a, known) ↦
        subst IsSound (sym (schedule_answered services b id s known))
          (holds, holds.of_schedule (b ∷ id) a known)
  ]

  users_of_team-IsSound :
      (on_call : OnCall) (schedule_id id : Bytes) (s : Reading World)
      → HoldsPutOff s
      → IsSound (users_of_team services on_call schedule_id id s)
  users_of_team-IsSound on_call [] id s h = schedule_users_for-IsSound id s h
  users_of_team-IsSound on_call (b ∷ schedule_id) id s h = team_users_for-IsSound on_call s h

  users_for-IsSound :
      (team : TeamOnCallResult) (id : Bytes) (s : Reading World)
      → HoldsPutOff s
      → IsSound (users_for services team id s)
  unfolding users_for
  users_for-IsSound (err e) id s h = (h, λ e' failed. (team_on_call e, sym (cc failed)))
  users_for-IsSound (ok team) id s h = users_of_team-IsSound team.on_call team.schedule_id id s h

  module _ (team : TeamOnCallResult) where
    recipients-IsSound :
        (step : EscalationStep) (s : Reading World)
        → HoldsPutOff s
        → IsSound (recipients services team step s)
    unfolding recipients
    recipients-IsSound step s h = elim (Bool-cases (bytes_eq step.target_type schedule_type)) [
      | inl by_schedule ↦ rw by_schedule (
          go_on-IsSound (λ us. pure (map user_target us)) (users_for services team step.target_id s)
            (users_for-IsSound team step.target_id s h)
            (λ us holds. (holds, ok_FailsPutOff (map user_target us))))
      | inr other ↦ rw other (h, ok_FailsPutOff (named_target step))
    ]

    plan_step-IsSound :
        (step : EscalationStep) (offset : ℤ) (d : Draft) (s : Reading World)
        → HoldsPutOff s
        → IsSound (plan_step services team step offset d s)
    unfolding plan_step
    plan_step-IsSound step offset d s h = elim (Bool-cases (delivers_through step.provider)) [
      | inl delivers ↦ rw delivers (
          go_on-IsSound (λ targets. pure (commit_step step offset targets d))
            (recipients services team step s) (recipients-IsSound step s h)
            (λ targets holds. (holds, ok_FailsPutOff (commit_step step offset targets d))))
      | inr undelivered ↦ rw undelivered (h, ok_FailsPutOff (unpromise step no_channel d))
    ]

    plan_steps-IsSound :
        (steps : List (Option EscalationStep)) (offset : ℤ) (d : Draft) (s : Reading World)
        → HoldsPutOff s
        → IsSound (plan_steps services team steps offset d s)
    plan_steps-IsSound [] offset d s h = (h, ok_FailsPutOff d)
    plan_steps-IsSound (none ∷ steps) offset d s h = plan_steps-IsSound steps offset d s h
    plan_steps-IsSound (some step ∷ steps) offset d s h =
        let due = add_int64 offset (delay_of step) in
        go_on-IsSound (plan_steps services team steps due) (plan_step services team step due d s)
          (plan_step-IsSound step due d s h) (λ d' holds. plan_steps-IsSound steps due d' _ holds)

    fails_of_ok :
        {A : Type 0} (r : Result PlanError A)
        → FailsPutOff r
        → ((a : A) → r ≡ ok a → ⊥)
        → (u : Unavailable) × (r ≡ err (unavailable u))
    fails_of_ok (ok a) fails never = absurd (never a refl)
    fails_of_ok (err e) fails never =
        let (u, is) = fails e refl in (u, ap (λ (x : PlanError). err x) is)

    -- The commitments of a plan fail in one way only, by putting the plan off to the next tick.
    pub commitments-FailsPutOff :
        (firehose : Bytes) (policy : Option EscalationPolicy) (w : World)
        → FailsPutOff (commitments services team firehose policy (fresh w)).1
    unfolding commitments
    commitments-FailsPutOff firehose policy w =
        (plan_steps-IsSound (steps_of policy) (pos 0) (start_draft firehose) (fresh w)
          (record { of_team = λ r e. ground arith; of_schedule = λ id r e. ground arith })).1

-- An unreadable team is not a team without a schedule: when it could not be read who is on duty for the
-- team, a policy with a step that names a schedule, through a provider that is delivered through, is put
-- off whole, and no schedule that the step names is asked in its place.
pub commitments_unreadable :
    {World : Type 0} (services : Services World) (why : ProjectionError) (firehose : Bytes)
    (policy : Option EscalationPolicy) (w : World) (step : EscalationStep)
    → Memᴰ (some step) (steps_of policy)
    → delivers_through step.provider ≡ true
    → bytes_eq step.target_type schedule_type ≡ true
    → (u : Unavailable) × ((commitments services (err why) firehose policy (fresh w)).1
        ≡ err (unavailable u))
unfolding recipients users_for
commitments_unreadable services why firehose policy w step m delivers by_schedule =
    fails_of_ok services (err why) _ (commitments-FailsPutOff services (err why) firehose policy w)
      (λ d made.
        let (targets, named, _) =
          commitments-Owed services (err why) firehose policy (fresh w) d step made m delivers in
        cc (rw by_schedule at named))
