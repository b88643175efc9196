-- ===== src/Engine/Tick/Deferral.antt =====
-- What a tick puts off to the next one (internal/engine/engine.go, `ProcessNewAlertGroups`).
use tokayops.Prelude.{
  Bool, true, ◌≡◌, refl, ap, Option, some, Bytes, bytes_eq, Result, ok, err, Memᴰ,
}
use tokayops.Outbound.Keys.Digest.{Sha256}
use tokayops.Outbound.Keys.Material.{RenderSnapshot}
use tokayops.Engine.Types.{
  EscalationStep, EscalationPolicy, TeamOnCallResult, ProjectionError, Unavailable, PlanError,
  unavailable, Services, Reading,
}
use tokayops.Engine.Steps.{schedule_type, delivers_through, steps_of, Draft, commitments}
use tokayops.Engine.Plan.{
  AlertGroup, FirehoseChannels, TeamRead, Batch, route, onboarded, firehose_channel, team_for,
  policy_for, build_plan, fresh,
}
use tokayops.Engine.Plan.Deferral.{commitments_unreadable}
use tokayops.Engine.Tick.{SubmitOutcome, deferred, process_group}

module _ {World : Type 0} (sha : Sha256) (services : Services World)
    (freeze : World → AlertGroup → Bool → World × Result Bytes RenderSnapshot)
    (cfg : FirehoseChannels) (ag : AlertGroup) where
  -- A plan whose commitments were put off is put off.
  build_plan_put_off :
      (team_on_call : TeamOnCallResult) (w1 w2 w3 w4 : World) (s : Reading World) (read : TeamRead)
      (found : Option EscalationPolicy) (state : RenderSnapshot) (e : PlanError)
      → team_for services ag.team_id (fresh w1) ≡ (fresh w2, ok read)
      → policy_for services (route read ag.severity) (fresh w2) ≡ (fresh w3, ok found)
      → freeze w3 ag (onboarded read) ≡ (w4, ok state)
      → commitments services team_on_call (firehose_channel cfg ag.severity) found (fresh w4)
        ≡ (s, err e)
      → build_plan sha services freeze cfg ag team_on_call (fresh w1) ≡ (s, err e)
  unfolding build_plan
  build_plan_put_off team_on_call w1 w2 w3 w4 s read found state e named routed kept put_off =
      rw (named, routed, kept, put_off) refl

  -- Nothing is submitted for a group whose team could not be read: when the projection failed to say who
  -- is on duty and the group's policy has a step that names a schedule, through a provider that is
  -- delivered through, the tick puts the group off as it stands, whatever a submission would have done
  -- and whatever the failure was, damage to the stored schedule included.
  -- The group's team and its policy were read and its state was frozen.
  pub process_group_unreadable :
      (team_read : World → Bytes → World × TeamOnCallResult) (why : ProjectionError)
      (w w1 w2 w3 w4 : World) (read : TeamRead) (found : Option EscalationPolicy)
      (state : RenderSnapshot) (step : EscalationStep)
      → team_read w ag.team_id ≡ (w1, err why)
      → team_for services ag.team_id (fresh w1) ≡ (fresh w2, ok read)
      → policy_for services (route read ag.severity) (fresh w2) ≡ (fresh w3, ok found)
      → freeze w3 ag (onboarded read) ≡ (w4, ok state)
      → Memᴰ (some step) (steps_of found)
      → delivers_through step.provider ≡ true
      → bytes_eq step.target_type schedule_type ≡ true
      → (u : Unavailable) × (w' : World) × ((submit : World
            → Batch
            → World × Result Bytes SubmitOutcome)
          → process_group sha services freeze cfg team_read submit w ag ≡ (w', deferred u))
  unfolding process_group
  process_group_unreadable team_read why w w1 w2 w3 w4 read found state step failed named routed
        kept listed delivers by_schedule =
      let channel = firehose_channel cfg ag.severity in
      let (u, put_off) =
        commitments_unreadable services why channel found w4 step listed delivers by_schedule in
      let s = (commitments services (err why) channel found (fresh w4)).0 in
      let planned =
        build_plan_put_off (err why) w1 w2 w3 w4 s read found state (unavailable u) named routed
          kept (ap (λ (r : Result PlanError Draft). (s, r)) put_off) in
      (u, s.world, λ submit. rw (failed, planned) refl)
