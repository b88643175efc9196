-- ===== src/Engine/Plan.antt =====
-- internal/engine/plan.go: what an alert group promises, and what is recorded of it (`buildPlan`).
--
-- Freezing the state that messages are drawn from is a parameter, `freeze`, which reads the services.
-- The planner has a store and a configuration, as
-- `NewEngine` gives it.
pub mod Growth
pub mod Agreement
pub mod Deferral
pub mod Admitted
use tokayops.Prelude.{
  ℕ, Bool, true, false, ◌||◌, if◌then◌else◌, Option, none, some, List, [], ◌∷◌, ◌++◌, map, ℤ, pos,
  Bytes, codes, bytes_eq, Result, ok, err,
}
use tokayops.Outbound.Kinds.{Kind}
use tokayops.Outbound.Keys.Digest.{Sha256}
use tokayops.Outbound.Keys.Material.{RenderSnapshot, AdmitError}
use tokayops.Outbound.Keys.Admission.{EscalationBatch, Admission, admit}
use tokayops.Outbound.Keys.Commitment.{EscalationCommitment}
use tokayops.Engine.Types.{
  Team, EscalationPolicy, TeamOnCallResult, StoreError, no_rows, failure, PlanError, unavailable,
  not_frozen, not_admitted, team, policy, Services, Reading, Plan, ◌>>=◌,
}
use tokayops.Engine.Records.{OnCallRecord, PolicyRecord, policy_record, on_call_record}
use tokayops.Engine.Steps.{PlannedCommitment, UnpromisedStep, Draft, commitments}

-- Of a group, what a plan reads.
pub record AlertGroup : Type 0 where
  pub id : Bytes
  pub team_id : Bytes
  pub severity : Bytes
  pub render_source_version : ℕ

pub record TeamRead : Type 0 where
  pub team : Option Team
  pub unnamed : Bool

abbrev routed : Option Bytes → Bytes → Bytes
routed none default_policy = default_policy
routed (some []) default_policy = default_policy
routed (some (b ∷ policy_id)) default_policy = b ∷ policy_id

abbrev route_of : Option Team → Bytes → Bytes
route_of none severity = []
route_of (some t) severity = routed (t.severity_routes severity) t.default_policy_id

-- `teamRead.route`
unfoldable pub route : TeamRead → Bytes → Bytes
route r severity = route_of r.team severity

abbrev is_there : Option Team → Bool
is_there none = false
is_there (some t) = true

-- `teamRead.onboarded`
unfoldable pub onboarded : TeamRead → Bool
onboarded r = r.unnamed || is_there r.team

-- The channels of `config.Global`
pub record FirehoseChannels : Type 0 where
  pub critical : Bytes
  pub warning : Bytes
  pub info : Bytes

unfoldable pub firehose_channel : FirehoseChannels → Bytes → Bytes
firehose_channel cfg severity =
    if bytes_eq severity (codes "critical")
    then cfg.critical
    else if bytes_eq severity (codes "warning")
    then cfg.warning
    else if bytes_eq severity (codes "info")
    then cfg.info
    else []

-- What a policy read says: a policy that is not there is none, one that could not be read is an error.
abbrev policy_answer :
    Result StoreError (Option EscalationPolicy) → Result PlanError (Option EscalationPolicy)
policy_answer (ok found) = ok found
policy_answer (err no_rows) = ok none
policy_answer (err (failure e)) = err (unavailable (policy (failure e)))

abbrev team_answer : Result StoreError (Option Team) → Result PlanError TeamRead
team_answer (ok found) = ok (record { team = found; unnamed = false })
team_answer (err no_rows) = ok (record { team = none; unnamed = false })
team_answer (err (failure e)) = err (unavailable (team (failure e)))

module _ {World : Type 0} (services : Services World) where
  -- `teamFor`
  unfoldable pub team_for : Bytes → Plan World TeamRead
  team_for [] s = (s, ok (record { team = none; unnamed = true }))
  team_for (b ∷ id) s =
      let (w, read) = services.get_team s.world (b ∷ id) in
      (record s { world = w }, team_answer read)

  -- `policyFor`
  unfoldable pub policy_for : Bytes → Plan World (Option EscalationPolicy)
  policy_for [] s = (s, ok none)
  policy_for (b ∷ id) s =
      let (w, read) = services.get_policy s.world (b ∷ id) in
      (record s { world = w }, policy_answer read)

pub record Batch : Type 0 where
  pub admission : Admission
  pub source_version : ℕ
  pub policy_id : Bytes
  pub policy_snapshot : PolicyRecord
  pub on_call_snapshot : Option OnCallRecord
  pub unpromised : List UnpromisedStep

abbrev effective_policy : Option EscalationPolicy → Bytes → Bytes
effective_policy none routed_to = []
effective_policy (some p) routed_to = routed_to

-- The batch of a first admission, under the current versions
abbrev pub escalation_batch : RenderSnapshot → List EscalationCommitment → EscalationBatch
escalation_batch state proposed = record {
  kind = Kind.escalation;
  client_request_id = [];
  grammar_version = pos 1;
  fingerprint_version = pos 1;
  snapshot = state;
  commitments = proposed;
}

abbrev pub commitments_of : List PlannedCommitment → List EscalationCommitment
commitments_of = map (λ (p : PlannedCommitment). p.commitment)

module _ {World : Type 0} (sha : Sha256) (services : Services World)
    (freeze : World → AlertGroup → Bool → World × Result Bytes RenderSnapshot)
    (cfg : FirehoseChannels) where
  abbrev frozen : Result Bytes RenderSnapshot → Result PlanError RenderSnapshot
  frozen (ok state) = ok state
  frozen (err e) = err (not_frozen e)

  abbrev admitted : Result AdmitError Admission → Result PlanError Admission
  admitted (ok a) = ok a
  admitted (err e) = err (not_admitted e)

  abbrev frozen_for : AlertGroup → TeamRead → Plan World RenderSnapshot
  frozen_for ag read s =
      let (w, state) = freeze s.world ag (onboarded read) in (record s { world = w }, frozen state)

  abbrev batch_of :
      AlertGroup
      → TeamOnCallResult
      → Bytes
      → Option EscalationPolicy
      → Draft
      → Admission
      → Plan World Batch
  batch_of ag team_on_call policy_id found d admission s =
      let (s', on_duty) = on_call_record services team_on_call s in
      (
        s',
        ok (record {
          admission = admission;
          source_version = ag.render_source_version;
          policy_id = policy_id;
          policy_snapshot = policy_record policy_id found d.planned;
          on_call_snapshot = on_duty;
          unpromised = d.unpromised;
        }),
      )

  abbrev planned_with :
      AlertGroup
      → TeamOnCallResult
      → Bytes
      → Option EscalationPolicy
      → RenderSnapshot
      → Draft
      → Plan World Batch
  planned_with ag team_on_call routed_to found state d s =
      ((λ t. (t, admitted (admit sha (escalation_batch state (commitments_of d.planned)))))
          >>= batch_of ag team_on_call (effective_policy found routed_to) found d)
        s

  -- `buildPlan`
  unfoldable pub build_plan : AlertGroup → TeamOnCallResult → Plan World Batch
  build_plan ag team_on_call = do
    read ← team_for services ag.team_id
    found ← policy_for services (route read ag.severity)
    state ← frozen_for ag read
    d ← commitments services team_on_call (firehose_channel cfg ag.severity) found
    planned_with ag team_on_call (route read ag.severity) found state d

abbrev pub fresh : {World : Type 0} → World → Reading World
fresh w = record { world = w; known = λ id. none; team_users = none; by_id = λ id. none }
