-- ===== src/Engine/Tick.antt =====
-- internal/engine/engine.go: one tick over the groups that nobody has been paged for
-- (`ProcessNewAlertGroups`). Its log and its counters are what the tick says of each group, and the
-- tally that it reports at the end.
pub mod Deferral
use tokayops.Prelude.{Bool, ℕ, ◌+◌, Option, none, some, List, [], ◌∷◌, Bytes, Result, ok, err}
use tokayops.Outbound.Keys.Digest.{Sha256}
use tokayops.Outbound.Keys.Material.{RenderSnapshot}
use tokayops.Engine.Types.{
  TeamOnCallResult, Unavailable, PlanError, unavailable, not_frozen, not_admitted, Services,
  Reading,
}
use tokayops.Engine.Plan.{AlertGroup, FirehoseChannels, Batch, build_plan, fresh}

-- internal/outbound/commands.go
pub data SubmitOutcome : Type 0 where
  created source_changed existing conflict group_not_admitted recipient_erased : SubmitOutcome

pub data GroupOutcome : Type 0 where
  deferred : Unavailable → GroupOutcome
  not_built : PlanError → GroupOutcome
  not_submitted : Bytes → GroupOutcome
  moved : GroupOutcome
  answered : SubmitOutcome → GroupOutcome

-- `deferred`, `deferredFirst` and `deferredErr`
pub record Tally : Type 0 where
  pub deferred : ℕ
  pub first : Bytes
  pub error : Option Unavailable

abbrev pub answer_of : {World : Type 0} → World × Result Bytes SubmitOutcome → World × GroupOutcome
answer_of (w, err e) = (w, not_submitted e)
answer_of (w, ok source_changed) = (w, moved)
answer_of (w, ok other) = (w, answered other)

abbrev first_deferred : Option Unavailable → Bytes → Unavailable → Tally → Tally
first_deferred none id u t = record t { deferred = t.deferred + 1; first = id; error = some u }
first_deferred (some e) id u t = record t { deferred = t.deferred + 1 }

unfoldable pub tally : AlertGroup → GroupOutcome → Tally → Tally
tally ag (deferred u) t = first_deferred t.error ag.id u t
tally ag _ t = t

module _ {World : Type 0} (sha : Sha256) (services : Services World)
    (freeze : World → AlertGroup → Bool → World × Result Bytes RenderSnapshot)
    (cfg : FirehoseChannels) (team_read : World → Bytes → World × TeamOnCallResult)
    (submit : World → Batch → World × Result Bytes SubmitOutcome) where
  abbrev pub submitted : Reading World × Result PlanError Batch → World × GroupOutcome
  submitted (s, err (unavailable u)) = (s.world, deferred u)
  submitted (s, err (not_frozen e)) = (s.world, not_built (not_frozen e))
  submitted (s, err (not_admitted e)) = (s.world, not_built (not_admitted e))
  submitted (s, ok batch) = answer_of (submit s.world batch)

  -- Who is on duty is read once, for the plan and for the record.
  unfoldable pub process_group : World → AlertGroup → World × GroupOutcome
  process_group w ag =
      let (read, team_on_call) = team_read w ag.team_id in
      submitted (build_plan sha services freeze cfg ag team_on_call (fresh read))

  abbrev pub process_groups : World → List AlertGroup → Tally → World × Tally × List GroupOutcome
  process_groups w [] t = (w, t, [])
  process_groups w (ag ∷ ags) t =
      let (w', outcome) = process_group w ag in
      let (last, total, outcomes) = process_groups w' ags (tally ag outcome t) in
      (last, total, outcome ∷ outcomes)

  abbrev pub process_sources :
      World × Result Bytes (List AlertGroup) → World × Tally × List GroupOutcome
  process_sources (w, err e) = (w, record { deferred = 0; first = []; error = none }, [])
  process_sources (w, ok ags) =
      process_groups w ags (record { deferred = 0; first = []; error = none })

  -- `ProcessNewAlertGroups`
  unfoldable pub process_new_alert_groups :
      (World → World × Result Bytes (List AlertGroup)) → World → World × Tally × List GroupOutcome
  process_new_alert_groups sources w = process_sources (sources w)
