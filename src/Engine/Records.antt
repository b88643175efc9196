-- ===== src/Engine/Records.antt =====
-- internal/engine/plan.go: what is recorded of a plan on its group: who was on duty when the alert
-- arrived (`onCallSnapshot`) and the policy with its steps (`policySnapshot`). Records that the code
-- stores as JSON are the records.
use tokayops.Prelude.{
  ℕ, Bool, if◌then◌else◌, Option, none, some, List, [], ◌∷◌, ℤ, Bytes, Result, ok, err,
}
use tokayops.Outbound.Keys.Grammar.{target_text}
use tokayops.Outbound.Keys.Commitment.{is_satellite}
use tokayops.Engine.Types.{
  User, EscalationPolicy, LayerOnCall, OnCall, TeamOnCallResult, StoreError, Services, Reading,
}
use tokayops.Engine.Roster.{people}
use tokayops.Engine.Steps.{PlannedCommitment}

-- `OnCallResult`
pub record OnCallRecord : Type 0 where
  pub l1_users : List User
  pub l2_user : Option User
  pub l1_since : Option ℕ
  pub l1_until : Option ℕ
  pub source : Bytes

pub record StepRecord : Type 0 where
  pub provider : Bytes
  pub target_kind : Bytes
  pub target_type : Bytes
  pub target_id : Bytes
  pub is_firehose : Bool
  pub stage_index : ℤ

-- `EscalationPolicySnapshot`
pub record PolicyRecord : Type 0 where
  pub policy_id : Bytes
  pub name : Bytes
  pub steps : List StepRecord

abbrev name_of : Option EscalationPolicy → Bytes
name_of none = []
name_of (some p) = p.name

abbrev step_record : PlannedCommitment → StepRecord
step_record p =
    let c = p.commitment in
    record {
      provider = c.provider;
      target_kind = p.target_kind;
      target_type = target_text c.target.kind;
      target_id = c.target.ref;
      is_firehose = p.firehose;
      stage_index = c.slot.index;
    }

-- Satellites are no steps.
abbrev step_records : List PlannedCommitment → List StepRecord
step_records [] = []
step_records (p ∷ ps) =
    let rest = step_records ps in
    if is_satellite p.commitment.target.kind then rest else step_record p ∷ rest

-- `policySnapshot`
unfoldable pub policy_record :
    Bytes → Option EscalationPolicy → List PlannedCommitment → PolicyRecord
policy_record policy_id found planned = record {
  policy_id = policy_id;
  name = name_of found;
  steps = step_records planned;
}

abbrev pub first_only : List Bytes → List Bytes
first_only [] = []
first_only (id ∷ ids) = id ∷ []

abbrev pub first_of : List User → Option User
first_of [] = none
first_of (u ∷ us) = some u

abbrev pub second_ids : Option LayerOnCall → List Bytes
second_ids none = []
second_ids (some layer) = first_only layer.user_ids

abbrev pub with_second :
    {World : Type 0}
    → OnCallRecord
    → Reading World × Result StoreError (List User)
    → Reading World × Option OnCallRecord
with_second out (s, err e) = (s, none)
with_second out (s, ok us) = (s, some (record out { l2_user = first_of us }))

abbrev pub nobody : OnCallRecord
nobody = record { l1_users = []; l2_user = none; l1_since = none; l1_until = none; source = [] }

abbrev pub first_layer : LayerOnCall → List User → OnCallRecord
first_layer layer us = record {
  l1_users = us;
  l2_user = none;
  l1_since = some layer.assignment_start;
  l1_until = some layer.assignment_end;
  source = layer.source;
}

module _ {World : Type 0} (services : Services World) where
  abbrev pub second_layer :
      OnCallRecord → Option LayerOnCall → Reading World → Reading World × Option OnCallRecord
  second_layer out layer s = with_second out (people services (second_ids layer) s)

  abbrev pub with_first :
      OnCall
      → LayerOnCall
      → Reading World × Result StoreError (List User)
      → Reading World × Option OnCallRecord
  with_first on_call layer (s, err e) = (s, none)
  with_first on_call layer (s, ok us) = second_layer (first_layer layer us) on_call.l2 s

  abbrev pub recorded :
      OnCall → Option LayerOnCall → Reading World → Reading World × Option OnCallRecord
  recorded on_call none s = second_layer nobody on_call.l2 s
  recorded on_call (some layer) s = with_first on_call layer (people services layer.user_ids s)

  -- `onCallSnapshot`
  unfoldable pub on_call_record :
      TeamOnCallResult → Reading World → Reading World × Option OnCallRecord
  on_call_record (err e) s = (s, none)
  on_call_record (ok t) s = recorded t.on_call t.on_call.l1 s
