-- ===== src/Engine/Steps.antt =====
-- internal/engine/plan.go: the firehose and the steps of a policy as promises (`commitments`).
pub mod Loop
pub mod Distinct
pub mod Once
pub mod Names
pub mod Asked
pub mod Backing
pub mod Owed
pub mod Cards
pub mod Accepted
pub mod Accompanied
use tokayops.Prelude.{
  ℕ, Bool, true, false, not, ◌&&◌, ◌||◌, if◌then◌else◌, Option, none, some, List, [], ◌∷◌, ◌++◌,
  map, any, ℤ, pos, Bytes, codes, bytes_eq, is_blank,
}
use tokayops.Outbound.Intent.{TargetKind, CompletionMode, AmbiguityPolicy}
use tokayops.Outbound.Keys.Grammar.{SlotKind, slot_text, target_text, itoa, Slot, Target}
use tokayops.Outbound.Keys.Fingerprint.{TimingKind, TimingSpec}
use tokayops.Outbound.Keys.Commitment.{EscalationCommitment, provider_slack}
use tokayops.Engine.Types.{
  User, EscalationStep, EscalationPolicy, TeamOnCallResult, Services, Plan, pure, ◌>>=◌, add_int64,
  mul_int64,
}
use tokayops.Engine.Resolver.{users_for}

pub record PlannedCommitment : Type 0 where
  pub commitment : EscalationCommitment
  pub target_kind : Bytes
  pub firehose : Bool

pub data UnpromisedReason : Type 0 where
  nobody_on_call no_target no_channel duplicate : UnpromisedReason

-- The sentence of `Detail` is left out.
pub record UnpromisedStep : Type 0 where
  pub step : Bytes
  pub reason : UnpromisedReason

abbrev pub schedule_type : Bytes
schedule_type = codes "schedule"

abbrev pub provider_phone : Bytes
provider_phone = codes "phone"

-- internal/outbound/validate.go: `DeliversThrough`
unfoldable pub delivers_through : Bytes → Bool
delivers_through provider =
    bytes_eq provider provider_slack
    || (bytes_eq provider (codes "telegram") || bytes_eq provider provider_phone)

describe_target : EscalationStep → Bytes
describe_target step =
    if bytes_eq step.target_type schedule_type
    then codes "schedule " ++ step.target_id
    else if is_blank step.target_id
    then step.target_type ++ codes " with no target"
    else step.target_type ++ (codes " " ++ step.target_id)

unfoldable pub describe_step : EscalationStep → Bytes
unfolding describe_target
describe_step step = itoa step.step_index ++ (codes " (" ++ (describe_target step ++ codes ")"))

-- `slotTarget`: "%s/%d/%s/%s/%s"
unfoldable pub slot_target : Slot → Bytes → Target → Bytes
slot_target slot provider target =
    slot_text slot.kind
    ++ b'/'
      ∷ (itoa slot.index
          ++ b'/' ∷ (provider ++ b'/' ∷ (target_text target.kind ++ b'/' ∷ target.ref)))

abbrev pub after_admission : ℤ → TimingSpec
after_admission offset = record {
  kind = TimingKind.relative_to_admission;
  offset = offset;
  at = none;
  max_age = pos 0;
}

abbrev pub satellite_at : PlannedCommitment → TargetKind → Bool → PlannedCommitment
satellite_at card kind edited =
    let c = card.commitment in
    record {
      commitment = record {
        slot = c.slot;
        provider = c.provider;
        target = record { kind = kind; ref = c.target.ref };
        editable = edited;
        message_override = none;
        stop_on_failure = false;
        timing = c.timing;
        expiry = none;
        completion_mode = CompletionMode.on_acceptance;
        ambiguity_policy = AmbiguityPolicy.retry;
      };
      target_kind = target_text kind;
      firehose = card.firehose;
    }

abbrev pub is_channel : TargetKind → Bool
is_channel TargetKind.channel = true
is_channel _ = false

abbrev pub has_none : EscalationCommitment → Bool
has_none c =
    not (bytes_eq c.provider provider_slack) || (not (is_channel c.target.kind) || not c.editable)

unfoldable pub satellites_of : PlannedCommitment → List PlannedCommitment
satellites_of card =
    if has_none card.commitment
    then []
    else satellite_at card TargetKind.thread true
      ∷ satellite_at card TargetKind.thread_reply false
      ∷ []

-- The card and what follows it.
unfoldable pub block : PlannedCommitment → List PlannedCommitment
block card = card ∷ satellites_of card

pub firehose_card : Bytes → PlannedCommitment
firehose_card channel = record {
  commitment = record {
    slot = record { kind = SlotKind.firehose; index = pos 0 };
    provider = provider_slack;
    target = record { kind = TargetKind.channel; ref = channel };
    editable = true;
    message_override = none;
    stop_on_failure = false;
    timing = after_admission (pos 0);
    expiry = none;
    completion_mode = CompletionMode.on_acceptance;
    ambiguity_policy = AmbiguityPolicy.retry;
  };
  target_kind = codes "channel";
  firehose = true;
}

-- `callExpiry`, in nanoseconds
abbrev call_expiry : ℤ
call_expiry = pos 600000000000

unfoldable pub call_of : EscalationCommitment → ℤ → EscalationCommitment
call_of c offset = record c {
  editable = false;
  message_override = none;
  completion_mode = CompletionMode.on_provider_receipt;
  expiry = some (after_admission (add_int64 offset call_expiry));
}

abbrev optional_text : Bytes → Option Bytes
optional_text [] = none
optional_text (b ∷ text) = some (b ∷ text)

abbrev pub slot_of : EscalationStep → Slot
slot_of step = record { kind = SlotKind.policy; index = step.step_index }

-- The commitment of a step to one recipient.
unfoldable pub promise : EscalationStep → ℤ → Target → EscalationCommitment
promise step offset target = record {
  slot = slot_of step;
  provider = step.provider;
  target = target;
  editable = bytes_eq step.target_kind (codes "channel");
  message_override = optional_text step.message;
  stop_on_failure = not step.continue_on_failure;
  timing = after_admission offset;
  expiry = none;
  completion_mode = CompletionMode.on_acceptance;
  ambiguity_policy = AmbiguityPolicy.retry;
}

unfoldable pub step_card : EscalationStep → ℤ → Target → PlannedCommitment
step_card step offset target =
    let c = promise step offset target in
    record {
      commitment = if bytes_eq step.provider provider_phone then call_of c offset else c;
      target_kind = step.target_kind;
      firehose = false;
    }

-- The variables of the loop over the steps.
pub record Draft : Type 0 where
  pub planned : List PlannedCommitment
  pub unpromised : List UnpromisedStep
  pub seen : List Bytes

abbrev pub unpromise : EscalationStep → UnpromisedReason → Draft → Draft
unpromise step reason d = record d {
  unpromised = d.unpromised ++ record { step = describe_step step; reason = reason } ∷ [];
}

unfoldable pub promise_to : EscalationStep → ℤ → Target → Draft → Draft
promise_to step offset target d =
    let key = slot_target (slot_of step) step.provider target in
    if any (bytes_eq key) d.seen then unpromise step duplicate d else record d {
      planned = d.planned ++ block (step_card step offset target);
      seen = key ∷ d.seen;
    }

abbrev pub promise_all : EscalationStep → ℤ → List Target → Draft → Draft
promise_all step offset [] d = d
promise_all step offset (target ∷ targets) d =
    promise_all step offset targets (promise_to step offset target d)

-- A step that named nobody produces no commitment, and says which of the two happened.
unfoldable pub commit_step : EscalationStep → ℤ → List Target → Draft → Draft
commit_step step offset [] d =
    unpromise step (if bytes_eq step.target_type schedule_type then nobody_on_call else no_target) d
commit_step step offset (target ∷ targets) d = promise_all step offset (target ∷ targets) d

abbrev pub user_target : User → Target
user_target u = record { kind = TargetKind.user; ref = u.id }

abbrev pub named_target : EscalationStep → List Target
named_target step =
    if is_blank step.target_id
    then []
    else record {
      kind =
          if bytes_eq step.target_type (codes "channel")
          then TargetKind.channel
          else TargetKind.user;
      ref = step.target_id;
    }
      ∷ []

-- `time.Duration(step.DelaySeconds) * time.Second`
abbrev pub delay_of : EscalationStep → ℤ
delay_of step = mul_int64 step.delay_seconds (pos 1000000000)

abbrev pub empty_draft : Draft
empty_draft = record { planned = []; unpromised = []; seen = [] }

unfoldable pub start_draft : Bytes → Draft
unfolding firehose_card
start_draft channel =
    if is_blank channel
    then empty_draft
    else record empty_draft { planned = block (firehose_card channel) }

abbrev pub steps_of : Option EscalationPolicy → List (Option EscalationStep)
steps_of none = []
steps_of (some policy) = policy.steps

module _ {World : Type 0} (services : Services World) (team : TeamOnCallResult) where
  unfoldable pub recipients : EscalationStep → Plan World (List Target)
  recipients step =
      if bytes_eq step.target_type schedule_type
      then (users_for services team step.target_id >>= λ us. pure (map user_target us))
      else pure (named_target step)

  unfoldable pub plan_step : EscalationStep → ℤ → Draft → Plan World Draft
  plan_step step offset d =
      if delivers_through step.provider
      then (recipients step >>= λ targets. pure (commit_step step offset targets d))
      else pure (unpromise step no_channel d)

  -- The loop over the steps; the offset is that of the steps before.
  abbrev pub plan_steps : List (Option EscalationStep) → ℤ → Draft → Plan World Draft
  plan_steps [] offset d = pure d
  plan_steps (none ∷ steps) offset d = plan_steps steps offset d
  plan_steps (some step ∷ steps) offset d =
      let due = add_int64 offset (delay_of step) in plan_step step due d >>= plan_steps steps due

  -- `commitments`
  unfoldable pub commitments : Bytes → Option EscalationPolicy → Plan World Draft
  commitments firehose policy = plan_steps (steps_of policy) (pos 0) (start_draft firehose)
