-- ===== src/Outbound/Machine/Types.antt =====
-- The input and the answer of the state machine, and its refusals (internal/outbound/machine.go).
use tokayops.Prelude.{String, ℕ, Bool, false, Option}
use tokayops.Outbound.Kinds.{Kind, EffectDoor, KindError}
use tokayops.Outbound.Intent.{
  Intent, Status, Outcome, AmbiguityPolicy, CompletionMode, Proof, PreparationOutcome, AttemptKind,
}

pub data Trigger : Type 0 where
  preparation finish_attempt recover_stale operator verdict : Trigger
  unlisted : String → Trigger

pub data Decision : Type 0 where
  assume_accepted cancel retry_current_generation retry_new_generation : Decision
  unlisted : String → Decision

pub data TimelineKind : Type 0 where
  none sent provider_confirmed handed_over not_placed no_contact assumed_accepted : TimelineKind
  failed expired canceled sent_alongside_cancel lease_lost : TimelineKind

-- What the effects of a commitment add up to (receipt.go).
pub data Verdict : Type 0 where
  happened not_placed unknown still_going : Verdict
  unlisted : String → Verdict

pub record Input : Type 0 where
  pub intent : Intent
  pub trigger : Trigger
  pub preparation : PreparationOutcome
  pub outcome : Outcome
  pub attempt_revision : Option ℕ
  pub attempt_is_final : Bool
  pub expired : Bool
  pub verdict : Verdict
  pub doubt_in_generation : Bool
  pub decision : Decision
  pub last_attempt_kind : AttemptKind
  pub ambiguous_in_generation : Bool
  pub accepted_duplicate_risk : Bool
  pub resource_loss_confirmed : Bool
  pub new_expiry_provided : Bool

pub record Effects : Type 0 where
  pub open_generation : Bool
  pub new_generation : Bool
  pub clear_lease : Bool
  pub clear_current_attempt : Bool
  pub consume_cancellation : Bool
  pub schedule_retry : Bool
  pub schedule_now : Bool
  pub reset_failure_streak : Bool
  pub bump_failure_streak : Bool
  pub proof : Proof
  pub apply_revision : Bool
  pub store_receipt : Bool
  pub trigger_group : Bool
  pub record_duplicate_risk : Bool
  pub raise_failure_signal : Bool
  pub await_receipt : Bool
  pub withdraw_obligation : Bool
  pub timeline : TimelineKind

-- The zero value of `Effects`.
abbrev pub no_effects : Effects
no_effects = record {
  open_generation = false;
  new_generation = false;
  clear_lease = false;
  clear_current_attempt = false;
  consume_cancellation = false;
  schedule_retry = false;
  schedule_now = false;
  reset_failure_streak = false;
  bump_failure_streak = false;
  proof = Proof.unlisted "";
  apply_revision = false;
  store_receipt = false;
  trigger_group = false;
  record_duplicate_risk = false;
  raise_failure_signal = false;
  await_receipt = false;
  withdraw_obligation = false;
  timeline = TimelineKind.none;
}

pub record Transition : Type 0 where
  pub to : Status
  pub effects : Effects
  pub row : String

-- `ErrInvalidTransition`: a constructor for each text that the code wraps it with.
pub data Invalid : Type 0 where
  unknown_trigger : Trigger → Invalid
  preparation_from : Status → Invalid
  unknown_preparation : PreparationOutcome → Invalid
  finishing_from : Status → Invalid
  unknown_outcome : Outcome → Invalid
  canceled_without_request : Invalid
  unknown_ambiguity_policy : AmbiguityPolicy → Invalid
  assume_only_one_shot : Invalid
  recovering_from : Status → Invalid
  unknown_completion_mode : CompletionMode → Invalid
  waits_only_one_shot : Invalid
  verdict_not_awaited : Invalid
  verdict_in : Status → Invalid
  unknown_verdict : Verdict → Invalid
  request_still_open : Verdict → Invalid
  left_to_repeat : Verdict → Invalid
  unknown_proof : Proof → Invalid
  editable_without_revision : Invalid
  no_decision_applies_to : Status → Invalid
  unknown_decision : Decision → Invalid
  assume_would_be_false : Status → Invalid
  assume_needs_receipt : Invalid
  already_ended : Invalid
  needs_new_deadline : Invalid
  needs_create_or_loss : Invalid
  needs_duplicate_risk : Invalid
  kind_refused : KindError → Invalid
  other_door : Kind → EffectDoor → Invalid
