-- ===== src/Outbound/Examples.antt =====
-- Commitments, decisions and generations at concrete inputs.
use tokayops.Prelude.{
  ℕ, true, false, not, ◌||◌, ◌≡◌, inl, inr, none, some, [], ◌∷◌, ok, err, refl, arith, Result,
}
use tokayops.Outbound.Kinds.{Kind, new_effect_door}
use tokayops.Outbound.Intent.{
  Intent, Status, Form, TargetKind, CompletionMode, AmbiguityPolicy, Outcome, PreparationOutcome,
  AttemptKind, terminal, is_accepted,
}
use tokayops.Outbound.Machine.Types.{
  Input, Transition, Trigger, Decision, Verdict, Invalid, no_effects,
}
use tokayops.Outbound.Machine.Attempts.{decide_finish}
use tokayops.Outbound.Machine.Verdicts.{decide_verdict}
use tokayops.Outbound.Machine.Operator.{decide_operator}
use tokayops.Outbound.Machine.{decide}
use tokayops.Outbound.Leases.{Released, decide_sending-Released}
use tokayops.Outbound.Endings.{decided, History, start, next, History-IsFinal, History-ended}
use tokayops.Outbound.Evidence.{Evidence, decide_applied-Evidence, Booked, decide-Booked}
use tokayops.Outbound.Queueing.{Renewed, decide_new_generation-Renewed}
use tokayops.Outbound.Withdrawal.{is_canceled, decide_withdrawn}
use tokayops.Outbound.Progress.{
  landing, recovered, Lands, decide_finish_total, decide_recover-Lands,
}
use tokayops.Outbound.Receipt.{
  Effect, EffectState, GenerationFacts, known, ends, same_state, generation_verdict, fold_effect,
}
use tokayops.Outbound.Receipt.Fold.{fold_effect_unchanged}
use tokayops.Outbound.Receipt.Table.{
  generation_verdict-table, NothingRings, decide_new_generation-NothingRings,
}

-- A direct message about an alert, in flight.
abbrev message : Intent
message = record {
  id = "int_1";
  batch_id = "batch_1";
  alert_group_id = "ag_1";
  family = "notification";
  key_kind = Kind.escalation;
  provider = "slack";
  target_kind = TargetKind.user;
  target_ref = "usr_1";
  form = Form.one_shot;
  completion_mode = CompletionMode.on_acceptance;
  ambiguity_policy = AmbiguityPolicy.retry;
  status = Status.sending;
  generation_no = 1;
  attempts_in_generation = 1;
  failure_streak = 0;
  bound_endpoint = "U1";
  generation_bound = true;
  desired_revision = 1;
  applied_revision = none;
  final_revision_applied = false;
  has_receipt = false;
  recipient_erased = false;
  cancellation_requested = false;
  accepted_duplicate_risk = false;
  obligation_withdrawn = false;
  not_before = 0;
  next_attempt_at = 0;
  expires_at = none;
  created_at = 0;
  updated_at = 0;
  parent_id = "";
  parent = none;
  awaits_intent_ids = [];
}

-- The card in a channel, edited as the alert changes.
abbrev card : Intent
card = record message {
  form = Form.editable;
  target_kind = TargetKind.channel;
  desired_revision = 3;
}

-- A phone call that rings after the request that made it.
abbrev call : Intent
call = record message {
  provider = "phone";
  completion_mode = CompletionMode.on_provider_receipt;
  status = Status.awaiting_receipt;
}

-- An event owed to a subscriber, whose deadline passed.
abbrev event : Intent
event = record message {
  family = "webhook";
  key_kind = Kind.webhook_event;
  target_kind = TargetKind.subscriber;
  status = Status.permanent_failed;
}

abbrev answered : Input
answered = record {
  intent = message;
  trigger = Trigger.finish_attempt;
  preparation = PreparationOutcome.unlisted "";
  outcome = Outcome.accepted;
  attempt_revision = some 3;
  attempt_is_final = false;
  expired = false;
  verdict = Verdict.unlisted "";
  doubt_in_generation = false;
  decision = Decision.unlisted "";
  last_attempt_kind = AttemptKind.create;
  ambiguous_in_generation = false;
  accepted_duplicate_risk = false;
  resource_loss_confirmed = false;
  new_expiry_provided = false;
}

abbrev card_answered : Input
card_answered = record answered { intent = card }

abbrev withdrawn : Input
withdrawn = record answered {
  intent = record message { cancellation_requested = true };
  outcome = Outcome.retryable_rejection;
}

abbrev prepared : Input
prepared = record answered {
  intent = record message { status = Status.pending; generation_bound = false };
  trigger = Trigger.preparation;
  preparation = PreparationOutcome.ready;
}

abbrev revived : Input
revived = record answered {
  intent = record message { status = Status.permanent_failed };
  trigger = Trigger.operator;
  decision = Decision.retry_new_generation;
}

abbrev dropped : Input
dropped = record answered { intent = event; trigger = Trigger.operator; decision = Decision.cancel }

abbrev failed_call : Input
failed_call = record answered {
  intent = call;
  trigger = Trigger.verdict;
  verdict = Verdict.not_placed;
}

abbrev lost : Input
lost = record answered { trigger = Trigger.recover_stale }

-- The transition of a decision that was made.
abbrev transition_of : Result Invalid Transition → Transition
transition_of (ok t) = t
transition_of (err e) = record { to = Status.unlisted ""; effects = no_effects; row = "" }

decide_sending-Released_example : Released (transition_of (decide answered))
unfolding decide decide_finish
decide_sending-Released_example = decide_sending-Released answered refl refl

canceled_event : History Kind.webhook_event Status.permanent_failed Status.canceled
unfolding decide decide_operator
canceled_event = next start (decided dropped _ refl refl refl refl)

History-IsFinal_example : Status.canceled ≡ Status.canceled
History-IsFinal_example =
    History-IsFinal Kind.webhook_event Status.canceled _ (inr (inl refl)) start

History-ended_example : terminal Status.canceled ≡ true
unfolding new_effect_door terminal
History-ended_example =
    History-ended Kind.webhook_event Status.permanent_failed Status.canceled (λ e. cc) refl
      canceled_event

decide_applied-Evidence_example : Evidence answered (transition_of (decide answered)).effects.proof
unfolding decide decide_finish
decide_applied-Evidence_example = decide_applied-Evidence answered refl refl

decide-Booked_example : Booked answered (transition_of (decide answered))
unfolding decide decide_finish
decide-Booked_example = decide-Booked answered refl

decide_new_generation-Renewed_example : Renewed revived (transition_of (decide revived))
unfolding decide decide_operator
decide_new_generation-Renewed_example = decide_new_generation-Renewed revived refl refl

decide_withdrawn_example :
    let t = transition_of (decide withdrawn) in
    (is_canceled t.to ≡ not (is_accepted withdrawn.outcome))
    × ((t.effects.apply_revision || t.effects.await_receipt) ≡ is_accepted withdrawn.outcome)
    × (t.effects.withdraw_obligation ≡ t.effects.await_receipt)
unfolding decide decide_finish
decide_withdrawn_example = decide_withdrawn withdrawn refl refl refl

decide_finish_total_example :
    (t : Transition) × (decide card_answered ≡ ok t)
    × Released t
    × (landing card_answered ≡ some t.to)
decide_finish_total_example = decide_finish_total card_answered (ground arith) refl refl refl

decide_recover-Lands_example : Lands (decide lost) (recovered lost)
decide_recover-Lands_example = decide_recover-Lands lost refl refl

-- A call of this generation that did not take place, and an older one that was taken back.
abbrev effect : ℕ → EffectState → Effect
effect generation state = record {
  attempt_id = "att";
  generation = generation;
  external_ref = "CA";
  state = state;
  last_sequence = some 1;
}

abbrev not_reached : GenerationFacts
not_reached = record {
  effects = effect 2 EffectState.not_placed ∷ effect 1 EffectState.withdrawn ∷ [];
  generation = 2;
  attempt_open = false;
  unaccounted = 0;
  deadline_passed = true;
}

abbrev silent : GenerationFacts
silent = record not_reached { effects = effect 2 EffectState.in_progress ∷ [] }

fold_effect_unchanged_example :
    (fold_effect (effect 1 EffectState.happened) EffectState.in_progress (some 4)).0
    ≡ effect 1 EffectState.happened
unfolding fold_effect
fold_effect_unchanged_example =
    fold_effect_unchanged (effect 1 EffectState.happened) EffectState.in_progress (some 4) refl

generation_verdict-table_example : generation_verdict not_reached ≡ ok Verdict.not_placed
unfolding known ends same_state
generation_verdict-table_example = generation_verdict-table not_reached refl

decide_new_generation-NothingRings_example : NothingRings not_reached
unfolding decide decide_verdict generation_verdict
decide_new_generation-NothingRings_example =
    decide_new_generation-NothingRings not_reached failed_call refl refl refl refl
