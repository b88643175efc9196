-- ===== src/Outbound/Evidence.antt =====
-- How a success is known, and what is written with it.
use tokayops.Prelude.{Bool, true, false, ◌≡◌, ◌⊎◌, ◌&&◌, not, ◌≤◌, ok, some, ℕ, arith}
use tokayops.Outbound.Intent.{Status, Outcome, AmbiguityPolicy, Form, Proof, satellite}
use tokayops.Outbound.Machine.Types.{Input, Transition, Trigger, Decision, Verdict}
use tokayops.Outbound.Machine.Attempts.{decide_preparation, decide_finish, decide_recover}
use tokayops.Outbound.Machine.Verdicts.{decide_verdict}
use tokayops.Outbound.Machine.Operator.{
  operator_assume, operator_cancel, operator_by, retried, renewed, operator_retry_current-eq-ok,
  operator_retry_new-eq-ok, decide_operator, decide_operator-eq-ok,
}
use tokayops.Outbound.Machine.{decide, decide_by, hush, decide-eq-ok}

-- The doubt that the policy resolves by itself: a call nobody answered for, of a one-shot message.
abbrev pub AssumedByPolicy : Input → Type 0
AssumedByPolicy i =
    (i.intent.ambiguity_policy ≡ AmbiguityPolicy.assume_accepted)
    × (i.intent.form ≡ Form.one_shot)
    × ((i.trigger ≡ Trigger.recover_stale)
        ⊎ (i.trigger ≡ Trigger.finish_attempt) × (i.outcome ≡ Outcome.ambiguous))

-- What may stand behind a proof.
abbrev pub Evidence : Input → Proof → Type 0
Evidence i Proof.accepted = (i.trigger ≡ Trigger.finish_attempt) × (i.outcome ≡ Outcome.accepted)
Evidence i Proof.provider_confirmed = (i.trigger ≡ Trigger.verdict) × (i.verdict ≡ Verdict.happened)
Evidence i Proof.assumed =
    AssumedByPolicy i
    ⊎ (i.trigger ≡ Trigger.verdict)
      × (i.verdict ≡ Verdict.unknown)
      × (i.intent.status ≡ Status.awaiting_receipt)
    ⊎ (i.trigger ≡ Trigger.operator)
      × (i.decision ≡ Decision.assume_accepted)
      × (i.intent.status ≡ Status.manual_review)
Evidence i (Proof.unlisted s) = ⊥

-- A revision is applied only on evidence: an accepted call, a provider's confirmation, or one of the
-- three ways to assume it - the policy of a one-shot message in doubt, the end of the wait for the
-- provider's word, or an operator's decision in `manual_review`.
pub decide_applied-Evidence :
    (i : Input) {t : Transition}
    → decide i ≡ ok t
    → t.effects.apply_revision ≡ true
    → Evidence i t.effects.proof
unfolding decide decide_preparation decide_finish decide_recover decide_verdict decide_operator
decide_applied-Evidence i h a = ground arith

abbrev pub is_assumed : Proof → Bool
is_assumed Proof.assumed = true
is_assumed _ = false

abbrev pub is_done : Status → Bool
is_done Status.succeeded = true
is_done Status.idle = true
is_done _ = false

-- What comes with an applied revision, and only with one.
pub record Booked (i : Input) (t : Transition) : Type 0 where
  pub done : (is_done t.to && not t.effects.apply_revision) ≡ false
  pub group : t.effects.trigger_group ≡ (t.effects.apply_revision && not (satellite i.intent))
  pub reset : (t.effects.apply_revision && not t.effects.reset_failure_streak) ≡ false
  pub receipt : (t.effects.apply_revision && not t.effects.store_receipt) ≡ false
  pub risk : (is_assumed t.effects.proof && not t.effects.record_duplicate_risk) ≡ false
  pub streak : (t.effects.reset_failure_streak && t.effects.bump_failure_streak) ≡ false

-- The same of a handler's answer, before a satellite is hushed.
record BookedAlone (t : Transition) : Type 0 where
  done : (is_done t.to && not t.effects.apply_revision) ≡ false
  group : t.effects.trigger_group ≡ t.effects.apply_revision
  reset : (t.effects.apply_revision && not t.effects.reset_failure_streak) ≡ false
  receipt : (t.effects.apply_revision && not t.effects.store_receipt) ≡ false
  risk : (is_assumed t.effects.proof && not t.effects.record_duplicate_risk) ≡ false
  streak : (t.effects.reset_failure_streak && t.effects.bump_failure_streak) ≡ false

BookedAlone-operator :
    (d : Decision) (i : Input) {t : Transition} → operator_by d i ≡ ok t → BookedAlone t
unfolding operator_assume operator_cancel retried renewed
BookedAlone-operator Decision.retry_current_generation i h =
    ground (arith, operator_retry_current-eq-ok i h)
BookedAlone-operator Decision.retry_new_generation i h =
    ground (arith, operator_retry_new-eq-ok i h)
BookedAlone-operator _ i h = ground arith

BookedAlone-by : (k : Trigger) (i : Input) {t : Transition} → decide_by k i ≡ ok t → BookedAlone t
unfolding decide_preparation decide_finish decide_recover decide_verdict
BookedAlone-by Trigger.operator i h =
    BookedAlone-operator i.decision i (decide_operator-eq-ok i h).1
BookedAlone-by _ i h = ground arith

-- A commitment comes to rest in `succeeded` or `idle` only with a revision applied; the group is
-- moved exactly when one is applied and the commitment is no satellite; the streak of failures is
-- cleared and the receipt stored with it; an assumed success has its duplicate risk recorded; and no
-- decision both clears the streak and lengthens it.
pub decide-Booked : (i : Input) {t : Transition} → decide i ≡ ok t → Booked i t
unfolding satellite hush
decide-Booked i h =
    let (u, e, same) = decide-eq-ok i h in ground (arith, BookedAlone-by i.trigger i {t = u} e)

-- The attempt applied a revision that is not behind the desired one.
pub record CaughtUp (i : Input) : Type 0 where
  pub editable : (i.intent.form ≡ Form.one_shot) → ⊥
  pub more_to_come : i.attempt_is_final ≡ false
  pub revision : (r : ℕ) × (i.attempt_revision ≡ some r) × (i.intent.desired_revision ≤ r)

-- A commitment goes idle only if its effect is editable, the attempt named the revision it applied,
-- that revision is not the last, and the desired one has not moved past it.
pub decide_idle-CaughtUp :
    (i : Input) {t : Transition} → decide i ≡ ok t → t.to ≡ Status.idle → CaughtUp i
unfolding decide decide_preparation decide_finish decide_recover decide_verdict decide_operator
decide_idle-CaughtUp i h s = ground arith
