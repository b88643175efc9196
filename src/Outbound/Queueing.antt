-- ===== src/Outbound/Queueing.antt =====
-- The way back into the queue, and when a commitment starts a new external effect.
use tokayops.Prelude.{true, false, not, ◌&&◌, ◌||◌, ◌≡◌, ◌⊎◌, ok, refl, arith}
use tokayops.Outbound.Kinds.{resolve_ambiguity, new_effect_door}
use tokayops.Outbound.Intent.{Status, Outcome, is_pending, is_create}
use tokayops.Outbound.Machine.Types.{Input, Transition, Trigger, Decision, Verdict}
use tokayops.Outbound.Machine.Attempts.{decide_preparation, decide_finish, decide_recover}
use tokayops.Outbound.Machine.Verdicts.{decide_verdict}
use tokayops.Outbound.Machine.Operator.{
  operator_assume, operator_cancel, operator_by, retried, renewed, operator_retry_current-eq-ok,
  operator_retry_new-eq-ok, decide_operator-eq-ok,
}
use tokayops.Outbound.Machine.{decide, decide_by, hush, decide-eq-ok}

-- The two ways to schedule the next attempt.
pub record Scheduled (t : Transition) : Type 0 where
  pub queued : is_pending t.to ≡ (t.effects.schedule_retry || t.effects.schedule_now)
  pub once : (t.effects.schedule_retry && t.effects.schedule_now) ≡ false

Scheduled-operator :
    (d : Decision) (i : Input) {t : Transition} → operator_by d i ≡ ok t → Scheduled t
unfolding operator_assume operator_cancel retried renewed
Scheduled-operator Decision.retry_current_generation i h =
    ground (arith, operator_retry_current-eq-ok i h)
Scheduled-operator Decision.retry_new_generation i h = ground (arith, operator_retry_new-eq-ok i h)
Scheduled-operator _ i h = ground arith

Scheduled-by : (k : Trigger) (i : Input) {t : Transition} → decide_by k i ≡ ok t → Scheduled t
unfolding decide_preparation decide_finish decide_recover decide_verdict
Scheduled-by Trigger.operator i h = Scheduled-operator i.decision i (decide_operator-eq-ok i h).1
Scheduled-by _ i h = ground arith

-- A decision schedules a next attempt exactly when it puts the commitment back in the queue, and
-- then in one way only: after the backoff or at once.
pub decide-Scheduled : (i : Input) {t : Transition} → decide i ≡ ok t → Scheduled t
unfolding hush
decide-Scheduled i h =
    let (u, e, same) = decide-eq-ok i h in ground (arith, Scheduled-by i.trigger i {t = u} e)

-- What allows a new external effect beside the ones that were made.
abbrev pub RefusedCall : Input → Type 0
RefusedCall i =
    (i.trigger ≡ Trigger.finish_attempt)
    × (i.outcome ≡ Outcome.permanent_rejection)
    × (i.doubt_in_generation ≡ false)
    × (i.intent.cancellation_requested ≡ false)

abbrev pub NotPlaced : Input → Type 0
NotPlaced i =
    (i.trigger ≡ Trigger.verdict)
    × (i.verdict ≡ Verdict.not_placed)
    × (i.intent.obligation_withdrawn ≡ false)

abbrev pub DecidedNew : Input → Type 0
DecidedNew i =
    (i.trigger ≡ Trigger.operator)
    × (i.decision ≡ Decision.retry_new_generation)
    × (new_effect_door i.intent.key_kind ≡ ok resolve_ambiguity)
    × ((is_create i.last_attempt_kind || i.resource_loss_confirmed) ≡ true)
    × ((i.ambiguous_in_generation && not i.accepted_duplicate_risk) ≡ false)

-- The new generation, the queue, and why.
pub record Renewed (i : Input) (t : Transition) : Type 0 where
  pub queued : t.to ≡ Status.pending
  pub at_once : t.effects.schedule_now ≡ true
  pub reason : RefusedCall i ⊎ NotPlaced i ⊎ DecidedNew i

Renewed-operator :
    (d : Decision) (i : Input) {t : Transition}
    → i.trigger ≡ Trigger.operator
    → i.decision ≡ d
    → operator_by d i ≡ ok t
    → t.effects.new_generation ≡ true
    → Renewed i t
unfolding operator_assume operator_cancel retried renewed
Renewed-operator Decision.retry_current_generation i k d h s =
    ground (arith, operator_retry_current-eq-ok i h)
Renewed-operator Decision.retry_new_generation i k d h s =
    ground (arith, operator_retry_new-eq-ok i h)
Renewed-operator _ i k d h s = ground arith

Renewed-by :
    (k : Trigger) (i : Input) {t : Transition}
    → i.trigger ≡ k
    → decide_by k i ≡ ok t
    → t.effects.new_generation ≡ true
    → Renewed i t
unfolding decide_preparation decide_finish decide_recover decide_verdict
Renewed-by Trigger.operator i k h s =
    Renewed-operator i.decision i k refl (decide_operator-eq-ok i h).1 s
Renewed-by _ i k h s = ground arith

-- A new generation is started only by a call refused with no doubt left in its generation and no
-- withdrawal asked for, by the provider's word that nothing took place while the obligation stands,
-- or by an operator whose guards hold: the kind's door, a create attempt or a confirmed loss, and the
-- duplicate risk accepted where a call ended in doubt. It is queued at once.
pub decide_new_generation-Renewed :
    (i : Input) {t : Transition} → decide i ≡ ok t → t.effects.new_generation ≡ true → Renewed i t
unfolding hush
decide_new_generation-Renewed i h s =
    let (u, e, same) = decide-eq-ok i h in ground (arith, Renewed-by i.trigger i {t = u} refl e)
