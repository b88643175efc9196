-- ===== src/Outbound/Withdrawal.antt =====
-- A withdrawal that arrives while a call is in flight.
use tokayops.Prelude.{Bool, true, false, not, ◌&&◌, ◌||◌, ◌≡◌, ok, arith}
use tokayops.Outbound.Intent.{Status, is_sending, is_accepted}
use tokayops.Outbound.Machine.Types.{Input, Transition, Trigger}
use tokayops.Outbound.Machine.Attempts.{decide_preparation, decide_finish, decide_recover}
use tokayops.Outbound.Machine.Verdicts.{decide_verdict}
use tokayops.Outbound.Machine.Operator.{decide_operator}
use tokayops.Outbound.Machine.{decide, decide_by, hush, decide-eq-ok}

abbrev pub is_canceled : Status → Bool
is_canceled Status.canceled = true
is_canceled _ = false

consume-by :
    (k : Trigger) (i : Input) {t : Transition}
    → decide_by k i ≡ ok t
    → t.effects.consume_cancellation
      ≡ (is_sending i.intent.status && i.intent.cancellation_requested)
unfolding decide_preparation decide_finish decide_recover decide_verdict decide_operator
consume-by Trigger.preparation i h = ground arith
consume-by _ i h = ground arith

-- A request to cancel is consumed by exactly the decisions that end an open attempt under it: none
-- of them leaves it standing, and no other decision uses it up.
pub decide_consumes :
    (i : Input) {t : Transition}
    → decide i ≡ ok t
    → t.effects.consume_cancellation
      ≡ (is_sending i.intent.status && i.intent.cancellation_requested)
unfolding hush
decide_consumes i h =
    let (u, e, same) = decide-eq-ok i h in ground (arith, consume-by i.trigger i {t = u} e)

-- A withdrawal beats every outcome that made no external effect, and none that did: an answered
-- attempt under a request to cancel ends as `canceled` exactly when the call was not accepted, and
-- applies a revision or waits for the provider's word exactly when it was.
pub decide_withdrawn :
    (i : Input) {t : Transition}
    → i.trigger ≡ Trigger.finish_attempt
    → i.intent.cancellation_requested ≡ true
    → decide i ≡ ok t
    → (is_canceled t.to ≡ not (is_accepted i.outcome))
      × ((t.effects.apply_revision || t.effects.await_receipt) ≡ is_accepted i.outcome)
      × (t.effects.withdraw_obligation ≡ t.effects.await_receipt)
unfolding decide decide_finish
decide_withdrawn i k c h = ground arith
