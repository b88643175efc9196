-- ===== src/Outbound/Leases.antt =====
-- The lease and the open attempt, and how an attempt begins and ends.
use tokayops.Prelude.{true, false, not, ◌≡◌, ◌≢◌, ok, refl, arith}
use tokayops.Outbound.Intent.{Status, PreparationOutcome}
use tokayops.Outbound.Machine.Types.{Input, Transition, Trigger}
use tokayops.Outbound.Machine.Attempts.{decide_preparation, decide_finish, decide_recover}
use tokayops.Outbound.Machine.Verdicts.{decide_verdict}
use tokayops.Outbound.Machine.Operator.{decide_operator}
use tokayops.Outbound.Machine.{decide, decide_by, hush, decide-eq-ok}

-- Nothing of the attempt is left, and the commitment stands elsewhere.
pub record Released (t : Transition) : Type 0 where
  pub lease : t.effects.clear_lease ≡ true
  pub attempt : t.effects.clear_current_attempt ≡ true
  pub elsewhere : t.to ≢ Status.sending

-- Whatever a commitment in `sending` is told - its call answered, its worker dead, or the provider's
-- word - the decision releases the lease, closes the attempt and takes it out of `sending`.
pub decide_sending-Released :
    (i : Input) {t : Transition} → i.intent.status ≡ Status.sending → decide i ≡ ok t → Released t
unfolding decide decide_preparation decide_finish decide_recover decide_verdict decide_operator
decide_sending-Released i s h = ground arith

-- The attempt that this decision opens.
pub record Opened (i : Input) (t : Transition) : Type 0 where
  pub asked : i.trigger ≡ Trigger.preparation
  pub was_pending : i.intent.status ≡ Status.pending
  pub ready : i.preparation ≡ PreparationOutcome.ready
  pub lease_kept : t.effects.clear_lease ≡ false
  pub bound_once : t.effects.open_generation ≡ not i.intent.generation_bound

Opened-by :
    (k : Trigger) (i : Input) {t : Transition}
    → i.trigger ≡ k
    → decide_by k i ≡ ok t
    → t.to ≡ Status.sending
    → Opened i t
unfolding decide_preparation decide_finish decide_recover decide_verdict decide_operator
Opened-by Trigger.preparation i k h s = ground arith
Opened-by _ i k h s = ground arith

-- A commitment enters `sending` only from `pending`, by a preparation that found the attempt ready;
-- the lease is kept, and a generation is opened exactly when none is bound.
pub decide_to_sending-Opened :
    (i : Input) {t : Transition} → decide i ≡ ok t → t.to ≡ Status.sending → Opened i t
unfolding hush
decide_to_sending-Opened i h s =
    let (u, e, same) = decide-eq-ok i h in ground (arith, Opened-by i.trigger i {t = u} refl e)
