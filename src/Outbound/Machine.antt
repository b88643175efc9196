-- ===== src/Outbound/Machine.antt =====
-- The state machine of a commitment (internal/outbound/machine.go): `Decide`. The children hold the
-- handlers of the triggers.
pub mod Types
pub mod Settle
pub mod Attempts
pub mod Verdicts
pub mod Operator
use tokayops.Prelude.{false, Result, ok, err, ◌≡◌, arith, if◌then◌else◌, ◌>>=◌}
use tokayops.Outbound.Intent.{satellite}
use Types.{Input, Transition, Trigger, TimelineKind, Invalid, unknown_trigger}
use Attempts.{decide_preparation, decide_finish, decide_recover}
use Verdicts.{decide_verdict}
use Operator.{decide_operator}

abbrev pub decide_by : Trigger → Input → Result Invalid Transition
decide_by Trigger.preparation i = decide_preparation i
decide_by Trigger.finish_attempt i = decide_finish i
decide_by Trigger.recover_stale i = decide_recover i
decide_by Trigger.operator i = decide_operator i
decide_by Trigger.verdict i = decide_verdict i
decide_by (Trigger.unlisted s) i = err (unknown_trigger (Trigger.unlisted s))

-- The unexported `decide`.
unfoldable pub decide_alone : Input → Result Invalid Transition
decide_alone i = decide_by i.trigger i

-- A satellite mirrors the alert's history and does not write to it.
unfoldable pub hush : Transition → Transition
hush t = record t {
  effects = record t.effects { timeline = TimelineKind.none; trigger_group = false };
}

unfoldable pub decide : Input → Result Invalid Transition
unfolding decide_alone satellite hush
decide i = do
  transition ← decide_alone i
  ok (if satellite i.intent then hush transition else transition)

-- A successful `Decide` is a successful handler's answer, hushed for a satellite.
pub decide-eq-ok :
    (i : Input) {t : Transition}
    → decide i ≡ ok t
    → (u : Transition) × (decide_by i.trigger i ≡ ok u)
      × (t ≡ (if satellite i.intent then hush u else u))
unfolding decide
decide-eq-ok i h = ground arith
