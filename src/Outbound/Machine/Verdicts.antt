-- ===== src/Outbound/Machine/Verdicts.antt =====
-- What the provider's word, added up, does to a commitment (internal/outbound/machine.go).
use tokayops.Prelude.{true, not, ◌||◌, Result, ok, err, if◌then◌else◌, ◌>>=◌}
use tokayops.Outbound.Intent.{Status, Proof, is_one_shot, is_on_provider_receipt}
use tokayops.Outbound.Machine.Types.{
  Input, Transition, TimelineKind, Verdict, Invalid, no_effects, verdict_not_awaited, verdict_in,
  unknown_verdict, request_still_open, left_to_repeat,
}
use tokayops.Outbound.Machine.Settle.{settle_applied}

awaiting_by : Verdict → Input → Result Invalid Transition
awaiting_by Verdict.happened i = settle_applied i Proof.provider_confirmed "T35"
awaiting_by Verdict.not_placed i =
    if i.intent.obligation_withdrawn
    then ok (record {
      to = Status.canceled;
      effects = record no_effects { timeline = TimelineKind.canceled };
      row = "T36w";
    })
    else ok (record {
      to = Status.pending;
      effects = record no_effects {
        new_generation = true;
        schedule_now = true;
        bump_failure_streak = true;
        timeline = TimelineKind.not_placed;
      };
      row = "T36";
    })
awaiting_by Verdict.unknown i = settle_applied i Proof.assumed "T37"
awaiting_by Verdict.still_going i = ok (record {
  to = Status.awaiting_receipt;
  effects = record no_effects { await_receipt = true };
  row = "T38";
})
awaiting_by (Verdict.unlisted s) i = err (unknown_verdict (Verdict.unlisted s))

unfoldable pub verdict_while_awaiting : Input → Result Invalid Transition
unfolding awaiting_by settle_applied
verdict_while_awaiting i = awaiting_by i.verdict i

sending_by : Verdict → Input → Result Invalid Transition
sending_by Verdict.happened i = do
  settled ← settle_applied i Proof.provider_confirmed "T35"
  ok (record settled {
    row = "T35s";
    effects = record settled.effects { consume_cancellation = i.intent.cancellation_requested };
  })
sending_by v i = err (request_still_open v)

unfoldable pub verdict_while_sending : Input → Result Invalid Transition
unfolding sending_by settle_applied
verdict_while_sending i = sending_by i.verdict i

pending_by : Verdict → Input → Result Invalid Transition
pending_by Verdict.happened i = do
  settled ← settle_applied i Proof.provider_confirmed "T35"
  ok (record settled { row = "T35p" })
pending_by Verdict.still_going i = ok (record {
  to = Status.awaiting_receipt;
  effects = record no_effects { clear_lease = true; store_receipt = true; await_receipt = true };
  row = "T39";
})
pending_by Verdict.not_placed i =
    if i.intent.obligation_withdrawn
    then ok (record {
      to = Status.canceled;
      effects = record no_effects { clear_lease = true; timeline = TimelineKind.canceled };
      row = "T36w";
    })
    else ok (record {
      to = Status.pending;
      effects = record no_effects {
        clear_lease = true;
        new_generation = true;
        schedule_now = true;
        bump_failure_streak = true;
        timeline = TimelineKind.not_placed;
      };
      row = "T36p";
    })
pending_by v i = err (left_to_repeat v)

unfoldable pub verdict_while_pending : Input → Result Invalid Transition
unfolding pending_by settle_applied
verdict_while_pending i = pending_by i.verdict i

verdict_by : Status → Input → Result Invalid Transition
verdict_by Status.awaiting_receipt i = verdict_while_awaiting i
verdict_by Status.pending i = verdict_while_pending i
verdict_by Status.sending i = verdict_while_sending i
verdict_by s i = err (verdict_in s)

unfoldable pub decide_verdict : Input → Result Invalid Transition
unfolding verdict_by verdict_while_awaiting verdict_while_pending verdict_while_sending
decide_verdict i =
    if not (is_on_provider_receipt i.intent.completion_mode) || not (is_one_shot i.intent.form)
    then err verdict_not_awaited
    else verdict_by i.intent.status i
