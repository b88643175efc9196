-- ===== src/Outbound/Machine/Attempts.antt =====
-- An attempt that begins, ends, or is recovered after its worker died
-- (internal/outbound/machine.go).
use tokayops.Prelude.{true, not, ◌&&◌, Result, ok, err, if◌then◌else◌, ◌>>=◌, ◌>>◌}
use tokayops.Outbound.Intent.{
  Status, Outcome, AmbiguityPolicy, PreparationOutcome, Proof, is_pending, is_sending, is_one_shot,
  is_accepted, is_on_provider_receipt,
}
use tokayops.Outbound.Machine.Types.{
  Input, Effects, Transition, TimelineKind, Invalid, no_effects, preparation_from,
  unknown_preparation, finishing_from, unknown_outcome, canceled_without_request,
  unknown_ambiguity_policy, assume_only_one_shot, recovering_from,
}
use tokayops.Outbound.Machine.Settle.{
  settle_applied, await_receipt, reduce_provider_acceptance, refused_call, known_outcome,
}

-- The `switch` of `decidePreparation`.
prepare : PreparationOutcome → Input → Result Invalid Transition
prepare PreparationOutcome.ready i = ok (record {
  to = Status.sending;
  effects = record no_effects { open_generation = not i.intent.generation_bound };
  row = "T4";
})
prepare PreparationOutcome.permanent i = ok (record {
  to = Status.permanent_failed;
  effects = record no_effects {
    clear_lease = true;
    bump_failure_streak = true;
    raise_failure_signal = true;
    timeline = TimelineKind.failed;
  };
  row = "T4a";
})
prepare PreparationOutcome.transient i = ok (record {
  to = Status.pending;
  effects = record no_effects {
    clear_lease = true;
    bump_failure_streak = true;
    schedule_retry = true;
  };
  row = "T4b";
})
prepare PreparationOutcome.no_contact i = ok (record {
  to = Status.no_contact;
  effects = record no_effects { clear_lease = true; timeline = TimelineKind.no_contact };
  row = "T4c";
})
prepare (PreparationOutcome.unlisted s) i =
    err (unknown_preparation (PreparationOutcome.unlisted s))

unfoldable pub decide_preparation : Input → Result Invalid Transition
unfolding prepare
decide_preparation i =
    if not (is_pending i.intent.status)
    then err (preparation_from i.intent.status)
    else prepare i.preparation i

-- The effects of a failed attempt that goes back into the queue.
abbrev retry_effects : Effects
retry_effects = record no_effects {
  clear_lease = true;
  clear_current_attempt = true;
  bump_failure_streak = true;
  schedule_retry = true;
}

-- The `switch` of `decideAmbiguous`.
ambiguous_by : AmbiguityPolicy → Input → Result Invalid Transition
ambiguous_by AmbiguityPolicy.retry i =
    ok (record { to = Status.pending; effects = retry_effects; row = "T11" })
ambiguous_by AmbiguityPolicy.reconcile_then_retry i =
    ok (record { to = Status.pending; effects = retry_effects; row = "T12" })
ambiguous_by AmbiguityPolicy.manual_review i = ok (record {
  to = Status.manual_review;
  effects = record no_effects {
    clear_lease = true;
    clear_current_attempt = true;
    bump_failure_streak = true;
  };
  row = "T13";
})
ambiguous_by AmbiguityPolicy.assume_accepted i =
    if not (is_one_shot i.intent.form)
    then err assume_only_one_shot
    else settle_applied i Proof.assumed "T14"
ambiguous_by (AmbiguityPolicy.unlisted s) i =
    err (unknown_ambiguity_policy (AmbiguityPolicy.unlisted s))

unfoldable pub decide_ambiguous : Input → Result Invalid Transition
unfolding ambiguous_by
decide_ambiguous i = ambiguous_by i.intent.ambiguity_policy i

-- What the code adds to a wait, and to a success, that a withdrawal did not stop.
withdraw_wait : Transition → Transition
withdraw_wait waiting = record waiting {
  effects = record waiting.effects { consume_cancellation = true; withdraw_obligation = true };
}

sent_alongside : Transition → Transition
sent_alongside settled = record settled {
  effects = record settled.effects {
    consume_cancellation = true;
    timeline = TimelineKind.sent_alongside_cancel;
  };
}

-- The attempt's end of a commitment whose withdrawal was asked for.
finish_withdrawn : Input → Result Invalid Transition
unfolding withdraw_wait sent_alongside
finish_withdrawn i =
    if is_accepted i.outcome && is_on_provider_receipt i.intent.completion_mode
    then (do waiting ← await_receipt i "T16r"; ok (withdraw_wait waiting))
    else if is_accepted i.outcome
    then (do settled ← settle_applied i Proof.accepted "T16"; ok (sent_alongside settled))
    else known_outcome i.outcome
      >> ok (record {
        to = Status.canceled;
        effects = record no_effects {
          clear_lease = true;
          clear_current_attempt = true;
          consume_cancellation = true;
          timeline = TimelineKind.canceled;
        };
        row = "T15";
      })

-- The last `switch` of `decideFinish`.
finish_by : Outcome → Input → Result Invalid Transition
finish_by Outcome.accepted i = reduce_provider_acceptance i "T8"
finish_by Outcome.retryable_rejection i =
    ok (record { to = Status.pending; effects = retry_effects; row = "T9" })
finish_by Outcome.permanent_rejection i =
    if is_on_provider_receipt i.intent.completion_mode && is_one_shot i.intent.form
    then refused_call i
    else ok (record {
      to = Status.permanent_failed;
      effects = record no_effects {
        clear_lease = true;
        clear_current_attempt = true;
        bump_failure_streak = true;
        raise_failure_signal = true;
        timeline = TimelineKind.failed;
      };
      row = "T10";
    })
finish_by Outcome.ambiguous i = decide_ambiguous i
finish_by Outcome.canceled i = err canceled_without_request
finish_by (Outcome.unlisted s) i = err (unknown_outcome (Outcome.unlisted s))

unfoldable pub decide_finish : Input → Result Invalid Transition
unfolding finish_withdrawn finish_by reduce_provider_acceptance refused_call decide_ambiguous
    known_outcome
decide_finish i =
    if not (is_sending i.intent.status)
    then err (finishing_from i.intent.status)
    else if i.intent.cancellation_requested
    then finish_withdrawn i
    else finish_by i.outcome i

-- The case `PolicyRetry, PolicyReconcileThenRetry` of `decideRecover`.
recover_retry : Input → Transition
recover_retry i =
    if i.expired
    then record {
      to = Status.expired;
      effects = record no_effects {
        clear_lease = true;
        clear_current_attempt = true;
        bump_failure_streak = true;
        timeline = TimelineKind.expired;
      };
      row = "T7";
    }
    else record {
      to = Status.pending;
      effects = record retry_effects { timeline = TimelineKind.lease_lost };
      row = "T7";
    }

recover_by : AmbiguityPolicy → Input → Result Invalid Transition
unfolding recover_retry
recover_by AmbiguityPolicy.manual_review i = ok (record {
  to = Status.manual_review;
  effects = record no_effects {
    clear_lease = true;
    clear_current_attempt = true;
    bump_failure_streak = true;
    timeline = TimelineKind.lease_lost;
  };
  row = "T7";
})
recover_by AmbiguityPolicy.assume_accepted i =
    if not (is_one_shot i.intent.form)
    then err assume_only_one_shot
    else settle_applied i Proof.assumed "T7"
recover_by AmbiguityPolicy.retry i = ok (recover_retry i)
recover_by AmbiguityPolicy.reconcile_then_retry i = ok (recover_retry i)
recover_by (AmbiguityPolicy.unlisted s) i =
    err (unknown_ambiguity_policy (AmbiguityPolicy.unlisted s))

unfoldable pub decide_recover : Input → Result Invalid Transition
unfolding recover_by settle_applied
decide_recover i =
    if not (is_sending i.intent.status)
    then err (recovering_from i.intent.status)
    else if i.intent.cancellation_requested
    then ok (record {
      to = Status.canceled;
      effects = record no_effects {
        clear_lease = true;
        clear_current_attempt = true;
        consume_cancellation = true;
        bump_failure_streak = true;
        timeline = TimelineKind.canceled;
      };
      row = "T7";
    })
    else recover_by i.intent.ambiguity_policy i
