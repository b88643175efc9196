-- ===== src/Outbound/Machine/Settle.antt =====
-- Where a success, a refusal of a call and a wait for the provider's word land
-- (internal/outbound/machine.go).
use tokayops.Prelude.{
  String, ℕ, true, not, Option, none, some, Result, ok, err, leb, str_append, if◌then◌else◌, ◌>>=◌,
}
use tokayops.Outbound.Intent.{Status, CompletionMode, Proof, is_one_shot, Outcome}
use tokayops.Outbound.Machine.Types.{
  Input, Effects, Transition, TimelineKind, Invalid, no_effects, unknown_proof,
  editable_without_revision, waits_only_one_shot, unknown_completion_mode, unknown_outcome,
}

abbrev settled_effects : Effects
settled_effects = record no_effects {
  clear_lease = true;
  clear_current_attempt = true;
  reset_failure_streak = true;
  apply_revision = true;
  store_receipt = true;
  trigger_group = true;
}

-- The effects of a success known by this proof: the first `switch` of `settleApplied`.
proof_effects : Proof → Result Invalid Effects
proof_effects Proof.accepted =
    ok (record settled_effects { proof = Proof.accepted; timeline = TimelineKind.sent })
proof_effects Proof.provider_confirmed = ok (record settled_effects {
  proof = Proof.provider_confirmed;
  timeline = TimelineKind.provider_confirmed;
})
proof_effects Proof.assumed = ok (record settled_effects {
  proof = Proof.assumed;
  timeline = TimelineKind.assumed_accepted;
  record_duplicate_risk = true;
})
proof_effects (Proof.unlisted s) = err (unknown_proof (Proof.unlisted s))

-- The cases S2, S3 and S4, of an attempt that applied `revision`.
settle_editable : Input → Effects → String → Option ℕ → Result Invalid Transition
settle_editable i effects row none = err editable_without_revision
settle_editable i effects row (some revision) =
    if i.attempt_is_final
    then ok (record { to = Status.succeeded; effects = effects; row = str_append row "/S2" })
    else if leb i.intent.desired_revision revision
    then ok (record { to = Status.idle; effects = effects; row = str_append row "/S3" })
    else ok (record {
      to = Status.pending;
      effects = record effects { schedule_now = true };
      row = str_append row "/S4";
    })

settle_with : Input → String → Effects → Result Invalid Transition
unfolding settle_editable
settle_with i row effects =
    if is_one_shot i.intent.form
    then ok (record { to = Status.succeeded; effects = effects; row = str_append row "/S1" })
    else settle_editable i effects row i.attempt_revision

unfoldable pub settle_applied : Input → Proof → String → Result Invalid Transition
unfolding proof_effects settle_with
settle_applied i proof row = do effects ← proof_effects proof; settle_with i row effects

unfoldable pub await_receipt : Input → String → Result Invalid Transition
await_receipt i row =
    if not (is_one_shot i.intent.form)
    then err waits_only_one_shot
    else ok (record {
      to = Status.awaiting_receipt;
      effects = record no_effects {
        clear_lease = true;
        clear_current_attempt = true;
        reset_failure_streak = true;
        store_receipt = true;
        await_receipt = true;
        timeline = TimelineKind.handed_over;
      };
      row = row;
    })

abbrev accept_by : CompletionMode → Input → String → Result Invalid Transition
accept_by CompletionMode.on_acceptance i row = settle_applied i Proof.accepted row
accept_by CompletionMode.on_provider_receipt i row = await_receipt i (str_append row "r")
accept_by (CompletionMode.unlisted s) i row =
    err (unknown_completion_mode (CompletionMode.unlisted s))

unfoldable pub reduce_provider_acceptance : Input → String → Result Invalid Transition
unfolding settle_applied await_receipt
reduce_provider_acceptance i row = accept_by i.intent.completion_mode i row

unfoldable pub refused_call : Input → Result Invalid Transition
refused_call i =
    if i.doubt_in_generation
    then ok (record {
      to = Status.awaiting_receipt;
      effects = record no_effects {
        clear_lease = true;
        clear_current_attempt = true;
        bump_failure_streak = true;
        await_receipt = true;
      };
      row = "T10w";
    })
    else ok (record {
      to = Status.pending;
      effects = record no_effects {
        clear_lease = true;
        clear_current_attempt = true;
        new_generation = true;
        schedule_now = true;
        bump_failure_streak = true;
        timeline = TimelineKind.not_placed;
      };
      row = "T10r";
    })

-- `knownOutcome`
unfoldable pub known_outcome : Outcome → Result Invalid (Unit {0})
known_outcome (Outcome.unlisted s) = err (unknown_outcome (Outcome.unlisted s))
known_outcome _ = ok tt
