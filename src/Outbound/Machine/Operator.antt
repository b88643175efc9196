-- ===== src/Outbound/Machine/Operator.antt =====
-- The decisions of a person (internal/outbound/machine.go).
use tokayops.Prelude.{
  String, Bool, true, false, not, ◌&&◌, Result, ok, err, refuse_if, if◌then◌else◌, ◌>>◌, ◌≡◌, inl,
  inr, Bool-cases, arith, refl, refuse_if-eq-ok,
}
use tokayops.Outbound.Kinds.{
  Kind, EffectDoor, KindError, resolve_ambiguity, replay, new_effect_door,
}
use tokayops.Outbound.Intent.{
  Status, Proof, is_one_shot, is_manual_review, is_permanent_failed, is_expired, is_create,
}
use tokayops.Outbound.Machine.Types.{
  Input, Transition, TimelineKind, Decision, Invalid, no_effects, no_decision_applies_to,
  unknown_decision, assume_would_be_false, assume_needs_receipt, already_ended, needs_new_deadline,
  needs_create_or_loss, needs_duplicate_risk, kind_refused, other_door,
}
use tokayops.Outbound.Machine.Settle.{settle_applied}

-- `rowFor`
unfoldable pub row_for : Input → String → String → String
row_for i one_shot editable = if is_one_shot i.intent.form then one_shot else editable

unfoldable pub operator_assume : Input → Result Invalid Transition
unfolding row_for settle_applied
operator_assume i =
    if not (is_manual_review i.intent.status)
    then err (assume_would_be_false i.intent.status)
    else if not (is_one_shot i.intent.form) && not i.intent.has_receipt
    then err assume_needs_receipt
    else settle_applied i Proof.assumed (row_for i "T25" "T26")

unfoldable pub operator_cancel : Input → Result Invalid Transition
operator_cancel i =
    if is_expired i.intent.status
    then err already_ended
    else ok (record {
      to = Status.canceled;
      effects = record no_effects { timeline = TimelineKind.canceled };
      row = if is_permanent_failed i.intent.status then "T30" else "T27";
    })

abbrev check_door : Kind → Result KindError EffectDoor → Result Invalid (Unit {0})
check_door kind (err e) = err (kind_refused e)
check_door kind (ok resolve_ambiguity) = ok tt
check_door kind (ok replay) = err (other_door kind replay)

unfoldable pub through_resolve_ambiguity : Input → Result Invalid (Unit {0})
unfolding new_effect_door
through_resolve_ambiguity i = check_door i.intent.key_kind (new_effect_door i.intent.key_kind)

-- The two maps from a status to a row; a missing key reads as the empty text.
abbrev retry_row : Status → String → String → String → String
retry_row Status.manual_review a b c = a
retry_row Status.permanent_failed a b c = b
retry_row Status.expired a b c = c
retry_row _ a b c = ""

-- Back into the queue for another attempt of the same effect.
unfoldable pub retried : Input → Transition
retried i = record {
  to = Status.pending;
  effects = record no_effects { schedule_now = true; reset_failure_streak = true };
  row = retry_row i.intent.status "T28" "T31" "T33";
}

unfoldable pub operator_retry_current : Input → Result Invalid Transition
unfolding through_resolve_ambiguity retried
operator_retry_current i = do
  through_resolve_ambiguity i
  refuse_if (is_expired i.intent.status && not i.new_expiry_provided) needs_new_deadline
  ok (retried i)

-- Back into the queue for a new effect.
unfoldable pub renewed : Input → Transition
renewed i = record {
  to = Status.pending;
  effects = record no_effects {
    new_generation = true;
    schedule_now = true;
    reset_failure_streak = true;
    record_duplicate_risk = i.accepted_duplicate_risk;
  };
  row = retry_row i.intent.status "T29" "T32" "T34";
}

unfoldable pub operator_retry_new : Input → Result Invalid Transition
unfolding through_resolve_ambiguity renewed
operator_retry_new i = do
  through_resolve_ambiguity i
  refuse_if (not (is_create i.last_attempt_kind) && not i.resource_loss_confirmed)
      needs_create_or_loss
  refuse_if (i.ambiguous_in_generation && not i.accepted_duplicate_risk) needs_duplicate_risk
  refuse_if (is_expired i.intent.status && not i.new_expiry_provided) needs_new_deadline
  ok (renewed i)

check_door-eq-ok :
    (kind : Kind) (door : Result KindError EffectDoor) (k : Result Invalid Transition)
    {t : Transition}
    → (check_door kind door >> k) ≡ ok t
    → (door ≡ ok resolve_ambiguity) × (k ≡ ok t)
check_door-eq-ok kind (err e) k h = ground arith
check_door-eq-ok kind (ok resolve_ambiguity) k h = (refl, h)
check_door-eq-ok kind (ok replay) k h = ground arith

-- What the guards of the two retries say of one that was granted.
pub record Granted (i : Input) : Type 0 where
  pub door : new_effect_door i.intent.key_kind ≡ ok resolve_ambiguity
  pub replaceable : (not (is_create i.last_attempt_kind) && not i.resource_loss_confirmed) ≡ false
  pub risk : (i.ambiguous_in_generation && not i.accepted_duplicate_risk) ≡ false
  pub deadline : (is_expired i.intent.status && not i.new_expiry_provided) ≡ false

pub operator_retry_new-eq-ok :
    (i : Input) {t : Transition} → operator_retry_new i ≡ ok t → Granted i × (t ≡ renewed i)
unfolding operator_retry_new
operator_retry_new-eq-ok i h =
    let (d, h1) = check_door-eq-ok i.intent.key_kind _ _ h in
    let (a, h2) = refuse_if-eq-ok _ _ _ h1 in
    let (b, h3) = refuse_if-eq-ok _ _ _ h2 in
    let (c, h4) = refuse_if-eq-ok _ _ _ h3 in
    (record { door = d; replaceable = a; risk = b; deadline = c }, cc)

pub operator_retry_current-eq-ok :
    (i : Input) {t : Transition}
    → operator_retry_current i ≡ ok t
    → (new_effect_door i.intent.key_kind ≡ ok resolve_ambiguity)
      × ((is_expired i.intent.status && not i.new_expiry_provided) ≡ false)
      × (t ≡ retried i)
unfolding operator_retry_current
operator_retry_current-eq-ok i h =
    let (d, h1) = check_door-eq-ok i.intent.key_kind _ _ h in
    let (a, h2) = refuse_if-eq-ok _ _ _ h1 in (d, a, cc)

abbrev pub operator_by : Decision → Input → Result Invalid Transition
operator_by Decision.assume_accepted i = operator_assume i
operator_by Decision.cancel i = operator_cancel i
operator_by Decision.retry_current_generation i = operator_retry_current i
operator_by Decision.retry_new_generation i = operator_retry_new i
operator_by (Decision.unlisted s) i = err (unknown_decision (Decision.unlisted s))

abbrev pub takes_decision : Status → Bool
takes_decision Status.manual_review = true
takes_decision Status.permanent_failed = true
takes_decision Status.expired = true
takes_decision _ = false

unfoldable pub decide_operator : Input → Result Invalid Transition
unfolding operator_assume operator_cancel operator_retry_current operator_retry_new
decide_operator i =
    if takes_decision i.intent.status
    then operator_by i.decision i
    else err (no_decision_applies_to i.intent.status)

-- A decision that the matrix has is one of its handlers' answers.
pub decide_operator-eq-ok :
    (i : Input) {t : Transition}
    → decide_operator i ≡ ok t
    → (takes_decision i.intent.status ≡ true) × (operator_by i.decision i ≡ ok t)
unfolding decide_operator
decide_operator-eq-ok i h = elim (Bool-cases (takes_decision i.intent.status)) [
  | inl e ↦ (e, (rw e at h))
  | inr e ↦ ground arith
]
