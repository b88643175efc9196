-- ===== src/Outbound/Progress.antt =====
-- Which triggers a status answers to, and that an attempt in flight can always be settled.
use tokayops.Prelude.{
  ℕ, Bool, true, false, not, ◌&&◌, ◌||◌, ◌≡◌, refl, Option, none, some, ok, err, Result, leb,
  if◌then◌else◌, arith,
}
use tokayops.Outbound.Intent.{
  Intent, Status, Outcome, AmbiguityPolicy, CompletionMode, is_one_shot, is_pending, is_sending,
  is_on_provider_receipt,
}
use tokayops.Outbound.Machine.Types.{Input, Transition, Trigger, Invalid}
use tokayops.Outbound.Machine.Attempts.{decide_preparation, decide_finish, decide_recover}
use tokayops.Outbound.Machine.Verdicts.{decide_verdict}
use tokayops.Outbound.Machine.Operator.{takes_decision, decide_operator-eq-ok}
use tokayops.Outbound.Leases.{Released}
use tokayops.Outbound.Machine.{decide, decide_by, decide-eq-ok}

abbrev is_awaiting : Status → Bool
is_awaiting Status.awaiting_receipt = true
is_awaiting _ = false

-- The statuses that a trigger may find the commitment in.
abbrev pub answers_to : Trigger → Status → Bool
answers_to Trigger.preparation s = is_pending s
answers_to Trigger.finish_attempt s = is_sending s
answers_to Trigger.recover_stale s = is_sending s
answers_to Trigger.operator s = takes_decision s
answers_to Trigger.verdict s = is_awaiting s || is_pending s || is_sending s
answers_to (Trigger.unlisted x) s = false

answers-by :
    (k : Trigger) (i : Input) {t : Transition}
    → decide_by k i ≡ ok t
    → answers_to k i.intent.status ≡ true
unfolding decide_preparation decide_finish decide_recover decide_verdict
answers-by Trigger.operator i h = (decide_operator-eq-ok i h).0
answers-by _ i h = ground arith

-- A decision is made only about a commitment in a status that the trigger is for: a preparation
-- about a pending one, an attempt's end or its recovery about one in flight, a person's about one
-- that waits for a person or failed or expired, and a verdict about one that is not at rest.
pub decide_answers :
    (i : Input) {t : Transition} → decide i ≡ ok t → answers_to i.trigger i.intent.status ≡ true
decide_answers i h = let (u, e, same) = decide-eq-ok i h in answers-by i.trigger i e

abbrev is_listed_policy : AmbiguityPolicy → Bool
is_listed_policy (AmbiguityPolicy.unlisted s) = false
is_listed_policy _ = true

abbrev is_listed_mode : CompletionMode → Bool
is_listed_mode (CompletionMode.unlisted s) = false
is_listed_mode _ = true

abbrev is_assume : AmbiguityPolicy → Bool
is_assume AmbiguityPolicy.assume_accepted = true
is_assume _ = false

abbrev is_listed_outcome : Outcome → Bool
is_listed_outcome (Outcome.unlisted s) = false
is_listed_outcome _ = true

abbrev is_canceled_outcome : Outcome → Bool
is_canceled_outcome Outcome.canceled = true
is_canceled_outcome _ = false

abbrev is_some : Option ℕ → Bool
is_some (some r) = true
is_some none = false

abbrev is_there : Option Status → Bool
is_there (some s) = true
is_there none = false

-- The shape of a commitment: its closed sets hold what the domain declares, and only a one-shot one
-- waits for the provider's word or is assumed delivered by its policy.
pub record IsAdmitted (c : Intent) : Type 0 where
  pub policy : is_listed_policy c.ambiguity_policy ≡ true
  pub mode : is_listed_mode c.completion_mode ≡ true
  pub waits : (is_on_provider_receipt c.completion_mode && not (is_one_shot c.form)) ≡ false
  pub assumes : (is_assume c.ambiguity_policy && not (is_one_shot c.form)) ≡ false

-- The commitment is in flight, and an attempt of an editable effect names its revision.
pub record InFlight (i : Input) : Type 0 where
  pub admitted : IsAdmitted i.intent
  pub sending : i.intent.status ≡ Status.sending
  pub revision : (is_one_shot i.intent.form || is_some i.attempt_revision) ≡ true

-- Where an applied success lands: a one-shot message and a last attempt are done, and an editable effect
-- waits idle, or goes on when a later revision is desired than the one applied.
abbrev applied_at : Input → Option ℕ → Option Status
applied_at i none = none
applied_at i (some revision) = some (
    if i.attempt_is_final
    then Status.succeeded
    else if leb i.intent.desired_revision revision
    then Status.idle
    else Status.pending)

abbrev applied : Input → Option Status
applied i =
    if is_one_shot i.intent.form then some Status.succeeded else applied_at i i.attempt_revision

abbrev waiting : Input → Option Status
waiting i = if is_one_shot i.intent.form then some Status.awaiting_receipt else none

abbrev accepted : Input → CompletionMode → Option Status
accepted i CompletionMode.on_acceptance = applied i
accepted i CompletionMode.on_provider_receipt = waiting i
accepted i (CompletionMode.unlisted s) = none

abbrev assumed : Input → Option Status
assumed i = if is_one_shot i.intent.form then some Status.succeeded else none

abbrev in_doubt : Input → AmbiguityPolicy → Option Status
in_doubt i AmbiguityPolicy.retry = some Status.pending
in_doubt i AmbiguityPolicy.reconcile_then_retry = some Status.pending
in_doubt i AmbiguityPolicy.manual_review = some Status.manual_review
in_doubt i AmbiguityPolicy.assume_accepted = assumed i
in_doubt i (AmbiguityPolicy.unlisted s) = none

abbrev refused : Input → Status
refused i =
    if is_on_provider_receipt i.intent.completion_mode && is_one_shot i.intent.form
    then (if i.doubt_in_generation then Status.awaiting_receipt else Status.pending)
    else Status.permanent_failed

-- Where the end of an attempt lands, by its outcome.
abbrev finished : Input → Outcome → Option Status
finished i Outcome.accepted = accepted i i.intent.completion_mode
finished i Outcome.retryable_rejection = some Status.pending
finished i Outcome.permanent_rejection = some (refused i)
finished i Outcome.ambiguous = in_doubt i i.intent.ambiguity_policy
finished i Outcome.canceled = none
finished i (Outcome.unlisted s) = none

-- A withdrawal that was asked for cancels everything but what the provider had already taken.
abbrev withdrawn : Input → Outcome → Option Status
withdrawn i Outcome.accepted =
    if is_on_provider_receipt i.intent.completion_mode then waiting i else applied i
withdrawn i (Outcome.unlisted s) = none
withdrawn i _ = some Status.canceled

abbrev pub landing : Input → Option Status
landing i = if i.intent.cancellation_requested then withdrawn i i.outcome else finished i i.outcome

abbrev lost_to : Input → AmbiguityPolicy → Option Status
lost_to i AmbiguityPolicy.retry = some (if i.expired then Status.expired else Status.pending)
lost_to i AmbiguityPolicy.reconcile_then_retry =
    some (if i.expired then Status.expired else Status.pending)
lost_to i AmbiguityPolicy.manual_review = some Status.manual_review
lost_to i AmbiguityPolicy.assume_accepted = assumed i
lost_to i (AmbiguityPolicy.unlisted s) = none

-- Where a commitment goes whose worker died: its withdrawal first, then its policy, and the deadline
-- only where the policy would send it again.
abbrev pub recovered : Input → Option Status
recovered i =
    if i.intent.cancellation_requested
    then some Status.canceled
    else lost_to i i.intent.ambiguity_policy

-- What was decided goes there and is released, and where there is no such place, it was refused.
abbrev pub Lands : Result Invalid Transition → Option Status → Type 0
Lands (ok t) (some s) = Released t × (t.to ≡ s)
Lands (ok t) none = ⊥
Lands (err e) (some s) = ⊥
Lands (err e) none = Unit

decide_finish-Lands :
    (i : Input)
    → i.intent.status ≡ Status.sending
    → i.trigger ≡ Trigger.finish_attempt
    → Lands (decide i) (landing i)
unfolding decide decide_finish
decide_finish-Lands i f k = ground arith

landing_total :
    (i : Input)
    → InFlight i
    → is_listed_outcome i.outcome ≡ true
    → (is_canceled_outcome i.outcome && not i.intent.cancellation_requested) ≡ false
    → (s : Status) × (landing i ≡ some s)
landing_total i f o c = there (landing i) (ground arith)
  where
    there : (l : Option Status) → is_there l ≡ true → (s : Status) × (l ≡ some s)
    there none h = ground arith
    there (some s) h = (s, refl)

landed :
    (r : Result Invalid Transition) (l : Option Status) (s : Status)
    → Lands r l
    → l ≡ some s
    → (t : Transition) × (r ≡ ok t) × Released t × (l ≡ some t.to)
landed (ok t) (some s) s' h e = (t, refl, h.0, rw h.1 refl)
landed (ok t) none s' h e = absurd h
landed (err x) (some s) s' h e = absurd h
landed (err x) none s' h e = ground arith

-- An attempt in flight is always settled by its answer: it leaves `sending` for the status that its
-- outcome calls for, with the lease and the attempt released. The outcome is a listed one, and `canceled`
-- only if a cancellation was asked for; the commitment's policy and mode are listed ones, and only a
-- one-shot effect waits for the provider's receipt or is assumed delivered; an editable effect's attempt
-- names its revision.
pub decide_finish_total :
    (i : Input)
    → InFlight i
    → i.trigger ≡ Trigger.finish_attempt
    → is_listed_outcome i.outcome ≡ true
    → (is_canceled_outcome i.outcome && not i.intent.cancellation_requested) ≡ false
    → (t : Transition) × (decide i ≡ ok t) × Released t × (landing i ≡ some t.to)
decide_finish_total i f k o c =
    let (s, there) = landing_total i f o c in
    landed (decide i) (landing i) s (decide_finish-Lands i f.sending k) there

-- A commitment in `sending` whose worker died is recovered: a withdrawal that was asked for cancels it,
-- and otherwise its policy says where it goes - its deadline too, where it would be sent again - with the
-- lease and the attempt released. It is refused only without a withdrawal, for a policy that is not listed or an editable effect to be assumed delivered.
pub decide_recover-Lands :
    (i : Input)
    → i.intent.status ≡ Status.sending
    → i.trigger ≡ Trigger.recover_stale
    → Lands (decide i) (recovered i)
unfolding decide decide_recover
decide_recover-Lands i f k = ground arith
