-- ===== src/Outbound/Endings.antt =====
-- Terminal statuses: what leaves them, and what never does.
use tokayops.Prelude.{true, ◌≡◌, ◌≢◌, ◌⊎◌, ◌∙◌, ok, refl, arith}
use tokayops.Outbound.Kinds.{Kind, resolve_ambiguity, new_effect_door}
use tokayops.Outbound.Intent.{Status, terminal}
use tokayops.Outbound.Machine.Types.{Input, Transition, Trigger}
use tokayops.Outbound.Machine.Attempts.{decide_preparation, decide_finish, decide_recover}
use tokayops.Outbound.Machine.Verdicts.{decide_verdict}
use tokayops.Outbound.Machine.Operator.{decide_operator}
use tokayops.Outbound.Machine.{decide}

-- A person moved a commitment that had ended or was waiting for one.
abbrev pub Revived : Status → Status → Type 0
Revived s u =
    (s ≡ Status.permanent_failed) × ((u ≡ Status.pending) ⊎ (u ≡ Status.canceled))
    ⊎ (s ≡ Status.expired) × (u ≡ Status.pending)

-- A commitment in a terminal status is moved only by an operator, only out of `permanent_failed` or
-- `expired`, and only to where the matrix says: back to `pending`, or, from a failure, `canceled`.
pub decide-terminal :
    (i : Input) {t : Transition}
    → terminal i.intent.status ≡ true
    → decide i ≡ ok t
    → (i.trigger ≡ Trigger.operator) × Revived i.intent.status t.to
unfolding terminal decide decide_preparation decide_finish decide_recover decide_verdict
    decide_operator
decide-terminal i s h = ground arith

-- Nothing automatic leaves `manual_review` either.
pub decide_manual_review :
    (i : Input) {t : Transition}
    → i.intent.status ≡ Status.manual_review
    → decide i ≡ ok t
    → i.trigger ≡ Trigger.operator
unfolding decide decide_preparation decide_finish decide_recover decide_verdict decide_operator
decide_manual_review i s h = ground arith

-- One decision about a commitment of kind `k`, from status `s` to status `u`.
pub data Decided (k : Kind) (s u : Status) : Type 0 where
  decided :
      (i : Input) (t : Transition)
      → i.intent.key_kind ≡ k
      → i.intent.status ≡ s
      → decide i ≡ ok t
      → t.to ≡ u
      → Decided k s u

-- A history of decisions.
pub data History (k : Kind) (s : Status) : Status → Type 0 where
  start : History k s s
  next : {u v : Status} → History k s u → Decided k u v → History k s v

-- The endings that even an operator cannot leave.
abbrev pub IsFinal : Status → Type 0
IsFinal s = (s ≡ Status.succeeded) ⊎ (s ≡ Status.canceled) ⊎ (s ≡ Status.no_contact)

Decided-IsFinal : (k : Kind) (s u : Status) → IsFinal s → Decided k s u → u ≡ s
unfolding decide decide_preparation decide_finish decide_recover decide_verdict decide_operator
Decided-IsFinal k s u f (decided i t e p h q) = ground arith

-- No history of decisions, an operator's included, leaves `succeeded`, `canceled` or `no_contact`.
pub History-IsFinal : (k : Kind) (s u : Status) → IsFinal s → History k s u → u ≡ s
History-IsFinal k s u f start = refl
History-IsFinal k s u f (next {u = v} r d) =
    let same : v ≡ s = History-IsFinal k s v f r in Decided-IsFinal k v u (rw same f) d ∙ same

Decided-ended :
    (k : Kind) (s u : Status)
    → new_effect_door k ≢ ok resolve_ambiguity
    → terminal s ≡ true
    → Decided k s u
    → terminal u ≡ true
unfolding terminal decide decide_preparation decide_finish decide_recover decide_verdict
    decide_operator
Decided-ended k s u d f (decided i t e p h q) = ground arith

-- A commitment whose kind has another door to a new effect than the operator's retry, as the webhook
-- kinds have, stays ended once it has ended, whatever is decided about it.
pub History-ended :
    (k : Kind) (s u : Status)
    → new_effect_door k ≢ ok resolve_ambiguity
    → terminal s ≡ true
    → History k s u
    → terminal u ≡ true
History-ended k s u d f start = f
History-ended k s u d f (next {u = v} r x) = Decided-ended k v u d (History-ended k s v d f r) x
