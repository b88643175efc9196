-- ===== src/Engine/Steps/Accompanied.antt =====
-- A satellite stands beside its card (internal/engine/plan.go, `satellitesOf`).
use tokayops.Prelude.{
  false, ◌≡◌, refl, sym, inl, inr, Bool-cases, Option, some, none, List, [], ◌∷◌, ◌++◌, any, All, ℤ,
  pos, Bytes, bytes_eq, is_blank, ok,
}
use tokayops.Outbound.Keys.Grammar.{Target}
use tokayops.Outbound.Keys.Commitment.{is_satellite}
use tokayops.Engine.Types.{
  EscalationStep, EscalationPolicy, TeamOnCallResult, Services, Reading, add_int64,
}
use tokayops.Engine.Steps.{
  PlannedCommitment, slot_target, block, slot_of, step_card, Draft, promise_to, promise_all,
  commit_step, start_draft, firehose_card, plan_step, plan_steps, delay_of, steps_of, commitments,
}
use tokayops.Engine.Steps.Loop.{IsPlain, not_satellite, go_on-ok, plan_step-cases, ok_value}
use tokayops.Engine.Steps.Distinct.{card_of, block-Follows, step_card_fields, All-append, All-map}
use tokayops.Engine.Steps.Backing.{Some, Some-left, Some-right}

-- The card that a satellite follows, by slot, provider and channel.
abbrev pub IsCardOf : PlannedCommitment → PlannedCommitment → Type 0
IsCardOf p card =
    (card.commitment.slot ≡ p.commitment.slot)
    × (card.commitment.provider ≡ p.commitment.provider)
    × (card.commitment.target ≡ card_of p)

abbrev pub IsAccompanied : List PlannedCommitment → Type 0
IsAccompanied planned = All (λ p. Some (IsCardOf p) planned) planned

block-IsAccompanied :
    (planned : List PlannedCommitment) (card : PlannedCommitment)
    → is_satellite card.commitment.target.kind ≡ false
    → IsAccompanied planned
    → IsAccompanied (planned ++ block card)
unfolding block
block-IsAccompanied planned card plain h =
    All-append (λ p. Some (IsCardOf p) (planned ++ block card)) planned (block card)
      (All-map planned (λ p there. Some-left (IsCardOf p) planned (block card) there) h)
      (All-map (block card)
        (λ p follow.
          Some-right (IsCardOf p) planned (block card)
            (inl (sym follow.0, sym follow.1, sym follow.2)))
        (block-Follows card plain))

promise_to-IsAccompanied :
    (step : EscalationStep) (offset : ℤ) (target : Target) (d : Draft)
    → IsPlain target
    → IsAccompanied d.planned
    → IsAccompanied (promise_to step offset target d).planned
unfolding promise_to
promise_to-IsAccompanied step offset target d plain h =
    let (_, _, goes_to) = step_card_fields step offset target in
    elim (Bool-cases (any (bytes_eq (slot_target (slot_of step) step.provider target)) d.seen)) [
      | inl again ↦ rw again h
      | inr fresh ↦ rw fresh (
          block-IsAccompanied d.planned (step_card step offset target)
            (rw goes_to (not_satellite target.kind plain)) h)
    ]

promise_all-IsAccompanied :
    (step : EscalationStep) (offset : ℤ) (targets : List Target) (d : Draft)
    → All IsPlain targets
    → IsAccompanied d.planned
    → IsAccompanied (promise_all step offset targets d).planned
promise_all-IsAccompanied step offset [] d plain h = h
promise_all-IsAccompanied step offset (t ∷ ts) d plain h =
    promise_all-IsAccompanied step offset ts _ plain.1
      (promise_to-IsAccompanied step offset t d plain.0 h)

commit_step-IsAccompanied :
    (step : EscalationStep) (offset : ℤ) (targets : List Target) (d : Draft)
    → All IsPlain targets
    → IsAccompanied d.planned
    → IsAccompanied (commit_step step offset targets d).planned
unfolding commit_step
commit_step-IsAccompanied step offset [] d plain h = h
commit_step-IsAccompanied step offset (t ∷ ts) d plain h =
    promise_all-IsAccompanied step offset (t ∷ ts) d plain h

start_draft-IsAccompanied : (channel : Bytes) → IsAccompanied (start_draft channel).planned
unfolding start_draft
start_draft-IsAccompanied channel = elim (Bool-cases (is_blank channel)) [
  | inl blank ↦ rw blank tt
  | inr named ↦ rw named (block-IsAccompanied [] (firehose_card channel) refl tt)
]

module _ {World : Type 0} (services : Services World) (team : TeamOnCallResult) where
  plan_steps-IsAccompanied :
      (steps : List (Option EscalationStep)) (offset : ℤ) (d d' : Draft) (s : Reading World)
      → (plan_steps services team steps offset d s).1 ≡ ok d'
      → IsAccompanied d.planned
      → IsAccompanied d'.planned
  plan_steps-IsAccompanied [] offset d d' s h so_far = rw (← ok_value h) so_far
  plan_steps-IsAccompanied (none ∷ steps) offset d d' s h so_far =
      plan_steps-IsAccompanied steps offset d d' s h so_far
  plan_steps-IsAccompanied (some step ∷ steps) offset d d' s h so_far =
      let due = add_int64 offset (delay_of step) in
      let (d1, first, rest, _) =
        go_on-ok (plan_steps services team steps due) (plan_step services team step due d s) h in
      plan_steps-IsAccompanied steps due d1 d' _ rest
        (elim (plan_step-cases services team step due d s first) [
          | inl (_, e) ↦ rw (← e) so_far
          | inr c ↦ rw (← c.result) (commit_step-IsAccompanied step due c.targets d c.plain so_far)
        ])

  -- Every commitment of a plan stands beside the card that it is or follows, which has its slot, its
  -- provider and its channel: so no satellite is refused for want of its card.
  pub commitments-IsAccompanied :
      (firehose : Bytes) (policy : Option EscalationPolicy) (s : Reading World) (d : Draft)
      → (commitments services team firehose policy s).1 ≡ ok d
      → IsAccompanied d.planned
  unfolding commitments
  commitments-IsAccompanied firehose policy s d h =
      plan_steps-IsAccompanied (steps_of policy) (pos 0) (start_draft firehose) d s h
        (start_draft-IsAccompanied firehose)
