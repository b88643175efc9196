-- ===== src/Engine/Steps/Once.antt =====
-- A whole plan promises each message once (internal/engine/plan.go, `commitments`).
use tokayops.Prelude.{
  ◌≡◌, inl, inr, Bool-cases, refl, ap, Option, none, some, List, [], ◌∷◌, All, ℤ, pos, Bytes,
  is_blank, ok,
}
use tokayops.Outbound.Keys.Grammar.{Slot, Target}
use tokayops.Engine.Types.{
  EscalationStep, EscalationPolicy, TeamOnCallResult, Services, Reading, add_int64,
}
use tokayops.Engine.Steps.{
  Draft, UnpromisedReason, unpromise, block, firehose_card, promise_all, commit_step, start_draft,
  plan_step, plan_steps, delay_of, steps_of, commitments,
}
use tokayops.Engine.Steps.Loop.{IsPlain, not_satellite, go_on-ok, plan_step-cases, ok_value}
use tokayops.Engine.Steps.Distinct.{
  IsDistinct, IsDraft, block-IsDistinct, block-Follows, All-map, promise_to-IsDraft,
}

unpromise-IsDraft :
    (step : EscalationStep) (reason : UnpromisedReason) (d : Draft)
    → IsDraft d
    → IsDraft (unpromise step reason d)
unpromise-IsDraft step reason d h = record { distinct = h.distinct; was_seen = h.was_seen }

promise_all-IsDraft :
    (step : EscalationStep) (offset : ℤ) (targets : List Target) (d : Draft)
    → All IsPlain targets
    → IsDraft d
    → IsDraft (promise_all step offset targets d)
promise_all-IsDraft step offset [] d plain h = h
promise_all-IsDraft step offset (t ∷ ts) d plain h =
    promise_all-IsDraft step offset ts _ plain.1
      (promise_to-IsDraft step offset t d (not_satellite t.kind plain.0) h)

commit_step-IsDraft :
    (step : EscalationStep) (offset : ℤ) (targets : List Target) (d : Draft)
    → All IsPlain targets
    → IsDraft d
    → IsDraft (commit_step step offset targets d)
unfolding commit_step
commit_step-IsDraft step offset [] d plain h = unpromise-IsDraft step _ d h
commit_step-IsDraft step offset (t ∷ ts) d plain h =
    promise_all-IsDraft step offset (t ∷ ts) d plain h

start_draft-IsDraft : (channel : Bytes) → IsDraft (start_draft channel)
unfolding start_draft
start_draft-IsDraft channel = elim (Bool-cases (is_blank channel)) [
  | inl blank ↦ rw blank (record { distinct = tt; was_seen = tt })
  | inr named ↦ rw named (record {
    distinct = block-IsDistinct (firehose_card channel) refl;
    was_seen =
        All-map (block (firehose_card channel))
          (λ p follow. inl (ap (λ (slot : Slot). slot.kind) follow.0))
          (block-Follows (firehose_card channel) refl);
  })
]

module _ {World : Type 0} (services : Services World) (team : TeamOnCallResult) where
  plan_step-IsDraft :
      (step : EscalationStep) (offset : ℤ) (d d' : Draft) (s : Reading World)
      → (plan_step services team step offset d s).1 ≡ ok d'
      → IsDraft d
      → IsDraft d'
  plan_step-IsDraft step offset d d' s h draft =
      elim (plan_step-cases services team step offset d s h) [
        | inl (_, e) ↦ rw (← e) (unpromise-IsDraft step _ d draft)
        | inr c ↦ rw (← c.result) (commit_step-IsDraft step offset c.targets d c.plain draft)
      ]

  plan_steps-IsDraft :
      (steps : List (Option EscalationStep)) (offset : ℤ) (d d' : Draft) (s : Reading World)
      → (plan_steps services team steps offset d s).1 ≡ ok d'
      → IsDraft d
      → IsDraft d'
  plan_steps-IsDraft [] offset d d' s h draft = rw (← ok_value h) draft
  plan_steps-IsDraft (none ∷ steps) offset d d' s h draft =
      plan_steps-IsDraft steps offset d d' s h draft
  plan_steps-IsDraft (some step ∷ steps) offset d d' s h draft =
      let due = add_int64 offset (delay_of step) in
      let (d1, first, rest, _) =
        go_on-ok (plan_steps services team steps due) (plan_step services team step due d s) h in
      plan_steps-IsDraft steps due d1 d' _ rest (plan_step-IsDraft step due d d1 s first draft)

  -- No two commitments of a plan have one slot, provider and recipient, the satellites included: so no
  -- plan names one key twice, for which the grammar would refuse it whole.
  pub commitments-IsDistinct :
      (firehose : Bytes) (policy : Option EscalationPolicy) (s : Reading World) (d : Draft)
      → (commitments services team firehose policy s).1 ≡ ok d
      → IsDistinct d.planned
  unfolding commitments
  commitments-IsDistinct firehose policy s d h =
      (plan_steps-IsDraft (steps_of policy) (pos 0) (start_draft firehose) d s h
        (start_draft-IsDraft firehose)).distinct
