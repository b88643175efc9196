-- ===== src/Engine/Steps/Accepted.antt =====
-- The grammar accepts what the plan proposes (internal/engine/plan.go against
-- internal/outbound/keys/escalation.go).
use tokayops.Prelude.{
  ℕ, ◌+◌, ◌*◌, ◌<◌, ◌^◌, true, ◌≡◌, refl, ap, inl, inr, Bool-cases, Option, none, some, List, [],
  ◌∷◌, any, All, pos, Bytes, bytes_eq, is_blank, ok, arith,
}
use tokayops.Outbound.Keys.Grammar.{Target, validate_slot}
use tokayops.Engine.Types.{
  EscalationStep, EscalationPolicy, TeamOnCallResult, Services, Reading, add_int64,
}
use tokayops.Engine.Steps.{
  slot_target, delivers_through, block, step_card, slot_of, Draft, promise_to, promise_all,
  commit_step, start_draft, firehose_card, plan_step, plan_steps, delay_of, steps_of, commitments,
}
use tokayops.Engine.Steps.Loop.{IsPlain, go_on-ok, plan_step-cases, ok_value}
use tokayops.Engine.Steps.Distinct.{step_card_fields, All-append}
use tokayops.Engine.Steps.Cards.{
  IsAccepted, add_int64_pos, mul_int64_pos, Fits, step_card-timing, step_card-IsAccepted,
  firehose_accepted, block-IsAccepted,
}

slot_of-valid :
    (step : EscalationStep) (k : ℕ) → step.step_index ≡ pos k → validate_slot (slot_of step) ≡ ok tt
unfolding validate_slot
slot_of-valid step k index = rw index refl

module _ (step : EscalationStep) (n : ℕ) (f : Fits step n)
    (delivers : delivers_through step.provider ≡ true) where
  promise_to-IsAccepted :
      (target : Target) (d : Draft)
      → IsPlain target
      → All IsAccepted d.planned
      → All IsAccepted (promise_to step (pos n) target d).planned
  unfolding promise_to
  promise_to-IsAccepted target d plain h =
      let card = step_card step (pos n) target in
      let (slot, _, _) = step_card_fields step (pos n) target in
      elim (Bool-cases (any (bytes_eq (slot_target (slot_of step) step.provider target)) d.seen)) [
        | inl again ↦ rw again h
        | inr fresh ↦ rw fresh (
            All-append IsAccepted d.planned (block card) h (
              block-IsAccepted card n (rw slot (slot_of-valid step f.k f.index))
                (step_card-timing step (pos n) target)
                (step_card-IsAccepted step n target f delivers plain)))
      ]

  promise_all-IsAccepted :
      (targets : List Target) (d : Draft)
      → All IsPlain targets
      → All IsAccepted d.planned
      → All IsAccepted (promise_all step (pos n) targets d).planned
  promise_all-IsAccepted [] d plain h = h
  promise_all-IsAccepted (t ∷ ts) d plain h =
      promise_all-IsAccepted ts _ plain.1 (promise_to-IsAccepted t d plain.0 h)

  commit_step-IsAccepted :
      (targets : List Target) (d : Draft)
      → All IsPlain targets
      → All IsAccepted d.planned
      → All IsAccepted (commit_step step (pos n) targets d).planned
  unfolding commit_step
  commit_step-IsAccepted [] d plain h = h
  commit_step-IsAccepted (t ∷ ts) d plain h = promise_all-IsAccepted (t ∷ ts) d plain h

-- No step has a negative number or delay, and all the delays, in seconds behind those already taken,
-- with a call's ten minutes are an int64 of nanoseconds.
abbrev pub IsSized : List (Option EscalationStep) → ℕ → Type 0
IsSized [] seconds = (seconds + 600) * 1000000000 < 2 ^ 63
IsSized (none ∷ steps) seconds = IsSized steps seconds
IsSized (some step ∷ steps) seconds =
    (k : ℕ) × (m : ℕ) × (step.step_index ≡ pos k)
    × (step.delay_seconds ≡ pos m)
    × IsSized steps (seconds + m)

IsSized-fits :
    (steps : List (Option EscalationStep)) (seconds : ℕ)
    → IsSized steps seconds
    → (seconds + 600) * 1000000000 < 2 ^ 63
IsSized-fits [] seconds h = h
IsSized-fits (none ∷ steps) seconds h = IsSized-fits steps seconds h
IsSized-fits (some step ∷ steps) seconds (k, m, _, _, h) =
    let later = IsSized-fits steps (seconds + m) h in omega arith

due-pos :
    (step : EscalationStep) (seconds m : ℕ)
    → step.delay_seconds ≡ pos m
    → (seconds + m + 600) * 1000000000 < 2 ^ 63
    → add_int64 (pos (seconds * 1000000000)) (delay_of step) ≡ pos ((seconds + m) * 1000000000)
due-pos step seconds m delay fits =
    rw
      (
        delay,
        mul_int64_pos m (omega arith),
        add_int64_pos (seconds * 1000000000) (m * 1000000000) (omega arith),
      )
      (ap pos (omega arith))

module _ {World : Type 0} (services : Services World) (team : TeamOnCallResult) where
  plan_step-IsAccepted :
      (step : EscalationStep) (n : ℕ) (d d' : Draft) (s : Reading World)
      → Fits step n
      → (plan_step services team step (pos n) d s).1 ≡ ok d'
      → All IsAccepted d.planned
      → All IsAccepted d'.planned
  plan_step-IsAccepted step n d d' s f h so_far =
      elim (plan_step-cases services team step (pos n) d s h) [
        | inl (_, e) ↦ rw (← e) so_far
        | inr c ↦
            rw (← c.result) (commit_step-IsAccepted step n f c.delivers c.targets d c.plain so_far)
      ]

  plan_steps-IsAccepted :
      (steps : List (Option EscalationStep)) (seconds : ℕ) (d d' : Draft) (s : Reading World)
      → IsSized steps seconds
      → (plan_steps services team steps (pos (seconds * 1000000000)) d s).1 ≡ ok d'
      → All IsAccepted d.planned
      → All IsAccepted d'.planned
  plan_steps-IsAccepted [] seconds d d' s sized h so_far = rw (← ok_value h) so_far
  plan_steps-IsAccepted (none ∷ steps) seconds d d' s sized h so_far =
      plan_steps-IsAccepted steps seconds d d' s sized h so_far
  plan_steps-IsAccepted (some step ∷ steps) seconds d d' s (k, m, index, delay, sized) h so_far =
      let total = IsSized-fits steps (seconds + m) sized in
      let due = (seconds + m) * 1000000000 in
      let (d1, first, rest, _) =
        go_on-ok (plan_steps services team steps (pos due))
          (plan_step services team step (pos due) d s)
          (rw (due-pos step seconds m delay total) at h) in
      plan_steps-IsAccepted steps (seconds + m) d1 d' _ sized rest (
        plan_step-IsAccepted step due d d1 s (record { k = k; index = index; fits = omega arith })
          first so_far)

  start_draft-IsAccepted : (channel : Bytes) → All IsAccepted (start_draft channel).planned
  unfolding start_draft validate_slot
  start_draft-IsAccepted channel = elim (Bool-cases (is_blank channel)) [
    | inl blank ↦ rw blank tt
    | inr named ↦ rw named (
        block-IsAccepted (firehose_card channel) 0 refl refl
          (λ has_name. firehose_accepted channel has_name))
  ]

  -- The grammar accepts every commitment of a plan whose recipient has a name, the calls and the
  -- satellites included: if no step has a negative number or delay, and all the delays of the policy with
  -- a call's ten minutes are an int64 of nanoseconds.
  pub commitments-IsAccepted :
      (firehose : Bytes) (policy : Option EscalationPolicy) (s : Reading World) (d : Draft)
      → IsSized (steps_of policy) 0
      → (commitments services team firehose policy s).1 ≡ ok d
      → All IsAccepted d.planned
  unfolding commitments
  commitments-IsAccepted firehose policy s d sized h =
      plan_steps-IsAccepted (steps_of policy) 0 (start_draft firehose) d s sized h
        (start_draft-IsAccepted firehose)
