-- ===== src/Engine/Steps/Owed.antt =====
-- No recipient of a step is lost (internal/engine/plan.go, `commitments`).
use tokayops.Prelude.{
  true, ◌≡◌, ◌∙◌, subst, inl, inr, Bool-cases, Option, none, some, List, [], ◌∷◌, ℤ, pos, Bytes, ok,
  Result, is_blank, Memᴰ,
}
use tokayops.Outbound.Keys.Grammar.{Target}
use tokayops.Engine.Types.{
  EscalationStep, EscalationPolicy, TeamOnCallResult, PlanError, Services, Reading, add_int64,
}
use tokayops.Engine.Steps.{
  PlannedCommitment, delivers_through, Draft, start_draft, recipients, plan_step, plan_steps,
  delay_of, steps_of, commitments,
}
use tokayops.Engine.Steps.Loop.{go_on-ok, plan_step-cases, ok_value}
use tokayops.Engine.Resolver.Answers.{Remembers, Remembers-refl, Remembers-trans}
use tokayops.Engine.Steps.Asked.{plan_step-asked, plan_steps-Remembers}
use tokayops.Engine.Steps.Backing.{
  Some, IsTo, IsBacked, commit_step-IsBacked, commit_step-IsTo, commit_step-keeps,
}

-- What is owed for a step whose provider is delivered through, when `t` is what the plan read in the
-- end: it has recipients, and each of them has a commitment in the step's slot.
abbrev pub Owed :
    {World : Type 0}
    → Services World
    → TeamOnCallResult
    → Reading World
    → Draft
    → EscalationStep
    → Type 0
Owed services team t d step =
    delivers_through step.provider ≡ true
    → (targets : List Target) × ((recipients services team step t).1 ≡ ok targets)
      × ((target : Target) → Memᴰ target targets → Some (IsTo step target) d.planned)

module _ {World : Type 0} (services : Services World) (team : TeamOnCallResult) where
  plan_step-IsBacked :
      (step : EscalationStep) (offset : ℤ) (d d' : Draft) (s : Reading World)
      → (plan_step services team step offset d s).1 ≡ ok d'
      → IsBacked d
      → IsBacked d'
  plan_step-IsBacked step offset d d' s h back =
      elim (plan_step-cases services team step offset d s h) [
        | inl (_, e) ↦ rw (← e) back
        | inr c ↦
            rw (← c.result) (commit_step-IsBacked step offset c.delivers c.targets d c.plain back)
      ]

  plan_step-keeps :
      (P : PlannedCommitment → Type 0) (step : EscalationStep) (offset : ℤ) (d d' : Draft)
      (s : Reading World)
      → (plan_step services team step offset d s).1 ≡ ok d'
      → Some P d.planned
      → Some P d'.planned
  plan_step-keeps P step offset d d' s h held =
      elim (plan_step-cases services team step offset d s h) [
        | inl (_, e) ↦ rw (← e) held
        | inr c ↦ rw (← c.result) (commit_step-keeps step offset P c.targets d held)
      ]

  plan_step-Owed :
      (step : EscalationStep) (offset : ℤ) (d d' : Draft) (s t : Reading World)
      → (plan_step services team step offset d s).1 ≡ ok d'
      → Remembers (plan_step services team step offset d s).0 t
      → IsBacked d
      → Owed services team t d' step
  plan_step-Owed step offset d d' s t h later back delivers =
      elim (plan_step-cases services team step offset d s h) [
        | inl (undelivered, _) ↦ cc
        | inr c ↦ (
          c.targets,
          plan_step-asked services team step offset d s t delivers later ∙ c.asked,
          λ target m.
              subst (λ (last : Draft). Some (IsTo step target) last.planned) c.result
                (commit_step-IsTo step offset delivers c.targets d c.plain back m),
        )
      ]

  plan_steps-keeps :
      (P : PlannedCommitment → Type 0) (steps : List (Option EscalationStep)) (offset : ℤ)
      (d d' : Draft) (s : Reading World)
      → (plan_steps services team steps offset d s).1 ≡ ok d'
      → Some P d.planned
      → Some P d'.planned
  plan_steps-keeps P [] offset d d' s h held = rw (← ok_value h) held
  plan_steps-keeps P (none ∷ steps) offset d d' s h held =
      plan_steps-keeps P steps offset d d' s h held
  plan_steps-keeps P (some step ∷ steps) offset d d' s h held =
      let due = add_int64 offset (delay_of step) in
      let (d1, first, rest, _) =
        go_on-ok (plan_steps services team steps due) (plan_step services team step due d s) h in
      plan_steps-keeps P steps due d1 d' _ rest (plan_step-keeps P step due d d1 s first held)

  plan_steps-Owed :
      (steps : List (Option EscalationStep)) (offset : ℤ) (d d' : Draft) (s t : Reading World)
      (step : EscalationStep)
      → (plan_steps services team steps offset d s).1 ≡ ok d'
      → Remembers (plan_steps services team steps offset d s).0 t
      → IsBacked d
      → Memᴰ (some step) steps
      → delivers_through step.provider ≡ true
      → (targets : List Target) × ((recipients services team step t).1 ≡ ok targets)
        × ((target : Target) → Memᴰ target targets → Some (IsTo step target) d'.planned)
  plan_steps-Owed [] offset d d' s t step h later back m delivers = elim m [ ]
  plan_steps-Owed (none ∷ steps) offset d d' s t step h later back (Memᴰ.head e) delivers = cc
  plan_steps-Owed (none ∷ steps) offset d d' s t step h later back (Memᴰ.tail m) delivers =
      plan_steps-Owed steps offset d d' s t step h later back m delivers
  plan_steps-Owed (some first_step ∷ steps) offset d d' s t step h later back (Memᴰ.head e)
        delivers =
      let due = add_int64 offset (delay_of first_step) in
      let at = plan_step services team first_step due d s in
      let (d1, first, rest, whole) = go_on-ok (plan_steps services team steps due) at h in
      let same : first_step ≡ step = cc in
      let (targets, asked, to) =
        subst (Owed services team t d1) same
          (plan_step-Owed first_step due d d1 s t first
            (Remembers-trans at.0 _ t (plan_steps-Remembers services team steps due d1 at.0)
              (subst (λ (r : Reading World × Result PlanError Draft). Remembers r.0 t) whole later))
            back)
          delivers in
      (
        targets,
        asked,
        λ target m. plan_steps-keeps (IsTo step target) steps due d1 d' at.0 rest (to target m),
      )
  plan_steps-Owed (some first_step ∷ steps) offset d d' s t step h later back (Memᴰ.tail m)
        delivers =
      let due = add_int64 offset (delay_of first_step) in
      let at = plan_step services team first_step due d s in
      let (d1, first, rest, whole) = go_on-ok (plan_steps services team steps due) at h in
      plan_steps-Owed steps due d1 d' at.0 t step rest
        (subst (λ (r : Reading World × Result PlanError Draft). Remembers r.0 t) whole later)
        (plan_step-IsBacked first_step due d d1 s first back) m delivers

  start_draft-IsBacked : (channel : Bytes) → IsBacked (start_draft channel)
  unfolding start_draft
  start_draft-IsBacked channel = elim (Bool-cases (is_blank channel)) [
    | inl blank ↦ rw blank tt
    | inr named ↦ rw named tt
  ]

  -- Nobody whom a step names is lost: when the plan is made, and a step's provider is one that is
  -- delivered through, the step has recipients, those that it names to the last, and each of them has a
  -- commitment in the step's slot and through its provider. A recipient is taken for a repeat only of
  -- the same slot, provider and recipient.
  pub commitments-Owed :
      (firehose : Bytes) (policy : Option EscalationPolicy) (s : Reading World) (d : Draft)
      (step : EscalationStep)
      → (commitments services team firehose policy s).1 ≡ ok d
      → Memᴰ (some step) (steps_of policy)
      → Owed services team (commitments services team firehose policy s).0 d step
  unfolding commitments
  commitments-Owed firehose policy s d step h m =
      plan_steps-Owed (steps_of policy) (pos 0) (start_draft firehose) d s _ step h
        (Remembers-refl _) (start_draft-IsBacked firehose) m
