-- ===== src/Engine/Steps/Asked.antt =====
-- A step's recipients, asked for again later in the plan (internal/engine/plan.go, `recipients`).
use tokayops.Prelude.{
  true, false, ◌≡◌, refl, sym, ◌⊎◌, inl, inr, Bool-cases, Option, none, some, List, [], ◌∷◌, map, ℤ,
  bytes_eq, Result, ok, err, subst,
}
use tokayops.Outbound.Keys.Grammar.{Target}
use tokayops.Engine.Types.{
  User, EscalationStep, TeamOnCallResult, PlanError, Services, Reading, go_on, pure, add_int64,
}
use tokayops.Engine.Resolver.{users_for}
use tokayops.Engine.Resolver.Answers.{Remembers, Remembers-refl, Remembers-trans, users_for-Settles}
use tokayops.Engine.Steps.{
  schedule_type, delivers_through, Draft, commit_step, user_target, recipients, plan_step,
  plan_steps, delay_of,
}

pub go_on-pure :
    {World A B : Type 0} (f : A → B) (m : Reading World × Result PlanError A)
    → (go_on (λ a. pure (f a)) m).0 ≡ m.0
go_on-pure f (s, ok a) = refl
go_on-pure f (s, err e) = refl

same_answer :
    {World : Type 0} (r : Reading World × Result PlanError (List User)) (t : Reading World)
    → (go_on {B = List Target} (λ us. pure (map user_target us)) (t, r.1)).1
      ≡ (go_on (λ us. pure (map user_target us)) r).1
same_answer (s, ok us) t = refl
same_answer (s, err e) t = refl

module _ {World : Type 0} (services : Services World) (team : TeamOnCallResult) where
  recipients-Remembers :
      (step : EscalationStep) (s : Reading World) → Remembers s (recipients services team step s).0
  unfolding recipients
  recipients-Remembers step s = elim (Bool-cases (bytes_eq step.target_type schedule_type)) [
    | inl schedule ↦ rw schedule (
        subst (Remembers s)
          (sym (go_on-pure (map user_target) (users_for services team step.target_id s)))
          (users_for-Settles services team step.target_id s).remembers)
    | inr other ↦ rw other (Remembers-refl s)
  ]

  -- The same recipients are named whenever the plan asks again.
  pub recipients_again :
      (step : EscalationStep) (s t : Reading World)
      → Remembers (recipients services team step s).0 t
      → (recipients services team step t).1 ≡ (recipients services team step s).1
  unfolding recipients
  recipients_again step s t later = elim (Bool-cases (bytes_eq step.target_type schedule_type)) [
    | inl schedule ↦
        let r = users_for services team step.target_id s in
        let from : Remembers r.0 t =
          subst (λ (u : Reading World). Remembers u t) (go_on-pure (map user_target) r)
            (rw schedule at later) in
        rw (schedule, (users_for-Settles services team step.target_id s).again t from)
          (same_answer r t)
    | inr other ↦ rw other refl
  ]

  pub plan_step-state :
      (step : EscalationStep) (offset : ℤ) (d : Draft) (s : Reading World)
      → ((delivers_through step.provider ≡ false)
          × ((plan_step services team step offset d s).0 ≡ s))
        ⊎ ((plan_step services team step offset d s).0 ≡ (recipients services team step s).0)
  unfolding plan_step
  plan_step-state step offset d s = elim (Bool-cases (delivers_through step.provider)) [
    | inl delivers ↦ inr (
        rw delivers (
          go_on-pure (λ targets. commit_step step offset targets d)
            (recipients services team step s)))
    | inr undelivered ↦ inl (undelivered, rw undelivered refl)
  ]

  pub plan_step-Remembers :
      (step : EscalationStep) (offset : ℤ) (d : Draft) (s : Reading World)
      → Remembers s (plan_step services team step offset d s).0
  plan_step-Remembers step offset d s = elim (plan_step-state step offset d s) [
    | inl (_, e) ↦ rw e (Remembers-refl s)
    | inr e ↦ rw e (recipients-Remembers step s)
  ]

  pub plan_step-asked :
      (step : EscalationStep) (offset : ℤ) (d : Draft) (s t : Reading World)
      → delivers_through step.provider ≡ true
      → Remembers (plan_step services team step offset d s).0 t
      → (recipients services team step t).1 ≡ (recipients services team step s).1
  plan_step-asked step offset d s t delivers later = elim (plan_step-state step offset d s) [
    | inl (undelivered, _) ↦ cc
    | inr e ↦ recipients_again step s t (subst (λ (u : Reading World). Remembers u t) e later)
  ]

  continue-Remembers :
      (steps : List (Option EscalationStep)) (offset : ℤ)
      (m : Reading World × Result PlanError Draft)
      → ((d : Draft) (s : Reading World)
          → Remembers s (plan_steps services team steps offset d s).0)
      → Remembers m.0 (go_on (plan_steps services team steps offset) m).0
  continue-Remembers steps offset (s, ok d) h = h d s
  continue-Remembers steps offset (s, err e) h = Remembers-refl s

  pub plan_steps-Remembers :
      (steps : List (Option EscalationStep)) (offset : ℤ) (d : Draft) (s : Reading World)
      → Remembers s (plan_steps services team steps offset d s).0
  plan_steps-Remembers [] offset d s = Remembers-refl s
  plan_steps-Remembers (none ∷ steps) offset d s = plan_steps-Remembers steps offset d s
  plan_steps-Remembers (some step ∷ steps) offset d s =
      let due = add_int64 offset (delay_of step) in
      let first = plan_step services team step due d s in
      Remembers-trans s first.0 _ (plan_step-Remembers step due d s)
        (continue-Remembers steps due first (λ d' s'. plan_steps-Remembers steps due d' s'))
