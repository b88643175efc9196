-- ===== src/Engine/Steps/Loop.antt =====
-- What a step that went through did (internal/engine/plan.go, the loop of `commitments`).
use tokayops.Prelude.{
  Bool, true, false, ◌≡◌, refl, ◌⊎◌, inl, inr, Bool-cases, List, [], ◌∷◌, map, All, ℤ, bytes_eq,
  is_blank, codes, Result, ok, err, arith,
}
use tokayops.Outbound.Intent.{TargetKind}
use tokayops.Outbound.Keys.Grammar.{Target}
use tokayops.Outbound.Keys.Commitment.{is_satellite}
use tokayops.Engine.Types.{
  User, EscalationStep, TeamOnCallResult, PlanError, Services, Reading, Plan, go_on, pure,
}
use tokayops.Engine.Resolver.{users_for}
use tokayops.Engine.Steps.{
  schedule_type, delivers_through, Draft, unpromise, no_channel, commit_step, user_target,
  named_target, recipients, plan_step,
}

pub go_on-ok :
    {World A B : Type 0} (f : A → Plan World B) (m : Reading World × Result PlanError A) {b : B}
    → (go_on f m).1 ≡ ok b
    → (a : A) × (m.1 ≡ ok a) × ((f a m.0).1 ≡ ok b) × (go_on f m ≡ f a m.0)
go_on-ok f (s, ok a) h = (a, refl, h, refl)
go_on-ok f (s, err e) h = ground arith

-- A step names people and channels; only a card has satellites.
abbrev pub is_plain : TargetKind → Bool
is_plain TargetKind.channel = true
is_plain TargetKind.user = true
is_plain _ = false

abbrev pub IsPlain : Target → Type 0
IsPlain t = is_plain t.kind ≡ true

pub not_satellite : (k : TargetKind) → is_plain k ≡ true → is_satellite k ≡ false
not_satellite TargetKind.thread h = cc
not_satellite TargetKind.thread_reply h = cc
not_satellite k h = refl

user_targets-IsPlain : (us : List User) → All IsPlain (map user_target us)
user_targets-IsPlain [] = tt
user_targets-IsPlain (u ∷ us) = (refl, user_targets-IsPlain us)

named_target-IsPlain : (step : EscalationStep) → All IsPlain (named_target step)
named_target-IsPlain step = elim (Bool-cases (is_blank step.target_id)) [
  | inl blank ↦ rw blank tt
  | inr named ↦ elim (Bool-cases (bytes_eq step.target_type (codes "channel"))) [
    | inl channel ↦ rw (named, channel) (refl, tt)
    | inr user ↦ rw (named, user) (refl, tt)
  ]
]

pub ok_value : {A : Type 0} {a b : A} → ◌≡◌ {A = Result PlanError A} (ok a) (ok b) → a ≡ b
ok_value h = cc h

module _ {World : Type 0} (services : Services World) (team : TeamOnCallResult) where
  pub recipients-cases :
      (step : EscalationStep) (s : Reading World) {targets : List Target}
      → (recipients services team step s).1 ≡ ok targets
      → ((bytes_eq step.target_type schedule_type ≡ true)
          × (us : List User) × ((users_for services team step.target_id s).1 ≡ ok us)
          × (targets ≡ map user_target us))
        ⊎ ((bytes_eq step.target_type schedule_type ≡ false) × (targets ≡ named_target step))
  unfolding recipients
  recipients-cases step s h = elim (Bool-cases (bytes_eq step.target_type schedule_type)) [
    | inl schedule ↦
        let (us, answer, last, _) =
          go_on-ok (λ us. pure (map user_target us)) (users_for services team step.target_id s)
            (rw schedule at h) in
        inl (schedule, us, answer, cc (ok_value last))
    | inr other ↦ inr (other, cc (ok_value (rw other at h)))
  ]

  recipients-IsPlain :
      (step : EscalationStep) (s : Reading World) (targets : List Target)
      → (recipients services team step s).1 ≡ ok targets
      → All IsPlain targets
  recipients-IsPlain step s targets h = elim (recipients-cases step s h) [
    | inl (_, us, _, e) ↦ rw e (user_targets-IsPlain us)
    | inr (_, e) ↦ rw e (named_target-IsPlain step)
  ]

  -- The step's recipients, when its provider is one that is delivered through.
  pub record Committed (step : EscalationStep) (offset : ℤ) (d d' : Draft) (s : Reading World)
      : Type 0 where
    pub delivers : delivers_through step.provider ≡ true
    pub targets : List Target
    pub asked : (recipients services team step s).1 ≡ ok targets
    pub plain : All IsPlain targets
    pub result : commit_step step offset targets d ≡ d'

  pub plan_step-cases :
      (step : EscalationStep) (offset : ℤ) (d : Draft) (s : Reading World) {d' : Draft}
      → (plan_step services team step offset d s).1 ≡ ok d'
      → ((delivers_through step.provider ≡ false) × (unpromise step no_channel d ≡ d'))
        ⊎ Committed step offset d d' s
  unfolding plan_step
  plan_step-cases step offset d s h = elim (Bool-cases (delivers_through step.provider)) [
    | inl delivers ↦
        let (targets, answer, last, _) =
          go_on-ok (λ targets. pure (commit_step step offset targets d))
            (recipients services team step s) (rw delivers at h) in
        inr (record {
          delivers = delivers;
          targets = targets;
          asked = answer;
          plain = recipients-IsPlain step s targets answer;
          result = ok_value last;
        })
    | inr undelivered ↦ inl (undelivered, ok_value (rw undelivered at h))
  ]
