-- ===== src/Engine/Steps/Backing.antt =====
-- What one step leaves in the draft of a plan (internal/engine/plan.go, the loop over the recipients).
use tokayops.Prelude.{
  true, ◌≡◌, refl, sym, ap, ◌∙◌, subst, ◌⊎◌, inl, inr, Bool-cases, List, [], ◌∷◌, ◌++◌, any, All, ℤ,
  Bytes, bytes_eq, bytes_eq→eq, Memᴰ,
}
use tokayops.Outbound.Keys.Grammar.{SlotKind, Slot, Target}
use tokayops.Engine.Types.{EscalationStep}
use tokayops.Engine.Steps.{
  PlannedCommitment, delivers_through, slot_target, block, slot_of, step_card, Draft, promise_to,
  promise_all, commit_step,
}
use tokayops.Engine.Steps.Loop.{IsPlain}
use tokayops.Engine.Steps.Distinct.{step_card_fields, All-map}
use tokayops.Engine.Steps.Names.{slot_target-injective}

abbrev pub Some {ℓ} : {A : Type ℓ} → (A → Type 0) → List A → Type 0
Some P [] = ⊥
Some P (x ∷ xs) = P x ⊎ Some P xs

pub Some-left {ℓ} : {A : Type ℓ} (P : A → Type 0) (xs ys : List A) → Some P xs → Some P (xs ++ ys)
Some-left P [] ys h = absurd h
Some-left P (x ∷ xs) ys (inl h) = inl h
Some-left P (x ∷ xs) ys (inr h) = inr (Some-left P xs ys h)

pub Some-right {ℓ} : {A : Type ℓ} (P : A → Type 0) (xs ys : List A) → Some P ys → Some P (xs ++ ys)
Some-right P [] ys h = h
Some-right P (x ∷ xs) ys h = inr (Some-right P xs ys h)

Some-map {ℓ} :
    {A : Type ℓ} {P Q : A → Type 0} (xs : List A) → ((x : A) → P x → Q x) → Some P xs → Some Q xs
Some-map [] f h = absurd h
Some-map (x ∷ xs) f (inl h) = inl (f x h)
Some-map (x ∷ xs) f (inr h) = inr (Some-map xs f h)

-- A commitment to this recipient, in the step's slot and through its provider.
abbrev pub IsTo : EscalationStep → Target → PlannedCommitment → Type 0
IsTo step target p =
    (p.commitment.slot ≡ slot_of step)
    × (p.commitment.provider ≡ step.provider)
    × (p.commitment.target ≡ target)

-- A key that was seen is of a promise that stands in the plan.
abbrev Backs : Bytes → PlannedCommitment → Type 0
Backs key p =
    (i : ℤ) × (p.commitment.slot ≡ record { kind = SlotKind.policy; index = i })
    × (delivers_through p.commitment.provider ≡ true)
    × IsPlain p.commitment.target
    × (key ≡ slot_target p.commitment.slot p.commitment.provider p.commitment.target)

abbrev pub IsBacked : Draft → Type 0
IsBacked d = All (λ key. Some (Backs key) d.planned) d.seen

backed :
    (planned : List PlannedCommitment) (key : Bytes) (seen : List Bytes)
    → All (λ other. Some (Backs other) planned) seen
    → any (bytes_eq key) seen ≡ true
    → Some (Backs key) planned
backed planned key [] all h = cc
backed planned key (other ∷ seen) all h = elim (Bool-cases (bytes_eq key other)) [
  | inl one ↦ subst (λ k. Some (Backs k) planned) (sym (bytes_eq→eq key other one)) all.0
  | inr apart ↦ backed planned key seen all.1 (rw apart at h)
]

Backs-IsTo :
    (step : EscalationStep) (target : Target) (p : PlannedCommitment)
    → delivers_through step.provider ≡ true
    → IsPlain target
    → Backs (slot_target (slot_of step) step.provider target) p
    → IsTo step target p
Backs-IsTo step target p delivers plain (i, slot, p_delivers, p_plain, key) =
    let (index, provider, named) =
      slot_target-injective step.step_index i step.provider p.commitment.provider target
        p.commitment.target delivers p_delivers plain p_plain
        (key ∙ ap (λ (s : Slot). slot_target s p.commitment.provider p.commitment.target) slot) in
    (
      slot ∙ ap (λ (j : ℤ). record { kind = SlotKind.policy; index = j }) (sym index),
      sym provider,
      sym named,
    )

module _ (step : EscalationStep) (offset : ℤ) (target : Target)
    (delivers : delivers_through step.provider ≡ true) (plain : IsPlain target) where
  promise_to-IsTo :
      (d : Draft) → IsBacked d → Some (IsTo step target) (promise_to step offset target d).planned
  unfolding promise_to block
  promise_to-IsTo d h =
      let key = slot_target (slot_of step) step.provider target in
      elim (Bool-cases (any (bytes_eq key) d.seen)) [
        | inl again ↦ rw again (
            Some-map d.planned (λ p b. Backs-IsTo step target p delivers plain b)
              (backed d.planned key d.seen h again))
        | inr fresh ↦ rw fresh (
            Some-right (IsTo step target) d.planned (block (step_card step offset target))
              (inl (step_card_fields step offset target)))
      ]

  promise_to-IsBacked : (d : Draft) → IsBacked d → IsBacked (promise_to step offset target d)
  unfolding promise_to block
  promise_to-IsBacked d h =
      let key = slot_target (slot_of step) step.provider target in
      let card = step_card step offset target in
      let (slot, provider, named) = step_card_fields step offset target in
      elim (Bool-cases (any (bytes_eq key) d.seen)) [
        | inl again ↦ rw again h
        | inr fresh ↦ rw fresh (
          Some-right (Backs key) d.planned (block card) (
              inl (
                step.step_index,
                slot,
                rw provider delivers,
                rw named plain,
                rw (slot, provider, named) refl,
              )),
          All-map d.seen (λ other. Some-left (Backs other) d.planned (block card)) h,
        )
      ]

promise_to-keeps :
    (P : PlannedCommitment → Type 0) (step : EscalationStep) (offset : ℤ) (target : Target)
    (d : Draft)
    → Some P d.planned
    → Some P (promise_to step offset target d).planned
unfolding promise_to
promise_to-keeps P step offset target d h =
    elim (Bool-cases (any (bytes_eq (slot_target (slot_of step) step.provider target)) d.seen)) [
      | inl again ↦ rw again h
      | inr fresh ↦ rw fresh (Some-left P d.planned _ h)
    ]

module _ (step : EscalationStep) (offset : ℤ) where
  promise_all-keeps :
      (P : PlannedCommitment → Type 0) (targets : List Target) (d : Draft)
      → Some P d.planned
      → Some P (promise_all step offset targets d).planned
  promise_all-keeps P [] d h = h
  promise_all-keeps P (t ∷ ts) d h = promise_all-keeps P ts _ (promise_to-keeps P step offset t d h)

  pub commit_step-keeps :
      (P : PlannedCommitment → Type 0) (targets : List Target) (d : Draft)
      → Some P d.planned
      → Some P (commit_step step offset targets d).planned
  unfolding commit_step
  commit_step-keeps P [] d h = h
  commit_step-keeps P (t ∷ ts) d h = promise_all-keeps P (t ∷ ts) d h

  module _ (delivers : delivers_through step.provider ≡ true) where
    promise_all-IsBacked :
        (targets : List Target) (d : Draft)
        → All IsPlain targets
        → IsBacked d
        → IsBacked (promise_all step offset targets d)
    promise_all-IsBacked [] d plain h = h
    promise_all-IsBacked (t ∷ ts) d plain h =
        promise_all-IsBacked ts _ plain.1 (promise_to-IsBacked step offset t delivers plain.0 d h)

    promise_all-IsTo :
        (targets : List Target) (d : Draft) {target : Target}
        → All IsPlain targets
        → IsBacked d
        → Memᴰ target targets
        → Some (IsTo step target) (promise_all step offset targets d).planned
    promise_all-IsTo [] d plain h m = elim m [ ]
    promise_all-IsTo (t ∷ ts) d {target} plain h (Memᴰ.head e) =
        promise_all-keeps (IsTo step target) ts _ (
          subst (λ one. Some (IsTo step one) (promise_to step offset t d).planned) (sym e)
            (promise_to-IsTo step offset t delivers plain.0 d h))
    promise_all-IsTo (t ∷ ts) d plain h (Memᴰ.tail m) =
        promise_all-IsTo ts _ plain.1 (promise_to-IsBacked step offset t delivers plain.0 d h) m

    pub commit_step-IsBacked :
        (targets : List Target) (d : Draft)
        → All IsPlain targets
        → IsBacked d
        → IsBacked (commit_step step offset targets d)
    unfolding commit_step
    commit_step-IsBacked [] d plain h = h
    commit_step-IsBacked (t ∷ ts) d plain h = promise_all-IsBacked (t ∷ ts) d plain h

    pub commit_step-IsTo :
        (targets : List Target) (d : Draft) {target : Target}
        → All IsPlain targets
        → IsBacked d
        → Memᴰ target targets
        → Some (IsTo step target) (commit_step step offset targets d).planned
    unfolding commit_step
    commit_step-IsTo [] d plain h m = elim m [ ]
    commit_step-IsTo (t ∷ ts) d plain h m = promise_all-IsTo (t ∷ ts) d plain h m
