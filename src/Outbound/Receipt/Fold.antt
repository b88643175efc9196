-- ===== src/Outbound/Receipt/Fold.antt =====
-- Events of one object in any order, and more than once.
use tokayops.Prelude.{
  ℕ, Bool, true, false, not, ◌||◌, ◌≡◌, Option, List, [], ◌∷◌, Perm, refl, ap, arith, eq_iff,
  if◌then◌else◌, all, inl, inr, Bool-cases, any, all-perm, any-perm,
}
use text.Mathlib.TextPositions.{eq_refl}
use tokayops.Outbound.Receipt.{
  EffectState, Effect, ends, known, same_state, equal_sequence, fold_effect, later_sequence,
}

same_state-eq : (a b : EffectState) → same_state a b ≡ true → a ≡ b
unfolding same_state
same_state-eq (EffectState.unlisted s) (EffectState.unlisted t) h =
    ap EffectState.unlisted ((eq_iff s t).0 h)
same_state-eq a b h = ground arith

same_state_refl : (a : EffectState) → same_state a a ≡ true
unfolding same_state
same_state_refl (EffectState.unlisted s) = eq_refl s
same_state_refl _ = refl

equal_sequence-eq : (a b : Option ℕ) → equal_sequence a b ≡ true → a ≡ b
unfolding equal_sequence
equal_sequence-eq a b h = ground arith

equal_sequence_refl : (a : Option ℕ) → equal_sequence a a ≡ true
unfolding equal_sequence
equal_sequence_refl a = ground arith

-- The flag that tells whether an event changed its object tells the truth: without it the object is
-- what it was.
pub fold_effect_unchanged :
    (c : Effect) (next : EffectState) (sequence : Option ℕ)
    → (fold_effect c next sequence).1 ≡ false
    → (fold_effect c next sequence).0 ≡ c
unfolding fold_effect
fold_effect_unchanged c next sequence h = ground (
  arith,
  same_state-eq next c.state,
  equal_sequence-eq (later_sequence c.last_sequence sequence) c.last_sequence,
)

-- The events of one object, applied in the order in which they come.
pub fold_all : Effect → List (EffectState × Option ℕ) → Effect
fold_all c [] = c
fold_all c ((next, sequence) ∷ es) = fold_all (fold_effect c next sequence).0 es

abbrev pub event_ends : EffectState × Option ℕ → Bool
event_ends (next, sequence) = ends next

abbrev pub event_known : EffectState × Option ℕ → Bool
event_known (next, sequence) = known next

-- The event does not end its object, or ends it in this state.
abbrev pub event_agrees : EffectState → EffectState × Option ℕ → Bool
event_agrees end (next, sequence) = not (ends next) || same_state next end

fold_all-ended :
    (c : Effect) (es : List (EffectState × Option ℕ)) → ends c.state ≡ true → fold_all c es ≡ c
unfolding fold_all fold_effect
fold_all-ended c [] h = refl
fold_all-ended c ((next, sequence) ∷ es) h = rw h (fold_all-ended c es h)

fold_effect-live :
    (c : Effect) (next : EffectState) (sequence : Option ℕ)
    → c.state ≡ EffectState.in_progress
    → known next ≡ true
    → ends next ≡ false
    → (fold_effect c next sequence).0.state ≡ EffectState.in_progress
unfolding fold_effect known
fold_effect-live c next sequence s k e = ground arith

fold_effect-end :
    (c : Effect) (next : EffectState) (sequence : Option ℕ)
    → c.state ≡ EffectState.in_progress
    → ends next ≡ true
    → (fold_effect c next sequence).0.state ≡ next
unfolding fold_effect
fold_effect-end c next sequence s e = ground arith

fold_all-state :
    (c : Effect) (end : EffectState) (es : List (EffectState × Option ℕ))
    → c.state ≡ EffectState.in_progress
    → all event_known es ≡ true
    → all (event_agrees end) es ≡ true
    → (fold_all c es).state ≡ (if any event_ends es then end else EffectState.in_progress)
unfolding fold_all
fold_all-state c end [] s k a = s
fold_all-state c end ((next, sequence) ∷ es) s k a = elim (Bool-cases (ends next)) [
  | inl e ↦ ground (
    arith,
    fold_effect-end c next sequence s e,
    same_state-eq next end,
    fold_all-ended (fold_effect c next sequence).0 es,
  )
  | inr e ↦ ground (
    arith,
    fold_effect-live c next sequence s,
    fold_all-state (fold_effect c next sequence).0 end es,
  )
]

-- Events of one object that arrive in another order leave it in the same state, as long as their
-- states are known and no two of them end it differently: a late "ringing" after the end is history.
pub fold_all-perm :
    (c : Effect) (end : EffectState) (es fs : List (EffectState × Option ℕ))
    → c.state ≡ EffectState.in_progress
    → all event_known es ≡ true
    → all (event_agrees end) es ≡ true
    → Perm es fs
    → (fold_all c es).state ≡ (fold_all c fs).state
fold_all-perm c end es fs s k a d = ground (
  arith,
  fold_all-state c end es s k a,
  fold_all-state c end fs s,
  all-perm event_known d,
  all-perm (event_agrees end) d,
  any-perm event_ends d,
)
