-- ===== src/Engine/Steps/Cards.antt =====
-- One card and its satellites against the grammar (internal/engine/plan.go, keys/escalation.go).
use tokayops.Prelude.{
  ℕ, ◌+◌, ◌*◌, ◌<◌, ◌^◌, Bool, true, false, ◌&&◌, ◌≡◌, refl, inl, inr, Bool-cases, [], ◌∷◌, All, ℤ,
  pos, Bytes, bytes_eq, bytes_eq→eq, is_blank, ok, arith,
}
use tokayops.Outbound.Intent.{TargetKind}
use tokayops.Outbound.Keys.Grammar.{
  Target, validate_slot, addressed_to, validate_target, escalation_targets,
}
use tokayops.Outbound.Keys.Fingerprint.{validate_timing}
use tokayops.Outbound.Keys.Commitment.{provider_slack, validate_commitment, is_firehose}
use tokayops.Engine.Types.{EscalationStep, add_int64, mul_int64}
use tokayops.Engine.Steps.{
  PlannedCommitment, delivers_through, provider_phone, block, satellite_at, after_admission,
  call_of, promise, step_card, firehose_card,
}
use tokayops.Engine.Steps.Loop.{IsPlain, is_plain, not_satellite}
use tokayops.Engine.Steps.Distinct.{satellites_cases, step_card_fields}

-- Who is addressed has a name, and then the grammar takes the commitment.
abbrev pub IsAccepted : PlannedCommitment → Type 0
IsAccepted p = is_blank p.commitment.target.ref ≡ false → validate_commitment p.commitment ≡ ok tt

pub add_int64_pos : (a b : ℕ) → a + b < 2 ^ 63 → add_int64 (pos a) (pos b) ≡ pos (a + b)
unfolding add_int64
add_int64_pos a b fits = ground arith

pub mul_int64_pos :
    (a : ℕ) → a * 1000000000 < 2 ^ 63 → mul_int64 (pos a) (pos 1000000000) ≡ pos (a * 1000000000)
unfolding mul_int64
mul_int64_pos a fits = ground arith

addressed-ok :
    (kind : TargetKind) (ref : Bytes)
    → is_plain kind ≡ true
    → is_blank ref ≡ false
    → addressed_to escalation_targets (record { kind = kind; ref = ref }) ≡ ok tt
unfolding addressed_to validate_target
addressed-ok TargetKind.channel ref plain named = rw named refl
addressed-ok TargetKind.user ref plain named = rw named refl
addressed-ok TargetKind.subscriber ref plain named = cc
addressed-ok TargetKind.thread ref plain named = cc
addressed-ok TargetKind.thread_reply ref plain named = cc
addressed-ok (TargetKind.unlisted s) ref plain named = cc

delivered-named : (provider : Bytes) → delivers_through provider ≡ true → is_blank provider ≡ false
unfolding delivers_through
delivered-named [] h = cc
delivered-named (b ∷ s) h = refl

timing-ok : (n : ℕ) → validate_timing (after_admission (pos n)) ≡ ok tt
unfolding validate_timing
timing-ok n = refl

promise_accepted :
    (step : EscalationStep) (n k : ℕ) (target : Target)
    → step.step_index ≡ pos k
    → delivers_through step.provider ≡ true
    → IsPlain target
    → is_blank target.ref ≡ false
    → validate_commitment (promise step (pos n) target) ≡ ok tt
unfolding validate_commitment promise validate_slot
promise_accepted step n k target index delivers plain named =
    rw
      (
        index,
        delivered-named step.provider delivers,
        addressed-ok target.kind target.ref plain named,
        not_satellite target.kind plain,
        timing-ok n,
      )
      refl

call_accepted :
    (step : EscalationStep) (n k : ℕ) (target : Target)
    → step.step_index ≡ pos k
    → n + 600000000000 < 2 ^ 63
    → delivers_through step.provider ≡ true
    → IsPlain target
    → is_blank target.ref ≡ false
    → validate_commitment (call_of (promise step (pos n) target) (pos n)) ≡ ok tt
unfolding validate_commitment promise call_of validate_slot
call_accepted step n k target index fits delivers plain named =
    rw
      (
        index,
        delivered-named step.provider delivers,
        addressed-ok target.kind target.ref plain named,
        not_satellite target.kind plain,
        add_int64_pos n 600000000000 fits,
        timing-ok n,
        timing-ok (n + 600000000000),
      )
      refl

and_false : (b : Bool) → (b && false) ≡ false
and_false true = refl
and_false false = refl

module _ (card : PlannedCommitment) (n : ℕ) (slot : validate_slot card.commitment.slot ≡ ok tt)
    (timing : card.commitment.timing ≡ after_admission (pos n)) where
  thread-IsAccepted :
      card.commitment.provider ≡ provider_slack
      → IsAccepted (satellite_at card TargetKind.thread true)
  unfolding validate_commitment addressed_to validate_target
  thread-IsAccepted provider named =
      rw
        (
          slot,
          and_false (is_firehose card.commitment.slot.kind),
          provider,
          named,
          timing,
          timing-ok n,
        )
        refl

  thread_reply-IsAccepted :
      card.commitment.provider ≡ provider_slack
      → IsAccepted (satellite_at card TargetKind.thread_reply false)
  unfolding validate_commitment addressed_to validate_target
  thread_reply-IsAccepted provider named =
      rw
        (
          slot,
          and_false (is_firehose card.commitment.slot.kind),
          provider,
          named,
          timing,
          timing-ok n,
        )
        refl

  pub block-IsAccepted : IsAccepted card → All IsAccepted (block card)
  unfolding block
  block-IsAccepted h = elim (satellites_cases card) [
    | inl e ↦ rw e (h, tt)
    | inr (_, slack, _, e) ↦
        let provider = bytes_eq→eq card.commitment.provider provider_slack slack in
        rw e (h, (thread-IsAccepted provider, (thread_reply-IsAccepted provider, tt)))
  ]

-- A step as a policy may have it: its number is not negative, and its offset and a call's ten minutes
-- behind it are int64s.
pub record Fits (step : EscalationStep) (n : ℕ) : Type 0 where
  pub k : ℕ
  pub index : step.step_index ≡ pos k
  pub fits : n + 600000000000 < 2 ^ 63

pub step_card-timing :
    (step : EscalationStep) (offset : ℤ) (target : Target)
    → (step_card step offset target).commitment.timing ≡ after_admission offset
unfolding step_card promise call_of
step_card-timing step offset target = ground arith

pub step_card-IsAccepted :
    (step : EscalationStep) (n : ℕ) (target : Target)
    → Fits step n
    → delivers_through step.provider ≡ true
    → IsPlain target
    → IsAccepted (step_card step (pos n) target)
unfolding step_card
step_card-IsAccepted step n target f delivers plain named =
    let (_, _, goes_to) = step_card_fields step (pos n) target in
    let has_name : is_blank target.ref ≡ false = rw goes_to at named in
    elim (Bool-cases (bytes_eq step.provider provider_phone)) [
      | inl phone ↦
          rw phone (call_accepted step n f.k target f.index f.fits delivers plain has_name)
      | inr other ↦ rw other (promise_accepted step n f.k target f.index delivers plain has_name)
    ]

pub firehose_accepted :
    (channel : Bytes)
    → is_blank channel ≡ false
    → validate_commitment (firehose_card channel).commitment ≡ ok tt
unfolding validate_commitment firehose_card addressed_to validate_target validate_slot
    validate_timing
firehose_accepted channel named = rw named refl
