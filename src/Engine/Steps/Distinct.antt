-- ===== src/Engine/Steps/Distinct.antt =====
-- No plan promises one message twice (internal/engine/plan.go, `seen`).
use tokayops.Prelude.{
  Bool, true, false, if◌then◌else◌, ◌≡◌, refl, ◌⊎◌, inl, inr, Bool-cases, List, [], ◌∷◌, ◌++◌, any,
  All, ℤ, Bytes, bytes_eq, arith, bytes_eq_refl,
}
use tokayops.Outbound.Intent.{TargetKind}
use tokayops.Outbound.Keys.Grammar.{SlotKind, Target}
use tokayops.Outbound.Keys.Commitment.{is_satellite, provider_slack}
use tokayops.Engine.Types.{EscalationStep}
use tokayops.Engine.Steps.{
  PlannedCommitment, slot_target, satellites_of, block, slot_of, promise, step_card, Draft,
  promise_to, call_of, is_channel, has_none, satellite_at,
}

-- One slot, one provider, one recipient: what a commitment's key is made of.
abbrev pub Same : PlannedCommitment → PlannedCommitment → Type 0
Same p q =
    (p.commitment.slot ≡ q.commitment.slot)
    × (p.commitment.provider ≡ q.commitment.provider)
    × (p.commitment.target ≡ q.commitment.target)

abbrev pub Differs : PlannedCommitment → PlannedCommitment → Type 0
Differs p q = ¬ (Same p q)

abbrev pub IsDistinct : List PlannedCommitment → Type 0
IsDistinct [] = Unit
IsDistinct (p ∷ ps) = All (Differs p) ps × IsDistinct ps

-- The card that a commitment is or follows.
abbrev pub card_target : TargetKind → Bytes → Target
card_target TargetKind.thread ref = record { kind = TargetKind.channel; ref = ref }
card_target TargetKind.thread_reply ref = record { kind = TargetKind.channel; ref = ref }
card_target kind ref = record { kind = kind; ref = ref }

abbrev pub card_of : PlannedCommitment → Target
card_of p = card_target p.commitment.target.kind p.commitment.target.ref

unfoldable pub card_key : PlannedCommitment → Bytes
card_key p = slot_target p.commitment.slot p.commitment.provider (card_of p)

-- What a block's members share with its card.
abbrev pub Follows : PlannedCommitment → PlannedCommitment → Type 0
Follows card p =
    (p.commitment.slot ≡ card.commitment.slot)
    × (p.commitment.provider ≡ card.commitment.provider)
    × (card_of p ≡ card.commitment.target)

is_channel_only : (k : TargetKind) → is_channel k ≡ true → k ≡ TargetKind.channel
is_channel_only TargetKind.channel h = refl
is_channel_only TargetKind.user h = cc
is_channel_only TargetKind.subscriber h = cc
is_channel_only TargetKind.thread h = cc
is_channel_only TargetKind.thread_reply h = cc
is_channel_only (TargetKind.unlisted s) h = cc

if_cases :
    (b : Bool) (xs : List PlannedCommitment)
    → ((if b then [] else xs) ≡ []) ⊎ ((b ≡ false) × ((if b then [] else xs) ≡ xs))
if_cases true xs = inl refl
if_cases false xs = inr (refl, refl)

pub satellites_cases :
    (card : PlannedCommitment)
    → (satellites_of card ≡ [])
      ⊎ ((card.commitment.target.kind ≡ TargetKind.channel)
          × (bytes_eq card.commitment.provider provider_slack ≡ true)
          × (card.commitment.editable ≡ true)
          × (satellites_of card
              ≡ satellite_at card TargetKind.thread true
                ∷ satellite_at card TargetKind.thread_reply false
                ∷ []))
unfolding satellites_of
satellites_cases card =
    elim (if_cases (has_none card.commitment) (
      satellite_at card TargetKind.thread true
      ∷ satellite_at card TargetKind.thread_reply false
      ∷ [])) [
        | inl e ↦ inl e
        | inr (chosen, e) ↦ inr (
          is_channel_only card.commitment.target.kind (ground arith),
          ground arith,
          ground arith,
          e,
        )
      ]

card_of_plain :
    (kind : TargetKind) (ref : Bytes)
    → is_satellite kind ≡ false
    → card_target kind ref ≡ record { kind = kind; ref = ref }
card_of_plain TargetKind.channel ref h = refl
card_of_plain TargetKind.user ref h = refl
card_of_plain TargetKind.subscriber ref h = refl
card_of_plain TargetKind.thread ref h = cc
card_of_plain TargetKind.thread_reply ref h = cc
card_of_plain (TargetKind.unlisted s) ref h = refl

pub block-Follows :
    (card : PlannedCommitment)
    → is_satellite card.commitment.target.kind ≡ false
    → All (Follows card) (block card)
unfolding block
block-Follows card plain =
    let itself = card_of_plain card.commitment.target.kind card.commitment.target.ref plain in
    elim (satellites_cases card) [
      | inl e ↦ rw e ((refl, refl, itself), tt)
      | inr (channel, _, _, e) ↦
          let parent : ◌≡◌ {A = Target}
              (record { kind = TargetKind.channel; ref = card.commitment.target.ref })
              card.commitment.target =
            cc in
          rw e ((refl, refl, itself), ((refl, refl, parent), ((refl, refl, parent), tt)))
    ]

pub block-IsDistinct :
    (card : PlannedCommitment)
    → is_satellite card.commitment.target.kind ≡ false
    → IsDistinct (block card)
unfolding block
block-IsDistinct card plain = elim (satellites_cases card) [
  | inl e ↦ rw e (tt, tt)
  | inr (channel, _, _, e) ↦
      rw e (((λ same. cc), ((λ same. cc), tt)), (((λ same. cc), tt), (tt, tt)))
]

pub step_card_fields :
    (step : EscalationStep) (offset : ℤ) (target : Target)
    → let c = (step_card step offset target).commitment in
      (c.slot ≡ slot_of step) × (c.provider ≡ step.provider) × (c.target ≡ target)
unfolding step_card promise call_of
step_card_fields step offset target = ground arith

pub All-append {ℓ κ} :
    {A : Type ℓ} (P : A → Type κ) (xs ys : List A) → All P xs → All P ys → All P (xs ++ ys)
All-append P [] ys hx hy = hy
All-append P (x ∷ xs) ys hx hy = (hx.0, All-append P xs ys hx.1 hy)

pub All-map {ℓ κ} :
    {A : Type ℓ} {P Q : A → Type κ} (xs : List A) → ((x : A) → P x → Q x) → All P xs → All Q xs
All-map [] f h = h
All-map (x ∷ xs) f h = (f x h.0, All-map xs f h.1)

IsDistinct-append :
    (ps qs : List PlannedCommitment)
    → IsDistinct ps
    → IsDistinct qs
    → All (λ p. All (Differs p) qs) ps
    → IsDistinct (ps ++ qs)
IsDistinct-append [] qs dp dq apart = dq
IsDistinct-append (p ∷ ps) qs dp dq apart =
    (All-append (Differs p) ps qs dp.0 apart.0, IsDistinct-append ps qs dp.1 dq apart.1)

-- What was promised before a step: the firehose's block, or a card whose key was seen.
abbrev pub WasSeen : List Bytes → PlannedCommitment → Type 0
WasSeen seen p =
    (p.commitment.slot.kind ≡ SlotKind.firehose) ⊎ (any (bytes_eq (card_key p)) seen ≡ true)

pub record IsDraft (d : Draft) : Type 0 where
  pub distinct : IsDistinct d.planned
  pub was_seen : All (WasSeen d.seen) d.planned

Same-card_key : (p q : PlannedCommitment) → Same p q → card_key p ≡ card_key q
unfolding card_key
Same-card_key p q same = cc

-- A block of a card that was not seen meets nothing that was.
apart_from_seen :
    (card p : PlannedCommitment) (seen : List Bytes) (step : EscalationStep)
    (qs : List PlannedCommitment)
    → card.commitment.slot ≡ slot_of step
    → any
        (bytes_eq
          (slot_target card.commitment.slot card.commitment.provider card.commitment.target))
        seen
      ≡ false
    → WasSeen seen p
    → All (Follows card) qs
    → All (Differs p) qs
unfolding card_key
apart_from_seen card p seen step [] slot fresh was follow = tt
apart_from_seen card p seen step (q ∷ qs) slot fresh (inl hose) follow =
    ((λ same. cc), apart_from_seen card p seen step qs slot fresh (inl hose) follow.1)
apart_from_seen card p seen step (q ∷ qs) slot fresh (inr was) follow = (
  (λ same. cc (Same-card_key p q same)),
  apart_from_seen card p seen step qs slot fresh (inr was) follow.1,
)

WasSeen-cons :
    (key : Bytes) (seen : List Bytes) (p : PlannedCommitment)
    → WasSeen seen p
    → WasSeen (key ∷ seen) p
WasSeen-cons key seen p (inl hose) = inl hose
WasSeen-cons key seen p (inr was) = inr (ground arith)

Follows-WasSeen :
    (card : PlannedCommitment) (key : Bytes) (seen : List Bytes) (p : PlannedCommitment)
    → key ≡ slot_target card.commitment.slot card.commitment.provider card.commitment.target
    → Follows card p
    → WasSeen (key ∷ seen) p
unfolding card_key
Follows-WasSeen card key seen p named follow =
    let one : card_key p ≡ key = cc in inr (ground (arith, one, bytes_eq_refl key))

pub promise_to-IsDraft :
    (step : EscalationStep) (offset : ℤ) (target : Target) (d : Draft)
    → is_satellite target.kind ≡ false
    → IsDraft d
    → IsDraft (promise_to step offset target d)
unfolding promise_to
promise_to-IsDraft step offset target d plain h =
    let card = step_card step offset target in
    let (slot, provider, named) = step_card_fields step offset target in
    let key = slot_target (slot_of step) step.provider target in
    let card_plain : is_satellite card.commitment.target.kind ≡ false = rw named plain in
    let follow = block-Follows card card_plain in
    elim (Bool-cases (any (bytes_eq key) d.seen)) [
      | inl again ↦ rw again (record { distinct = h.distinct; was_seen = h.was_seen })
      | inr fresh ↦ rw fresh (record {
        distinct =
            IsDistinct-append d.planned (block card) h.distinct (block-IsDistinct card card_plain) (
              All-map d.planned
                (λ p was.
                  apart_from_seen card p d.seen step (block card) slot
                    (rw (slot, provider, named) fresh) was follow)
                h.was_seen);
        was_seen =
            All-append (WasSeen (key ∷ d.seen)) d.planned (block card)
              (All-map d.planned (WasSeen-cons key d.seen) h.was_seen)
              (All-map (block card) (λ p f. Follows-WasSeen card key d.seen p (cc) f) follow);
      })
    ]
