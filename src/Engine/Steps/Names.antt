-- ===== src/Engine/Steps/Names.antt =====
-- The text by which the plan tells its promises apart (internal/engine/plan.go, `slotTarget`): it names
-- one slot, provider and recipient.
use tokayops.Prelude.{
  ℕ, zero, suc, ◌+◌, ◌-◌, ◌*◌, ◌/◌, ◌%◌, ◌≤◌, ltb, ◌==◌, Bool, true, not, ◌&&◌, ◌≡◌, refl, sym, ap,
  ◌∙◌, inl, inr, Bool-cases, [], ◌∷◌, ◌++◌, all, ℤ, pos, negsuc, Bytes, codes, bytes_eq,
  bytes_eq→eq, arith,
}
use tokayops.Outbound.Intent.{TargetKind}
use tokayops.Outbound.Keys.Grammar.{SlotKind, Target, target_text, digits, itoa}
use tokayops.Outbound.Keys.Commitment.{provider_slack}
use tokayops.Engine.Steps.{delivers_through, provider_phone, slot_target}
use tokayops.Engine.Steps.Loop.{is_plain, IsPlain}

abbrev not_slash : ℕ → Bool
not_slash c = not (c == b'/')

abbrev no_slash : Bytes → Bool
no_slash = all not_slash

-- Two texts are cut at their first slashes.
cut :
    (xs ys s t : Bytes)
    → no_slash xs ≡ true
    → no_slash ys ≡ true
    → xs ++ b'/' ∷ s ≡ ys ++ b'/' ∷ t
    → (xs ≡ ys) × (s ≡ t)
cut [] [] s t hx hy same = (refl, cc)
cut [] (y ∷ ys) s t hx hy same = ground arith
cut (x ∷ xs) [] s t hx hy same = ground arith
cut (x ∷ xs) (y ∷ ys) s t hx hy same =
    let (front, rest) = cut xs ys s t (ground arith) (ground arith) (cc) in (cc, rest)

-- The number that digits spell behind what was read.
abbrev value : ℕ → Bytes → ℕ
value n [] = n
value n (c ∷ s) = value (n * 10 + (c - 48)) s

value-digits : (fuel n : ℕ) (out : Bytes) → n ≤ fuel → value 0 (digits fuel n out) ≡ value n out
value-digits zero n out enough = ap (λ (k : ℕ). value k out) (omega arith)
value-digits (suc fuel) n out enough = elim (Bool-cases (ltb n 10)) [
  | inl last ↦ rw last (ap (λ (k : ℕ). value k out) (ground arith))
  | inr more ↦ rw more (
      value-digits fuel (n / 10) ((48 + n % 10) ∷ out) (ground arith)
      ∙ ap (λ (k : ℕ). value k out) (omega arith))
]

abbrev is_digit : ℕ → Bool
is_digit c = not_slash c && not (c == b'-')

digits-all :
    (fuel n : ℕ) (out : Bytes) → all is_digit out ≡ true → all is_digit (digits fuel n out) ≡ true
digits-all zero n out h = ground arith
digits-all (suc fuel) n out h =
    let longer = digits-all fuel (n / 10) ((48 + n % 10) ∷ out) (ground arith) in ground arith

all-not_slash : (s : Bytes) → all is_digit s ≡ true → no_slash s ≡ true
all-not_slash [] h = refl
all-not_slash (c ∷ s) h = let rest = all-not_slash s in ground arith

itoa-no_slash : (i : ℤ) → no_slash (itoa i) ≡ true
itoa-no_slash (pos n) = all-not_slash (digits n n []) (digits-all n n [] refl)
itoa-no_slash (negsuc n) =
    all-not_slash (digits (suc n) (suc n) []) (digits-all (suc n) (suc n) [] refl)

digits-injective : (m n : ℕ) → digits m m [] ≡ digits n n [] → m ≡ n
digits-injective m n same =
    sym (value-digits m m [] (omega arith))
    ∙ (ap (value 0) same ∙ value-digits n n [] (omega arith))

no_minus : (s t : Bytes) → all is_digit s ≡ true → s ≡ b'-' ∷ t → ⊥
no_minus [] t h same = cc
no_minus (c ∷ s) t h same = ground arith

itoa-injective : (i j : ℤ) → itoa i ≡ itoa j → i ≡ j
itoa-injective (pos m) (pos n) same = ap pos (digits-injective m n same)
itoa-injective (pos m) (negsuc n) same = absurd (no_minus _ _ (digits-all m m [] refl) same)
itoa-injective (negsuc m) (pos n) same = absurd (no_minus _ _ (digits-all n n [] refl) (sym same))
itoa-injective (negsuc m) (negsuc n) same =
    let level = digits-injective (suc m) (suc n) (cc same) in ap negsuc (omega arith)

delivered-no_slash :
    (provider : Bytes) → delivers_through provider ≡ true → no_slash provider ≡ true
unfolding delivers_through
delivered-no_slash provider h = elim (Bool-cases (bytes_eq provider provider_slack)) [
  | inl slack ↦ rw (bytes_eq→eq provider provider_slack slack) refl
  | inr other ↦ elim (Bool-cases (bytes_eq provider (codes "telegram"))) [
    | inl telegram ↦ rw (bytes_eq→eq provider (codes "telegram") telegram) refl
    | inr last ↦ rw (bytes_eq→eq provider provider_phone (ground arith)) refl
  ]
]

plain_text : (k : TargetKind) → is_plain k ≡ true → no_slash (target_text k) ≡ true
plain_text TargetKind.channel h = refl
plain_text TargetKind.user h = refl
plain_text TargetKind.subscriber h = cc
plain_text TargetKind.thread h = cc
plain_text TargetKind.thread_reply h = cc
plain_text (TargetKind.unlisted s) h = cc

plain_text-injective :
    (k l : TargetKind)
    → is_plain k ≡ true
    → is_plain l ≡ true
    → target_text k ≡ target_text l
    → k ≡ l
plain_text-injective TargetKind.channel TargetKind.channel hk hl same = refl
plain_text-injective TargetKind.channel l hk hl same = cc
plain_text-injective TargetKind.user TargetKind.user hk hl same = refl
plain_text-injective TargetKind.user l hk hl same = cc
plain_text-injective k l hk hl same = cc

pub slot_target-injective :
    (i j : ℤ) (p q : Bytes) (t u : Target)
    → delivers_through p ≡ true
    → delivers_through q ≡ true
    → IsPlain t
    → IsPlain u
    → slot_target (record { kind = SlotKind.policy; index = i }) p t
      ≡ slot_target (record { kind = SlotKind.policy; index = j }) q u
    → (i ≡ j) × (p ≡ q) × (t ≡ u)
unfolding slot_target
slot_target-injective i j p q t u dp dq ht hu same =
    let (_, behind_kind) = cut (codes "policy") (codes "policy") _ _ refl refl same in
    let (index, behind_index) =
      cut (itoa i) (itoa j) _ _ (itoa-no_slash i) (itoa-no_slash j) behind_kind in
    let (provider, behind_provider) =
      cut p q _ _ (delivered-no_slash p dp) (delivered-no_slash q dq) behind_index in
    let (kind, ref) =
      cut (target_text t.kind) (target_text u.kind) _ _ (plain_text t.kind ht)
        (plain_text u.kind hu) behind_provider in
    let kinds = plain_text-injective t.kind u.kind ht hu kind in
    (itoa-injective i j index, provider, ground arith)
