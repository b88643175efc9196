-- ===== src/Outbound/Keys/Grammar/Names.antt =====
-- The parts of a key of internal/outbound/keys/keys.go as fields: what was accepted, and that the
-- fields tell the parts.
use tokayops.Prelude.{
  ℕ, ◌≡◌, refl, ap, Bool, true, false, List, [], ◌∷◌, append_assoc, append-nil, length, All, ℤ, pos,
  IsInt64, Bytes, codes, ok, arith,
}
use tokayops.Outbound.Kinds.{Kind}
use tokayops.Outbound.Intent.{TargetKind}
use tokayops.Outbound.Keys.Codec.{enc, enc_all, int64_bytes}
use tokayops.Outbound.Keys.Codec.Reading.{Fits, int64_bytes-injective, int64_bytes-Fits}
use tokayops.Outbound.Keys.Grammar.{
  SlotKind, Slot, Target, kind_text, target_text, slot_text, version_literal, supported_versions,
  check_version, family_of, opening, validate_slot, encode_slot, validate_target, addressed_to,
  request_id_for,
}

abbrev pub is_listed : Kind → Bool
is_listed (Kind.unlisted s) = false
is_listed _ = true

abbrev pub is_known : TargetKind → Bool
is_known (TargetKind.unlisted s) = false
is_known _ = true

abbrev pub is_replay : Kind → Bool
is_replay Kind.escalation_replay = true
is_replay Kind.webhook_replay = true
is_replay _ = false

abbrev pub family_name : Kind → Bytes
family_name Kind.escalation = codes "notification"
family_name Kind.escalation_replay = codes "notification"
family_name Kind.handoff = codes "handoff"
family_name _ = codes "webhook"

abbrev pub opening_fields : Kind → List Bytes
opening_fields k = family_name k ∷ kind_text k ∷ codes "v1" ∷ []

pub check_version-ok :
    (k : Kind) (v : ℤ) → check_version k v ≡ ok tt → (is_listed k ≡ true) × (v ≡ pos 1)
unfolding check_version supported_versions
check_version-ok (Kind.unlisted s) v h = ground arith
check_version-ok Kind.escalation v h = ground arith
check_version-ok Kind.escalation_replay v h = ground arith
check_version-ok Kind.handoff v h = ground arith
check_version-ok Kind.webhook_event v h = ground arith
check_version-ok Kind.webhook_replay v h = ground arith

pub opening-fields :
    (k : Kind) (v : ℤ)
    → is_listed k ≡ true
    → v ≡ pos 1
    → opening k v ≡ ok (enc_all (opening_fields k))
unfolding opening family_of version_literal enc_all
opening-fields (Kind.unlisted s) v h one = ground arith
opening-fields Kind.escalation v h one = rw (one, append_assoc, append-nil) refl
opening-fields Kind.escalation_replay v h one = rw (one, append_assoc, append-nil) refl
opening-fields Kind.handoff v h one = rw (one, append_assoc, append-nil) refl
opening-fields Kind.webhook_event v h one = rw (one, append_assoc, append-nil) refl
opening-fields Kind.webhook_replay v h one = rw (one, append_assoc, append-nil) refl

-- No two kinds have names of one length.
pub kind_text-injective :
    (k l : Kind) → is_listed k ≡ true → is_listed l ≡ true → kind_text k ≡ kind_text l → k ≡ l
kind_text-injective k l hk hl same = let level = ap length same in ground (arith, level)

pub target_text-injective :
    (k l : TargetKind)
    → is_known k ≡ true
    → is_known l ≡ true
    → target_text k ≡ target_text l
    → k ≡ l
target_text-injective k l hk hl same = let level = ap length same in ground (arith, level)

pub kind_text-Fits : (k : Kind) → is_listed k ≡ true → Fits (kind_text k)
kind_text-Fits k h = ground arith

pub opening_fields-Fits : (k : Kind) → is_listed k ≡ true → All Fits (opening_fields k)
opening_fields-Fits k h = ground arith

pub target_text-Fits : (k : TargetKind) → is_known k ≡ true → Fits (target_text k)
target_text-Fits k h = ground arith

abbrev pub slot_fields : Slot → List Bytes
slot_fields s =
    slot_text s.kind ∷ elim s.kind [ SlotKind.firehose ↦ [] | _ ↦ int64_bytes s.index ] ∷ []

pub encode_slot-fields :
    (s : Slot) {written : Bytes}
    → encode_slot s ≡ ok written
    → (validate_slot s ≡ ok tt) × (written ≡ enc_all (slot_fields s))
unfolding encode_slot validate_slot enc_all
encode_slot-fields s h =
    let empty_end = append-nil (enc []) in
    let index_end = append-nil (enc (int64_bytes s.index)) in ground (arith, empty_end, index_end)

pub slot_fields-injective :
    (s t : Slot)
    → validate_slot s ≡ ok tt
    → validate_slot t ≡ ok tt
    → IsInt64 s.index
    → IsInt64 t.index
    → slot_fields s ≡ slot_fields t
    → s ≡ t
unfolding validate_slot
slot_fields-injective s t hs ht is it same =
    let level = ap (map_first length) same in
    let indices = int64_bytes-injective s.index t.index is it in ground (arith, level, indices)
  where
    map_first : (Bytes → ℕ) → List Bytes → ℕ
    map_first f [] = 0
    map_first f (x ∷ xs) = f x

pub slot_fields-Fits : (s : Slot) → validate_slot s ≡ ok tt → All Fits (slot_fields s)
unfolding validate_slot
slot_fields-Fits s h = let fit = int64_bytes-Fits s.index in ground (arith, fit)

-- A kind that carries no request id was given none.
pub request_id_for-blank :
    (k : Kind) (id : Bytes) → request_id_for k id ≡ ok tt → is_replay k ≡ false → id ≡ []
unfolding request_id_for
request_id_for-blank k [] h first = refl
request_id_for-blank Kind.escalation (b ∷ id) h first = ground arith
request_id_for-blank Kind.escalation_replay (b ∷ id) h first = ground arith
request_id_for-blank Kind.handoff (b ∷ id) h first = ground arith
request_id_for-blank Kind.webhook_event (b ∷ id) h first = ground arith
request_id_for-blank Kind.webhook_replay (b ∷ id) h first = ground arith
request_id_for-blank (Kind.unlisted s) (b ∷ id) h first = ground arith

pub addressed_to-known :
    (kinds : List TargetKind) (t : Target) → addressed_to kinds t ≡ ok tt → is_known t.kind ≡ true
unfolding addressed_to validate_target
addressed_to-known kinds t h = ground arith
