-- ===== src/Outbound/Keys/Examples.antt =====
-- Keys and fingerprints of internal/outbound/keys at concrete values, under a checksum for SHA-256.
use mathlib.Core.List.{Permᴰ}
use tokayops.Prelude.{
  ℕ, zero, suc, ◌+◌, ◌*◌, ◌%◌, ◌<◌, ◌≡◌, ◌≢◌, refl, ◌⊎◌, none, some, List, [], ◌∷◌, ◌++◌, All, Perm,
  pos, negsuc, Bytes, codes, IsByte, arith,
}
use tokayops.Outbound.Kinds.{Kind, update}
use tokayops.Outbound.Intent.{TargetKind, Outcome}
use tokayops.Outbound.Keys.Codec.{
  enc, enc_list, enc_all, int64_bytes, put_uint64, sort_bytewise, insert_bytewise, is_before,
}
use tokayops.Outbound.Keys.Codec.Reading.{
  read_list, read_int64, read_list-enc_list, read_int64-int64_bytes,
}
use tokayops.Outbound.Keys.Digest.{Sha256, Collides}
use tokayops.Outbound.Keys.Grammar.{
  SlotKind, check_version, supported_versions, opening, family_of, version_literal, encode_slot,
  validate_slot, addressed_to, validate_target, request_id_for, validate_operation,
}
use tokayops.Outbound.Keys.Escalation.{EscalationIntent, intent_key}
use tokayops.Outbound.Keys.Escalation.Identity.{intent_material, intent_key-injective}
use tokayops.Outbound.Keys.Provider.{mutation_key, check_provider_codec}
use tokayops.Outbound.Keys.Provider.Identity.{mutation_fields, mutation_key-injective}
use tokayops.Outbound.Keys.Webhook.{WebhookIntent}
use tokayops.Outbound.Keys.Handoff.{
  HandoffKind, Occurrence, occurrence_key, occurrence_digest, occurrence_material,
  validate_occurrence, validate_handoff_kind,
}
use tokayops.Outbound.Keys.Handoff.Identity.{
  SameOccurrence, occurrence_key-injective, occurrence_key-perm,
}
use tokayops.Outbound.Keys.Fingerprint.{
  TimingKind, TimingSpec, validate_timing, encode_timing, AdmissionOutcome, batch_material,
  batch_fingerprint, Completion, completion_material, completion_fingerprint,
}
use tokayops.Outbound.Keys.Fingerprint.Timing.{encode_timing-injective}
use tokayops.Outbound.Keys.Fingerprint.Conclusion.{completion_fingerprint-injective}
use tokayops.Outbound.Keys.Fingerprint.Proposal.{
  SameProposal, batch_fingerprint-perm, batch_fingerprint-injective,
}

abbrev checksum : Bytes → ℕ
checksum [] = 7
checksum (b ∷ s) = (b + 31 * checksum s) % 256

abbrev repeated : ℕ → ℕ → Bytes
repeated zero b = []
repeated (suc n) b = b ∷ repeated n b

checksum_bound : (s : Bytes) → checksum s < 256
checksum_bound [] = omega arith
checksum_bound (b ∷ s) = omega arith

repeated-IsByte : (n b : ℕ) → IsByte b → All IsByte (repeated n b)
repeated-IsByte zero b h = tt
repeated-IsByte (suc n) b h = (h, repeated-IsByte n b h)

abbrev toy : Sha256
toy = record {
  sum = λ m. repeated 32 (checksum m);
  size = λ m. refl;
  bytes = λ m. repeated-IsByte 32 (checksum m) (checksum_bound m);
}

-- {"a", "bc"} and {"ab", "c"} are different bytes.
fields_kept_apart : enc (codes "a") ++ enc (codes "bc") ≢ enc (codes "ab") ++ enc (codes "c")
unfolding enc
fields_kept_apart same = ground arith

list_bytes :
    enc_list (codes "x" ∷ codes "y" ∷ [])
    ≡ 0 ∷ 0 ∷ 0 ∷ 2 ∷ 0 ∷ 0 ∷ 0 ∷ 1 ∷ b'x' ∷ 0 ∷ 0 ∷ 0 ∷ 1 ∷ b'y' ∷ []
unfolding enc_list enc_all enc
list_bytes = refl

minus_two : int64_bytes (negsuc 1) ≡ 255 ∷ 255 ∷ 255 ∷ 255 ∷ 255 ∷ 255 ∷ 255 ∷ 254 ∷ []
unfolding int64_bytes put_uint64
minus_two = refl

read_list-enc_list_example :
    read_list (enc_list (codes "ab" ∷ [] ∷ []) ++ codes "rest")
    ≡ some (codes "ab" ∷ [] ∷ [], codes "rest")
read_list-enc_list_example =
    read_list-enc_list (codes "ab" ∷ [] ∷ []) (codes "rest") (omega arith)
      (omega arith, (omega arith, tt))

minus_42 : read_int64 (int64_bytes (negsuc 41)) ≡ some (negsuc 41)
minus_42 = read_int64-int64_bytes (negsuc 41) (omega arith)

abbrev page : EscalationIntent
page = record {
  alert_group_id = codes "ag-1";
  client_request_id = [];
  slot = record { kind = SlotKind.policy; index = pos 2 };
  provider = codes "slack";
  target = record { kind = TargetKind.user; ref = codes "u-7" };
}

intent_key-injective_example :
    ((page ≡ page) × (Kind.escalation ≡ Kind.escalation) × (pos 1 ≡ pos 1))
    ⊎ Collides toy (intent_material Kind.escalation page) (intent_material Kind.escalation page)
unfolding intent_key check_version supported_versions opening family_of version_literal encode_slot
    validate_slot addressed_to validate_target request_id_for
intent_key-injective_example =
    intent_key-injective toy page page Kind.escalation Kind.escalation (pos 1) (pos 1) _
      (ground arith) (ground arith) (ground arith) (ground arith) refl refl

same_change :
    ((codes "in-1" ≡ codes "in-1") × (update ≡ update) × (pos 4 ≡ pos 4))
    ⊎ Collides toy
        (enc_all (mutation_fields (codes "in-1") update (pos 4)))
        (enc_all (mutation_fields (codes "in-1") update (pos 4)))
unfolding mutation_key check_provider_codec validate_operation version_literal
same_change =
    mutation_key-injective toy (codes "in-1") (codes "in-1") update update (pos 4) (pos 4) (pos 1)
      (pos 1) _ (ground arith) (ground arith) refl refl

-- Under a digest that tells nothing apart, a delivery and its event's claim share their key.
abbrev blind : Sha256
blind = record {
  sum = λ m. repeated 32 0;
  size = λ m. refl;
  bytes = λ m. repeated-IsByte 32 0 (omega arith);
}

abbrev delivery : WebhookIntent
delivery = record {
  kind = Kind.webhook_event;
  event_id = codes "e-1";
  integration_id = codes "i-1";
  client_request_id = [];
}

abbrev shift : List Bytes → Occurrence
shift people = record {
  kind = HandoffKind.shift_change;
  schedule_id = codes "s-1";
  source = codes "rotation";
  group_id = codes "g";
  user_ids = people;
  assignment_start = some (pos 1700000000);
  revision_id = codes "r";
}

abbrev pair : List Bytes
pair = codes "ann" ∷ codes "bob" ∷ []

abbrev riap : List Bytes
riap = codes "bob" ∷ codes "ann" ∷ []

swapped : Perm riap pair
swapped = ∣ Permᴰ.swap refl refl ∣₁

key_of_reordered : occurrence_key toy (shift pair) ≡ occurrence_key toy (shift riap)
key_of_reordered = occurrence_key-perm toy (shift riap) pair swapped

occurrence_key-injective_example :
    SameOccurrence (shift pair) (shift riap)
    ⊎ Collides toy (occurrence_material (shift pair)) (occurrence_material (shift riap))
unfolding occurrence_key occurrence_digest occurrence_material validate_occurrence
    validate_handoff_kind sort_bytewise insert_bytewise is_before
occurrence_key-injective_example =
    occurrence_key-injective toy (shift pair) (shift riap) _ (ground arith) (ground arith) refl refl

abbrev due : TimingSpec
due = record {
  kind = TimingKind.bounded;
  offset = pos 0;
  at = some (pos 1700000000);
  max_age = pos 900;
}

due_is_due : due ≡ due
unfolding encode_timing validate_timing
due_is_due = encode_timing-injective due due _ (ground arith) (ground arith) refl refl

abbrev conclusion : Completion
conclusion = record {
  outcome = Outcome.accepted;
  error_class = none;
  provider_status = some [];
  receipt_ref = some (codes "C1/17");
  applied_revision = some (pos 3);
  provider_result_detail = none;
}

same_conclusion :
    (conclusion ≡ conclusion)
    ⊎ Collides toy (completion_material conclusion) (completion_material conclusion)
unfolding completion_fingerprint completion_material
same_conclusion =
    completion_fingerprint-injective toy conclusion conclusion (pos 1) (pos 1) _ (ground arith)
      (ground arith) refl refl

fingerprint_of_reordered :
    batch_fingerprint toy (pos 1) AdmissionOutcome.admitted none riap
    ≡ batch_fingerprint toy (pos 1) AdmissionOutcome.admitted none pair
fingerprint_of_reordered =
    batch_fingerprint-perm toy (pos 1) AdmissionOutcome.admitted none riap pair swapped

batch_fingerprint-injective_example :
    SameProposal AdmissionOutcome.admitted none riap AdmissionOutcome.admitted none pair
    ⊎ Collides toy
        (batch_material AdmissionOutcome.admitted none riap)
        (batch_material AdmissionOutcome.admitted none pair)
unfolding batch_fingerprint batch_material sort_bytewise insert_bytewise is_before
batch_fingerprint-injective_example =
    batch_fingerprint-injective toy (pos 1) (pos 1) AdmissionOutcome.admitted
      AdmissionOutcome.admitted none none riap pair _ (ground arith) (ground arith) refl refl
