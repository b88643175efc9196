-- ===== src/Outbound/Keys/Grammar.antt =====
-- internal/outbound/keys/keys.go: kinds of claims with their partitions and versions, slots, targets
-- and the operator's request id. Numbers of type `int` are integers, texts are bytes.
pub mod Names
use tokayops.Prelude.{
  ℕ, zero, suc, ◌+◌, ◌/◌, ◌%◌, Bool, true, false, not, ◌||◌, List, [], ◌∷◌, ◌++◌, length, any, ℤ,
  pos, negsuc, same_int, is_negative, Bytes, codes, is_blank, ltb, if◌then◌else◌, Result, ok, err,
  ◌>>=◌, ◌>>◌, refuse_if,
}
use tokayops.Outbound.Kinds.{Kind, Operation, send, update, resolve, deliver}
use tokayops.Outbound.Intent.{TargetKind}
use tokayops.Outbound.Keys.Codec.{enc, int64_bytes}

pub data Family : Type 0 where
  notification handoff webhook : Family

pub data SlotKind : Type 0 where
  firehose policy : SlotKind
  unlisted : Bytes → SlotKind

pub data KeyError : Type 0 where
  unknown_key_kind : Kind → KeyError
  no_grammar_version : Kind → ℤ → KeyError
  firehose_has_no_index negative_policy_index : ℤ → KeyError
  unknown_slot_kind : SlotKind → KeyError
  unknown_target_kind target_without_recipient : TargetKind → KeyError
  target_not_addressed : TargetKind → List TargetKind → KeyError
  no_alert_group no_provider no_commitment no_subscriber no_event no_schedule no_recipient :
      KeyError
  request_id_on_first_admission readmission_without_request_id request_id_on_handover : KeyError
  request_id_too_long : ℕ → KeyError
  negative_generation negative_revision : ℤ → KeyError
  unknown_provider_codec : ℤ → KeyError
  not_a_webhook_kind : Kind → KeyError
  reserved_separator : Bytes → KeyError
  digest_size : ℕ → KeyError
  unknown_handover_kind : Bytes → KeyError
  no_assignment_start empty_user : KeyError
  unknown_fingerprint_version : ℤ → KeyError
  unknown_operation : Operation → KeyError
  unknown_outcome : Bytes → KeyError

abbrev pub kind_text : Kind → Bytes
kind_text Kind.escalation = codes "escalation"
kind_text Kind.escalation_replay = codes "escalation_replay"
kind_text Kind.handoff = codes "handoff"
kind_text Kind.webhook_event = codes "webhook_event"
kind_text Kind.webhook_replay = codes "webhook_replay"
kind_text (Kind.unlisted s) = codes s

abbrev pub family_text : Family → Bytes
family_text Family.notification = codes "notification"
family_text Family.handoff = codes "handoff"
family_text Family.webhook = codes "webhook"

abbrev pub target_text : TargetKind → Bytes
target_text TargetKind.channel = codes "channel"
target_text TargetKind.user = codes "user"
target_text TargetKind.subscriber = codes "subscriber"
target_text TargetKind.thread = codes "thread"
target_text TargetKind.thread_reply = codes "thread_reply"
target_text (TargetKind.unlisted s) = codes s

abbrev pub slot_text : SlotKind → Bytes
slot_text SlotKind.firehose = codes "firehose"
slot_text SlotKind.policy = codes "policy"
slot_text (SlotKind.unlisted s) = s

abbrev pub operation_text : Operation → Bytes
operation_text send = codes "send"
operation_text update = codes "update"
operation_text resolve = codes "resolve"
operation_text deliver = codes "deliver"
operation_text (Operation.unlisted s) = codes s

-- `Operation.validate`
unfoldable pub validate_operation : Operation → Result KeyError (Unit {0})
validate_operation (Operation.unlisted s) = err (unknown_operation (Operation.unlisted s))
validate_operation _ = ok tt

abbrev pub grammar_v1 : ℤ
grammar_v1 = pos 1

-- `supportedVersions`
unfoldable pub supported_versions : Kind → Result KeyError (List ℤ)
supported_versions Kind.escalation = ok (grammar_v1 ∷ [])
supported_versions Kind.escalation_replay = ok (grammar_v1 ∷ [])
supported_versions Kind.handoff = ok (grammar_v1 ∷ [])
supported_versions Kind.webhook_event = ok (grammar_v1 ∷ [])
supported_versions Kind.webhook_replay = ok (grammar_v1 ∷ [])
supported_versions (Kind.unlisted s) = err (unknown_key_kind (Kind.unlisted s))

unfoldable pub check_version : Kind → ℤ → Result KeyError (Unit {0})
check_version kind version = do
  versions ← supported_versions kind
  refuse_if (not (any (same_int version) versions)) (no_grammar_version kind version)

unfoldable pub family_of : Kind → Result KeyError Family
family_of Kind.escalation = ok Family.notification
family_of Kind.escalation_replay = ok Family.notification
family_of Kind.handoff = ok Family.handoff
family_of Kind.webhook_event = ok Family.webhook
family_of Kind.webhook_replay = ok Family.webhook
family_of (Kind.unlisted s) = err (unknown_key_kind (Kind.unlisted s))

-- `strconv.Itoa`: the fuel is the number itself, which has no more digits than that.
abbrev pub digits : ℕ → ℕ → Bytes → Bytes
digits zero n out = (48 + n % 10) ∷ out
digits (suc fuel) n out =
    let longer = digits fuel (n / 10) ((48 + n % 10) ∷ out) in
    if ltb n 10 then (48 + n % 10) ∷ out else longer

abbrev pub itoa : ℤ → Bytes
itoa (pos n) = digits n n []
itoa (negsuc n) = b'-' ∷ digits (suc n) (suc n) []

unfoldable pub version_literal : ℤ → Bytes
version_literal version = codes "v" ++ itoa version

-- `opening`: what it writes to the material.
unfoldable pub opening : Kind → ℤ → Result KeyError Bytes
opening kind version = do
  family ← family_of kind
  ok (enc (family_text family) ++ enc (kind_text kind) ++ enc (version_literal version))

pub record Slot : Type 0 where
  pub kind : SlotKind
  pub index : ℤ

is_zero : ℤ → Bool
is_zero i = same_int i (pos 0)

unfoldable pub validate_slot : Slot → Result KeyError (Unit {0})
unfolding is_zero
validate_slot s = elim s.kind [
  | SlotKind.firehose ↦ refuse_if (not (is_zero s.index)) (firehose_has_no_index s.index)
  | SlotKind.policy ↦ refuse_if (is_negative s.index) (negative_policy_index s.index)
  | SlotKind.unlisted other ↦ err (unknown_slot_kind (SlotKind.unlisted other))
]

abbrev pub slot_index : SlotKind → ℤ → Bytes
slot_index SlotKind.firehose i = enc []
slot_index _ i = enc (int64_bytes i)

-- `Slot.encode`: the firehose has no index, and its second field is empty.
unfoldable pub encode_slot : Slot → Result KeyError Bytes
encode_slot s = validate_slot s >> ok (enc (slot_text s.kind) ++ slot_index s.kind s.index)

pub record Target : Type 0 where
  pub kind : TargetKind
  pub ref : Bytes

abbrev pub same_target : TargetKind → TargetKind → Bool
same_target TargetKind.channel TargetKind.channel = true
same_target TargetKind.user TargetKind.user = true
same_target TargetKind.subscriber TargetKind.subscriber = true
same_target TargetKind.thread TargetKind.thread = true
same_target TargetKind.thread_reply TargetKind.thread_reply = true
same_target _ _ = false

unfoldable pub validate_target : Target → Result KeyError (Unit {0})
validate_target t = elim t.kind [
  | TargetKind.unlisted other ↦ err (unknown_target_kind (TargetKind.unlisted other))
  | _ ↦ refuse_if (is_blank t.ref) (target_without_recipient t.kind)
]

-- No constant of the two kinds is compared with a text outside the set: `validate` refuses one before.
unfoldable pub addressed_to : List TargetKind → Target → Result KeyError (Unit {0})
addressed_to kinds t =
    validate_target t
    >> refuse_if (not (any (same_target t.kind) kinds)) (target_not_addressed t.kind kinds)

abbrev pub escalation_targets : List TargetKind
escalation_targets =
    TargetKind.channel ∷ TargetKind.user ∷ TargetKind.thread ∷ TargetKind.thread_reply ∷ []

-- `MaxClientRequestID`
abbrev pub max_client_request_id : ℕ
max_client_request_id = 128

unfoldable pub readmission_id : Bytes → Result KeyError (Unit {0})
readmission_id id =
    refuse_if (is_blank id) readmission_without_request_id
    >> refuse_if (ltb max_client_request_id (length id)) (request_id_too_long (length id))

-- `requestIDFor`
unfoldable pub request_id_for : Kind → Bytes → Result KeyError (Unit {0})
request_id_for Kind.escalation id = refuse_if (not (is_blank id)) request_id_on_first_admission
request_id_for Kind.webhook_event id = refuse_if (not (is_blank id)) request_id_on_first_admission
request_id_for Kind.escalation_replay id = readmission_id id
request_id_for Kind.webhook_replay id = readmission_id id
request_id_for Kind.handoff id = refuse_if (not (is_blank id)) request_id_on_handover
request_id_for (Kind.unlisted s) id = err (unknown_key_kind (Kind.unlisted s))
