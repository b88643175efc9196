-- ===== src/Outbound/Keys/Escalation.antt =====
-- internal/outbound/keys/keys.go: the keys of an escalation's commitments and admissions.
pub mod Identity
use tokayops.Prelude.{List, [], ◌∷◌, ◌++◌, ℤ, Bytes, is_blank, Result, ok, ◌>>=◌, ◌>>◌, refuse_if}
use tokayops.Outbound.Kinds.{Kind}
use tokayops.Outbound.Keys.Codec.{enc}
use tokayops.Outbound.Keys.Digest.{Sha256, digest_key}
use tokayops.Outbound.Keys.Grammar.{
  KeyError, no_alert_group, no_provider, Slot, Target, target_text, check_version,
  supported_versions, opening, encode_slot, addressed_to, escalation_targets, request_id_for,
}

pub record EscalationIntent : Type 0 where
  pub alert_group_id : Bytes
  pub client_request_id : Bytes
  pub slot : Slot
  pub provider : Bytes
  pub target : Target

-- `if kind == KindEscalationReplay { encStr(&material, id) }`
abbrev pub replay_field : Kind → Bytes → Bytes
replay_field Kind.escalation_replay id = enc id
replay_field _ id = []

-- `escalationIntent.key`
unfoldable pub intent_key : Sha256 → EscalationIntent → Kind → ℤ → Result KeyError Bytes
intent_key sha i kind version = do
  check_version kind version
  refuse_if (is_blank i.alert_group_id) no_alert_group
  refuse_if (is_blank i.provider) no_provider
  addressed_to escalation_targets i.target
  request_id_for kind i.client_request_id
  opened ← opening kind version
  slot ← encode_slot i.slot
  ok (
      digest_key sha i.alert_group_id (
        opened
        ++ enc i.alert_group_id
        ++ replay_field kind i.client_request_id
        ++ slot
        ++ enc i.provider
        ++ enc (target_text i.target.kind)
        ++ enc i.target.ref))

pub record BatchIdentity : Type 0 where
  pub kind : Kind
  pub alert_group_id : Bytes
  pub client_request_id : Bytes

-- `BatchIdentity.validate`
unfoldable pub validate_batch : BatchIdentity → Result KeyError (Unit {0})
validate_batch b = do
  refuse_if (is_blank b.alert_group_id) no_alert_group
  request_id_for b.kind b.client_request_id

unfoldable pub batch_key : Sha256 → BatchIdentity → ℤ → Result KeyError Bytes
batch_key sha b version = do
  check_version b.kind version
  validate_batch b
  opened ← opening b.kind version
  ok (
      digest_key sha b.alert_group_id
        (opened ++ enc b.alert_group_id ++ replay_field b.kind b.client_request_id))

abbrev pub keys_under : Sha256 → BatchIdentity → List ℤ → Result KeyError (List Bytes)
keys_under sha b [] = ok []
keys_under sha b (version ∷ versions) = do
  key ← batch_key sha b version
  keys ← keys_under sha b versions
  ok (key ∷ keys)

unfoldable pub candidate_batch_keys : Sha256 → BatchIdentity → Result KeyError (List Bytes)
candidate_batch_keys sha b = do versions ← supported_versions b.kind; keys_under sha b versions
