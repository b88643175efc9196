-- ===== src/Outbound/Keys/Webhook.antt =====
-- internal/outbound/keys/webhook.go: the keys of a webhook's deliveries and of its admissions.
pub mod Identity
use tokayops.Prelude.{
  [], ◌∷◌, ◌++◌, any, ◌==◌, ℤ, Bytes, codes, is_blank, Result, ok, err, ◌>>=◌, ◌>>◌, refuse_if,
}
use tokayops.Outbound.Kinds.{Kind}
use tokayops.Outbound.Keys.Codec.{enc}
use tokayops.Outbound.Keys.Digest.{Sha256, digest_key}
use tokayops.Outbound.Keys.Grammar.{
  KeyError, not_a_webhook_kind, no_event, no_subscriber, reserved_separator, check_version, opening,
  request_id_for,
}

unfoldable pub check_webhook_kind : Kind → Result KeyError (Unit {0})
check_webhook_kind Kind.webhook_event = ok tt
check_webhook_kind Kind.webhook_replay = ok tt
check_webhook_kind kind = err (not_a_webhook_kind kind)

unfoldable pub check_event_id : Bytes → Result KeyError (Unit {0})
check_event_id event_id = do
  refuse_if (is_blank event_id) no_event
  refuse_if (any (λ b. b == b':') event_id) (reserved_separator event_id)

pub record WebhookIntent : Type 0 where
  pub kind : Kind
  pub event_id : Bytes
  pub integration_id : Bytes
  pub client_request_id : Bytes

abbrev pub replay_id : Kind → Bytes → Bytes
replay_id Kind.webhook_replay id = enc id
replay_id _ id = []

-- `webhookIntent.key`
unfoldable pub webhook_key : Sha256 → WebhookIntent → ℤ → Result KeyError Bytes
webhook_key sha i version = do
  check_webhook_kind i.kind
  check_version i.kind version
  check_event_id i.event_id
  refuse_if (is_blank i.integration_id) no_subscriber
  request_id_for i.kind i.client_request_id
  opened ← opening i.kind version
  ok (
      digest_key sha i.event_id
        (opened ++ enc i.event_id ++ enc i.integration_id ++ replay_id i.kind i.client_request_id))

-- A replay's claim names its subscriber and its request; a fan-out's claim is the event.
abbrev pub replay_claim : Kind → Bytes → Bytes → Result KeyError Bytes
replay_claim Kind.webhook_replay integration_id id =
    refuse_if (is_blank integration_id) no_subscriber >> ok (enc integration_id ++ enc id)
replay_claim _ integration_id id = ok []

-- `webhookBatchKey`
unfoldable pub webhook_batch_key : Sha256 → WebhookIntent → ℤ → Result KeyError Bytes
webhook_batch_key sha i version = do
  check_webhook_kind i.kind
  check_version i.kind version
  check_event_id i.event_id
  request_id_for i.kind i.client_request_id
  opened ← opening i.kind version
  replayed ← replay_claim i.kind i.integration_id i.client_request_id
  ok (digest_key sha i.event_id (opened ++ enc (codes "admission") ++ enc i.event_id ++ replayed))
