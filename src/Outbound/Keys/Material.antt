-- ===== src/Outbound/Keys/Material.antt =====
-- internal/outbound/keys/fingerprint.go: the material of an escalation's commitment (`submitIntent.encode`
-- with the payload of schema 2), and what an admission refuses.
use tokayops.Prelude.{
  not, ◌==◌, Option, none, some, ◌++◌, length, ℤ, pos, is_negative, Bytes, codes, is_blank, Result,
  ok, err, ◌>>=◌, ◌>>◌, refuse_if,
}
use tokayops.Outbound.Kinds.{Kind, send}
use tokayops.Outbound.Intent.{CompletionMode, AmbiguityPolicy}
use tokayops.Outbound.Keys.Codec.{enc, enc_opt, enc_bool, tagged, int64_bytes}
use tokayops.Outbound.Keys.Grammar.{
  KeyError, no_provider, digest_size, negative_revision, no_alert_group, kind_text, target_text,
  operation_text, version_literal, check_version, encode_slot, Target, validate_target,
  addressed_to, escalation_targets, validate_operation,
}
use tokayops.Outbound.Keys.Fingerprint.{ProtocolError, TimingSpec, encode_timing}
use tokayops.Outbound.Keys.Commitment.{
  EscalationCommitment, CommitmentError, validate_mode, validate_ambiguity,
}

-- Of a frozen snapshot, what an admission reads.
pub record RenderSnapshot : Type 0 where
  pub alert_group_id : Bytes
  pub revision : ℤ
  pub digest : Bytes
  pub schema : ℤ

pub data AdmitError : Type 0 where
  key : KeyError → AdmitError
  commitment : CommitmentError → AdmitError
  protocol : ProtocolError → AdmitError
  no_snapshot : AdmitError
  old_snapshot : ℤ → AdmitError
  shared_key : Bytes → AdmitError
  no_card : Target → AdmitError

abbrev pub of_key : {A : Type 0} → Result KeyError A → Result AdmitError A
of_key (ok a) = ok a
of_key (err e) = err (key e)

abbrev pub of_commitment : {A : Type 0} → Result CommitmentError A → Result AdmitError A
of_commitment (ok a) = ok a
of_commitment (err e) = err (commitment e)

abbrev pub of_protocol : {A : Type 0} → Result ProtocolError A → Result AdmitError A
of_protocol (ok a) = ok a
of_protocol (err e) = err (protocol e)

mode_text : CompletionMode → Bytes
mode_text CompletionMode.on_acceptance = codes "on_acceptance"
mode_text CompletionMode.on_provider_receipt = codes "on_provider_receipt"
mode_text (CompletionMode.unlisted s) = codes s

ambiguity_text : AmbiguityPolicy → Bytes
ambiguity_text AmbiguityPolicy.retry = codes "retry"
ambiguity_text AmbiguityPolicy.reconcile_then_retry = codes "reconcile_then_retry"
ambiguity_text AmbiguityPolicy.manual_review = codes "manual_review"
ambiguity_text AmbiguityPolicy.assume_accepted = codes "assume_accepted"
ambiguity_text (AmbiguityPolicy.unlisted s) = codes s

-- `contentRef.encode`
unfoldable pub encode_content : RenderSnapshot → Result AdmitError Bytes
encode_content content = do
  refuse_if (is_blank content.alert_group_id) (key no_alert_group)
  refuse_if (is_negative content.revision) (key (negative_revision content.revision))
  refuse_if (not (length content.digest == 32)) (key (digest_size (length content.digest)))
  ok (
      enc (codes "revision")
      ++ (enc content.alert_group_id ++ (enc (int64_bytes content.revision) ++ enc content.digest)))

-- `EscalationPayloadV2.encode`
unfoldable pub encode_payload : EscalationCommitment → Result AdmitError Bytes
encode_payload c = do
  of_key (addressed_to escalation_targets c.target)
  slot ← of_key (encode_slot c.slot)
  ok (
      slot
      ++ (enc (target_text c.target.kind)
          ++ (enc c.target.ref ++ (enc_opt c.message_override ++ enc_bool c.stop_on_failure))))

abbrev pub encode_expiry : Option TimingSpec → Result AdmitError Bytes
encode_expiry none = ok (enc (codes "0"))
encode_expiry (some t) = do written ← of_protocol (encode_timing t); ok (enc (codes "1") ++ written)

-- `submitIntent.encode`, for the operation `send`
unfoldable pub encode_submit :
    Kind → ℤ → RenderSnapshot → EscalationCommitment → Result AdmitError Bytes
unfolding mode_text ambiguity_text
encode_submit kind version content c = do
  of_key (check_version kind version)
  refuse_if (is_blank c.provider) (key no_provider)
  of_key (validate_target c.target)
  of_key (validate_operation send)
  of_commitment (validate_mode c.completion_mode)
  of_commitment (validate_ambiguity c.ambiguity_policy)
  about ← encode_content content
  due ← of_protocol (encode_timing c.timing)
  expiry ← encode_expiry c.expiry
  payload ← encode_payload c
  ok (
      tagged 1 (enc (kind_text kind))
      ++ (tagged 2 (enc (version_literal version))
          ++ (tagged 3 (enc c.provider)
              ++ (tagged 4 (enc (target_text c.target.kind))
                  ++ (tagged 5 (enc c.target.ref)
                      ++ (tagged 6 (enc (operation_text send))
                          ++ (tagged 7 (enc_bool c.editable)
                              ++ (tagged 8 about
                                  ++ (tagged 9 due
                                      ++ (tagged 10 expiry
                                          ++ (tagged 11 (enc (mode_text c.completion_mode))
                                              ++ (tagged 12
                                                    (enc (ambiguity_text c.ambiguity_policy))
                                                  ++ (tagged 13 (enc (int64_bytes (pos 2)))
                                                      ++ tagged 14 payload)))))))))))))
