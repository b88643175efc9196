-- ===== src/Outbound/Keys/Admission.antt =====
-- internal/outbound/keys/escalation.go: the admission of an escalation.
pub mod Made
pub mod Sorting
pub mod Taken
use tokayops.Prelude.{
  ℕ, ◌<◌, Bool, false, not, ◌&&◌, ◌||◌, ◌==◌, if◌then◌else◌, some, List, [], ◌∷◌, ◌++◌, length, any,
  map, ℤ, pos, same_int, Bytes, bytes_eq, is_blank, Result, ok, ◌>>=◌, ◌>>◌, refuse_if,
}
use tokayops.Outbound.Kinds.{Kind}
use tokayops.Outbound.Intent.{TargetKind}
use tokayops.Outbound.Keys.Codec.{is_before}
use tokayops.Outbound.Keys.Digest.{Sha256}
use tokayops.Outbound.Keys.Grammar.{check_version, Target}
use tokayops.Outbound.Keys.Escalation.{EscalationIntent, intent_key, batch_key}
use tokayops.Outbound.Keys.Fingerprint.{
  AdmissionOutcome, admitted, no_targets, check_protocol, batch_fingerprint,
}
use tokayops.Outbound.Keys.Material.{
  RenderSnapshot, AdmitError, commitment, no_snapshot, old_snapshot, shared_key, no_card, of_key,
  of_commitment, of_protocol, encode_submit,
}
use tokayops.Outbound.Keys.Commitment.{EscalationCommitment, validate_commitment, is_satellite}

pub record EscalationBatch : Type 0 where
  pub kind : Kind
  pub client_request_id : Bytes
  pub grammar_version : ℤ
  pub fingerprint_version : ℤ
  pub snapshot : RenderSnapshot
  pub commitments : List EscalationCommitment

-- A commitment with its key; its payload and the operation `send` follow from it. The parent is blank
-- for what follows no card.
pub record AdmittedCommitment : Type 0 where
  pub idempotency_key : Bytes
  pub commitment : EscalationCommitment
  pub parent_key : Bytes

pub record Admission : Type 0 where
  pub batch_key : Bytes
  pub kind : Kind
  pub grammar_version : ℤ
  pub outcome : AdmissionOutcome
  pub fingerprint : Bytes
  pub fingerprint_version : ℤ
  pub snapshot : RenderSnapshot
  pub commitments : List AdmittedCommitment

abbrev pub intent_of : EscalationBatch → EscalationCommitment → Target → EscalationIntent
intent_of b c target = record {
  alert_group_id = b.snapshot.alert_group_id;
  client_request_id = b.client_request_id;
  slot = c.slot;
  provider = c.provider;
  target = target;
}

abbrev pub channel_of : Target → Target
channel_of t = record { kind = TargetKind.channel; ref = t.ref }

abbrev pub keyed : List AdmittedCommitment → Bytes → Bool
keyed [] k = false
keyed (a ∷ rest_of) k = bytes_eq k a.idempotency_key || keyed rest_of k

-- In the order of the keys
abbrev pub insert_keyed : AdmittedCommitment → List AdmittedCommitment → List AdmittedCommitment
insert_keyed a [] = a ∷ []
insert_keyed a (b ∷ bs) =
    let behind = insert_keyed a bs in
    if is_before b.idempotency_key a.idempotency_key then b ∷ behind else a ∷ b ∷ bs

abbrev pub sort_keyed : List AdmittedCommitment → List AdmittedCommitment
sort_keyed [] = []
sort_keyed (a ∷ rest_of) = insert_keyed a (sort_keyed rest_of)

abbrev pub outcome_of : List AdmittedCommitment → AdmissionOutcome
outcome_of [] = no_targets
outcome_of (a ∷ rest_of) = admitted

module _ (sha : Sha256) (b : EscalationBatch) where
  -- The loop over what is proposed; it gives the material beside each commitment.
  abbrev pub admit_each :
      List Bytes → List EscalationCommitment → Result AdmitError (List (AdmittedCommitment × Bytes))
  admit_each seen [] = ok []
  admit_each seen (c ∷ cs) = do
    of_commitment (validate_commitment c)
    k ← of_key (intent_key sha (intent_of b c c.target) b.kind b.grammar_version)
    refuse_if (any (bytes_eq k) seen) (shared_key k)
    material ← encode_submit b.kind b.grammar_version b.snapshot c
    rest ← admit_each (k ∷ seen) cs
    ok ((record { idempotency_key = k; commitment = c; parent_key = [] }, material) ∷ rest)

  abbrev pub follow_card :
      List AdmittedCommitment → AdmittedCommitment → Result AdmitError AdmittedCommitment
  follow_card all a = if not (is_satellite a.commitment.target.kind) then ok a else (do
    k ← of_key (
        intent_key sha (intent_of b a.commitment (channel_of a.commitment.target)) b.kind
          b.grammar_version)
    refuse_if (not (keyed all k)) (no_card a.commitment.target)
    ok (record a { parent_key = k }))

  -- The second pass: satellites name their cards.
  abbrev pub follow_cards :
      List AdmittedCommitment
      → List AdmittedCommitment
      → Result AdmitError (List AdmittedCommitment)
  follow_cards all [] = ok []
  follow_cards all (a ∷ rest_of) = do
    followed ← follow_card all a
    rest ← follow_cards all rest_of
    ok (followed ∷ rest)

  -- `EscalationBatch.Admit`
  unfoldable pub admit : Result AdmitError Admission
  admit = do
    of_key (check_version b.kind b.grammar_version)
    of_protocol (check_protocol b.fingerprint_version)
    refuse_if (is_blank b.snapshot.alert_group_id || not (length b.snapshot.digest == 32))
        no_snapshot
    refuse_if (not (same_int b.snapshot.schema (pos 2))) (old_snapshot b.snapshot.schema)
    claim ← of_key (
        batch_key sha
          (record {
            kind = b.kind;
            alert_group_id = b.snapshot.alert_group_id;
            client_request_id = b.client_request_id;
          })
          b.grammar_version)
    each ← admit_each [] b.commitments
    let proposed = map (λ (p : AdmittedCommitment × Bytes). p.0) each
    followed ← follow_cards proposed proposed
    print ← of_protocol (
        batch_fingerprint sha b.fingerprint_version (outcome_of followed) (some b.snapshot.digest)
          (map (λ (p : AdmittedCommitment × Bytes). p.1) each))
    ok (record {
      batch_key = claim;
      kind = b.kind;
      grammar_version = b.grammar_version;
      outcome = outcome_of followed;
      fingerprint = print;
      fingerprint_version = b.fingerprint_version;
      snapshot = b.snapshot;
      commitments = sort_keyed followed;
    })
