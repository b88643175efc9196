-- ===== src/Outbound/Keys/Commitment.antt =====
-- internal/outbound/keys/escalation.go: one promise to notify one recipient, and what the grammar asks
-- of it.
use tokayops.Prelude.{
  Bool, true, false, not, ◌&&◌, ◌||◌, if◌then◌else◌, Option, none, some, Bytes, codes, bytes_eq,
  is_blank, Result, ok, err, ◌>>◌, refuse_if,
}
use tokayops.Outbound.Intent.{TargetKind, CompletionMode, AmbiguityPolicy}
use tokayops.Outbound.Keys.Grammar.{
  KeyError, SlotKind, Slot, validate_slot, Target, addressed_to, escalation_targets,
}
use tokayops.Outbound.Keys.Fingerprint.{ProtocolError, TimingSpec, validate_timing}

pub record EscalationCommitment : Type 0 where
  pub slot : Slot
  pub provider : Bytes
  pub target : Target
  pub editable : Bool
  pub message_override : Option Bytes
  pub stop_on_failure : Bool
  pub timing : TimingSpec
  pub expiry : Option TimingSpec
  pub completion_mode : CompletionMode
  pub ambiguity_policy : AmbiguityPolicy

pub data CommitmentError : Type 0 where
  grammar : KeyError → CommitmentError
  timing : ProtocolError → CommitmentError
  firehose_stops no_provider satellite_has_own : CommitmentError
  satellite_of : Bytes → CommitmentError
  satellite_editable : Bool → CommitmentError
  unknown_completion_mode : CompletionMode → CommitmentError
  unknown_ambiguity_policy : AmbiguityPolicy → CommitmentError

abbrev pub in_grammar : Result KeyError (Unit {0}) → Result CommitmentError (Unit {0})
in_grammar (ok done) = ok done
in_grammar (err e) = err (grammar e)

abbrev pub in_time : Result ProtocolError (Unit {0}) → Result CommitmentError (Unit {0})
in_time (ok done) = ok done
in_time (err e) = err (timing e)

abbrev pub provider_slack : Bytes
provider_slack = codes "slack"

-- `Target.Satellite`
abbrev pub is_satellite : TargetKind → Bool
is_satellite TargetKind.thread = true
is_satellite TargetKind.thread_reply = true
is_satellite _ = false

abbrev pub is_thread : TargetKind → Bool
is_thread TargetKind.thread = true
is_thread _ = false

abbrev pub is_firehose : SlotKind → Bool
is_firehose SlotKind.firehose = true
is_firehose _ = false

abbrev differ : Bool → Bool → Bool
differ true b = not b
differ false b = b

abbrev is_set {ℓ} : {A : Type ℓ} → Option A → Bool
is_set none = false
is_set (some a) = true

-- `CompletionMode.validate`
abbrev pub validate_mode : CompletionMode → Result CommitmentError (Unit {0})
validate_mode (CompletionMode.unlisted s) =
    err (unknown_completion_mode (CompletionMode.unlisted s))
validate_mode _ = ok tt

-- `AmbiguityPolicy.validate`
abbrev pub validate_ambiguity : AmbiguityPolicy → Result CommitmentError (Unit {0})
validate_ambiguity (AmbiguityPolicy.unlisted s) =
    err (unknown_ambiguity_policy (AmbiguityPolicy.unlisted s))
validate_ambiguity _ = ok tt

abbrev pub validate_satellite : EscalationCommitment → Result CommitmentError (Unit {0})
validate_satellite c = do
  refuse_if (not (bytes_eq c.provider provider_slack)) (satellite_of c.provider)
  refuse_if (differ (is_thread c.target.kind) c.editable) (satellite_editable c.editable)
  refuse_if (is_set c.expiry || (is_set c.message_override || c.stop_on_failure)) satellite_has_own

abbrev pub validate_expiry : Option TimingSpec → Result CommitmentError (Unit {0})
validate_expiry none = ok tt
validate_expiry (some t) = in_time (validate_timing t)

-- `EscalationCommitment.validate`
unfoldable pub validate_commitment : EscalationCommitment → Result CommitmentError (Unit {0})
validate_commitment c = do
  in_grammar (validate_slot c.slot)
  refuse_if (is_firehose c.slot.kind && c.stop_on_failure) firehose_stops
  refuse_if (is_blank c.provider) no_provider
  in_grammar (addressed_to escalation_targets c.target)
  if is_satellite c.target.kind then validate_satellite c else ok tt
  in_time (validate_timing c.timing)
  validate_expiry c.expiry
  validate_mode c.completion_mode
  validate_ambiguity c.ambiguity_policy
