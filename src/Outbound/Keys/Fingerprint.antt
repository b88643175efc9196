-- ===== src/Outbound/Keys/Fingerprint.antt =====
-- internal/outbound/keys/fingerprint.go: when a commitment is due, the fingerprint of an admission's
-- content, and that of an attempt's conclusion. The material of one commitment is a parameter here:
-- an admission's fingerprint takes the encoded commitments as bytes.
pub mod Timing
pub mod Conclusion
pub mod Proposal
use tokayops.Prelude.{
  ℕ, Bool, false, not, ◌&&◌, ltb, ◌==◌, Option, none, some, List, [], ◌∷◌, ◌++◌, length, ℤ, pos,
  same_int, is_negative, Bytes, codes, Result, ok, err, ◌>>=◌, ◌>>◌, refuse_if,
}
use tokayops.Outbound.Intent.{Outcome}
use tokayops.Outbound.Keys.Codec.{enc, enc_opt, enc_opt_int64, enc_list, int64_bytes, sort_bytewise}
use tokayops.Outbound.Keys.Digest.{Sha256}
use tokayops.Outbound.Keys.Handoff.{is_zero_time, unix_nano}

pub data TimingKind : Type 0 where
  relative_to_admission absolute bounded : TimingKind
  unlisted : Bytes → TimingKind

pub data ProtocolError : Type 0 where
  negative_offset max_age_not_positive : ℤ → ProtocolError
  unexpected_instant unexpected_offset unexpected_max_age no_instant : TimingKind → ProtocolError
  unknown_timing_kind : Bytes → ProtocolError
  unknown_version : ℤ → ProtocolError
  unknown_admission_outcome : Bytes → ProtocolError
  no_targets_with_commitments : ℕ → ProtocolError
  admission_of_nothing : ProtocolError
  content_size : ℕ → ProtocolError
  unknown_attempt_outcome : Outcome → ProtocolError
  negative_applied_revision : ℤ → ProtocolError
  unknown_result_detail : Bytes → ProtocolError

abbrev pub timing_text : TimingKind → Bytes
timing_text TimingKind.relative_to_admission = codes "relative_to_admission"
timing_text TimingKind.absolute = codes "absolute"
timing_text TimingKind.bounded = codes "bounded"
timing_text (TimingKind.unlisted s) = s

pub record TimingSpec : Type 0 where
  pub kind : TimingKind
  pub offset : ℤ
  pub at : Option ℤ
  pub max_age : ℤ

abbrev pub is_zero : ℤ → Bool
is_zero i = same_int i (pos 0)

abbrev pub validate_of : TimingKind → TimingSpec → Result ProtocolError (Unit {0})
validate_of TimingKind.relative_to_admission t = do
  refuse_if (is_negative t.offset) (negative_offset t.offset)
  refuse_if (not (is_zero_time t.at)) (unexpected_instant t.kind)
  refuse_if (not (is_zero t.max_age)) (unexpected_max_age t.kind)
validate_of TimingKind.absolute t = do
  refuse_if (is_zero_time t.at) (no_instant t.kind)
  refuse_if (not (is_zero t.offset)) (unexpected_offset t.kind)
  refuse_if (not (is_zero t.max_age)) (unexpected_max_age t.kind)
validate_of TimingKind.bounded t = do
  refuse_if (is_zero_time t.at) (no_instant t.kind)
  refuse_if (is_negative t.max_age) (max_age_not_positive t.max_age)
  refuse_if (is_zero t.max_age) (max_age_not_positive t.max_age)
  refuse_if (not (is_zero t.offset)) (unexpected_offset t.kind)
validate_of (TimingKind.unlisted s) t = err (unknown_timing_kind s)

-- `TimingSpec.validate`
unfoldable pub validate_timing : TimingSpec → Result ProtocolError (Unit {0})
validate_timing t = validate_of t.kind t

abbrev pub atoms : TimingKind → TimingSpec → Bytes
atoms TimingKind.relative_to_admission t = enc (int64_bytes t.offset)
atoms TimingKind.bounded t = enc (int64_bytes (unix_nano t.at)) ++ enc (int64_bytes t.max_age)
atoms _ t = enc (int64_bytes (unix_nano t.at))

-- `TimingSpec.encode`
unfoldable pub encode_timing : TimingSpec → Result ProtocolError Bytes
encode_timing t = validate_timing t >> ok (enc (timing_text t.kind) ++ atoms t.kind t)

pub data AdmissionOutcome : Type 0 where
  admitted no_targets : AdmissionOutcome
  unlisted : Bytes → AdmissionOutcome

abbrev pub admission_text : AdmissionOutcome → Bytes
admission_text AdmissionOutcome.admitted = codes "admitted"
admission_text AdmissionOutcome.no_targets = codes "no_targets"
admission_text (AdmissionOutcome.unlisted s) = s

-- An admission promises something, and one without targets promises nothing.
abbrev pub check_outcome : AdmissionOutcome → ℕ → Result ProtocolError (Unit {0})
check_outcome AdmissionOutcome.admitted n = refuse_if (n == 0) admission_of_nothing
check_outcome AdmissionOutcome.no_targets n = refuse_if (ltb 0 n) (no_targets_with_commitments n)
check_outcome (AdmissionOutcome.unlisted s) n = err (unknown_admission_outcome s)

abbrev pub is_broken_digest : Option Bytes → Bool
is_broken_digest none = false
is_broken_digest (some digest) = not (length digest == 32)

abbrev pub size_of : Option Bytes → ℕ
size_of none = 0
size_of (some digest) = length digest

abbrev pub check_protocol : ℤ → Result ProtocolError (Unit {0})
check_protocol version = refuse_if (not (same_int version (pos 1))) (unknown_version version)

-- `encOptBytes` is `encOpt` on a digest.
unfoldable pub batch_material : AdmissionOutcome → Option Bytes → List Bytes → Bytes
batch_material outcome content encoded =
    enc (codes "outbound_batch_fingerprint/v1")
    ++ enc (admission_text outcome)
    ++ enc_opt content
    ++ enc_list (sort_bytewise encoded)

unfoldable pub batch_fingerprint :
    Sha256 → ℤ → AdmissionOutcome → Option Bytes → List Bytes → Result ProtocolError Bytes
batch_fingerprint sha version outcome content encoded = do
  check_protocol version
  check_outcome outcome (length encoded)
  refuse_if (is_broken_digest content) (content_size (size_of content))
  ok (sha.sum (batch_material outcome content encoded))

pub data ResultDetail : Type 0 where
  acceptance_proven delivery_proven definitely_absent inconclusive : ResultDetail
  unlisted : Bytes → ResultDetail

abbrev pub detail_text : ResultDetail → Bytes
detail_text ResultDetail.acceptance_proven = codes "acceptance_proven"
detail_text ResultDetail.delivery_proven = codes "delivery_proven"
detail_text ResultDetail.definitely_absent = codes "definitely_absent"
detail_text ResultDetail.inconclusive = codes "inconclusive"
detail_text (ResultDetail.unlisted s) = s

abbrev pub outcome_text : Outcome → Bytes
outcome_text Outcome.accepted = codes "accepted"
outcome_text Outcome.retryable_rejection = codes "retryable_rejection"
outcome_text Outcome.permanent_rejection = codes "permanent_rejection"
outcome_text Outcome.ambiguous = codes "ambiguous"
outcome_text Outcome.canceled = codes "canceled"
outcome_text (Outcome.unlisted s) = codes s

pub record Completion : Type 0 where
  pub outcome : Outcome
  pub error_class : Option Bytes
  pub provider_status : Option Bytes
  pub receipt_ref : Option Bytes
  pub applied_revision : Option ℤ
  pub provider_result_detail : Option ResultDetail

abbrev pub check_attempt_outcome : Outcome → Result ProtocolError (Unit {0})
check_attempt_outcome (Outcome.unlisted s) = err (unknown_attempt_outcome (Outcome.unlisted s))
check_attempt_outcome _ = ok tt

abbrev pub check_revision : Option ℤ → Result ProtocolError (Unit {0})
check_revision none = ok tt
check_revision (some revision) =
    refuse_if (is_negative revision) (negative_applied_revision revision)

abbrev pub check_detail : Option ResultDetail → Result ProtocolError (Unit {0})
check_detail (some (ResultDetail.unlisted s)) = err (unknown_result_detail s)
check_detail _ = ok tt

abbrev pub detail_bytes : Option ResultDetail → Option Bytes
detail_bytes none = none
detail_bytes (some detail) = some (detail_text detail)

unfoldable pub completion_material : Completion → Bytes
completion_material c =
    enc (codes "outbound_completion_fingerprint/v1")
    ++ enc (outcome_text c.outcome)
    ++ enc_opt c.error_class
    ++ enc_opt c.provider_status
    ++ enc_opt c.receipt_ref
    ++ enc_opt_int64 c.applied_revision
    ++ enc_opt (detail_bytes c.provider_result_detail)

-- `Completion.Fingerprint`
unfoldable pub completion_fingerprint : Sha256 → Completion → ℤ → Result ProtocolError Bytes
completion_fingerprint sha c version = do
  check_protocol version
  check_attempt_outcome c.outcome
  check_revision c.applied_revision
  check_detail c.provider_result_detail
  ok (sha.sum (completion_material c))
