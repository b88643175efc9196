-- ===== src/Outbound/Keys/Admission/Made.antt =====
-- A commitment that the grammar accepts has its key and its material (internal/outbound/keys).
use tokayops.Prelude.{
  true, false, ◌&&◌, ◌≡◌, refl, Option, none, some, [], length, pos, is_negative, Bytes, is_blank,
  Result, ok, err, first_step, is_ok, refuse_if-eq-ok, if◌then◌else◌, arith,
}
use tokayops.Outbound.Kinds.{Kind}
use tokayops.Outbound.Keys.Digest.{Sha256}
use tokayops.Outbound.Keys.Grammar.{
  KeyError, Target, validate_slot, validate_target, addressed_to, escalation_targets, check_version,
  supported_versions, opening, family_of, encode_slot, request_id_for, validate_operation,
}
use tokayops.Outbound.Keys.Escalation.{intent_key}
use tokayops.Outbound.Keys.Fingerprint.{ProtocolError, TimingSpec, validate_timing, encode_timing}
use tokayops.Outbound.Keys.Commitment.{
  EscalationCommitment, in_grammar, in_time, is_satellite, is_firehose, validate_satellite,
  validate_expiry, validate_mode, validate_ambiguity, validate_commitment,
}
use tokayops.Outbound.Keys.Material.{encode_content, encode_expiry, encode_payload, encode_submit}
use tokayops.Outbound.Keys.Admission.{EscalationBatch, intent_of}

-- A first admission from a current snapshot.
pub record IsFirst (b : EscalationBatch) : Type 0 where
  pub kind : b.kind ≡ Kind.escalation
  pub grammar : b.grammar_version ≡ pos 1
  pub no_request : b.client_request_id ≡ []
  pub protocol : b.fingerprint_version ≡ pos 1
  pub has_group : is_blank b.snapshot.alert_group_id ≡ false
  pub revision : is_negative b.snapshot.revision ≡ false
  pub digest : length b.snapshot.digest ≡ 32
  pub schema : b.snapshot.schema ≡ pos 2

in_grammar-ok : (r : Result KeyError (Unit {0})) → in_grammar r ≡ ok tt → r ≡ ok tt
in_grammar-ok (ok tt) h = refl
in_grammar-ok (err e) h = ground arith

in_time-ok : (r : Result ProtocolError (Unit {0})) → in_time r ≡ ok tt → r ≡ ok tt
in_time-ok (ok tt) h = refl
in_time-ok (err e) h = ground arith

-- What the grammar looked at.
record Looked (c : EscalationCommitment) : Type 0 where
  slot : validate_slot c.slot ≡ ok tt
  provider : is_blank c.provider ≡ false
  target : addressed_to escalation_targets c.target ≡ ok tt
  timing : validate_timing c.timing ≡ ok tt
  expiry : validate_expiry c.expiry ≡ ok tt
  mode : validate_mode c.completion_mode ≡ ok tt
  ambiguity : validate_ambiguity c.ambiguity_policy ≡ ok tt

looked : (c : EscalationCommitment) → validate_commitment c ≡ ok tt → Looked c
unfolding validate_commitment
looked c h =
    let (tt, slot, h1) = first_step (in_grammar (validate_slot c.slot)) h in
    let (_, h2) = refuse_if-eq-ok (is_firehose c.slot.kind && c.stop_on_failure) _ _ h1 in
    let (provider, h3) = refuse_if-eq-ok (is_blank c.provider) _ _ h2 in
    let (tt, target, h4) = first_step (in_grammar (addressed_to escalation_targets c.target)) h3 in
    let (_, _, h5) =
      first_step (if is_satellite c.target.kind then validate_satellite c else ok tt) h4 in
    let (tt, timing, h6) = first_step (in_time (validate_timing c.timing)) h5 in
    let (tt, expiry, h7) = first_step (validate_expiry c.expiry) h6 in
    let (tt, mode, h8) = first_step (validate_mode c.completion_mode) h7 in
    record {
      slot = in_grammar-ok _ slot;
      provider = provider;
      target = in_grammar-ok _ target;
      timing = in_time-ok _ timing;
      expiry = expiry;
      mode = mode;
      ambiguity = h8;
    }

pub taken : {E A : Type 0} (r : Result E A) → is_ok r ≡ true → (a : A) × (r ≡ ok a)
taken (ok a) h = (a, refl)
taken (err e) h = cc

named-target : (t : Target) → addressed_to escalation_targets t ≡ ok tt → validate_target t ≡ ok tt
unfolding addressed_to
named-target t h = let (tt, named, _) = first_step (validate_target t) h in named

encode_expiry-is_ok :
    (e : Option TimingSpec) → validate_expiry e ≡ ok tt → is_ok (encode_expiry e) ≡ true
unfolding encode_timing
encode_expiry-is_ok none h = refl
encode_expiry-is_ok (some t) h = rw (in_time-ok (validate_timing t) h) refl

module _ (b : EscalationBatch) (first : IsFirst b) (c : EscalationCommitment)
    (valid : validate_commitment c ≡ ok tt) where
  pub key_made :
      (sha : Sha256)
      → (k : Bytes) × (intent_key sha (intent_of b c c.target) b.kind b.grammar_version ≡ ok k)
  unfolding intent_key check_version supported_versions opening family_of encode_slot request_id_for
  key_made sha =
      let l = looked c valid in
      taken _ (
        rw
          (
            first.kind, first.grammar, first.no_request, first.has_group, l.provider, l.target,
            l.slot,
          )
          refl)

  pub material_made : (w : Bytes) × (encode_submit b.kind b.grammar_version b.snapshot c ≡ ok w)
  unfolding encode_submit check_version supported_versions encode_content encode_payload
      encode_timing encode_slot validate_operation
  material_made =
      let l = looked c valid in
      let (expiry, written) =
        taken (encode_expiry c.expiry) (encode_expiry-is_ok c.expiry l.expiry) in
      taken _ (
        rw
          (
            first.kind,
            first.grammar,
            first.has_group,
            first.revision,
            first.digest,
            l.provider,
            named-target c.target l.target,
            l.mode,
            l.ambiguity,
            l.timing,
            written,
            l.target,
            l.slot,
          )
          refl)
