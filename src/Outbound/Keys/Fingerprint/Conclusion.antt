-- ===== src/Outbound/Keys/Fingerprint/Conclusion.antt =====
-- One fingerprint of a conclusion is one conclusion: `Completion.Fingerprint` of
-- internal/outbound/keys/fingerprint.go.
use tokayops.Prelude.{
  ◌≡◌, sym, ◌∙◌, ap, ◌⊎◌, inl, inr, Option, [], ◌++◌, append_assoc, length, ℤ, Bytes, codes, ok,
  first_step, arith,
}
use tokayops.Outbound.Intent.{Outcome}
use tokayops.Outbound.Keys.Codec.{enc, enc_opt, enc_opt_int64}
use tokayops.Outbound.Keys.Codec.Reading.{
  Fits, FitsOption, Int64Option, enc-cancel, enc_opt-cancel, enc_opt_int64-cancel,
}
use tokayops.Outbound.Keys.Digest.{Sha256, sum-cases, Collides}
use tokayops.Outbound.Keys.Fingerprint.{
  Completion, ResultDetail, detail_bytes, outcome_text, check_protocol, check_attempt_outcome,
  check_revision, check_detail, completion_material, completion_fingerprint,
}

completion_material-nested :
    (c : Completion)
    → completion_material c ++ []
      ≡ enc (codes "outbound_completion_fingerprint/v1")
        ++ (enc (outcome_text c.outcome)
            ++ (enc_opt c.error_class
                ++ (enc_opt c.provider_status
                    ++ (enc_opt c.receipt_ref
                        ++ (enc_opt_int64 c.applied_revision
                            ++ (enc_opt (detail_bytes c.provider_result_detail) ++ []))))))
unfolding completion_material
completion_material-nested c = simp append_assoc

outcome_text-injective :
    (o p : Outcome)
    → check_attempt_outcome o ≡ ok tt
    → check_attempt_outcome p ≡ ok tt
    → outcome_text o ≡ outcome_text p
    → o ≡ p
outcome_text-injective o p ho hp same = let level = ap length same in ground (arith, level)

outcome_text-Fits : (o : Outcome) → check_attempt_outcome o ≡ ok tt → Fits (outcome_text o)
outcome_text-Fits o h = ground arith

detail_bytes-injective :
    (d e : Option ResultDetail)
    → check_detail d ≡ ok tt
    → check_detail e ≡ ok tt
    → detail_bytes d ≡ detail_bytes e
    → d ≡ e
detail_bytes-injective d e hd he same = ground arith

detail_bytes-Fits : (d : Option ResultDetail) → check_detail d ≡ ok tt → FitsOption (detail_bytes d)
detail_bytes-Fits d h = ground arith

-- The texts are shorter than 4 GiB, and the revision is an int64.
abbrev pub FitsCompletion : Completion → Type 0
FitsCompletion c =
    FitsOption c.error_class
    × FitsOption c.provider_status
    × FitsOption c.receipt_ref
    × Int64Option c.applied_revision

completion_fingerprint-ok :
    (sha : Sha256) (c : Completion) (version : ℤ) {digest : Bytes}
    → completion_fingerprint sha c version ≡ ok digest
    → (check_attempt_outcome c.outcome ≡ ok tt)
      × (check_detail c.provider_result_detail ≡ ok tt)
      × (digest ≡ sha.sum (completion_material c))
unfolding completion_fingerprint
completion_fingerprint-ok sha c version h =
    let (_, _, h1) = first_step (check_protocol version) h in
    let (_, outcome, h2) = first_step (check_attempt_outcome c.outcome) h1 in
    let (_, _, h3) = first_step (check_revision c.applied_revision) h2 in
    let (_, detail, h4) = first_step (check_detail c.provider_result_detail) h3 in
    (outcome, detail, cc)

completions_tell :
    (c d : Completion)
    → FitsCompletion c
    → FitsCompletion d
    → (check_attempt_outcome c.outcome ≡ ok tt) × (check_detail c.provider_result_detail ≡ ok tt)
    → (check_attempt_outcome d.outcome ≡ ok tt) × (check_detail d.provider_result_detail ≡ ok tt)
    → completion_material c ≡ completion_material d
    → c ≡ d
completions_tell c d (ec, sc, rc, vc) (ed, sd, rd, vd) (oc, dc) (od, dd) same =
    let nested =
      sym (completion_material-nested c) ∙ ap (λ m. m ++ []) same ∙ completion_material-nested d in
    let protocol : Fits (codes "outbound_completion_fingerprint/v1") = omega arith in
    let (_, after_protocol) = enc-cancel _ _ protocol protocol nested in
    let (outcomes, after_outcome) =
      enc-cancel _ _ (outcome_text-Fits c.outcome oc) (outcome_text-Fits d.outcome od)
        after_protocol in
    let (errors, after_error) = enc_opt-cancel _ _ ec ed after_outcome in
    let (statuses, after_status) = enc_opt-cancel _ _ sc sd after_error in
    let (receipts, after_receipt) = enc_opt-cancel _ _ rc rd after_status in
    let (revisions, after_revision) = enc_opt_int64-cancel _ _ vc vd after_receipt in
    let (texts, _) =
      enc_opt-cancel _ _ (detail_bytes-Fits _ dc) (detail_bytes-Fits _ dd) after_revision in
    let same_outcome = outcome_text-injective c.outcome d.outcome oc od outcomes in
    let same_detail = detail_bytes-injective _ _ dc dd texts in ground arith

-- Two conclusions of an attempt with one fingerprint are one conclusion, an absent value and an empty
-- one told apart, or their materials collide: if their texts are shorter than 4 GiB, and their
-- revisions int64s.
pub completion_fingerprint-injective :
    (sha : Sha256) (c d : Completion) (v w : ℤ) (digest : Bytes)
    → FitsCompletion c
    → FitsCompletion d
    → completion_fingerprint sha c v ≡ ok digest
    → completion_fingerprint sha d w ≡ ok digest
    → (c ≡ d) ⊎ Collides sha (completion_material c) (completion_material d)
completion_fingerprint-injective sha c d v w digest fc fd hc hd =
    let (oc, dc, sum_c) = completion_fingerprint-ok sha c v hc in
    let (od, dd, sum_d) = completion_fingerprint-ok sha d w hd in
    elim (sum-cases sha (completion_material c) (completion_material d) (sym sum_c ∙ sum_d)) [
      | inl same ↦ inl (completions_tell c d fc fd (oc, dc) (od, dd) same)
      | inr collision ↦ inr collision
    ]
