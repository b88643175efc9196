-- ===== src/Outbound/Keys/Fingerprint/Proposal.antt =====
-- The fingerprint of an admission is one of a collection of commitments: `batchFingerprint` of
-- internal/outbound/keys/fingerprint.go.
use tokayops.Prelude.{
  ◌≡◌, refl, sym, ◌∙◌, ap, ◌⊎◌, inl, inr, false, Option, List, [], ◌++◌, append_assoc, length, All,
  Perm, ℕ, refuse_if-eq-ok, ℤ, Bytes, codes, ok, first_step, arith,
}
use tokayops.Outbound.Keys.Codec.{enc, enc_opt, enc_list, sort_bytewise}
use tokayops.Outbound.Keys.Codec.Reading.{
  Fits, FitsOption, enc-cancel, enc_opt-cancel, enc_list-cancel,
}
use tokayops.Outbound.Keys.Codec.Sorting.{
  sort_bytewise-perm, perm-sort_bytewise, sort_bytewise-All, length-sort_bytewise,
}
use tokayops.Outbound.Keys.Digest.{Sha256, sum-cases, Collides}
use tokayops.Outbound.Keys.Fingerprint.{
  AdmissionOutcome, admission_text, check_outcome, is_broken_digest, check_protocol, batch_material,
  batch_fingerprint,
}

-- The order in which a plan lists its commitments is not part of what it promises.
pub batch_fingerprint-perm :
    (sha : Sha256) (version : ℤ) (outcome : AdmissionOutcome) (content : Option Bytes)
    (xs ys : List Bytes)
    → Perm xs ys
    → batch_fingerprint sha version outcome content xs
      ≡ batch_fingerprint sha version outcome content ys
unfolding batch_fingerprint batch_material
batch_fingerprint-perm sha version outcome content xs ys same =
    let sorted = sort_bytewise-perm same in
    let level = sym (length-sort_bytewise xs) ∙ ap length sorted ∙ length-sort_bytewise ys in
    rw (sorted, level) refl

-- A content reference is a whole digest, and the commitments are fewer than 2^32, each shorter than
-- 4 GiB.
abbrev pub FitsBatch : List Bytes → Type 0
FitsBatch encoded = Fits encoded × All Fits encoded

abbrev pub SameProposal :
    AdmissionOutcome
    → Option Bytes
    → List Bytes
    → AdmissionOutcome
    → Option Bytes
    → List Bytes
    → Type 0
SameProposal o c xs p d ys = (o ≡ p) × (c ≡ d) × Perm xs ys

batch_material-nested :
    (o : AdmissionOutcome) (c : Option Bytes) (xs : List Bytes)
    → batch_material o c xs ++ []
      ≡ enc (codes "outbound_batch_fingerprint/v1")
        ++ (enc (admission_text o) ++ (enc_opt c ++ (enc_list (sort_bytewise xs) ++ [])))
unfolding batch_material
batch_material-nested o c xs = simp append_assoc

-- What was accepted: a known outcome, a whole digest or none.
abbrev AcceptedProposal : Sha256 → AdmissionOutcome → Option Bytes → List Bytes → Bytes → Type 0
AcceptedProposal sha o c xs digest =
    (check_outcome o (length xs) ≡ ok tt)
    × (is_broken_digest c ≡ false)
    × (digest ≡ sha.sum (batch_material o c xs))

batch_fingerprint-Accepted :
    (sha : Sha256) (v : ℤ) (o : AdmissionOutcome) (c : Option Bytes) (xs : List Bytes)
    {digest : Bytes}
    → batch_fingerprint sha v o c xs ≡ ok digest
    → AcceptedProposal sha o c xs digest
unfolding batch_fingerprint
batch_fingerprint-Accepted sha v o c xs h =
    let (_, _, h1) = first_step (check_protocol v) h in
    let (_, outcome, h2) = first_step (check_outcome o (length xs)) h1 in
    let (whole, h3) = refuse_if-eq-ok (is_broken_digest c) _ _ h2 in (outcome, whole, cc)

whole_digest-Fits : (c : Option Bytes) → is_broken_digest c ≡ false → FitsOption c
whole_digest-Fits c whole = ground arith

admission_text-Fits :
    (o : AdmissionOutcome) (n : ℕ) → check_outcome o n ≡ ok tt → Fits (admission_text o)
admission_text-Fits o n h = ground arith

admission_text-injective :
    (o p : AdmissionOutcome) (m n : ℕ)
    → check_outcome o m ≡ ok tt
    → check_outcome p n ≡ ok tt
    → admission_text o ≡ admission_text p
    → o ≡ p
admission_text-injective o p m n ho hp same = let level = ap length same in ground (arith, level)

sort_bytewise-Fits : (xs : List Bytes) → FitsBatch xs → FitsBatch (sort_bytewise xs)
sort_bytewise-Fits xs fits =
    (omega (arith, length-sort_bytewise xs), sort_bytewise-All Fits xs fits.1)

proposals_tell :
    (o p : AdmissionOutcome) (c d : Option Bytes) (xs ys : List Bytes)
    → (check_outcome o (length xs) ≡ ok tt) × (is_broken_digest c ≡ false) × FitsBatch xs
    → (check_outcome p (length ys) ≡ ok tt) × (is_broken_digest d ≡ false) × FitsBatch ys
    → batch_material o c xs ≡ batch_material p d ys
    → SameProposal o c xs p d ys
proposals_tell o p c d xs ys (ho, hc, hx) (hp, hd, hy) same =
    let nested =
      sym (batch_material-nested o c xs) ∙ ap (λ m. m ++ []) same ∙ batch_material-nested p d ys in
    let protocol : Fits (codes "outbound_batch_fingerprint/v1") = omega arith in
    let (_, after_protocol) = enc-cancel _ _ protocol protocol nested in
    let (outcomes, after_outcome) =
      enc-cancel _ _ (admission_text-Fits o _ ho) (admission_text-Fits p _ hp) after_protocol in
    let (contents, after_content) =
      enc_opt-cancel _ _ (whole_digest-Fits c hc) (whole_digest-Fits d hd) after_outcome in
    let (members, _) =
      enc_list-cancel _ _ (sort_bytewise-Fits xs hx) (sort_bytewise-Fits ys hy) after_content in
    (admission_text-injective o p _ _ ho hp outcomes, contents, perm-sort_bytewise xs ys members)

-- Two admissions with one fingerprint propose one outcome, about one content, with one collection of
-- commitments, unless the digest fails to tell apart the materials of these very two, which differ: if they have fewer than 2^32 commitments, each shorter
-- than 4 GiB.
pub batch_fingerprint-injective :
    (sha : Sha256) (v w : ℤ) (o p : AdmissionOutcome) (c d : Option Bytes) (xs ys : List Bytes)
    (digest : Bytes)
    → FitsBatch xs
    → FitsBatch ys
    → batch_fingerprint sha v o c xs ≡ ok digest
    → batch_fingerprint sha w p d ys ≡ ok digest
    → SameProposal o c xs p d ys ⊎ Collides sha (batch_material o c xs) (batch_material p d ys)
batch_fingerprint-injective sha v w o p c d xs ys digest fx fy hx hy =
    let (ho, hc, sum_x) = batch_fingerprint-Accepted sha v o c xs hx in
    let (hp, hd, sum_y) = batch_fingerprint-Accepted sha w p d ys hy in
    elim (sum-cases sha (batch_material o c xs) (batch_material p d ys) (sym sum_x ∙ sum_y)) [
      | inl same ↦ inl (proposals_tell o p c d xs ys (ho, hc, fx) (hp, hd, fy) same)
      | inr collision ↦ inr collision
    ]
