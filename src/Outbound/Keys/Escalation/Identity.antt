-- ===== src/Outbound/Keys/Escalation/Identity.antt =====
-- One key is one commitment, and one admission.
use tokayops.Prelude.{
  ◌≡◌, ◌≢◌, sym, ◌∙◌, ◌⊎◌, inl, inr, true, List, [], ◌∷◌, ◌++◌, append-nil, All, ℤ, pos, IsInt64,
  Bytes, is_blank, ok, refuse_if, refuse_if-eq-ok, first_step, arith,
}
use tokayops.Outbound.Kinds.{Kind}
use tokayops.Outbound.Keys.Codec.{enc, enc_all}
use tokayops.Outbound.Keys.Codec.Reading.{Fits, writes}
use tokayops.Outbound.Keys.Digest.{Sha256, digest_key, Collides}
use tokayops.Outbound.Keys.Digest.Fields.{fields_cases}
use tokayops.Outbound.Keys.Grammar.{
  target_text, check_version, supported_versions, encode_slot, validate_slot, addressed_to,
  escalation_targets, request_id_for,
}
use tokayops.Outbound.Keys.Grammar.Names.{
  is_listed, is_known, opening_fields, check_version-ok, opening-fields, kind_text-injective,
  target_text-injective, opening_fields-Fits, target_text-Fits, slot_fields, encode_slot-fields,
  slot_fields-injective, slot_fields-Fits, request_id_for-blank, addressed_to-known,
}
use tokayops.Outbound.Keys.Escalation.{
  EscalationIntent, BatchIdentity, replay_field, intent_key, validate_batch, batch_key,
  candidate_batch_keys,
}

abbrev replay_fields : Kind → Bytes → List Bytes
replay_fields Kind.escalation_replay id = id ∷ []
replay_fields _ id = []

replay_fields-enc_all : (k : Kind) (id : Bytes) → enc_all (replay_fields k id) ≡ replay_field k id
unfolding enc_all
replay_fields-enc_all k id = let whole = append-nil (enc id) in ground (arith, whole)

abbrev batch_fields : BatchIdentity → List Bytes
batch_fields b =
    opening_fields b.kind ++ (b.alert_group_id ∷ replay_fields b.kind b.client_request_id)

-- What `BatchKey` accepts, and the key it gives.
abbrev AcceptedBatch : Sha256 → BatchIdentity → ℤ → Bytes → Type 0
AcceptedBatch sha b version key =
    (is_listed b.kind ≡ true)
    × (version ≡ pos 1)
    × (request_id_for b.kind b.client_request_id ≡ ok tt)
    × (key ≡ digest_key sha b.alert_group_id (enc_all (batch_fields b)))

batch_fields-enc_all :
    (b : BatchIdentity)
    → enc_all (batch_fields b)
      ≡ enc_all (opening_fields b.kind)
        ++ enc b.alert_group_id
        ++ replay_field b.kind b.client_request_id
batch_fields-enc_all b = simp (writes, replay_fields-enc_all b.kind b.client_request_id)

batch_key-Accepted :
    (sha : Sha256) (b : BatchIdentity) (version : ℤ) {key : Bytes}
    → batch_key sha b version ≡ ok key
    → AcceptedBatch sha b version key
unfolding batch_key validate_batch
batch_key-Accepted sha b version {key} h =
    let (_, checked, h1) = first_step (check_version b.kind version) h in
    let (listed, one) = check_version-ok b.kind version checked in
    let (_, valid, h2) = first_step (validate_batch b) h1 in
    let (_, requested) =
      refuse_if-eq-ok (is_blank b.alert_group_id) _ (request_id_for b.kind b.client_request_id)
        valid in
    let opened = opening-fields b.kind version listed one in
    let written = rw opened at h2 in
    let material = batch_fields-enc_all b in (listed, one, requested, cc)

-- The texts of an admission are shorter than 4 GiB.
abbrev pub FitsBatch : BatchIdentity → Type 0
FitsBatch b = Fits b.alert_group_id × Fits b.client_request_id

batch_fields-Fits :
    (b : BatchIdentity) → is_listed b.kind ≡ true → FitsBatch b → All Fits (batch_fields b)
batch_fields-Fits b listed fits = let names = opening_fields-Fits b.kind listed in ground arith

-- The kinds whose admissions this grammar writes with their request id.
abbrev pub HasEscalationId : Kind → Type 0
HasEscalationId k = k ≢ Kind.webhook_replay

batch_fields-injective :
    (a b : BatchIdentity)
    → is_listed a.kind ≡ true
    → is_listed b.kind ≡ true
    → request_id_for a.kind a.client_request_id ≡ ok tt
    → request_id_for b.kind b.client_request_id ≡ ok tt
    → HasEscalationId a.kind
    → HasEscalationId b.kind
    → batch_fields a ≡ batch_fields b
    → a ≡ b
batch_fields-injective a b la lb ra rb ea eb same =
    let kinds = kind_text-injective a.kind b.kind la lb (cc) in
    let no_id_a = request_id_for-blank a.kind a.client_request_id ra in
    let no_id_b = request_id_for-blank b.kind b.client_request_id rb in ground arith

-- Two admissions with one batch key are one admission under one version, or their materials collide:
-- if their texts are shorter than 4 GiB and neither is a webhook's replay, whose request id this
-- grammar does not write.
pub batch_key-injective :
    (sha : Sha256) (a b : BatchIdentity) (v w : ℤ) (key : Bytes)
    → FitsBatch a
    → FitsBatch b
    → HasEscalationId a.kind
    → HasEscalationId b.kind
    → batch_key sha a v ≡ ok key
    → batch_key sha b w ≡ ok key
    → ((a ≡ b) × (v ≡ w)) ⊎ Collides sha (enc_all (batch_fields a)) (enc_all (batch_fields b))
batch_key-injective sha a b v w key fa fb ea eb ha hb =
    let (la, one_a, ra, key_a) = batch_key-Accepted sha a v ha in
    let (lb, one_b, rb, key_b) = batch_key-Accepted sha b w hb in
    let fit_a = batch_fields-Fits a la fa in
    let fit_b = batch_fields-Fits b lb fb in
    elim (fields_cases sha a.alert_group_id b.alert_group_id _ _ fit_a fit_b key_a key_b) [
      | inl fields ↦ inl (batch_fields-injective a b la lb ra rb ea eb fields, one_a ∙ sym one_b)
      | inr collision ↦ inr collision
    ]

-- The fields of a commitment's key.
abbrev intent_fields : Kind → EscalationIntent → List Bytes
intent_fields k i =
    opening_fields k
    ++ (i.alert_group_id ∷ replay_fields k i.client_request_id)
    ++ slot_fields i.slot
    ++ (i.provider ∷ target_text i.target.kind ∷ i.target.ref ∷ [])

-- What a commitment's key is the digest of: its fields, one after the other.
abbrev pub intent_material : Kind → EscalationIntent → Bytes
intent_material k i = enc_all (intent_fields k i)

abbrev AcceptedIntent : Sha256 → EscalationIntent → Kind → ℤ → Bytes → Type 0
AcceptedIntent sha i k version key =
    (is_listed k ≡ true)
    × (version ≡ pos 1)
    × (is_known i.target.kind ≡ true)
    × (request_id_for k i.client_request_id ≡ ok tt)
    × (validate_slot i.slot ≡ ok tt)
    × (key ≡ digest_key sha i.alert_group_id (enc_all (intent_fields k i)))

intent_fields-enc_all :
    (k : Kind) (i : EscalationIntent)
    → enc_all (intent_fields k i)
      ≡ enc_all (opening_fields k)
        ++ enc i.alert_group_id
        ++ replay_field k i.client_request_id
        ++ enc_all (slot_fields i.slot)
        ++ enc i.provider
        ++ enc (target_text i.target.kind)
        ++ enc i.target.ref
intent_fields-enc_all k i = simp (writes, replay_fields-enc_all k i.client_request_id)

intent_key-Accepted :
    (sha : Sha256) (i : EscalationIntent) (k : Kind) (version : ℤ) {key : Bytes}
    → intent_key sha i k version ≡ ok key
    → AcceptedIntent sha i k version key
unfolding intent_key
intent_key-Accepted sha i k version {key} h =
    let (_, checked, h1) = first_step (check_version k version) h in
    let (listed, one) = check_version-ok k version checked in
    let (_, _, h2) = first_step (refuse_if (is_blank i.alert_group_id) _) h1 in
    let (_, _, h3) = first_step (refuse_if (is_blank i.provider) _) h2 in
    let (_, aimed, h4) = first_step (addressed_to escalation_targets i.target) h3 in
    let (_, requested, h5) = first_step (request_id_for k i.client_request_id) h4 in
    let opened = opening-fields k version listed one in
    let (slot, written, h6) = first_step (encode_slot i.slot) (rw opened at h5) in
    let (valid, fields) = encode_slot-fields i.slot written in
    let material = intent_fields-enc_all k i in
    (listed, one, addressed_to-known escalation_targets i.target aimed, requested, valid, cc)

abbrev pub FitsIntent : EscalationIntent → Type 0
FitsIntent i =
    Fits i.alert_group_id
    × Fits i.client_request_id
    × IsInt64 i.slot.index
    × Fits i.provider
    × Fits i.target.ref

intent_fields-Fits :
    (k : Kind) (i : EscalationIntent)
    → is_listed k ≡ true
    → is_known i.target.kind ≡ true
    → validate_slot i.slot ≡ ok tt
    → FitsIntent i
    → All Fits (intent_fields k i)
intent_fields-Fits k i listed known valid fits =
    let names = opening_fields-Fits k listed in
    let target = target_text-Fits i.target.kind known in
    let slot = slot_fields-Fits i.slot valid in ground arith

intent_fields-injective :
    (k l : Kind) (i j : EscalationIntent)
    → (is_listed k ≡ true) × (is_listed l ≡ true)
    → (is_known i.target.kind ≡ true) × (is_known j.target.kind ≡ true)
    → (request_id_for k i.client_request_id ≡ ok tt)
      × (request_id_for l j.client_request_id ≡ ok tt)
    → (validate_slot i.slot ≡ ok tt) × (validate_slot j.slot ≡ ok tt)
    → IsInt64 i.slot.index × IsInt64 j.slot.index
    → HasEscalationId k × HasEscalationId l
    → intent_fields k i ≡ intent_fields l j
    → (i ≡ j) × (k ≡ l)
intent_fields-injective k l i j listed known requested valid ints replay same =
    let kinds = kind_text-injective k l listed.0 listed.1 (cc) in
    let no_id_i = request_id_for-blank k i.client_request_id requested.0 in
    let no_id_j = request_id_for-blank l j.client_request_id requested.1 in
    let targets = target_text-injective i.target.kind j.target.kind known.0 known.1 in
    let slots = slot_fields-injective i.slot j.slot valid.0 valid.1 ints.0 ints.1 in ground arith

-- Two commitments of an escalation with one idempotency key are one commitment of one kind and
-- version, unless the digest fails to tell apart these very two, their fields differing: if their texts are shorter than 4 GiB, their steps' numbers
-- are int64s, and neither kind is a webhook's replay, whose request id this grammar does not write.
pub intent_key-injective :
    (sha : Sha256) (i j : EscalationIntent) (k l : Kind) (v w : ℤ) (key : Bytes)
    → FitsIntent i
    → FitsIntent j
    → HasEscalationId k
    → HasEscalationId l
    → intent_key sha i k v ≡ ok key
    → intent_key sha j l w ≡ ok key
    → ((i ≡ j) × (k ≡ l) × (v ≡ w)) ⊎ Collides sha (intent_material k i) (intent_material l j)
intent_key-injective sha i j k l v w key fi fj ek el hi hj =
    let (lk, one_i, ki, ri, vi, key_i) = intent_key-Accepted sha i k v hi in
    let (ll, one_j, kj, rj, vj, key_j) = intent_key-Accepted sha j l w hj in
    let fit_i = intent_fields-Fits k i lk ki vi fi in
    let fit_j = intent_fields-Fits l j ll kj vj fj in
    elim (fields_cases sha i.alert_group_id j.alert_group_id _ _ fit_i fit_j key_i key_j) [
      | inl fields ↦
          let (intents, kinds) =
            intent_fields-injective k l i j (lk, ll) (ki, kj) (ri, rj) (vi, vj) (fi.2, fj.2)
              (ek, el) fields in
          inl (intents, kinds, one_i ∙ sym one_j)
      | inr collision ↦ inr collision
    ]

-- A repeat of an admission looks under the key that it was written under, and under no other.
pub candidate_batch_keys-batch_key :
    (sha : Sha256) (b : BatchIdentity) (version : ℤ) (key : Bytes)
    → batch_key sha b version ≡ ok key
    → candidate_batch_keys sha b ≡ ok (key ∷ [])
unfolding candidate_batch_keys supported_versions
candidate_batch_keys-batch_key sha b version key h =
    let (listed, one, _, _) = batch_key-Accepted sha b version h in
    let again : batch_key sha b (pos 1) ≡ ok key = rw one at h in ground arith
