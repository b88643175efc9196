-- ===== src/Outbound/Keys/Webhook/Identity.antt =====
-- One webhook key is one delivery, and the key of a delivery is not the key of a claim.
use tokayops.Prelude.{
  ◌≡◌, ◌≢◌, ◌⊎◌, inl, inr, true, List, [], ◌∷◌, ◌++◌, append-nil, All, ℤ, pos, Bytes, codes,
  is_blank, ok, refuse_if, first_step, arith,
}
use tokayops.Outbound.Kinds.{Kind}
use tokayops.Outbound.Keys.Codec.{enc, enc_all}
use tokayops.Outbound.Keys.Codec.Reading.{Fits, writes}
use tokayops.Outbound.Keys.Digest.{Sha256, digest_key, Collides}
use tokayops.Outbound.Keys.Digest.Fields.{fields_cases}
use tokayops.Outbound.Keys.Grammar.{check_version, request_id_for}
use tokayops.Outbound.Keys.Grammar.Names.{
  is_listed, opening_fields, check_version-ok, opening-fields, kind_text-injective,
  opening_fields-Fits, request_id_for-blank,
}
use tokayops.Outbound.Keys.Webhook.{
  WebhookIntent, check_webhook_kind, check_event_id, replay_id, webhook_key, replay_claim,
  webhook_batch_key,
}

abbrev id_fields : Kind → Bytes → List Bytes
id_fields Kind.webhook_replay id = id ∷ []
id_fields _ id = []

abbrev webhook_fields : WebhookIntent → List Bytes
webhook_fields i =
    opening_fields i.kind ++ (i.event_id ∷ i.integration_id ∷ id_fields i.kind i.client_request_id)

abbrev claim_parts : WebhookIntent → List Bytes
claim_parts i = elim i.kind [
  | Kind.webhook_replay ↦ i.integration_id ∷ i.client_request_id ∷ []
  | _ ↦ []
]

abbrev claim_fields : WebhookIntent → List Bytes
claim_fields i = opening_fields i.kind ++ (codes "admission" ∷ i.event_id ∷ claim_parts i)

id_fields-enc_all : (k : Kind) (id : Bytes) → enc_all (id_fields k id) ≡ replay_id k id
unfolding enc_all
id_fields-enc_all k id = let whole = append-nil (enc id) in ground (arith, whole)

webhook_fields-enc_all :
    (i : WebhookIntent)
    → enc_all (webhook_fields i)
      ≡ enc_all (opening_fields i.kind)
        ++ enc i.event_id
        ++ enc i.integration_id
        ++ replay_id i.kind i.client_request_id
webhook_fields-enc_all i = simp (writes, id_fields-enc_all i.kind i.client_request_id)

claim_fields-enc_all :
    (i : WebhookIntent)
    → enc_all (claim_fields i)
      ≡ enc_all (opening_fields i.kind)
        ++ enc (codes "admission")
        ++ enc i.event_id
        ++ enc_all (claim_parts i)
claim_fields-enc_all i = simp writes

replay_claim-parts :
    (i : WebhookIntent) {written : Bytes}
    → replay_claim i.kind i.integration_id i.client_request_id ≡ ok written
    → written ≡ enc_all (claim_parts i)
unfolding enc_all
replay_claim-parts i h = let whole = append-nil (enc i.client_request_id) in ground (arith, whole)

-- What was accepted: a listed kind of version one, a webhook's, with its own request id.
abbrev Accepted : Sha256 → WebhookIntent → ℤ → Bytes → List Bytes → Type 0
Accepted sha i version key fields =
    (check_webhook_kind i.kind ≡ ok tt)
    × (is_listed i.kind ≡ true)
    × (version ≡ pos 1)
    × (request_id_for i.kind i.client_request_id ≡ ok tt)
    × (key ≡ digest_key sha i.event_id (enc_all fields))

webhook_key-Accepted :
    (sha : Sha256) (i : WebhookIntent) (version : ℤ) {key : Bytes}
    → webhook_key sha i version ≡ ok key
    → Accepted sha i version key (webhook_fields i)
unfolding webhook_key
webhook_key-Accepted sha i version h =
    let (_, kind, h0) = first_step (check_webhook_kind i.kind) h in
    let (_, checked, h1) = first_step (check_version i.kind version) h0 in
    let (listed, one) = check_version-ok i.kind version checked in
    let (_, _, h2) = first_step (check_event_id i.event_id) h1 in
    let (_, _, h3) = first_step (refuse_if (is_blank i.integration_id) _) h2 in
    let (_, requested, h4) = first_step (request_id_for i.kind i.client_request_id) h3 in
    let opened = opening-fields i.kind version listed one in
    let written = rw opened at h4 in
    let material = webhook_fields-enc_all i in (kind, listed, one, requested, cc)

webhook_batch_key-Accepted :
    (sha : Sha256) (i : WebhookIntent) (version : ℤ) {key : Bytes}
    → webhook_batch_key sha i version ≡ ok key
    → Accepted sha i version key (claim_fields i)
unfolding webhook_batch_key
webhook_batch_key-Accepted sha i version h =
    let (_, kind, h0) = first_step (check_webhook_kind i.kind) h in
    let (_, checked, h1) = first_step (check_version i.kind version) h0 in
    let (listed, one) = check_version-ok i.kind version checked in
    let (_, _, h2) = first_step (check_event_id i.event_id) h1 in
    let (_, requested, h3) = first_step (request_id_for i.kind i.client_request_id) h2 in
    let opened = opening-fields i.kind version listed one in
    let (_, claimed, written) =
      first_step (replay_claim i.kind i.integration_id i.client_request_id) (rw opened at h3) in
    let parts = replay_claim-parts i claimed in
    let material = claim_fields-enc_all i in (kind, listed, one, requested, cc)

abbrev pub FitsWebhook : WebhookIntent → Type 0
FitsWebhook i = Fits i.event_id × Fits i.integration_id × Fits i.client_request_id

webhook_fields-Fits :
    (i : WebhookIntent) → is_listed i.kind ≡ true → FitsWebhook i → All Fits (webhook_fields i)
webhook_fields-Fits i listed fits = let names = opening_fields-Fits i.kind listed in ground arith

claim_fields-Fits :
    (i : WebhookIntent) → is_listed i.kind ≡ true → FitsWebhook i → All Fits (claim_fields i)
claim_fields-Fits i listed fits = let names = opening_fields-Fits i.kind listed in ground arith

webhook_fields-injective :
    (i j : WebhookIntent)
    → (check_webhook_kind i.kind ≡ ok tt) × (check_webhook_kind j.kind ≡ ok tt)
    → (is_listed i.kind ≡ true) × (is_listed j.kind ≡ true)
    → (request_id_for i.kind i.client_request_id ≡ ok tt)
      × (request_id_for j.kind j.client_request_id ≡ ok tt)
    → webhook_fields i ≡ webhook_fields j
    → i ≡ j
unfolding check_webhook_kind
webhook_fields-injective i j kind listed requested same =
    let kinds = kind_text-injective i.kind j.kind listed.0 listed.1 (cc) in
    let no_id_i = request_id_for-blank i.kind i.client_request_id requested.0 in
    let no_id_j = request_id_for-blank j.kind j.client_request_id requested.1 in ground arith

-- Two deliveries with one idempotency key are one delivery: one event to one subscriber under one
-- request, or their materials collide, if their texts are shorter than 4 GiB.
pub webhook_key-injective :
    (sha : Sha256) (i j : WebhookIntent) (v w : ℤ) (key : Bytes)
    → FitsWebhook i
    → FitsWebhook j
    → webhook_key sha i v ≡ ok key
    → webhook_key sha j w ≡ ok key
    → (i ≡ j) ⊎ Collides sha (enc_all (webhook_fields i)) (enc_all (webhook_fields j))
webhook_key-injective sha i j v w key fi fj hi hj =
    let (kind_i, li, _, ri, key_i) = webhook_key-Accepted sha i v hi in
    let (kind_j, lj, _, rj, key_j) = webhook_key-Accepted sha j w hj in
    let fit_i = webhook_fields-Fits i li fi in
    let fit_j = webhook_fields-Fits j lj fj in
    elim (fields_cases sha i.event_id j.event_id _ _ fit_i fit_j key_i key_j) [
      | inl fields ↦ inl (webhook_fields-injective i j (kind_i, kind_j) (li, lj) (ri, rj) fields)
      | inr collision ↦ inr collision
    ]

kept_apart :
    (i j : WebhookIntent)
    → is_listed i.kind ≡ true
    → is_listed j.kind ≡ true
    → i.event_id ≢ codes "admission"
    → webhook_fields i ≢ claim_fields j
kept_apart i j li lj other same =
    let kinds = kind_text-injective i.kind j.kind li lj (cc) in ground arith

-- The key of a delivery is the key of no claim, a replay's own included, unless the two
-- materials collide: if the event's id is not the word that claims are marked with, and the texts are shorter
-- than 4 GiB.
pub webhook_key_is_no-batch_key :
    (sha : Sha256) (i j : WebhookIntent) (v w : ℤ) (key : Bytes)
    → FitsWebhook i
    → FitsWebhook j
    → i.event_id ≢ codes "admission"
    → webhook_key sha i v ≡ ok key
    → webhook_batch_key sha j w ≡ ok key
    → Collides sha (enc_all (webhook_fields i)) (enc_all (claim_fields j))
webhook_key_is_no-batch_key sha i j v w key fi fj other hi hj =
    let (_, li, _, _, key_i) = webhook_key-Accepted sha i v hi in
    let (_, lj, _, _, key_j) = webhook_batch_key-Accepted sha j w hj in
    let fit_i = webhook_fields-Fits i li fi in
    let fit_j = claim_fields-Fits j lj fj in
    elim (fields_cases sha i.event_id j.event_id _ _ fit_i fit_j key_i key_j) [
      | inl fields ↦ absurd (kept_apart i j li lj other fields)
      | inr collision ↦ collision
    ]
