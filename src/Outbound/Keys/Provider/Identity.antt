-- ===== src/Outbound/Keys/Provider/Identity.antt =====
-- One create key is one external effect, and one mutation key is one change.
use tokayops.Prelude.{
  ◌≡◌, ◌⊎◌, inl, inr, false, not, List, [], ◌∷◌, ◌++◌, All, ℤ, pos, same_int, is_negative, IsInt64,
  Bytes, codes, is_blank, ok, refuse_if-eq-ok, first_step, arith,
}
use tokayops.Outbound.Kinds.{Operation}
use tokayops.Outbound.Keys.Codec.{enc, int64_bytes, enc_all}
use tokayops.Outbound.Keys.Codec.Reading.{Fits, writes, int64_bytes-injective, int64_bytes-Fits}
use tokayops.Outbound.Keys.Digest.{Sha256, digest_key, Collides}
use tokayops.Outbound.Keys.Digest.Fields.{fields_cases}
use tokayops.Outbound.Keys.Grammar.{version_literal, operation_text, validate_operation}
use tokayops.Outbound.Keys.Provider.{check_provider_codec, create_key, mutation_key}

abbrev create_fields : Bytes → ℤ → List Bytes
create_fields intent_id generation =
    codes "outbound_create_key/v1" ∷ intent_id ∷ int64_bytes generation ∷ []

abbrev pub mutation_fields : Bytes → Operation → ℤ → List Bytes
mutation_fields intent_id operation revision =
    codes "outbound_mutation_key/v1"
    ∷ intent_id
    ∷ operation_text operation
    ∷ int64_bytes revision
    ∷ []

create_fields-enc_all :
    (id : Bytes) (generation : ℤ)
    → enc_all (create_fields id generation)
      ≡ enc (codes "outbound_create_key/" ++ version_literal (pos 1))
        ++ enc id
        ++ enc (int64_bytes generation)
unfolding version_literal
create_fields-enc_all id generation = simp writes

mutation_fields-enc_all :
    (id : Bytes) (operation : Operation) (revision : ℤ)
    → enc_all (mutation_fields id operation revision)
      ≡ enc (codes "outbound_mutation_key/" ++ version_literal (pos 1))
        ++ enc id
        ++ enc (operation_text operation)
        ++ enc (int64_bytes revision)
unfolding version_literal
mutation_fields-enc_all id operation revision = simp writes

only_codec : (version : ℤ) → not (same_int version (pos 1)) ≡ false → version ≡ pos 1
only_codec version h = ground arith

create_key-ok :
    (sha : Sha256) (id : Bytes) (generation version : ℤ) {key : Bytes}
    → create_key sha id generation version ≡ ok key
    → (version ≡ pos 1) × (key ≡ digest_key sha id (enc_all (create_fields id generation)))
unfolding create_key check_provider_codec
create_key-ok sha id generation version h =
    let (checked, h1) = refuse_if-eq-ok (not (same_int version (pos 1))) _ _ h in
    let (_, h2) = refuse_if-eq-ok (is_blank id) _ _ h1 in
    let (_, h3) = refuse_if-eq-ok (is_negative generation) _ _ h2 in
    let one = only_codec version checked in
    let material = create_fields-enc_all id generation in let given = rw one at h3 in (one, cc)

mutation_key-ok :
    (sha : Sha256) (id : Bytes) (operation : Operation) (revision version : ℤ) {key : Bytes}
    → mutation_key sha id operation revision version ≡ ok key
    → (version ≡ pos 1)
      × (validate_operation operation ≡ ok tt)
      × (key ≡ digest_key sha id (enc_all (mutation_fields id operation revision)))
unfolding mutation_key check_provider_codec
mutation_key-ok sha id operation revision version h =
    let (checked, h1) = refuse_if-eq-ok (not (same_int version (pos 1))) _ _ h in
    let (_, h2) = refuse_if-eq-ok (is_blank id) _ _ h1 in
    let (_, valid, h3) = first_step (validate_operation operation) h2 in
    let (_, h4) = refuse_if-eq-ok (is_negative revision) _ _ h3 in
    let one = only_codec version checked in
    let material = mutation_fields-enc_all id operation revision in
    let given = rw one at h4 in (one, valid, cc)

operation_text-Fits :
    (operation : Operation) → validate_operation operation ≡ ok tt → Fits (operation_text operation)
unfolding validate_operation
operation_text-Fits operation valid = ground arith

operation_text-injective :
    (a b : Operation)
    → validate_operation a ≡ ok tt
    → validate_operation b ≡ ok tt
    → operation_text a ≡ operation_text b
    → a ≡ b
unfolding validate_operation
operation_text-injective a b ha hb same = ground arith

create_fields-Fits :
    (id : Bytes) (generation : ℤ) → Fits id → All Fits (create_fields id generation)
create_fields-Fits id generation fits = let number = int64_bytes-Fits generation in ground arith

mutation_fields-Fits :
    (id : Bytes) (operation : Operation) (revision : ℤ)
    → Fits id
    → validate_operation operation ≡ ok tt
    → All Fits (mutation_fields id operation revision)
mutation_fields-Fits id operation revision fits valid =
    let name = operation_text-Fits operation valid in
    let number = int64_bytes-Fits revision in ground arith

-- Two external effects with one create key are one effect: one commitment and one generation, if the
-- ids are shorter than 4 GiB, the generations int64s, unless their materials collide.
pub create_key-injective :
    (sha : Sha256) (a b : Bytes) (m n v w : ℤ) (key : Bytes)
    → Fits a × IsInt64 m
    → Fits b × IsInt64 n
    → create_key sha a m v ≡ ok key
    → create_key sha b n w ≡ ok key
    → ((a ≡ b) × (m ≡ n)) ⊎ Collides sha (enc_all (create_fields a m)) (enc_all (create_fields b n))
create_key-injective sha a b m n v w key fa fb ha hb =
    let (_, key_a) = create_key-ok sha a m v ha in
    let (_, key_b) = create_key-ok sha b n w hb in
    let fit_a = create_fields-Fits a m fa.0 in
    let fit_b = create_fields-Fits b n fb.0 in
    elim (fields_cases sha a b _ _ fit_a fit_b key_a key_b) [
      | inl fields ↦ inl (cc, int64_bytes-injective m n fa.1 fb.1 (cc))
      | inr collision ↦ inr collision
    ]

-- Two changes with one mutation key are one change: of one commitment, by one operation, to one
-- revision, whatever generation the effect is in, if the ids are shorter than 4 GiB, the revisions
-- int64s, unless their materials collide.
pub mutation_key-injective :
    (sha : Sha256) (a b : Bytes) (f g : Operation) (m n v w : ℤ) (key : Bytes)
    → Fits a × IsInt64 m
    → Fits b × IsInt64 n
    → mutation_key sha a f m v ≡ ok key
    → mutation_key sha b g n w ≡ ok key
    → ((a ≡ b) × (f ≡ g) × (m ≡ n))
      ⊎ Collides sha (enc_all (mutation_fields a f m)) (enc_all (mutation_fields b g n))
mutation_key-injective sha a b f g m n v w key fa fb ha hb =
    let (_, valid_f, key_a) = mutation_key-ok sha a f m v ha in
    let (_, valid_g, key_b) = mutation_key-ok sha b g n w hb in
    let fit_a = mutation_fields-Fits a f m fa.0 valid_f in
    let fit_b = mutation_fields-Fits b g n fb.0 valid_g in
    elim (fields_cases sha a b _ _ fit_a fit_b key_a key_b) [
      | inl fields ↦
          let operations = operation_text-injective f g valid_f valid_g (cc) in
          inl (cc, operations, int64_bytes-injective m n fa.1 fb.1 (cc))
      | inr collision ↦ inr collision
    ]

-- No key is both a create key and a mutation key, unless their two materials collide.
pub create_key_is_no-mutation_key :
    (sha : Sha256) (a b : Bytes) (g : Operation) (m n v w : ℤ) (key : Bytes)
    → Fits a
    → Fits b
    → create_key sha a m v ≡ ok key
    → mutation_key sha b g n w ≡ ok key
    → Collides sha (enc_all (create_fields a m)) (enc_all (mutation_fields b g n))
create_key_is_no-mutation_key sha a b g m n v w key fa fb ha hb =
    let (_, key_a) = create_key-ok sha a m v ha in
    let (_, valid, key_b) = mutation_key-ok sha b g n w hb in
    let fit_a = create_fields-Fits a m fa in
    let fit_b = mutation_fields-Fits b g n fb valid in
    elim (fields_cases sha a b _ _ fit_a fit_b key_a key_b) [
      | inl fields ↦ ground arith
      | inr collision ↦ collision
    ]
