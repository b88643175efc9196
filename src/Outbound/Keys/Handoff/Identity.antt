-- ===== src/Outbound/Keys/Handoff/Identity.antt =====
-- One occurrence key is one shift change, whatever the order its people are listed in.
use tokayops.Prelude.{
  ◌≡◌, refl, sym, ◌∙◌, ap, ◌⊎◌, inl, inr, false, Option, List, [], ◌++◌, append_assoc, any-perm,
  All, ℤ, IsInt64, Perm, Bytes, codes, is_blank, ok, refuse_if-eq-ok, first_step, arith,
}
use tokayops.Outbound.Keys.Codec.{enc, enc_list, int64_bytes, sort_bytewise}
use tokayops.Outbound.Keys.Codec.Reading.{
  Fits, enc-cancel, enc_list-cancel, int64_bytes-injective, int64_bytes-Fits,
}
use tokayops.Outbound.Keys.Codec.Sorting.{
  sort_bytewise-perm, perm-sort_bytewise, sort_bytewise-All, length-sort_bytewise,
}
use tokayops.Outbound.Keys.Digest.{Sha256, digest_key, digest_key-cases, Collides}
use tokayops.Outbound.Keys.Handoff.{
  HandoffKind, Occurrence, handoff_text, validate_handoff_kind, validate_occurrence, is_zero_time,
  unix_nano, occurrence_material, occurrence_digest, occurrence_key,
}

-- The key of a shift change does not depend on the order in which its people are listed.
pub occurrence_key-perm :
    (sha : Sha256) (o : Occurrence) (others : List Bytes)
    → Perm o.user_ids others
    → occurrence_key sha (record o { user_ids = others }) ≡ occurrence_key sha o
unfolding occurrence_key occurrence_digest occurrence_material validate_occurrence
occurrence_key-perm sha o others same =
    let sorted = sort_bytewise-perm same in
    let blank = any-perm is_blank same in rw (sym sorted, sym blank) refl

-- One occurrence, but for the order in which its people are listed.
abbrev pub SameOccurrence : Occurrence → Occurrence → Type 0
SameOccurrence a b =
    (a.kind ≡ b.kind)
    × (a.schedule_id ≡ b.schedule_id)
    × (a.source ≡ b.source)
    × (a.group_id ≡ b.group_id)
    × Perm a.user_ids b.user_ids
    × (a.assignment_start ≡ b.assignment_start)
    × (a.revision_id ≡ b.revision_id)

-- The texts are shorter than 4 GiB, the people fewer than 2^32, and the instant an int64.
abbrev pub FitsOccurrence : Occurrence → Type 0
FitsOccurrence o =
    Fits (handoff_text o.kind)
    × Fits o.schedule_id
    × Fits o.source
    × Fits o.group_id
    × Fits o.user_ids
    × All Fits o.user_ids
    × IsInt64 (unix_nano o.assignment_start)
    × Fits o.revision_id

occurrence_material-nested :
    (o : Occurrence)
    → occurrence_material o
      ≡ enc (codes "handoff_occurrence")
        ++ (enc (handoff_text o.kind)
            ++ (enc o.schedule_id
                ++ (enc o.source
                    ++ (enc o.group_id
                        ++ (enc_list (sort_bytewise o.user_ids)
                            ++ (enc (int64_bytes (unix_nano o.assignment_start))
                                ++ enc o.revision_id))))))
unfolding occurrence_material
occurrence_material-nested o = simp append_assoc

handoff_text-injective :
    (k l : HandoffKind)
    → validate_handoff_kind k ≡ ok tt
    → validate_handoff_kind l ≡ ok tt
    → handoff_text k ≡ handoff_text l
    → k ≡ l
unfolding validate_handoff_kind
handoff_text-injective k l hk hl same = ground arith

-- What was accepted: a known kind at an instant, under the key of its material.
abbrev AcceptedOccurrence : Sha256 → Occurrence → Bytes → Type 0
AcceptedOccurrence sha o key =
    (validate_handoff_kind o.kind ≡ ok tt)
    × (is_zero_time o.assignment_start ≡ false)
    × (key ≡ digest_key sha o.schedule_id (occurrence_material o))

occurrence_key-Accepted :
    (sha : Sha256) (o : Occurrence) {key : Bytes}
    → occurrence_key sha o ≡ ok key
    → AcceptedOccurrence sha o key
unfolding occurrence_key occurrence_digest validate_occurrence digest_key
occurrence_key-Accepted sha o h =
    let (_, digested, h1) = first_step (occurrence_digest sha o) h in
    let (_, valid, h2) = first_step (validate_occurrence o) digested in
    let (_, kind, h3) = first_step (validate_handoff_kind o.kind) valid in
    let (_, h4) = refuse_if-eq-ok (is_blank o.schedule_id) _ _ h3 in
    let (moment, _) = refuse_if-eq-ok (is_zero_time o.assignment_start) _ _ h4 in (kind, moment, cc)

moments_equal :
    (s t : Option ℤ)
    → is_zero_time s ≡ false
    → is_zero_time t ≡ false
    → unix_nano s ≡ unix_nano t
    → s ≡ t
moments_equal s t hs ht same = ground arith

sort_bytewise-Fits :
    (members : List Bytes)
    → Fits members
    → All Fits members
    → Fits (sort_bytewise members) × All Fits (sort_bytewise members)
sort_bytewise-Fits members few fit =
    (omega (arith, length-sort_bytewise members), sort_bytewise-All Fits members fit)

materials_tell :
    (a b : Occurrence)
    → FitsOccurrence a
    → FitsOccurrence b
    → (validate_handoff_kind a.kind ≡ ok tt) × (is_zero_time a.assignment_start ≡ false)
    → (validate_handoff_kind b.kind ≡ ok tt) × (is_zero_time b.assignment_start ≡ false)
    → occurrence_material a ≡ occurrence_material b
    → SameOccurrence a b
materials_tell a b (ka, sa, oa, ga, na, ua, ta, ra) (kb, sb, ob, gb, nb, ub, tb, rb) va vb same =
    let nested = sym (occurrence_material-nested a) ∙ same ∙ occurrence_material-nested b in
    let protocol : Fits (codes "handoff_occurrence") = omega arith in
    let (_, after_protocol) = enc-cancel _ _ protocol protocol nested in
    let (kinds, after_kind) = enc-cancel _ _ ka kb after_protocol in
    let (schedules, after_schedule) = enc-cancel _ _ sa sb after_kind in
    let (sources, after_source) = enc-cancel _ _ oa ob after_schedule in
    let (groups, after_group) = enc-cancel _ _ ga gb after_source in
    let (users, after_users) =
      enc_list-cancel _ _ (sort_bytewise-Fits _ na ua) (sort_bytewise-Fits _ nb ub) after_group in
    let (starts, after_start) =
      enc-cancel _ _ (int64_bytes-Fits _) (int64_bytes-Fits _) after_users in
    let (revisions, _) = enc-cancel _ _ ra rb (ap (λ s. s ++ []) after_start) in
    (
      handoff_text-injective a.kind b.kind va.0 vb.0 kinds,
      schedules,
      sources,
      groups,
      perm-sort_bytewise a.user_ids b.user_ids users,
      moments_equal _ _ va.1 vb.1 (int64_bytes-injective _ _ ta tb starts),
      revisions,
    )

-- Two shift changes with one key are one shift change, but for the order in which its people are
-- listed, unless the digest fails to tell apart the materials of these very two, which differ: if their texts are shorter than 4 GiB, their people fewer
-- than 2^32, and their instants int64s.
pub occurrence_key-injective :
    (sha : Sha256) (a b : Occurrence) (key : Bytes)
    → FitsOccurrence a
    → FitsOccurrence b
    → occurrence_key sha a ≡ ok key
    → occurrence_key sha b ≡ ok key
    → SameOccurrence a b ⊎ Collides sha (occurrence_material a) (occurrence_material b)
occurrence_key-injective sha a b key fa fb ha hb =
    let (kind_a, moment_a, key_a) = occurrence_key-Accepted sha a ha in
    let (kind_b, moment_b, key_b) = occurrence_key-Accepted sha b hb in
    elim (digest_key-cases sha a.schedule_id b.schedule_id _ _ (sym key_a ∙ key_b)) [
      | inl (_, materials) ↦
          inl (materials_tell a b fa fb (kind_a, moment_a) (kind_b, moment_b) materials)
      | inr collision ↦ inr collision
    ]
