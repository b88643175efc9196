-- ===== src/Outbound/Keys/Admission/Taken.antt =====
-- When an escalation is admitted (internal/outbound/keys/escalation.go, `EscalationBatch.Admit`).
use tokayops.Prelude.{
  ℕ, suc, true, false, ◌==◌, ◌≡◌, refl, sym, ap, subst, ◌⊎◌, inl, inr, Bool-cases, some, List, [],
  ◌∷◌, map, length, any, All, pos, Bytes, bytes_eq, bytes_eq_refl, bytes_eq→eq, ok, arith, same_int,
  Memᴰ, Perm, ◌∙◌,
}
use tokayops.Outbound.Keys.Digest.{Sha256, Collides}
use tokayops.Outbound.Keys.Grammar.{
  check_version, supported_versions, opening, family_of, request_id_for,
}
use tokayops.Outbound.Keys.Escalation.{intent_key, batch_key, validate_batch}
use tokayops.Outbound.Keys.Escalation.Identity.{
  FitsIntent, HasEscalationId, intent_material, intent_key-injective,
}
use tokayops.Outbound.Keys.Fingerprint.{batch_fingerprint}
use tokayops.Outbound.Keys.Commitment.{EscalationCommitment, validate_commitment, is_satellite}
use tokayops.Outbound.Keys.Admission.{
  EscalationBatch, AdmittedCommitment, Admission, intent_of, channel_of, keyed, outcome_of,
  sort_keyed, admit_each, follow_card, follow_cards, admit,
}
use tokayops.Outbound.Keys.Admission.Made.{IsFirst, key_made, material_made, taken}
use tokayops.Outbound.Keys.Admission.Sorting.{promised, sort_keyed-perm}

abbrev pub Apart : EscalationCommitment → EscalationCommitment → Type 0
Apart c d = ¬ ((c.slot ≡ d.slot) × (c.provider ≡ d.provider) × (c.target ≡ d.target))

abbrev pub AllApart : List EscalationCommitment → Type 0
AllApart [] = Unit
AllApart (c ∷ cs) = All (Apart c) cs × AllApart cs

abbrev pub Among : (EscalationCommitment → Type 0) → List EscalationCommitment → Type 0
Among P [] = ⊥
Among P (c ∷ cs) = P c ⊎ Among P cs

-- The card that a satellite follows.
abbrev pub Cards : EscalationCommitment → EscalationCommitment → Type 0
Cards c d = (d.slot ≡ c.slot) × (d.provider ≡ c.provider) × (d.target ≡ channel_of c.target)

module _ (sha : Sha256) (b : EscalationBatch) (first : IsFirst b) where
  abbrev pub IsValid : EscalationCommitment → Type 0
  IsValid c = (validate_commitment c ≡ ok tt) × FitsIntent (intent_of b c c.target)

  -- Two commitments whose keys' materials differ and have one digest
  abbrev pub Clash : EscalationCommitment → EscalationCommitment → Type 0
  Clash c d =
      Collides sha (intent_material b.kind (intent_of b c c.target))
        (intent_material b.kind (intent_of b d d.target))

  -- The list has two such commitments.
  abbrev pub Clashes : List EscalationCommitment → Type 0
  Clashes cs =
      (c : EscalationCommitment) × (d : EscalationCommitment) × Memᴰ c cs × Memᴰ d cs × Clash c d

  abbrev KeyOf : EscalationCommitment → Bytes → Type 0
  KeyOf c k = intent_key sha (intent_of b c c.target) b.kind b.grammar_version ≡ ok k

  -- The keys seen are those of what came before.
  abbrev SeenOf : List EscalationCommitment → List Bytes → Type 0
  SeenOf [] [] = Unit
  SeenOf [] (k ∷ ks) = ⊥
  SeenOf (c ∷ cs) [] = ⊥
  SeenOf (c ∷ cs) (k ∷ ks) = KeyOf c k × SeenOf cs ks

  -- What is admitted is what was proposed, each under its key.
  abbrev Admits : List EscalationCommitment → List (AdmittedCommitment × Bytes) → Type 0
  Admits [] [] = Unit
  Admits [] (p ∷ ps) = ⊥
  Admits (c ∷ cs) [] = ⊥
  Admits (c ∷ cs) (p ∷ ps) = (p.0.commitment ≡ c) × KeyOf c p.0.idempotency_key × Admits cs ps

  has_id : HasEscalationId b.kind
  has_id same = let e = first.kind in ground arith

  one_key :
      (c d : EscalationCommitment) (k : Bytes)
      → IsValid c
      → IsValid d
      → KeyOf c k
      → KeyOf d k
      → ((c.slot ≡ d.slot) × (c.provider ≡ d.provider) × (c.target ≡ d.target)) ⊎ Clash c d
  one_key c d k vc vd hc hd =
      elim (intent_key-injective sha (intent_of b c c.target) (intent_of b d d.target) b.kind b.kind
        b.grammar_version b.grammar_version k vc.1 vd.1 has_id has_id hc hd) [
          | inl (same, _, _) ↦ inl (cc same, cc same, cc same)
          | inr collision ↦ inr collision
        ]

  abbrev IsOne : List EscalationCommitment → EscalationCommitment → Type 0
  IsOne all c = IsValid c × Memᴰ c all

  IsValid-IsOne :
      (all cs : List EscalationCommitment)
      → ((c : EscalationCommitment) → Memᴰ c cs → Memᴰ c all)
      → All IsValid cs
      → All (IsOne all) cs
  IsValid-IsOne all [] into h = tt
  IsValid-IsOne all (c ∷ cs) into h =
      ((h.0, into c (Memᴰ.head refl)), IsValid-IsOne all cs (λ d m. into d (Memᴰ.tail m)) h.1)

  -- A key that was seen is that of a commitment which is none of those before, or two of them clash.
  not_seen :
      (all : List EscalationCommitment) (before : List EscalationCommitment) (seen : List Bytes)
      (c : EscalationCommitment) (k : Bytes)
      → SeenOf before seen
      → All (IsOne all) before
      → IsOne all c
      → All (λ d. Apart d c) before
      → KeyOf c k
      → (any (bytes_eq k) seen ≡ false) ⊎ Clashes all
  not_seen all [] [] c k s vs v apart h = inl refl
  not_seen all [] (k' ∷ seen) c k s vs v apart h = absurd s
  not_seen all (d ∷ before) [] c k s vs v apart h = absurd s
  not_seen all (d ∷ before) (k' ∷ seen) c k s vs v apart h = elim (Bool-cases (bytes_eq k k')) [
    | inl one ↦
        elim (one_key d c k vs.0.0 v.0 (subst (KeyOf d) (sym (bytes_eq→eq k k' one)) s.0) h) [
          | inl same ↦ absurd (apart.0 same)
          | inr clash ↦ inr (d, c, vs.0.1, v.1, clash)
        ]
    | inr other ↦ elim (not_seen all before seen c k s.1 vs.1 v apart.1 h) [
      | inl rest ↦ inl (ground (arith, other, rest))
      | inr collision ↦ inr collision
    ]
  ]

  each_made :
      (all : List EscalationCommitment) (before : List EscalationCommitment) (seen : List Bytes)
      (cs : List EscalationCommitment)
      → SeenOf before seen
      → All (IsOne all) before
      → All (IsOne all) cs
      → All (λ d. All (Apart d) cs) before
      → AllApart cs
      → ((each : List (AdmittedCommitment × Bytes)) × (admit_each sha b seen cs ≡ ok each)
          × Admits cs each)
        ⊎ Clashes all
  each_made all before seen [] s vb vs across apart = inl ([], refl, tt)
  each_made all before seen (c ∷ cs) s vb vs across apart =
      let (k, has_key) = key_made b first c vs.0.0.0 sha in
      let (w, written) = material_made b first c vs.0.0.0 in
      elim (not_seen all before seen c k s vb vs.0 (heads before cs c across) has_key) [
        | inr collision ↦ inr collision
        | inl fresh ↦
            elim (each_made all (c ∷ before) (k ∷ seen) cs (has_key, s) (vs.0, vb) vs.1
              (apart.0, tails before cs c across) apart.1) [
                | inr collision ↦ inr collision
                | inl (each, made, admits) ↦ inl (
                  (record { idempotency_key = k; commitment = c; parent_key = [] }, w) ∷ each,
                  rw (vs.0.0.0, has_key, fresh, written, made) refl,
                  (refl, has_key, admits),
                )
              ]
      ]
    where
      heads :
          (ds cs : List EscalationCommitment) (c : EscalationCommitment)
          → All (λ d. All (Apart d) (c ∷ cs)) ds
          → All (λ d. Apart d c) ds
      heads [] cs c h = tt
      heads (d ∷ ds) cs c h = (h.0.0, heads ds cs c h.1)

      tails :
          (ds cs : List EscalationCommitment) (c : EscalationCommitment)
          → All (λ d. All (Apart d) (c ∷ cs)) ds
          → All (λ d. All (Apart d) cs) ds
      tails [] cs c h = tt
      tails (d ∷ ds) cs c h = (h.0.1, tails ds cs c h.1)

  abbrev proposed : List (AdmittedCommitment × Bytes) → List AdmittedCommitment
  proposed = map (λ (p : AdmittedCommitment × Bytes). p.0)

  -- The card of a satellite is keyed.
  abbrev HasCard : List AdmittedCommitment → EscalationCommitment → Type 0
  HasCard all c =
      (k : Bytes) × (intent_key sha (intent_of b c (channel_of c.target)) b.kind b.grammar_version
        ≡ ok k)
      × (keyed all k ≡ true)

  card_made :
      (c : EscalationCommitment) (cs : List EscalationCommitment)
      (each : List (AdmittedCommitment × Bytes))
      → Admits cs each
      → Among (Cards c) cs
      → HasCard (proposed each) c
  card_made c [] each h there = absurd there
  card_made c (d ∷ cs) [] h there = absurd h
  card_made c (d ∷ cs) (p ∷ ps) h (inl (slot, provider, target)) = (
    p.0.idempotency_key,
    rw (← slot, ← provider, ← target) h.1,
    rw (bytes_eq_refl p.0.idempotency_key) refl,
  )
  card_made c (d ∷ cs) (p ∷ ps) h (inr there) =
      let (k, has_key, in_rest) = card_made c cs ps h.2 there in
      (k, has_key, ground (arith, in_rest))

  follow_made :
      (all : List AdmittedCommitment) (a : AdmittedCommitment)
      → (is_satellite a.commitment.target.kind ≡ true → HasCard all a.commitment)
      → (followed : AdmittedCommitment) × (follow_card sha b all a ≡ ok followed)
        × (followed.commitment ≡ a.commitment)
  follow_made all a h = elim (Bool-cases (is_satellite a.commitment.target.kind)) [
    | inl satellite ↦
        let (k, has_key, there) = h satellite in
        (record a { parent_key = k }, rw (satellite, has_key, there) refl, refl)
    | inr plain ↦ (a, rw plain refl, refl)
  ]

  follows_made :
      (all : List AdmittedCommitment) (cs : List EscalationCommitment)
      (each : List (AdmittedCommitment × Bytes))
      → Admits cs each
      → All (λ c. is_satellite c.target.kind ≡ true → HasCard all c) cs
      → (followed : List AdmittedCommitment) × (follow_cards sha b all (proposed each)
          ≡ ok followed)
        × (length followed ≡ length each)
        × (promised followed ≡ cs)
  follows_made all [] [] h cards = ([], refl, refl, refl)
  follows_made all [] (p ∷ ps) h cards = absurd h
  follows_made all (c ∷ cs) [] h cards = absurd h
  follows_made all (c ∷ cs) (p ∷ ps) h cards =
      let (f, one, same) = follow_made all p.0 (
        subst (λ (d : EscalationCommitment). is_satellite d.target.kind ≡ true → HasCard all d)
          (sym h.0) cards.0) in
      let (fs, rest, long, kept) = follows_made all cs ps h.2 cards.1 in
      (f ∷ fs, rw (one, rest) refl, ap suc long, (let head = same ∙ h.0 in cc))

  claim_made :
      (k : Bytes) × (batch_key sha
          (record {
            kind = b.kind;
            alert_group_id = b.snapshot.alert_group_id;
            client_request_id = b.client_request_id;
          })
          b.grammar_version
        ≡ ok k)
  unfolding batch_key check_version supported_versions opening family_of validate_batch
      request_id_for
  claim_made = taken _ (rw (first.kind, first.grammar, first.no_request, first.has_group) refl)

  version_taken : check_version b.kind b.grammar_version ≡ ok tt
  unfolding check_version supported_versions
  version_taken = rw (first.kind, first.grammar) refl

  protocol_taken : same_int b.fingerprint_version (pos 1) ≡ true
  protocol_taken = rw first.protocol refl

  schema_taken : same_int b.snapshot.schema (pos 2) ≡ true
  schema_taken = rw first.schema refl

  whole_digest : (length b.snapshot.digest == 32) ≡ true
  whole_digest = rw first.digest refl

  suc_not_zero : (n : ℕ) → (suc n == 0) ≡ false
  suc_not_zero n = ground arith

  print_made :
      (followed : List AdmittedCommitment) (each : List (AdmittedCommitment × Bytes))
      → length followed ≡ length each
      → (w : Bytes) × (batch_fingerprint sha b.fingerprint_version
            (outcome_of followed)
            (some b.snapshot.digest)
            (map (λ (p : AdmittedCommitment × Bytes). p.1) each)
          ≡ ok w)
  unfolding batch_fingerprint
  print_made [] [] long = taken _ (rw (first.protocol, first.digest) refl)
  print_made [] (p ∷ ps) long = absurd (omega arith)
  print_made (f ∷ fs) [] long = absurd (omega arith)
  print_made (f ∷ fs) (p ∷ ps) long = taken _ (
      rw
        (
          first.protocol,
          first.digest,
          suc_not_zero (length (map (λ (p : AdmittedCommitment × Bytes). p.1) ps)),
        )
        refl)

  Admits-HasCard :
      (each : List (AdmittedCommitment × Bytes)) (cs all : List EscalationCommitment)
      → Admits all each
      → All (λ c. is_satellite c.target.kind ≡ true → Among (Cards c) all) cs
      → All (λ c. is_satellite c.target.kind ≡ true → HasCard (proposed each) c) cs
  Admits-HasCard each [] all h cards = tt
  Admits-HasCard each (c ∷ cs) all h cards = (
    (λ satellite. card_made c all each h (cards.0 satellite)),
    Admits-HasCard each cs all h cards.1,
  )

  -- A first admission is taken, and holds the proposed commitments, unless the digest fails to tell two of its
  -- commitments apart, the materials of whose keys differ: when each commitment
  -- is one that the grammar accepts, its texts are shorter than 4 GiB and its step's number is an int64,
  -- no two are one, and each satellite has its card among them.
  pub admit_taken :
      All IsValid b.commitments
      → AllApart b.commitments
      → All (λ c. is_satellite c.target.kind ≡ true → Among (Cards c) b.commitments) b.commitments
      → ((a : Admission) × (admit sha b ≡ ok a) × Perm (promised a.commitments) b.commitments)
        ⊎ Clashes b.commitments
  unfolding admit
  admit_taken valid apart cards =
      elim (each_made b.commitments [] [] b.commitments tt tt
        (IsValid-IsOne b.commitments b.commitments (λ c m. m) valid) tt apart) [
          | inr collision ↦ inr collision
          | inl (each, made, admits) ↦
              let (claim, claimed) = claim_made in
              let (followed, follow, long, kept) =
                follows_made (proposed each) b.commitments each admits
                  (Admits-HasCard each b.commitments b.commitments admits cards) in
              let (print, printed) = print_made followed each long in
              inl (
                record {
                  batch_key = claim;
                  kind = b.kind;
                  grammar_version = b.grammar_version;
                  outcome = outcome_of followed;
                  fingerprint = print;
                  fingerprint_version = b.fingerprint_version;
                  snapshot = b.snapshot;
                  commitments = sort_keyed followed;
                },
                rw
                    (
                      version_taken, first.has_group, whole_digest, schema_taken, protocol_taken,
                      claimed, made, follow, printed,
                    )
                    refl,
                subst (Perm (promised (sort_keyed followed))) kept (sort_keyed-perm followed),
              )
        ]
