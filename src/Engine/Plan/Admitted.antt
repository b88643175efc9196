-- ===== src/Engine/Plan/Admitted.antt =====
-- The grammar admits a plan (internal/engine/plan.go against internal/outbound/keys/escalation.go).
use tokayops.Prelude.{
  Bool, true, false, ◌≡◌, refl, sym, ap, ◌∙◌, subst, ◌⊎◌, inl, inr, Option, List, [], ◌∷◌, All,
  Bytes, is_blank, Result, ok, Perm,
}
use tokayops.Outbound.Intent.{TargetKind}
use tokayops.Outbound.Keys.Digest.{Sha256}
use tokayops.Outbound.Keys.Escalation.Identity.{FitsIntent}
use tokayops.Outbound.Keys.Commitment.{is_satellite}
use tokayops.Outbound.Keys.Material.{RenderSnapshot}
use tokayops.Outbound.Keys.Admission.{EscalationBatch, Admission, intent_of, channel_of, admit}
use tokayops.Outbound.Keys.Admission.Made.{IsFirst}
use tokayops.Outbound.Keys.Admission.Sorting.{promised}
use tokayops.Outbound.Keys.Admission.Taken.{
  Apart, AllApart, Among, Cards, IsValid, Clashes, admit_taken,
}
use tokayops.Engine.Types.{EscalationPolicy, TeamOnCallResult, PlanError, Services, Reading}
use tokayops.Engine.Plan.{
  AlertGroup, FirehoseChannels, TeamRead, Batch, commitments_of, escalation_batch, team_for,
  policy_for, route, onboarded, firehose_channel, build_plan,
}
use tokayops.Engine.Steps.{PlannedCommitment, Draft, steps_of, commitments}
use tokayops.Engine.Steps.Distinct.{Differs, IsDistinct, card_target}
use tokayops.Engine.Steps.Backing.{Some}
use tokayops.Engine.Steps.Cards.{IsAccepted}
use tokayops.Engine.Steps.Once.{commitments-IsDistinct}
use tokayops.Engine.Steps.Accepted.{IsSized, commitments-IsAccepted}
use tokayops.Engine.Steps.Accompanied.{IsCardOf, commitments-IsAccompanied}

Differs-Apart :
    (p : PlannedCommitment) (qs : List PlannedCommitment)
    → All (Differs p) qs
    → All (Apart p.commitment) (commitments_of qs)
Differs-Apart p [] h = tt
Differs-Apart p (q ∷ qs) h = (h.0, Differs-Apart p qs h.1)

IsDistinct-AllApart : (ps : List PlannedCommitment) → IsDistinct ps → AllApart (commitments_of ps)
IsDistinct-AllApart [] h = tt
IsDistinct-AllApart (p ∷ ps) h = (Differs-Apart p ps h.0, IsDistinct-AllApart ps h.1)

satellite_card :
    (kind : TargetKind) (ref : Bytes)
    → is_satellite kind ≡ true
    → card_target kind ref ≡ channel_of (record { kind = kind; ref = ref })
satellite_card TargetKind.thread ref h = refl
satellite_card TargetKind.thread_reply ref h = refl
satellite_card TargetKind.channel ref h = cc
satellite_card TargetKind.user ref h = cc
satellite_card TargetKind.subscriber ref h = cc
satellite_card (TargetKind.unlisted s) ref h = cc

Some-Among :
    (p : PlannedCommitment) (ps : List PlannedCommitment)
    → is_satellite p.commitment.target.kind ≡ true
    → Some (IsCardOf p) ps
    → Among (Cards p.commitment) (commitments_of ps)
Some-Among p [] satellite h = absurd h
Some-Among p (q ∷ ps) satellite (inl (slot, provider, target)) = inl (
  slot,
  provider,
  target ∙ satellite_card p.commitment.target.kind p.commitment.target.ref satellite,
)
Some-Among p (q ∷ ps) satellite (inr h) = inr (Some-Among p ps satellite h)

IsAccompanied-Among :
    (ps all : List PlannedCommitment)
    → All (λ p. Some (IsCardOf p) all) ps
    → All
        (λ c. is_satellite c.target.kind ≡ true → Among (Cards c) (commitments_of all))
        (commitments_of ps)
IsAccompanied-Among [] all h = tt
IsAccompanied-Among (p ∷ ps) all h =
    ((λ satellite. Some-Among p all satellite h.0), IsAccompanied-Among ps all h.1)

module _ (sha : Sha256) (b : EscalationBatch) (first : IsFirst b) where
  -- The recipient has a name, and the texts and the number fit the grammar's fields.
  abbrev pub IsWritable : PlannedCommitment → Type 0
  IsWritable p =
      (is_blank p.commitment.target.ref ≡ false)
      × FitsIntent (intent_of b p.commitment p.commitment.target)

  IsWritable-IsValid :
      (ps : List PlannedCommitment)
      → All IsAccepted ps
      → All IsWritable ps
      → All (IsValid sha b first) (commitments_of ps)
  IsWritable-IsValid [] accepted writable = tt
  IsWritable-IsValid (p ∷ ps) accepted writable =
      ((accepted.0 writable.0.0, writable.0.1), IsWritable-IsValid ps accepted.1 writable.1)

  -- A plan is admitted: the grammar refuses none of its commitments and not the whole, unless the digest
  -- fails to tell two of them apart, the materials of whose keys differ. This is for a first admission from a current snapshot of a group; no step of the
  -- policy has a negative number or delay, and the delays with a call's ten minutes are an int64 of
  -- nanoseconds; every recipient has a name, the texts are shorter than 4 GiB and the numbers int64s.
  pub commitments-admit :
      {World : Type 0} (services : Services World) (team : TeamOnCallResult) (firehose : Bytes)
      (policy : Option EscalationPolicy) (s : Reading World) (d : Draft)
      → (commitments services team firehose policy s).1 ≡ ok d
      → b.commitments ≡ commitments_of d.planned
      → IsSized (steps_of policy) 0
      → All IsWritable d.planned
      → ((a : Admission) × (admit sha b ≡ ok a) × Perm (promised a.commitments) b.commitments)
        ⊎ Clashes sha b first b.commitments
  commitments-admit services team firehose policy s d made proposed sized writable =
      let distinct = commitments-IsDistinct services team firehose policy s d made in
      let accepted = commitments-IsAccepted services team firehose policy s d sized made in
      let cards = commitments-IsAccompanied services team firehose policy s d made in
      admit_taken sha b first
        (subst (All (IsValid sha b first)) (sym proposed)
          (IsWritable-IsValid d.planned accepted writable))
        (subst AllApart (sym proposed) (IsDistinct-AllApart d.planned distinct))
        (subst (λ cs. All (λ c. is_satellite c.target.kind ≡ true → Among (Cards c) cs) cs)
          (sym proposed) (IsAccompanied-Among d.planned d.planned cards))

-- A plan whose reads went through is made: when the team and the policy were read, the state frozen and
-- the commitments drafted, nothing that follows refuses them, and the batch holds all of them and no
-- others, with the steps that promise nothing, unless the digest fails to tell two of these commitments
-- apart, the materials of whose keys differ. The frozen state is a current snapshot of a group; no step of the policy has a negative number or delay,
-- and the delays with a call's ten minutes are an int64 of nanoseconds; every recipient has a name, the
-- texts are shorter than 4 GiB and the numbers int64s.
pub build_plan_made :
    {World : Type 0} (sha : Sha256) (services : Services World)
    (freeze : World → AlertGroup → Bool → World × Result Bytes RenderSnapshot)
    (cfg : FirehoseChannels) (ag : AlertGroup) (team_on_call : TeamOnCallResult)
    (s s1 s2 s4 : Reading World) (w3 : World) (read : TeamRead) (found : Option EscalationPolicy)
    (state : RenderSnapshot) (d : Draft)
    → team_for services ag.team_id s ≡ (s1, ok read)
    → policy_for services (route read ag.severity) s1 ≡ (s2, ok found)
    → freeze s2.world ag (onboarded read) ≡ (w3, ok state)
    → commitments services team_on_call
        (firehose_channel cfg ag.severity)
        found
        (record s2 { world = w3 })
      ≡ (s4, ok d)
    → (first : IsFirst (escalation_batch state (commitments_of d.planned)))
    → IsSized (steps_of found) 0
    → All (IsWritable sha (escalation_batch state (commitments_of d.planned)) first) d.planned
    → ((b : Batch) × ((build_plan sha services freeze cfg ag team_on_call s).1 ≡ ok b)
        × Perm (promised b.admission.commitments) (commitments_of d.planned)
        × (b.unpromised ≡ d.unpromised))
      ⊎ Clashes sha
          (escalation_batch state (commitments_of d.planned))
          first
          (commitments_of d.planned)
unfolding build_plan
build_plan_made {World = World} sha services freeze cfg ag team_on_call s s1 s2 s4 w3 read found
      state d named routed kept drafted first sized writable =
    elim (commitments-admit sha (escalation_batch state (commitments_of d.planned)) first services
      team_on_call (firehose_channel cfg ag.severity) found (record s2 { world = w3 }) d
      (ap (λ (r : Reading World × Result PlanError Draft). r.1) drafted) refl sized writable) [
        | inr collision ↦ inr collision
        | inl (a, taken, whole) ↦
            inl (rw (named, routed, kept, drafted, taken) (_, refl, whole, refl))
      ]
