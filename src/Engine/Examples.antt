-- ===== src/Engine/Examples.antt =====
-- The escalation engine at concrete values: a team with a schedule, a policy of five steps, and a store
-- that forgets everybody after the first question.
use tokayops.Prelude.{
  ℕ, zero, suc, ◌%◌, length, IsByte, true, ◌≡◌, refl, inl, inr, Bool-cases, Option, none, some,
  List, [], ◌∷◌, map, any, All, ℤ, pos, Bytes, codes, bytes_eq, Result, ok, err, Memᴰ,
  if◌then◌else◌, Bool, false, arith, ◌⊎◌, Perm,
}
use tokayops.Outbound.Keys.Digest.{Sha256}
use tokayops.Outbound.Keys.Material.{RenderSnapshot}
use tokayops.Outbound.Keys.Admission.Made.{IsFirst}
use tokayops.Outbound.Keys.Admission.Sorting.{promised}
use tokayops.Outbound.Keys.Admission.Taken.{Clashes}
use tokayops.Engine.Plan.Admitted.{build_plan_made}
use tokayops.Outbound.Keys.Grammar.{Target}
use tokayops.Engine.Types.{
  User, Team, EscalationStep, EscalationPolicy, LayerOnCall, TeamOnCall, TeamOnCallResult,
  ProjectionError, no_rows, Unavailable, Services,
}
use tokayops.Engine.Roster.{people}
use tokayops.Engine.Roster.Memory.{AnswersAsked}
use tokayops.Engine.Resolver.{hydrate, users_for}
use tokayops.Engine.Resolver.Answers.{Settles, users_for-Settles}
use tokayops.Engine.Steps.{
  PlannedCommitment, Draft, user_target, satellites_of, block, delivers_through, describe_step,
  slot_target, call_of, promise, step_card, promise_to, commit_step, start_draft, recipients,
  plan_step, commitments, schedule_type, no_channel, duplicate, UnpromisedStep,
}
use tokayops.Engine.Steps.Once.{commitments-IsDistinct}
use tokayops.Engine.Steps.Distinct.{IsDistinct}
use tokayops.Engine.Steps.Owed.{commitments-Owed}
use tokayops.Engine.Steps.Backing.{Some, IsTo}
use tokayops.Engine.Steps.Accepted.{commitments-IsAccepted}
use tokayops.Engine.Steps.Cards.{IsAccepted}
use tokayops.Engine.Plan.{
  AlertGroup, FirehoseChannels, Batch, team_for, policy_for, route, onboarded, firehose_channel,
  build_plan, escalation_batch, commitments_of, fresh,
}
use tokayops.Engine.Records.{on_call_record, OnCallRecord}
use tokayops.Engine.Plan.Agreement.{commitments-recorded}
use tokayops.Engine.Tick.{SubmitOutcome, deferred, process_group}
use tokayops.Engine.Tick.Deferral.{process_group_unreadable}

abbrev person : Bytes → User
person id = record { id = id; email = id; name = id }

abbrev alice : User
alice = person (codes "alice")

abbrev bob : User
bob = person (codes "bob")

-- The people of a list whom a question names.
abbrev named_in : List Bytes → List User → List User
named_in ask [] = []
named_in ask (u ∷ us) =
    let rest = named_in ask us in if any (bytes_eq u.id) ask then u ∷ rest else rest

abbrev staff : ℕ → List User
staff zero = alice ∷ bob ∷ []
staff (suc questions) = []

-- The world counts the questions about people.
abbrev desk : Services ℕ
desk = record {
  get_policy = λ w id. (w, err no_rows);
  get_users = λ w ask. (suc w, ok (named_in ask (staff w)));
  get_team = λ w id. (w, err no_rows);
  current_on_call = λ w id. (w, err ProjectionError.revision_gap);
}

named_in-asked :
    (ask : List Bytes) (us : List User)
    → All (λ u. any (bytes_eq u.id) ask ≡ true) (named_in ask us)
named_in-asked ask [] = tt
named_in-asked ask (u ∷ us) = elim (Bool-cases (any (bytes_eq u.id) ask)) [
  | inl there ↦ rw there (there, named_in-asked ask us)
  | inr away ↦ rw away (named_in-asked ask us)
]

ok_list : {E : Type 0} {a b : List User} → ◌≡◌ {A = Result E (List User)} (ok a) (ok b) → a ≡ b
ok_list h = cc h

desk-AnswersAsked : AnswersAsked desk
desk-AnswersAsked w ask found h = rw (← ok_list h) (named_in-asked ask (staff w))

abbrev layer : LayerOnCall
layer = record {
  user_ids = codes "alice" ∷ codes "bob" ∷ [];
  assignment_start = 10;
  assignment_end = 20;
  source = codes "rotation";
}

abbrev team : TeamOnCall
team = record { schedule_id = codes "s1"; on_call = record { l1 = some layer; l2 = none } }

abbrev page : ℤ → Bytes → Bytes → Bytes → Bytes → ℤ → Option EscalationStep
page index provider target_kind target_type target_id delay = some (record {
  step_index = index;
  provider = provider;
  target_kind = target_kind;
  target_type = target_type;
  target_id = target_id;
  delay_seconds = delay;
  message = [];
  continue_on_failure = true;
})

abbrev first_page : EscalationStep
first_page = record {
  step_index = pos 0;
  provider = codes "slack";
  target_kind = codes "dm";
  target_type = schedule_type;
  target_id = codes "s1";
  delay_seconds = pos 0;
  message = [];
  continue_on_failure = true;
}

abbrev plan : Option EscalationPolicy
plan = some (record {
  id = codes "p1";
  name = codes "default";
  steps =
      some first_page
      ∷ none
      ∷ page (pos 1) (codes "phone") (codes "dm") (codes "user") (codes "bob") (pos 300)
      ∷ page (pos 2) (codes "slack") (codes "channel") (codes "channel") (codes "C1") (pos 60)
      ∷ page (pos 2) (codes "slack") (codes "channel") (codes "channel") (codes "C1") (pos 0)
      ∷ page (pos 3) (codes "fax") (codes "dm") (codes "user") (codes "bob") (pos 0)
      ∷ [];
})

abbrev drafted : Draft
drafted = elim (commitments desk (ok team) (codes "F1") plan (fresh 0)).1 [
  | ok d ↦ d
  | err e ↦ record { planned = []; unpromised = []; seen = [] }
]

abbrev recorded_duty : OnCallRecord
recorded_duty = record {
  l1_users = alice ∷ bob ∷ [];
  l2_user = none;
  l1_since = some 10;
  l1_until = some 20;
  source = codes "rotation";
}

planned : (commitments desk (ok team) (codes "F1") plan (fresh 0)).1 ≡ ok drafted
unfolding commitments start_draft plan_step recipients delivers_through commit_step promise_to
    slot_target step_card promise call_of block satellites_of describe_step users_for hydrate people
planned = refl

-- The firehose with its satellites, two people, a call, and a card with its satellites.
planned_targets :
    map (λ (p : PlannedCommitment). p.commitment.target.ref) drafted.planned
    ≡ map codes ("F1" ∷ "F1" ∷ "F1" ∷ "alice" ∷ "bob" ∷ "bob" ∷ "C1" ∷ "C1" ∷ "C1" ∷ [])
unfolding commitments start_draft plan_step recipients delivers_through commit_step promise_to
    slot_target step_card promise call_of block satellites_of describe_step users_for hydrate people
planned_targets = refl

unpromised_reasons :
    map (λ (u : UnpromisedStep). u.reason) drafted.unpromised ≡ duplicate ∷ no_channel ∷ []
unfolding commitments start_draft plan_step recipients delivers_through commit_step promise_to
    slot_target step_card promise call_of block satellites_of describe_step users_for hydrate people
unpromised_reasons = refl

duty_recorded :
    (on_call_record desk (ok team) (commitments desk (ok team) (codes "F1") plan (fresh 0)).0).1
    ≡ some recorded_duty
unfolding commitments start_draft plan_step recipients delivers_through commit_step promise_to
    slot_target step_card promise call_of block satellites_of describe_step users_for hydrate people
    on_call_record
duty_recorded = refl

is_delivered : delivers_through (codes "slack") ≡ true
unfolding delivers_through
is_delivered = refl

commitments-IsDistinct_example : IsDistinct drafted.planned
commitments-IsDistinct_example =
    commitments-IsDistinct desk (ok team) (codes "F1") plan (fresh 0) drafted planned

commitments-IsAccepted_example : All IsAccepted drafted.planned
commitments-IsAccepted_example =
    commitments-IsAccepted desk (ok team) (codes "F1") plan (fresh 0) drafted
      (
        0,
        0,
        refl,
        refl,
        (
          1,
          300,
          refl,
          refl,
          (2, 60, refl, refl, (2, 0, refl, refl, (3, 0, refl, refl, omega arith))),
        ),
      )
      planned

commitments-Owed_example :
    (targets : List Target) × ((recipients desk
        (ok team)
        first_page
        (commitments desk (ok team) (codes "F1") plan (fresh 0)).0).1
      ≡ ok targets)
    × ((target : Target) → Memᴰ target targets → Some (IsTo first_page target) drafted.planned)
commitments-Owed_example =
    commitments-Owed desk (ok team) (codes "F1") plan (fresh 0) drafted first_page planned
      (Memᴰ.head refl) is_delivered

commitments-recorded_example :
    ((recipients desk
        (ok team)
        first_page
        (commitments desk (ok team) (codes "F1") plan (fresh 0)).0).1
      ≡ ok (map user_target (alice ∷ bob ∷ [])))
    × ((target : Target)
        → Memᴰ target (map user_target (alice ∷ bob ∷ []))
        → Some (IsTo first_page target) drafted.planned)
commitments-recorded_example =
    commitments-recorded desk desk-AnswersAsked team (codes "F1") plan 0 drafted first_page
      recorded_duty (λ same. cc) planned duty_recorded (Memᴰ.head refl) is_delivered refl

users_for-Settles_example : Settles desk (users_for desk (ok team) (codes "s2")) (fresh 0)
users_for-Settles_example = users_for-Settles desk (ok team) (codes "s2") (fresh 0)

abbrev zeros : ℕ → Bytes
zeros zero = []
zeros (suc n) = 0 ∷ zeros n

zeros-IsByte : (n : ℕ) → All IsByte (zeros n)
zeros-IsByte zero = tt
zeros-IsByte (suc n) = (omega arith, zeros-IsByte n)

-- A digest that tells texts of different lengths apart.
abbrev by_length : Sha256
by_length = record {
  sum = λ m. (length m % 256) ∷ zeros 31;
  size = λ m. refl;
  bytes = λ m. (omega arith, zeros-IsByte 31);
}

abbrev state : RenderSnapshot
state = record { alert_group_id = codes "g1"; revision = pos 0; digest = zeros 32; schema = pos 2 }

abbrev freeze_state : ℕ → AlertGroup → Bool → ℕ × Result Bytes RenderSnapshot
freeze_state w ag alone = (w, ok state)

abbrev front : Team
front = record {
  id = codes "t1";
  name = codes "front";
  default_policy_id = codes "p1";
  severity_routes = λ severity. none;
}

-- The desk with a team and its policy
abbrev office : Services ℕ
office = record desk { get_policy = λ w id. (w, ok plan); get_team = λ w id. (w, ok (some front)) }

abbrev channels : FirehoseChannels
channels = record { critical = codes "F1"; warning = []; info = [] }

abbrev fire : AlertGroup
fire = record {
  id = codes "g1";
  team_id = codes "t1";
  severity = codes "critical";
  render_source_version = 1;
}

escalation_batch-IsFirst : IsFirst (escalation_batch state (commitments_of drafted.planned))
escalation_batch-IsFirst = record {
  kind = refl;
  grammar = refl;
  no_request = refl;
  protocol = refl;
  has_group = refl;
  revision = refl;
  digest = refl;
  schema = refl;
}

build_plan_made_example :
    ((b : Batch) × ((build_plan by_length office freeze_state channels fire (ok team) (fresh 0)).1
        ≡ ok b)
      × Perm (promised b.admission.commitments) (commitments_of drafted.planned)
      × (b.unpromised ≡ drafted.unpromised))
    ⊎ Clashes by_length
        (escalation_batch state (commitments_of drafted.planned))
        escalation_batch-IsFirst
        (commitments_of drafted.planned)
unfolding commitments start_draft plan_step recipients delivers_through commit_step promise_to
    slot_target step_card promise call_of block satellites_of describe_step users_for hydrate people
    team_for policy_for route onboarded firehose_channel
build_plan_made_example =
    build_plan_made by_length office freeze_state channels fire (ok team) (fresh 0) (fresh 0)
      (fresh 0) (commitments office (ok team) (codes "F1") plan (fresh 0)).0 0
      (record { team = some front; unnamed = false }) plan state drafted refl refl refl refl
      escalation_batch-IsFirst
      (
        0,
        0,
        refl,
        refl,
        (
          1,
          300,
          refl,
          refl,
          (2, 60, refl, refl, (2, 0, refl, refl, (3, 0, refl, refl, omega arith))),
        ),
      )
      (ground arith)

-- Nobody can say who is on duty for the team.
abbrev silent : ℕ → Bytes → ℕ × TeamOnCallResult
silent w id = (w, err (ProjectionError.unread []))

process_group_unreadable_example :
    (u : Unavailable) × (w : ℕ) × ((submit : ℕ → Batch → ℕ × Result Bytes SubmitOutcome)
      → process_group by_length office freeze_state channels silent submit 0 fire ≡ (w, deferred u))
unfolding team_for policy_for route onboarded
process_group_unreadable_example =
    process_group_unreadable by_length office freeze_state channels fire silent
      (ProjectionError.unread []) 0 0 0 0 0 (record { team = some front; unnamed = false }) plan
      state first_page refl refl refl refl (Memᴰ.head refl) is_delivered refl
