-- ===== src/Outbound/Intent.antt =====
-- internal/outbound/intent.go, and the closed sets of internal/outbound/keys that it names.
--
-- Of `Intent`, the frozen payload, its digest and the receipt's coordinates are left out: they are
-- bytes that no function modelled here reads. A revision (int64) and a time (nanoseconds) is a ℕ.
use tokayops.Prelude.{String, ℕ, Bool, true, false, not, Option, List, str_eq}
use tokayops.Outbound.Kinds.{Kind}

pub data Outcome : Type 0 where
  accepted retryable_rejection permanent_rejection ambiguous canceled : Outcome
  unlisted : String → Outcome

pub data AmbiguityPolicy : Type 0 where
  retry reconcile_then_retry manual_review assume_accepted : AmbiguityPolicy
  unlisted : String → AmbiguityPolicy

pub data CompletionMode : Type 0 where
  on_acceptance on_provider_receipt : CompletionMode
  unlisted : String → CompletionMode

pub data TargetKind : Type 0 where
  channel user subscriber thread thread_reply : TargetKind
  unlisted : String → TargetKind

pub data Status : Type 0 where
  pending sending idle manual_review awaiting_receipt : Status
  succeeded permanent_failed expired no_contact canceled : Status
  unlisted : String → Status

-- `Status.Terminal`
unfoldable pub terminal : Status → Bool
terminal Status.succeeded = true
terminal Status.permanent_failed = true
terminal Status.expired = true
terminal Status.canceled = true
terminal Status.no_contact = true
terminal _ = false

pub data Form : Type 0 where
  one_shot editable : Form
  unlisted : String → Form

pub data AttemptKind : Type 0 where
  create mutation reconcile : AttemptKind
  unlisted : String → AttemptKind

pub data Proof : Type 0 where
  accepted provider_confirmed assumed : Proof
  unlisted : String → Proof

pub data PreparationOutcome : Type 0 where
  ready permanent no_contact transient : PreparationOutcome
  unlisted : String → PreparationOutcome

-- The tests `==` of the code against one constant.
abbrev pub is_pending : Status → Bool
is_pending Status.pending = true
is_pending _ = false

abbrev pub is_sending : Status → Bool
is_sending Status.sending = true
is_sending _ = false

abbrev pub is_manual_review : Status → Bool
is_manual_review Status.manual_review = true
is_manual_review _ = false

abbrev pub is_permanent_failed : Status → Bool
is_permanent_failed Status.permanent_failed = true
is_permanent_failed _ = false

abbrev pub is_expired : Status → Bool
is_expired Status.expired = true
is_expired _ = false

abbrev pub is_one_shot : Form → Bool
is_one_shot Form.one_shot = true
is_one_shot _ = false

abbrev pub is_on_provider_receipt : CompletionMode → Bool
is_on_provider_receipt CompletionMode.on_provider_receipt = true
is_on_provider_receipt _ = false

abbrev pub is_accepted : Outcome → Bool
is_accepted Outcome.accepted = true
is_accepted _ = false

abbrev pub is_create : AttemptKind → Bool
is_create AttemptKind.create = true
is_create _ = false

-- What a satellite knows about the card it follows.
pub record ParentState : Type 0 where
  pub id : String
  pub status : Status
  pub receipt_recorded : Bool
  pub receipt_ref : String

pub record Intent : Type 0 where
  pub id : String
  pub batch_id : String
  pub alert_group_id : String
  pub family : String
  pub key_kind : Kind
  pub provider : String
  pub target_kind : TargetKind
  pub target_ref : String
  pub form : Form
  pub completion_mode : CompletionMode
  pub ambiguity_policy : AmbiguityPolicy
  pub status : Status
  pub generation_no : ℕ
  pub attempts_in_generation : ℕ
  pub failure_streak : ℕ
  pub bound_endpoint : String
  pub generation_bound : Bool
  pub desired_revision : ℕ
  pub applied_revision : Option ℕ
  pub final_revision_applied : Bool
  pub has_receipt : Bool
  pub recipient_erased : Bool
  pub cancellation_requested : Bool
  pub accepted_duplicate_risk : Bool
  pub obligation_withdrawn : Bool
  pub not_before : ℕ
  pub next_attempt_at : ℕ
  pub expires_at : Option ℕ
  pub created_at : ℕ
  pub updated_at : ℕ
  pub parent_id : String
  pub parent : Option ParentState
  pub awaits_intent_ids : List String

-- `ParentState.Ended`
unfoldable pub ended : ParentState → Bool
unfolding terminal
ended p = terminal p.status

-- `Intent.GroupBound`
unfoldable pub group_bound : Intent → Bool
group_bound i = not (str_eq i.alert_group_id "")

abbrev pub is_satellite : TargetKind → Bool
is_satellite TargetKind.thread = true
is_satellite TargetKind.thread_reply = true
is_satellite _ = false

-- `Intent.Satellite`
unfoldable pub satellite : Intent → Bool
satellite i = is_satellite i.target_kind
