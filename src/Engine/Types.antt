-- ===== src/Engine/Types.antt =====
-- What internal/engine/plan.go reads and writes: records of internal/model and
-- internal/schedulerender, the services that a plan asks, and the state that one plan keeps.
--
-- Texts are bytes. `World` is the state of all that the services stand on: a read may change it, and
-- whatever others do between two reads is part of it.
use tokayops.Prelude.{
  ℕ, Bool, ◌+◌, ◌-◌, ◌*◌, ◌%◌, ◌^◌, ltb, if◌then◌else◌, Option, none, some, List, ℤ, pos, negsuc,
  Bytes, bytes_eq, Result, ok, err,
}
use tokayops.Outbound.Keys.Material.{AdmitError}
use tokayops.Outbound.Keys.Codec.{uint64}

pub record User : Type 0 where
  pub id : Bytes
  pub email : Bytes
  pub name : Bytes

pub record Team : Type 0 where
  pub id : Bytes
  pub name : Bytes
  pub default_policy_id : Bytes
  pub severity_routes : Bytes → Option Bytes

pub record EscalationStep : Type 0 where
  pub step_index : ℤ
  pub provider : Bytes
  pub target_kind : Bytes
  pub target_type : Bytes
  pub target_id : Bytes
  pub delay_seconds : ℤ
  pub message : Bytes
  pub continue_on_failure : Bool

pub record EscalationPolicy : Type 0 where
  pub id : Bytes
  pub name : Bytes
  pub steps : List (Option EscalationStep)

-- Of a layer, what a plan reads.
pub record LayerOnCall : Type 0 where
  pub user_ids : List Bytes
  pub assignment_start : ℕ
  pub assignment_end : ℕ
  pub source : Bytes

pub record OnCall : Type 0 where
  pub l1 : Option LayerOnCall
  pub l2 : Option LayerOnCall

pub record TeamOnCall : Type 0 where
  pub schedule_id : Bytes
  pub on_call : OnCall

-- `ProjectionFailureReason`
pub data FailureReason : Type 0 where
  snapshot_decode revision_metadata revision_gap revision_overlap override_collision rotation :
      FailureReason

-- An error of the projection: one that wraps a sentinel of damaged data, or any other.
pub data ProjectionError : Type 0 where
  snapshot_decode revision_metadata_decode revision_gap revision_overlap override_collision
        rotation :
      ProjectionError
  unread : Bytes → ProjectionError

unfoldable pub failure_reason_of : ProjectionError → Option FailureReason
failure_reason_of ProjectionError.snapshot_decode = some FailureReason.snapshot_decode
failure_reason_of ProjectionError.revision_metadata_decode = some FailureReason.revision_metadata
failure_reason_of ProjectionError.revision_gap = some FailureReason.revision_gap
failure_reason_of ProjectionError.revision_overlap = some FailureReason.revision_overlap
failure_reason_of ProjectionError.override_collision = some FailureReason.override_collision
failure_reason_of ProjectionError.rotation = some FailureReason.rotation
failure_reason_of (ProjectionError.unread s) = none

-- `TeamOnCallResult`: what the projection said of the team, its error included.
abbrev pub TeamOnCallResult : Type 0
TeamOnCallResult = Result ProjectionError TeamOnCall

pub data StoreError : Type 0 where
  no_rows : StoreError
  failure : Bytes → StoreError

-- What could not be established about whom to page.
pub data Unavailable : Type 0 where
  team policy users : StoreError → Unavailable
  team_on_call schedule : ProjectionError → Unavailable

-- `unavailable` is an error that wraps `ErrOnCallResolutionUnavailable`.
pub data PlanError : Type 0 where
  unavailable : Unavailable → PlanError
  not_frozen : Bytes → PlanError
  not_admitted : AdmitError → PlanError

-- A Go map under text keys that is read and written, never iterated.
abbrev pub Table : Type 0 → Type 0
Table Value = Bytes → Option Value

abbrev pub put : {Value : Type 0} → Bytes → Value → Table Value → Table Value
put key value table asked = if bytes_eq asked key then some value else table asked

-- `planStore` and `onCallProjection`, but for what freezing the state reads.
pub record Services (World : Type 0) : Type 0 where
  pub get_policy : World → Bytes → World × Result StoreError (Option EscalationPolicy)
  pub get_users : World → List Bytes → World × Result StoreError (List User)
  pub get_team : World → Bytes → World × Result StoreError (Option Team)
  pub current_on_call : World → Bytes → World × Result ProjectionError OnCall

-- What one plan remembers: `roster.known`, and `teamUsers` and `byID` of the resolver.
pub record Reading (World : Type 0) : Type 0 where
  pub world : World
  pub known : Table (Option User)
  pub team_users : Option (Result PlanError (List User))
  pub by_id : Table (Result PlanError (List User))

-- A computation that reads, remembers, and may fail.
abbrev pub Plan : Type 0 → Type 0 → Type 0
Plan World A = Reading World → Reading World × Result PlanError A

abbrev pub go_on :
    {World A B : Type 0}
    → (A → Plan World B)
    → Reading World × Result PlanError A
    → Reading World × Result PlanError B
go_on f (s, ok a) = f a s
go_on f (s, err e) = (s, err e)

infixl 5 ◌>>=◌
abbrev pub ◌>>=◌ : {World A B : Type 0} → Plan World A → (A → Plan World B) → Plan World B
◌>>=◌ m f s = go_on f (m s)

abbrev pub pure : {World A : Type 0} → A → Plan World A
pure a s = (s, ok a)

-- An int64 from its two's complement.
abbrev pub signed : ℕ → ℤ
signed n = if ltb n (2 ^ 63) then pos n else negsuc (2 ^ 64 - 1 - n)

-- `+` and `*` on int64, which wrap around.
unfoldable pub add_int64 : ℤ → ℤ → ℤ
add_int64 a b = signed ((uint64 a + uint64 b) % 2 ^ 64)

unfoldable pub mul_int64 : ℤ → ℤ → ℤ
mul_int64 a b = signed (uint64 a * uint64 b % 2 ^ 64)
