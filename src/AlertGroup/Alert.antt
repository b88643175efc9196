-- ===== src/AlertGroup/Alert.antt =====
-- internal/model/types.go: an alert, and what it is doing.
--
-- A time is a ℕ (nanoseconds); an absent map entry of labels or annotations is an absent pair.
use tokayops.Prelude.{String, ℕ, Bool, true, false, Option, none, some, List}

pub data AlertStatus : Type 0 where
  firing resolved : AlertStatus
  unlisted : String → AlertStatus

pub record Alert : Type 0 where
  pub fingerprint : String
  pub status : AlertStatus
  pub labels : List (String × String)
  pub annotations : List (String × String)
  pub starts_at : ℕ
  pub ends_at : ℕ
  pub generator_url : String
  pub stale_since : Option ℕ

pub data AlertState : Type 0 where
  firing stale resolved : AlertState

abbrev pub is_firing : AlertStatus → Bool
is_firing AlertStatus.firing = true
is_firing _ = false

abbrev pub state_of : AlertStatus → Option ℕ → AlertState
state_of AlertStatus.firing (some t) = AlertState.stale
state_of AlertStatus.firing none = AlertState.firing
state_of _ since = AlertState.resolved

-- `Alert.State`
unfoldable pub state : Alert → AlertState
state a = state_of a.status a.stale_since
