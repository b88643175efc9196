-- ===== src/Outbound/Policy.antt =====
-- internal/outbound/policy.go, and the lanes of internal/outbound/series.go: the numbers that a family
-- of deliveries is executed under. Durations are nanoseconds.
--
-- Of the wait after a failure the curve is modelled, up to the family's ceiling; the jitter of a fifth,
-- which the code adds in floating point, is not.
pub mod Curve
mod Examples
use tokayops.Prelude.{
  String, ℕ, ◌+◌, ◌-◌, ◌*◌, ◌^◌, ◌&&◌, not, ltb, List, [], ◌∷◌, Option, none, some, Result, ok, err,
  str_eq, if◌then◌else◌,
}

abbrev pub seconds : ℕ → ℕ
seconds n = n * 1_000_000_000

abbrev pub minutes : ℕ → ℕ
minutes n = seconds (60 * n)

pub data PolicyError : Type 0 where
  unknown_family : String → PolicyError
  unknown_lane : String → String → PolicyError

pub record Policy : Type 0 where
  pub family : String
  pub lease : ℕ
  pub attempt_deadline : ℕ
  pub pool_size : ℕ
  pub claim_interval : ℕ
  pub prepare_deadline : ℕ
  pub record_deadline : ℕ
  pub shutdown_deadline : ℕ
  pub config_read_budget : ℕ
  pub max_subscriber_timeout : ℕ
  pub expiry : ℕ
  pub backoff_cap : ℕ

abbrev pub prepare_deadline_of_all : ℕ
prepare_deadline_of_all = seconds 5

abbrev pub record_deadline_of_all : ℕ
record_deadline_of_all = seconds 10

-- The deadlines of what one commitment can take, and ten seconds more.
abbrev pub shutdown_after : ℕ → ℕ
shutdown_after attempt =
    prepare_deadline_of_all + record_deadline_of_all + attempt + record_deadline_of_all + seconds 10

abbrev pub notification_policy : Policy
notification_policy = record {
  family = "notification";
  lease = seconds 90;
  attempt_deadline = seconds 25;
  pool_size = 8;
  claim_interval = seconds 1;
  prepare_deadline = prepare_deadline_of_all;
  record_deadline = record_deadline_of_all;
  shutdown_deadline = shutdown_after (seconds 25);
  config_read_budget = 0;
  max_subscriber_timeout = 0;
  expiry = 0;
  backoff_cap = minutes 5;
}

abbrev pub handoff_policy : Policy
handoff_policy = record {
  family = "handoff";
  lease = seconds 90;
  attempt_deadline = seconds 25;
  pool_size = 2;
  claim_interval = seconds 5;
  prepare_deadline = prepare_deadline_of_all;
  record_deadline = record_deadline_of_all;
  shutdown_deadline = shutdown_after (seconds 25);
  config_read_budget = 0;
  max_subscriber_timeout = 0;
  expiry = 0;
  backoff_cap = minutes 5;
}

-- The read of the configuration, the longest timeout of a subscriber, and three seconds.
abbrev pub webhook_attempt_deadline : ℕ
webhook_attempt_deadline = seconds 2 + seconds 30 + seconds 3

abbrev pub webhook_policy : Policy
webhook_policy = record {
  family = "webhook";
  lease = seconds 120;
  attempt_deadline = webhook_attempt_deadline;
  pool_size = 8;
  claim_interval = seconds 2;
  prepare_deadline = prepare_deadline_of_all;
  record_deadline = record_deadline_of_all;
  shutdown_deadline = shutdown_after webhook_attempt_deadline;
  config_read_budget = seconds 2;
  max_subscriber_timeout = seconds 30;
  expiry = minutes (24 * 60);
  backoff_cap = minutes 30;
}

-- `PolicyOf`
unfoldable pub policy_of : String → Result PolicyError Policy
policy_of family =
    if str_eq family "notification"
    then ok notification_policy
    else if str_eq family "handoff"
    then ok handoff_policy
    else if str_eq family "webhook"
    then ok webhook_policy
    else err (unknown_family family)

-- `OutboundLockTimeout`
abbrev pub outbound_lock_timeout : ℕ
outbound_lock_timeout = seconds 3

-- `ReceiptPolicy`, and `ReceiptPolicyOf`
pub record ReceiptPolicy : Type 0 where
  pub first_wait : ℕ
  pub poll_interval : ℕ
  pub deadline : ℕ
  pub poll_deadline : ℕ

unfoldable pub receipt_policy_of : String → Option ReceiptPolicy
receipt_policy_of provider =
    if not (str_eq provider "phone")
    then none
    else some (record {
      first_wait = seconds 90;
      poll_interval = seconds 30;
      deadline = minutes 10;
      poll_deadline = seconds 10;
    })

unfoldable pub retry_floor_of : String → ℕ
retry_floor_of provider = if str_eq provider "phone" then minutes 1 else 0

pub record Lane : Type 0 where
  pub family : String
  pub lane : String

abbrev pub lanes : List Lane
lanes =
    record { family = "notification"; lane = "default" }
    ∷ record { family = "notification"; lane = "phone" }
    ∷ record { family = "handoff"; lane = "default" }
    ∷ record { family = "webhook"; lane = "default" }
    ∷ []

abbrev pool_among : List Lane → String → String → Policy → Result PolicyError ℕ
pool_among [] family lane policy = err (unknown_lane family lane)
pool_among (known ∷ rest) family lane policy =
    let later = pool_among rest family lane policy in
    if not (str_eq known.family family && str_eq known.lane lane)
    then later
    else if str_eq lane "phone"
    then ok 4
    else ok policy.pool_size

-- `lanePool`
unfoldable pub lane_pool : String → String → Policy → Result PolicyError ℕ
lane_pool family lane policy = pool_among lanes family lane policy

-- `backoffStreakCap`
abbrev pub backoff_streak_cap : ℕ
backoff_streak_cap = 24

abbrev clamped : ℕ → ℕ
clamped streak =
    if ltb streak 1 then 1 else if ltb backoff_streak_cap streak then backoff_streak_cap else streak

-- `raw` of `backoffWith`: two seconds, doubled with each failure, up to the ceiling.
unfoldable pub raw_backoff : ℕ → ℕ → ℕ
raw_backoff cap streak =
    let raw = seconds 2 * 2 ^ (clamped streak - 1) in if ltb cap raw then cap else raw
