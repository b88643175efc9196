-- ===== src/Outbound/Policy/Examples.antt =====
-- Policies at concrete values (internal/outbound/policy.go).
use tokayops.Prelude.{◌+◌, ◌<◌, ◌≡◌, refl, ok, err}
use tokayops.Outbound.Policy.{
  seconds, minutes, policy_of, webhook_policy, outbound_lock_timeout, raw_backoff, lane_pool,
  retry_floor_of, unknown_lane,
}
use tokayops.Outbound.Policy.Curve.{chain, policy_of-fits}

webhook_numbers :
    (webhook_policy.family ≡ "webhook")
    × (chain webhook_policy < webhook_policy.lease)
    × (chain webhook_policy < webhook_policy.shutdown_deadline)
    × (webhook_policy.config_read_budget + webhook_policy.max_subscriber_timeout
        < webhook_policy.attempt_deadline)
    × (outbound_lock_timeout < webhook_policy.record_deadline)
    × (0 < webhook_policy.pool_size)
unfolding policy_of
webhook_numbers = policy_of-fits "webhook" webhook_policy refl

eighth_failure : raw_backoff (minutes 5) 8 ≡ seconds 256
unfolding raw_backoff
eighth_failure = refl

ninth_failure : raw_backoff (minutes 5) 9 ≡ minutes 5
unfolding raw_backoff
ninth_failure = refl

hundredth_failure : raw_backoff (minutes 30) 100 ≡ minutes 30
unfolding raw_backoff
hundredth_failure = refl

calls_have_their_own_lane : lane_pool "notification" "phone" webhook_policy ≡ ok 4
unfolding lane_pool
calls_have_their_own_lane = refl

no_other_lane : lane_pool "webhook" "phone" webhook_policy ≡ err (unknown_lane "webhook" "phone")
unfolding lane_pool
no_other_lane = refl

calls_wait_a_minute : retry_floor_of "phone" ≡ minutes 1
unfolding retry_floor_of
calls_wait_a_minute = refl
