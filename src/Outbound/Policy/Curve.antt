-- ===== src/Outbound/Policy/Curve.antt =====
-- The numbers of internal/outbound/policy.go fit each other, and the wait after a failure grows.
use native.Mathlib.Nat.{pow-succ'}
use tokayops.Prelude.{
  String, ℕ, zero, suc, ◌+◌, ◌-◌, ◌*◌, ◌^◌, ◌≤◌, ◌<◌, ◌≡◌, ltb, min, ok, eq_iff, if◌then◌else◌,
  arith,
}
use tokayops.Outbound.Policy.{
  Policy, seconds, policy_of, outbound_lock_timeout, clamped, raw_backoff, backoff_streak_cap,
}

-- What one commitment takes from the claim to the record of its answer.
abbrev pub chain : Policy → ℕ
chain p = p.prepare_deadline + p.record_deadline + p.attempt_deadline + p.record_deadline

-- The numbers of every family fit each other: the chain of one commitment ends within its lease and
-- before a stopping worker leaves; an attempt has room for the read of the configuration and for the
-- longest timeout of a subscriber; a wait for a lock ends before the call that waits is cut off; and
-- there is a slot.
pub policy_of-fits :
    (family : String) (p : Policy)
    → policy_of family ≡ ok p
    → (p.family ≡ family)
      × (chain p < p.lease)
      × (chain p < p.shutdown_deadline)
      × (p.config_read_budget + p.max_subscriber_timeout < p.attempt_deadline)
      × (outbound_lock_timeout < p.record_deadline)
      × (0 < p.pool_size)
unfolding policy_of
policy_of-fits family p h =
    let notification = eq_iff family "notification" in
    let handoff = eq_iff family "handoff" in let webhook = eq_iff family "webhook" in ground arith

clamped_stay : (streak : ℕ) → 1 ≤ streak → streak ≤ backoff_streak_cap → clamped streak ≡ streak
clamped_stay streak first last = ground arith

doubled :
    (cap low high : ℕ)
    → high ≡ 2 * low
    → (if ltb cap high then cap else high) ≡ min cap (2 * (if ltb cap low then cap else low))
doubled cap low high h = ground arith

-- Each failure doubles the wait, until it reaches the family's ceiling; the first is waited for two
-- seconds.
pub raw_backoff-doubles :
    (cap : ℕ)
    → (raw_backoff cap 1 ≡ min cap (seconds 2))
      × ((streak : ℕ)
          → 1 ≤ streak
          → streak < backoff_streak_cap
          → raw_backoff cap (suc streak) ≡ min cap (2 * raw_backoff cap streak))
unfolding raw_backoff
raw_backoff-doubles cap = (ground arith, go)
  where
    go :
        (streak : ℕ)
        → 1 ≤ streak
        → streak < backoff_streak_cap
        → raw_backoff cap (suc streak) ≡ min cap (2 * raw_backoff cap streak)
    go zero first last = absurd (omega arith)
    go (suc n) first last =
        let here = clamped_stay (suc n) (omega arith) (omega arith) in
        let next = clamped_stay (suc (suc n)) (omega arith) (omega arith) in
        let power = pow-succ' 2 n in
        let up : suc (suc n) - 1 ≡ suc n = omega arith in
        let low : suc n - 1 ≡ n = omega arith in
        let twice : seconds 2 * 2 ^ (suc (suc n) - 1) ≡ 2 * (seconds 2 * 2 ^ (suc n - 1)) =
          rw (up, low) (omega (arith, power)) in
        rw (here, next) (doubled cap _ _ twice)
