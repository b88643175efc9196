-- ===== src/Outbound/Retention.antt =====
-- internal/outbound/retention.go: the term of the history of finished deliveries.
--
-- The store's command is a parameter: it takes the store's state to the next, and answers. Durations
-- are nanoseconds, an int64 in Go. Whether the
-- context has ended is asked of the state as well.
pub mod Pass
mod Examples
use tokayops.Prelude.{
  ℕ, zero, suc, ◌+◌, ◌-◌, ◌*◌, ◌/◌, ◌^◌, Bool, true, false, ◌&&◌, ltb, leb, if◌then◌else◌, [], ◌∷◌,
  Option, none, some, ℤ, pos, negsuc, Bytes, is_blank, Result, ok, err, ◌>>=◌, ◌>>◌, refuse_if,
}

-- `time.Hour` times 24
abbrev pub day : ℕ
day = 86_400_000_000_000

abbrev pub retention_default_days : ℕ
retention_default_days = 30

abbrev pub retention_chunk : ℕ
retention_chunk = 1000

abbrev pub retention_max_chunks : ℕ
retention_max_chunks = 100

-- `int(math.MaxInt64 / int64(24*time.Hour))`
abbrev pub retention_max_days : ℕ
retention_max_days = (2 ^ 63 - 1) / day

pub data RetentionError : Type 0 where
  not_a_number : Bytes → RetentionError
  negative_window : ℤ → RetentionError
  window_too_long window_too_short : ℕ → RetentionError

abbrev is_digit : ℕ → Bool
is_digit b = leb b'0' b && leb b b'9'

abbrev digits_from : ℕ → Bytes → Option ℕ
digits_from n [] = some n
digits_from n (b ∷ s) =
    let rest = digits_from (n * 10 + (b - b'0')) s in if is_digit b then rest else none

abbrev number : Bytes → Option ℕ
number [] = none
number (b ∷ s) = digits_from 0 (b ∷ s)

abbrev below : Option ℕ → Option ℤ
below none = none
below (some n) = if leb n (2 ^ 63 - 1) then some (pos n) else none

abbrev below_zero : Option ℕ → Option ℤ
below_zero (some (suc n)) = if leb n (2 ^ 63 - 1) then some (negsuc n) else none
below_zero (some zero) = some (pos 0)
below_zero none = none

-- `strconv.Atoi`: a sign, digits, and no number beyond an int.
unfoldable pub atoi : Bytes → Option ℤ
atoi [] = none
atoi (b ∷ s) =
    if leb b b'-' && leb b'-' b
    then below_zero (number s)
    else if leb b b'+' && leb b'+' b
    then below (number s)
    else below (number (b ∷ s))

abbrev in_window : Bytes → Option ℤ → Result RetentionError ℕ
in_window value none = err (not_a_number value)
in_window value (some (negsuc n)) = err (negative_window (negsuc n))
in_window value (some (pos days)) =
    refuse_if (ltb retention_max_days days) (window_too_long days) >> ok days

-- `ParseRetentionWindow`
unfoldable pub parse_retention_window : Bytes → Result RetentionError ℕ
parse_retention_window value =
    if is_blank value then ok retention_default_days else in_window value (atoi value)

pub record SweepCounts : Type 0 where
  pub intents : ℕ
  pub attempts : ℕ
  pub observations : ℕ
  pub events : ℕ
  pub outbox : ℕ
  pub effects : ℕ
  pub provider_events : ℕ

-- `SweepCounts.Add`
unfoldable pub add_counts : SweepCounts → SweepCounts → SweepCounts
add_counts c other = record {
  intents = c.intents + other.intents;
  attempts = c.attempts + other.attempts;
  observations = c.observations + other.observations;
  events = c.events + other.events;
  outbox = c.outbox + other.outbox;
  effects = c.effects + other.effects;
  provider_events = c.provider_events + other.provider_events;
}

abbrev pub no_counts : SweepCounts
no_counts = record {
  intents = 0;
  attempts = 0;
  observations = 0;
  events = 0;
  outbox = 0;
  effects = 0;
  provider_events = 0;
}

-- The answer of one chunk: its error, or `SweepResult`.
pub data SweepAnswer : Type 0 where
  sweep_failed busy : SweepAnswer
  swept : SweepCounts → SweepAnswer

pub data PassOutcome : Type 0 where
  pass_swept pass_busy pass_failed : PassOutcome

pub record Retention : Type 0 where
  pub window : ℕ
  pub chunk : ℕ
  pub max_chunks : ℕ

-- `NewRetention`
unfoldable pub new_retention : ℤ → Result RetentionError Retention
new_retention (negsuc n) = err (window_too_short 0)
new_retention (pos days) = do
  refuse_if (leb days 0) (window_too_short days)
  refuse_if (ltb retention_max_days days) (window_too_long days)
  ok (record { window = days * day; chunk = retention_chunk; max_chunks = retention_max_chunks })

module _ {State : Type 0} (ended : State → Bool) (sweep : State → ℕ → ℕ → State × SweepAnswer) where
  -- The loop of `Pass`, with the chunks that are left.
  unfoldable pub chunks : ℕ → ℕ → ℕ → State → SweepCounts → State × PassOutcome × SweepCounts
  chunks zero cutoff chunk state total = (state, pass_swept, total)
  chunks (suc left) cutoff chunk state total =
      let answered = sweep state cutoff chunk in
      elim (ended state) [
        | true ↦ (state, pass_failed, total)
        | false ↦ elim answered.1 [
          | sweep_failed ↦ (answered.0, pass_failed, total)
          | busy ↦ (answered.0, pass_busy, total)
          | swept deleted ↦ elim (ltb deleted.intents chunk && ltb deleted.outbox chunk) [
            | true ↦ (answered.0, pass_swept, add_counts total deleted)
            | false ↦ chunks left cutoff chunk answered.0 (add_counts total deleted)
          ]
        ]
      ]

  -- `Pass`, started at an instant.
  unfoldable pub pass : Retention → ℕ → State → State × PassOutcome × SweepCounts
  pass r started state = chunks r.max_chunks (started - r.window) r.chunk state no_counts
