-- ===== src/Outbound/Retention/Examples.antt =====
-- A pass of internal/outbound/retention.go over a store that counts its leaves and its cards.
use tokayops.Prelude.{
  ℕ, ◌+◌, ◌-◌, ◌≤◌, ◌⊎◌, ◌*◌, ◌^◌, ◌<◌, ◌≡◌, refl, false, ltb, if◌then◌else◌, pos, codes, ok, err,
  arith,
}
use tokayops.Outbound.Retention.{
  day, atoi, parse_retention_window, no_counts, add_counts, SweepAnswer, swept, pass_swept,
  window_too_long, Retention, new_retention, chunks, pass,
}
use tokayops.Outbound.Retention.Pass.{
  parse_retention_window-new, IsSweep, EndsShort, is_failed, pass_accounted,
}

abbrev removed : ℕ → ℕ → ℕ
removed held chunk = if ltb held chunk then held else chunk

-- The leaves go first, and the cards above them stay for a later pass.
abbrev leaves_first : ℕ × ℕ → ℕ → ℕ → (ℕ × ℕ) × SweepAnswer
leaves_first (leaves, cards) cutoff chunk = (
  (leaves - removed leaves chunk, cards),
  swept (record no_counts { intents = removed leaves chunk }),
)

abbrev kept : ℕ → ℕ × ℕ → ℕ
kept cutoff (leaves, cards) = leaves + cards

leaves_first-IsSweep : IsSweep kept leaves_first
leaves_first-IsSweep = record {
  removes = λ s cutoff chunk deleted h. ground arith;
  leaves = λ s cutoff chunk h. ground arith;
  adds_nothing = λ s cutoff chunk h. ground arith;
}

abbrev small : Retention
small = record { window = 5; chunk = 10; max_chunks = 3 }

pass_accounted_example :
    let ran = pass (λ s. false) leaves_first small 100 (25, 4) in
    (kept 95 ran.0 + ran.2.intents ≤ 29)
    × (is_failed ran.1 ≡ false → 29 ≡ kept 95 ran.0 + ran.2.intents)
    × (ran.1 ≡ pass_swept
        → EndsShort leaves_first 95 10 ran.0 ⊎ (30 ≤ ran.2.intents + ran.2.outbox))
pass_accounted_example =
    pass_accounted (λ s. false) leaves_first kept leaves_first-IsSweep small 100 (25, 4)

three_chunks : (pass (λ s. false) leaves_first small 100 (25, 4)).2.intents ≡ 25
unfolding pass chunks add_counts
three_chunks = refl

parse_retention_window-new_example :
    (r : Retention) × (new_retention (pos 90) ≡ ok r) × (r.window ≡ 90 * day) × (r.window < 2 ^ 63)
unfolding parse_retention_window atoi
parse_retention_window-new_example = parse_retention_window-new (codes "90") 90 refl (omega arith)

too_long : parse_retention_window (codes "106752") ≡ err (window_too_long 106752)
unfolding parse_retention_window atoi
too_long = refl
