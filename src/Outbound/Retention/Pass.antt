-- ===== src/Outbound/Retention/Pass.antt =====
-- What a pass of internal/outbound/retention.go removes, and how long its window may be.
use tokayops.Prelude.{
  ℕ, zero, suc, ◌+◌, ◌-◌, ◌*◌, ◌^◌, ◌≤◌, ◌<◌, ◌≡◌, refl, subst, ◌⊎◌, inl, inr, Bool, false, ◌&&◌,
  ltb, true, Bool-cases, ℤ, pos, negsuc, Option, some, none, Bytes, ok, arith,
}
use tokayops.Outbound.Retention.{
  day, retention_max_days, retention_chunk, retention_max_chunks, in_window, atoi,
  parse_retention_window, SweepCounts, add_counts, no_counts, SweepAnswer, sweep_failed, busy,
  swept, PassOutcome, pass_swept, pass_failed, Retention, new_retention, chunks, pass,
}

in_window-ok :
    (value : Bytes) (number : Option ℤ) (days : ℕ)
    → in_window value number ≡ ok days
    → days ≤ retention_max_days
in_window-ok value none days h = ground arith
in_window-ok value (some (pos n)) days h = ground arith
in_window-ok value (some (negsuc n)) days h = ground arith

-- A window that is read, and is not off, makes a loop, and its length in nanoseconds is an int64: the
-- cutoff never wraps into the future.
pub parse_retention_window-new :
    (value : Bytes) (days : ℕ)
    → parse_retention_window value ≡ ok days
    → 0 < days
    → (r : Retention) × (new_retention (pos days) ≡ ok r)
      × (r.window ≡ days * day)
      × (r.window < 2 ^ 63)
unfolding parse_retention_window new_retention
parse_retention_window-new value days h some_days =
    let read = in_window-ok value (atoi value) days in
    let bound : days ≤ retention_max_days = ground (arith, read) in
    (
      record { window = days * day; chunk = retention_chunk; max_chunks = retention_max_chunks },
      ground arith,
      refl,
      omega (arith, bound),
    )

-- What the store promises of one chunk, `held` counting the commitments before a cutoff: a chunk removes
-- what it says, one that finds another instance at work changes nothing, and one that fails - which a
-- commit whose answer was lost may do - adds nothing.
pub record IsSweep {State : Type 0} (held : ℕ → State → ℕ)
    (sweep : State → ℕ → ℕ → State × SweepAnswer) : Type 0 where
  pub removes :
      (s : State) (cutoff chunk : ℕ) (deleted : SweepCounts)
      → (sweep s cutoff chunk).1 ≡ swept deleted
      → held cutoff s ≡ held cutoff (sweep s cutoff chunk).0 + deleted.intents
  pub leaves :
      (s : State) (cutoff chunk : ℕ)
      → (sweep s cutoff chunk).1 ≡ busy
      → held cutoff (sweep s cutoff chunk).0 ≡ held cutoff s
  pub adds_nothing :
      (s : State) (cutoff chunk : ℕ)
      → (sweep s cutoff chunk).1 ≡ sweep_failed
      → held cutoff (sweep s cutoff chunk).0 ≤ held cutoff s

abbrev pub is_failed : PassOutcome → Bool
is_failed pass_failed = true
is_failed _ = false

-- The last chunk was not full: neither of commitments nor of events.
abbrev pub EndsShort :
    {State : Type 0} → (State → ℕ → ℕ → State × SweepAnswer) → ℕ → ℕ → State → Type 0
EndsShort {State = State} sweep cutoff chunk state =
    (s : State) × (deleted : SweepCounts) × ((sweep s cutoff chunk).0 ≡ state)
    × ((sweep s cutoff chunk).1 ≡ swept deleted)
    × (deleted.intents < chunk)
    × (deleted.outbox < chunk)

answer_cases :
    (answer : SweepAnswer)
    → (answer ≡ sweep_failed)
      ⊎ (answer ≡ busy)
      ⊎ ((deleted : SweepCounts) × (answer ≡ swept deleted))
answer_cases sweep_failed = inl refl
answer_cases busy = inr (inl refl)
answer_cases (swept deleted) = inr (inr (deleted, refl))

module _ {State : Type 0} (ended : State → Bool) (sweep : State → ℕ → ℕ → State × SweepAnswer)
    (held : ℕ → State → ℕ) (is : IsSweep held sweep) where
  -- From so many held and counted, with so much to remove
  abbrev AccountedFrom : ℕ → ℕ → ℕ → ℕ → SweepCounts → State × PassOutcome × SweepCounts → Type 0
  AccountedFrom cutoff chunk before fill total (state, outcome, removed) =
      (held cutoff state + removed.intents ≤ before + total.intents)
      × (is_failed outcome ≡ false → before + total.intents ≡ held cutoff state + removed.intents)
      × (outcome ≡ pass_swept
          → EndsShort sweep cutoff chunk state
            ⊎ (fill + total.intents + total.outbox ≤ removed.intents + removed.outbox))

  full_chunk :
      (d : SweepCounts) (chunk : ℕ)
      → (ltb d.intents chunk && ltb d.outbox chunk) ≡ false
      → chunk ≤ d.intents + d.outbox
  full_chunk d chunk more = ground (arith, more)

  carried :
      {Short : Type 0} {removed : ℕ} (left chunk : ℕ) (total deleted : SweepCounts)
      → chunk ≤ deleted.intents + deleted.outbox
      → suc left * chunk ≡ chunk + left * chunk
      → Short
        ⊎ (left * chunk + (total.intents + deleted.intents) + (total.outbox + deleted.outbox)
            ≤ removed)
      → Short ⊎ (suc left * chunk + total.intents + total.outbox ≤ removed)
  carried left chunk total deleted full law (inl short) = inl short
  carried left chunk total deleted full law (inr filled) = inr (omega (arith, full, law, filled))

  chunks-Accounted :
      (left cutoff chunk : ℕ) (state : State) (total : SweepCounts)
      → AccountedFrom cutoff chunk
          (held cutoff state)
          (left * chunk)
          total
          (chunks ended sweep left cutoff chunk state total)
  unfolding chunks add_counts
  chunks-Accounted zero cutoff chunk state total =
      (omega arith, (λ went. refl), λ swept_all. inr (omega arith))
  chunks-Accounted (suc left) cutoff chunk state total =
      let next = (sweep state cutoff chunk).0 in
      elim (Bool-cases (ended state)) [
        | inl over ↦ ground (arith, over)
        | inr running ↦ elim (answer_cases (sweep state cutoff chunk).1) [
          | inl failed ↦
              let less = is.adds_nothing state cutoff chunk failed in
              ground (arith, running, failed, less)
          | inr (inl held_up) ↦
              let back = is.leaves state cutoff chunk held_up in
              ground (arith, running, held_up, back)
          | inr (inr (deleted, answered)) ↦
              let removed = is.removes state cutoff chunk deleted answered in
              let rest = chunks-Accounted left cutoff chunk next (add_counts total deleted) in
              let full : suc left * chunk ≡ chunk + left * chunk = grind arith in
              let through = chunks ended sweep left cutoff chunk next (add_counts total deleted) in
              let whole = chunks ended sweep (suc left) cutoff chunk state total in
              let From = AccountedFrom cutoff chunk (held cutoff state) (suc left * chunk) total in
              elim (Bool-cases (ltb deleted.intents chunk && ltb deleted.outbox chunk)) [
                | inl short ↦
                    let stopped : (next, pass_swept, add_counts total deleted) ≡ whole =
                      ground (arith, running, answered, short) in
                    subst From stopped (
                      omega (arith, removed),
                      (λ went. omega (arith, removed)),
                      λ swept_all. inl (
                        state,
                        deleted,
                        refl,
                        answered,
                        ground (arith, short),
                        ground (arith, short),
                      ),
                    )
                | inr more ↦
                    let went_on : through ≡ whole = ground (arith, running, answered, more) in
                    subst From went_on (
                      omega (arith, removed, rest.0),
                      (λ went. omega (arith, removed, rest.1 went)),
                      λ swept_all.
                          carried left chunk total deleted (full_chunk deleted chunk more) full
                            (rest.2 swept_all),
                    )
              ]
        ]
      ]

  -- A pass counts what it removes. Of the commitments that the store held before the window's cutoff,
  -- those counted are gone, on every outcome, and unless the pass failed all that are gone are counted.
  -- A pass that swept ended with a chunk that was full neither of commitments nor of events, or removed
  -- as much as all its chunks may. Of a chunk of the store it is supposed that it removes what it says,
  -- that a busy one changes nothing and a failed one adds nothing.
  pub pass_accounted :
      (r : Retention) (started : ℕ) (state : State)
      → let cutoff = started - r.window in
        let ran = pass ended sweep r started state in
        (held cutoff ran.0 + ran.2.intents ≤ held cutoff state)
        × (is_failed ran.1 ≡ false → held cutoff state ≡ held cutoff ran.0 + ran.2.intents)
        × (ran.1 ≡ pass_swept
            → EndsShort sweep cutoff r.chunk ran.0
              ⊎ (r.max_chunks * r.chunk ≤ ran.2.intents + ran.2.outbox))
  unfolding pass
  pass_accounted r started state =
      let run = chunks-Accounted r.max_chunks (started - r.window) r.chunk state no_counts in
      (
        omega (arith, run.0),
        (λ went. omega (arith, run.1 went)),
        λ swept_all. filled (run.2 swept_all),
      )
    where
      filled :
          {Short : Type 0} {fill removed : ℕ}
          → Short ⊎ (fill + 0 + 0 ≤ removed)
          → Short ⊎ (fill ≤ removed)
      filled (inl short) = inl short
      filled (inr full) = inr (omega (arith, full))
