-- ===== src/Outbound/Receipt.antt =====
-- The fate of the objects that attempts make at a provider (internal/outbound/receipt.go).
--
-- A sequence number (int) is a ℕ: the code only compares it.
pub mod Fold
pub mod Table
use tokayops.Prelude.{
  String, ℕ, suc, Bool, true, false, not, ◌&&◌, ◌||◌, Option, none, some, List, [], ◌∷◌, Result, ok,
  err, leb, ltb, ◌==◌, str_eq, if◌then◌else◌,
}
use tokayops.Outbound.Machine.Types.{Verdict}

pub data EffectState : Type 0 where
  in_progress happened not_placed withdrawn : EffectState
  unlisted : String → EffectState

-- `EffectState.Terminal`
unfoldable pub ends : EffectState → Bool
ends EffectState.happened = true
ends EffectState.not_placed = true
ends EffectState.withdrawn = true
ends _ = false

-- `EffectState.Known`
unfoldable pub known : EffectState → Bool
known (EffectState.unlisted s) = false
known _ = true

unfoldable pub same_state : EffectState → EffectState → Bool
same_state EffectState.in_progress EffectState.in_progress = true
same_state EffectState.happened EffectState.happened = true
same_state EffectState.not_placed EffectState.not_placed = true
same_state EffectState.withdrawn EffectState.withdrawn = true
same_state (EffectState.unlisted s) (EffectState.unlisted t) = str_eq s t
same_state _ _ = false

pub record Effect : Type 0 where
  pub attempt_id : String
  pub generation : ℕ
  pub external_ref : String
  pub state : EffectState
  pub last_sequence : Option ℕ

-- `sequence != nil && last != nil && *sequence <= *last`
abbrev pub stale_sequence : Option ℕ → Option ℕ → Bool
stale_sequence (some last) (some n) = leb n last
stale_sequence _ _ = false

-- The last sequence number after an event that carries this one.
abbrev pub later_sequence : Option ℕ → Option ℕ → Option ℕ
later_sequence last none = last
later_sequence none (some n) = some n
later_sequence (some last) (some n) = if ltb last n then some n else some last

unfoldable pub equal_sequence : Option ℕ → Option ℕ → Bool
equal_sequence none none = true
equal_sequence (some a) (some b) = a == b
equal_sequence _ _ = false

unfoldable pub fold_effect : Effect → EffectState → Option ℕ → Effect × Bool
unfolding ends same_state equal_sequence
fold_effect current next sequence =
    if ends current.state
    then (current, false)
    else if not (ends next) && stale_sequence current.last_sequence sequence
    then (current, false)
    else let folded : Effect = record current {
      state = next;
      last_sequence = later_sequence current.last_sequence sequence;
    } in
      (
        folded,
        not (same_state folded.state current.state)
            || not (equal_sequence folded.last_sequence current.last_sequence),
      )

pub record GenerationFacts : Type 0 where
  pub effects : List Effect
  pub generation : ℕ
  pub attempt_open : Bool
  pub unaccounted : ℕ
  pub deadline_passed : Bool

abbrev pub is_happened : EffectState → Bool
is_happened EffectState.happened = true
is_happened _ = false

-- What the first loop of `GenerationVerdict` comes to.
pub data Scan : Type 0 where
  unknown_state : Effect → Scan
  found : Scan
  counted : ℕ → Scan

-- The first loop, with `current` counted so far.
unfoldable pub scan : ℕ → ℕ → List Effect → Scan
unfolding known
scan generation current [] = counted current
scan generation current (e ∷ es) =
    let rest = scan generation (if e.generation == generation then suc current else current) es in
    if not (known e.state) then unknown_state e else if is_happened e.state then found else rest

abbrev pub is_settled : EffectState → Bool
is_settled EffectState.not_placed = true
is_settled EffectState.withdrawn = true
is_settled _ = false

-- The second loop.
unfoldable pub all_settled : ℕ → List Effect → Bool
all_settled generation [] = true
all_settled generation (e ∷ es) =
    if e.generation == generation && not (is_settled e.state)
    then false
    else all_settled generation es

-- The rows below the first, with `current` objects of this generation.
unfoldable pub verdict_of : GenerationFacts → ℕ → Verdict
unfolding all_settled
verdict_of f current =
    if f.attempt_open
    then Verdict.still_going
    else if f.unaccounted == 0 && ltb 0 current && all_settled f.generation f.effects
    then Verdict.not_placed
    else if f.deadline_passed
    then Verdict.unknown
    else Verdict.still_going

abbrev verdict_after : GenerationFacts → Scan → Result Effect Verdict
verdict_after f (unknown_state e) = err e
verdict_after f found = ok Verdict.happened
verdict_after f (counted current) = ok (verdict_of f current)

-- The error is the effect in a state that the build does not know.
unfoldable pub generation_verdict : GenerationFacts → Result Effect Verdict
unfolding scan verdict_of
generation_verdict f = verdict_after f (scan f.generation 0 f.effects)
