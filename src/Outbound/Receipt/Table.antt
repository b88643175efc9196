-- ===== src/Outbound/Receipt/Table.antt =====
-- The verdict over a generation: its table, and what no order or lost callback can change.
use tokayops.Prelude.{
  ℕ, suc, Bool, true, false, not, ◌&&◌, ◌||◌, ◌≡◌, List, [], ◌∷◌, Perm, ok, refl, arith,
  if◌then◌else◌, all, any, all-perm, any-perm, ltb, ◌==◌,
}
use tokayops.Outbound.Machine.Types.{Input, Transition, Trigger, Verdict}
use tokayops.Outbound.Machine.{decide}
use tokayops.Outbound.Queueing.{Renewed, decide_new_generation-Renewed}
use tokayops.Outbound.Receipt.{
  Effect, GenerationFacts, Scan, known, scan, found, counted, unknown_state, is_happened,
  is_settled, all_settled, generation_verdict,
}

abbrev pub effect_known : Effect → Bool
effect_known e = known e.state

abbrev pub effect_happened : Effect → Bool
effect_happened e = is_happened e.state

abbrev pub is_current : ℕ → Effect → Bool
is_current generation e = e.generation == generation

-- The object is of an earlier generation, or did not take place.
abbrev pub settled_in : ℕ → Effect → Bool
settled_in generation e = not (e.generation == generation) || is_settled e.state

-- The rows of the table, stated of the facts rather than by the loops.
abbrev pub table : GenerationFacts → Verdict
table f =
    if any effect_happened f.effects
    then Verdict.happened
    else if f.attempt_open
    then Verdict.still_going
    else if f.unaccounted == 0
        && any (is_current f.generation) f.effects
        && all (settled_in f.generation) f.effects
    then Verdict.not_placed
    else if f.deadline_passed
    then Verdict.unknown
    else Verdict.still_going

-- What the first loop comes to when every state is known.
scan-known :
    (g n : ℕ) (es : List Effect)
    → all effect_known es ≡ true
    → (m : ℕ) × (scan g n es ≡ (if any effect_happened es then found else counted m))
      × (ltb 0 m ≡ (ltb 0 n || any (is_current g) es))
unfolding scan
scan-known g n [] k = (n, refl, ground arith)
scan-known g n (e ∷ es) k =
    let (m, s, c) = scan-known g (if e.generation == g then suc n else n) es (ground arith) in
    (m, ground arith, ground arith)

all_settled-all : (g : ℕ) (es : List Effect) → all_settled g es ≡ all (settled_in g) es
unfolding all_settled
all_settled-all g [] = refl
all_settled-all g (e ∷ es) = ground (arith, all_settled-all g es)

-- When every state is known, the two loops compute the table: the first row that holds decides.
pub generation_verdict-table :
    (f : GenerationFacts) → all effect_known f.effects ≡ true → generation_verdict f ≡ ok (table f)
unfolding generation_verdict
generation_verdict-table f k =
    let (m, s, c) = scan-known f.generation 0 f.effects k in
    ground (arith, all_settled-all f.generation f.effects)

-- The verdict does not depend on the order in which the objects are read.
pub generation_verdict-perm :
    (f : GenerationFacts) (es : List Effect)
    → all effect_known f.effects ≡ true
    → Perm f.effects es
    → generation_verdict f ≡ generation_verdict (record f { effects = es })
generation_verdict-perm f es k d = ground (
  arith,
  generation_verdict-table f k,
  generation_verdict-table (record f { effects = es }),
  all-perm effect_known d,
  any-perm effect_happened d,
  any-perm (is_current f.generation) d,
  all-perm (settled_in f.generation) d,
)

scan-counted :
    (g n m : ℕ) (es : List Effect)
    → scan g n es ≡ counted m
    → (all effect_known es ≡ true) × (any effect_happened es ≡ false)
unfolding scan
scan-counted g n m [] h = (refl, refl)
scan-counted g n m (e ∷ es) h =
    ground (arith, scan-counted g (if e.generation == g then suc n else n) m es)

known_of_scan :
    (f : GenerationFacts) (s : Scan)
    → scan f.generation 0 f.effects ≡ s
    → generation_verdict f ≡ ok Verdict.not_placed
    → all effect_known f.effects ≡ true
unfolding generation_verdict
known_of_scan f (unknown_state e) c h = ground arith
known_of_scan f found c h = ground arith
known_of_scan f (counted m) c h = (scan-counted f.generation 0 m f.effects c).0

-- Nothing of the commitment took place, and nothing of the current generation can still.
pub record NothingRings (f : GenerationFacts) : Type 0 where
  pub never : any effect_happened f.effects ≡ false
  pub settled : all (settled_in f.generation) f.effects ≡ true
  pub made : any (is_current f.generation) f.effects ≡ true
  pub closed : f.attempt_open ≡ false
  pub accounted : f.unaccounted ≡ 0

-- A verdict of "not placed" is given only when no object of any generation took place, every object
-- of the current one definitely did not, there is one, no attempt is open and none is unaccounted.
pub generation_verdict-NothingRings :
    (f : GenerationFacts) → generation_verdict f ≡ ok Verdict.not_placed → NothingRings f
generation_verdict-NothingRings f h =
    let k : all effect_known f.effects ≡ true = known_of_scan f _ refl h in
    ground (arith, generation_verdict-table f k)

-- When the verdict over the facts makes the machine start a new generation, no call of the
-- commitment took place and none of the current generation may still be ringing.
pub decide_new_generation-NothingRings :
    (f : GenerationFacts) (i : Input) {t : Transition}
    → i.trigger ≡ Trigger.verdict
    → generation_verdict f ≡ ok i.verdict
    → decide i ≡ ok t
    → t.effects.new_generation ≡ true
    → NothingRings f
decide_new_generation-NothingRings f i k v h n =
    let renewed : Renewed i _ = decide_new_generation-Renewed i h n in
    generation_verdict-NothingRings f (ground (arith, renewed.reason))
