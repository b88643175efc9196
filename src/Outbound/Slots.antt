-- ===== src/Outbound/Slots.antt =====
-- How the free slots of one tick are divided (internal/outbound/schedule.go).
--
-- A count (int) is a ℕ: the code treats a negative limit, demand or queue as an empty one. The map
-- from a provider to its demand is a list of pairs with different providers; the code sorts its keys
-- before it reads them, so no result hangs on the order of the list.
pub mod Shares
mod Examples
pub mod Fairness
use Prim.Native.Nat.{Ordering}
use Prim.Native.String.{compare}
use tokayops.Prelude.{
  String, ℕ, zero, suc, ◌+◌, ◌-◌, ◌*◌, ◌/◌, ◌%◌, min, Bool, true, false, ◌||◌, List, [], ◌∷◌, ◌++◌,
  ltb, ◌==◌, if◌then◌else◌, length,
}

-- A candidate: what it asks for, and its entry of the map `shares`.
pub record Claim : Type 0 where
  pub provider : String
  pub want : ℕ
  pub share : ℕ

unfoldable pub asking : Claim → Bool
asking c = ltb c.share c.want

unfoldable pub candidates : List (String × ℕ) → List Claim
candidates [] = []
candidates ((provider, want) ∷ demand) =
    let rest = candidates demand in
    if ltb 0 want then record { provider = provider; want = want; share = 0 } ∷ rest else rest

-- `sort.Strings`
unfoldable pub insert_claim : Claim → List Claim → List Claim
insert_claim c [] = c ∷ []
insert_claim c (d ∷ ds) =
    let rest = insert_claim c ds in
    elim (compare d.provider c.provider) [ Ordering.lt ↦ d ∷ rest | _ ↦ c ∷ d ∷ ds ]

unfoldable pub sort_claims : List Claim → List Claim
unfolding insert_claim
sort_claims [] = []
sort_claims (c ∷ cs) = insert_claim c (sort_claims cs)

-- `append(candidates[offset:], candidates[:offset]...)`
unfoldable pub rotate : ℕ → List Claim → List Claim
rotate zero cs = cs
rotate (suc n) [] = []
rotate (suc n) (c ∷ cs) = rotate n (cs ++ c ∷ [])

unfoldable pub count_asking : List Claim → ℕ
unfolding asking
count_asking [] = 0
count_asking (c ∷ cs) = let rest = count_asking cs in if asking c then suc rest else rest

-- At least one.
unfoldable pub each_of : ℕ → ℕ → ℕ
each_of remaining n = let each = remaining / n in if ltb each 1 then 1 else each

abbrev pub grant : ℕ → ℕ → Claim → ℕ
grant each remaining c = min (min each (c.want - c.share)) remaining

-- The inner loop: a round over the claims that still ask, which stops when nothing remains. Its
-- result is the claims and what remains.
unfoldable pub give_round : ℕ → ℕ → List Claim → List Claim × ℕ
unfolding asking
give_round each remaining [] = ([], remaining)
give_round each remaining (c ∷ cs) =
    let give = if asking c then grant each remaining c else 0 in
    let rest = give_round each (remaining - give) cs in
    if remaining == 0
    then (c ∷ cs, remaining)
    else (record c { share = c.share + give } ∷ rest.0, rest.1)

-- The outer loop. Each round gives a slot away, so as many rounds as slots are enough.
unfoldable pub fill : ℕ → ℕ → List Claim → List Claim
unfolding count_asking each_of give_round
fill zero remaining cs = cs
fill (suc fuel) remaining cs = elim (remaining == 0 || count_asking cs == 0) [
  | true ↦ cs
  | false ↦
      let next = give_round (each_of remaining (count_asking cs)) remaining cs in
      fill fuel next.1 next.0
]

unfoldable pub share_slots : ℕ → List (String × ℕ) → ℕ → List Claim
unfolding candidates sort_claims rotate fill
share_slots free demand tick =
    let cs = sort_claims (candidates demand) in fill free free (rotate (tick % length cs) cs)

unfoldable pub split_phases : ℕ → ℕ → ℕ → ℕ → ℕ × ℕ
split_phases limit fresh retries tick =
    if limit == 0
    then (0, 0)
    else if fresh == 0
    then (0, limit)
    else if retries == 0
    then (limit, 0)
    else if limit == 1
    then (if tick % 2 == 0 then (1, 0) else (0, 1))
    else let third = limit * 3 / 4 in
      let first = if ltb third 1 then 1 else third in
      let fitting = if ltb fresh first then fresh else first in
      let last = if ltb (limit - 1) fitting then limit - 1 else fitting in (last, limit - last)
