-- ===== src/Outbound/Slots/Shares.antt =====
-- No slot is lost or invented, and nobody is given more than it asked for.
use tokayops.Prelude.{
  String, ℕ, zero, suc, ◌+◌, ◌-◌, ◌%◌, ◌≤◌, ◌<◌, min, ◌≡◌, List, [], ◌∷◌, ◌++◌, ltb, if◌then◌else◌,
  length, All, refl, arith,
}
use tokayops.Outbound.Slots.{
  Claim, asking, candidates, insert_claim, sort_claims, rotate, count_asking, each_of, give_round,
  fill, share_slots,
}

pub total_share : List Claim → ℕ
total_share [] = 0
total_share (c ∷ cs) = c.share + total_share cs

pub total_want : List Claim → ℕ
total_want [] = 0
total_want (c ∷ cs) = c.want + total_want cs

pub total_demand : List (String × ℕ) → ℕ
total_demand [] = 0
total_demand ((provider, want) ∷ demand) = want + total_demand demand

-- No claim holds more than it asked for.
abbrev pub Fits : List Claim → Type 0
Fits = All (λ c. c.share ≤ c.want)

-- What a round keeps, and that it gives something if somebody asks.
record KeepsTotals (each remaining : ℕ) (cs : List Claim) : Type 0 where
  fits : Fits (give_round each remaining cs).0
  wants : total_want (give_round each remaining cs).0 ≡ total_want cs
  kept :
      total_share (give_round each remaining cs).0 + (give_round each remaining cs).1
      ≡ total_share cs + remaining
  less : (give_round each remaining cs).1 ≤ remaining
  gives : 0 < remaining → 0 < count_asking cs → (give_round each remaining cs).1 < remaining

give_round-KeepsTotals :
    (each remaining : ℕ) (cs : List Claim) → 0 < each → Fits cs → KeepsTotals each remaining cs
unfolding give_round count_asking asking total_share total_want
give_round-KeepsTotals each remaining [] p f = ground arith
give_round-KeepsTotals each remaining (c ∷ cs) p f =
    let give = if ltb c.share c.want then min (min each (c.want - c.share)) remaining else 0 in
    let r : KeepsTotals each (remaining - give) cs =
      give_round-KeepsTotals each (remaining - give) cs p f.1 in
    ground arith

unasked : (cs : List Claim) → Fits cs → count_asking cs ≡ 0 → total_share cs ≡ total_want cs
unfolding count_asking total_share total_want
unasked [] f h = refl
unasked (c ∷ cs) f h = ground (arith, unasked cs f.1)

share-le-want : (cs : List Claim) → Fits cs → total_share cs ≤ total_want cs
unfolding total_share total_want
share-le-want [] f = omega arith
share-le-want (c ∷ cs) f = omega (arith, share-le-want cs f.1)

-- What the rounds come to, with as many of them as slots.
record Filled (remaining : ℕ) (cs filled : List Claim) : Type 0 where
  fits : Fits filled
  wants : total_want filled ≡ total_want cs
  spent : total_share filled ≡ min (total_share cs + remaining) (total_want cs)

each_of_pos : (remaining n : ℕ) → 0 < each_of remaining n
unfolding each_of
each_of_pos remaining n = ground arith

fill-Filled :
    (fuel remaining : ℕ) (cs : List Claim)
    → remaining ≤ fuel
    → Fits cs
    → Filled remaining cs (fill fuel remaining cs)
unfolding fill
fill-Filled zero remaining cs h f = ground (arith, share-le-want cs f)
fill-Filled (suc fuel) remaining cs h f =
    let each = each_of remaining (count_asking cs) in
    let r : KeepsTotals each remaining cs =
      give_round-KeepsTotals each remaining cs (each_of_pos _ _) f in
    let ih = fill-Filled fuel (give_round each remaining cs).1 (give_round each remaining cs).0 in
    ground (arith, ih, unasked cs f, share-le-want cs f)

candidates-fresh :
    (demand : List (String × ℕ))
    → Fits (candidates demand)
      × (total_share (candidates demand) ≡ 0)
      × (total_want (candidates demand) ≡ total_demand demand)
unfolding candidates total_share total_want total_demand
candidates-fresh [] = ground arith
candidates-fresh ((provider, want) ∷ demand) = ground (arith, candidates-fresh demand)

-- The two lists hold the same shares and wants, in total.
record SameTotals (cs ds : List Claim) : Type 0 where
  fits : Fits cs → Fits ds
  shares : total_share ds ≡ total_share cs
  wants : total_want ds ≡ total_want cs

insert_claim-SameTotals : (c : Claim) (cs : List Claim) → SameTotals (c ∷ cs) (insert_claim c cs)
unfolding insert_claim total_share total_want
insert_claim-SameTotals c [] = ground arith
insert_claim-SameTotals c (d ∷ ds) = ground (arith, insert_claim-SameTotals c ds)

sort_claims-SameTotals : (cs : List Claim) → SameTotals cs (sort_claims cs)
unfolding sort_claims total_share total_want
sort_claims-SameTotals [] = ground arith
sort_claims-SameTotals (c ∷ cs) =
    ground (arith, sort_claims-SameTotals cs, insert_claim-SameTotals c (sort_claims cs))

append-SameTotals : (c : Claim) (cs : List Claim) → SameTotals (c ∷ cs) (cs ++ c ∷ [])
unfolding total_share total_want
append-SameTotals c [] = ground arith
append-SameTotals c (d ∷ ds) = ground (arith, append-SameTotals c ds)

rotate-SameTotals : (n : ℕ) (cs : List Claim) → SameTotals cs (rotate n cs)
unfolding rotate total_share total_want
rotate-SameTotals zero cs = ground arith
rotate-SameTotals (suc n) [] = ground arith
rotate-SameTotals (suc n) (c ∷ cs) =
    ground (arith, append-SameTotals c cs, rotate-SameTotals n (cs ++ c ∷ []))

-- The division uses every slot that somebody can use: together the shares are the free slots or the
-- whole demand, whichever is less, and no provider is given more than it asked for.
pub share_slots-total :
    (free : ℕ) (demand : List (String × ℕ)) (tick : ℕ)
    → (total_share (share_slots free demand tick) ≡ min free (total_demand demand))
      × Fits (share_slots free demand tick)
unfolding share_slots
share_slots-total free demand tick =
    let cs = sort_claims (candidates demand) in
    let start = rotate (tick % length cs) cs in
    ground (
      arith,
      candidates-fresh demand,
      sort_claims-SameTotals (candidates demand),
      rotate-SameTotals (tick % length cs) cs,
      fill-Filled free free start,
    )
