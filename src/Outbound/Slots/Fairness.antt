-- ===== src/Outbound/Slots/Fairness.antt =====
-- Max-min fairness of the division, and the share of the older queue.
use native.Mathlib.Nat.{div-mul-le_self}
use mathlib.Core.Bool.{false≢true}
use tokayops.Prelude.{
  String, ℕ, zero, suc, ◌+◌, ◌-◌, ◌*◌, ◌/◌, ◌≤◌, ◌<◌, min, Bool, true, false, ◌||◌, ◌≡◌, List, [],
  ◌∷◌, ◌++◌, ltb, ◌==◌, if◌then◌else◌, All, All-mem, Memᴰ, refl, arith, inl, inr, Bool-cases, ◌⊎◌,
}
use tokayops.Outbound.Slots.{
  Claim, asking, candidates, insert_claim, sort_claims, rotate, count_asking, each_of, grant,
  give_round, fill, share_slots, split_phases,
}

-- Every claim has the same share, or all that it wanted.
abbrev Level : ℕ → List Claim → Type 0
Level l = All (λ c. c.share ≡ min l c.want)

-- The same, but for one slot.
abbrev NearLevel : ℕ → List Claim → Type 0
NearLevel l = All (λ c. (min l c.want ≤ c.share) × (c.share ≤ min (l + 1) c.want))

Level-Near : (l : ℕ) (cs : List Claim) → Level l cs → NearLevel l cs
Level-Near l [] h = tt
Level-Near l (c ∷ cs) h = ((omega arith, omega arith), Level-Near l cs h.1)

Level-none_asking :
    (l k : ℕ) (cs : List Claim) → count_asking cs ≡ 0 → Level l cs → Level (l + k) cs
unfolding count_asking asking
Level-none_asking l k [] n h = tt
Level-none_asking l k (c ∷ cs) n h = (ground arith, Level-none_asking l k cs (ground arith) h.1)

no_product : (each n : ℕ) → 0 < each → each * n ≤ 0 → n ≡ 0
no_product each zero p h = refl
no_product each (suc n) p h = absurd (grind arith)

fits_by :
    (b : Bool) (each remaining n give : ℕ)
    → give ≤ each
    → each * (if b then suc n else n) ≤ remaining
    → each * n ≤ remaining - (if b then give else 0)
fits_by true each remaining n give g e = omega arith
fits_by false each remaining n give g e = omega arith

each_fits :
    (b : Bool) (each remaining n : ℕ)
    → each * (if b then suc n else n) ≤ remaining
    → b ≡ true
    → each ≤ remaining
each_fits true each remaining n e h = omega (arith, mul_le each n)
  where
    mul_le : (each n : ℕ) → each ≤ each * suc n
    mul_le each n = omega arith
each_fits false each remaining n e h = absurd (false≢true h)

round_fits :
    (each remaining : ℕ) (c : Claim) (cs : List Claim)
    → each * count_asking (c ∷ cs) ≤ remaining
    → each * count_asking cs
      ≤ remaining - (if ltb c.share c.want then grant each remaining c else 0)
unfolding count_asking asking
round_fits each remaining c cs e =
    fits_by (ltb c.share c.want) each remaining (count_asking cs) (grant each remaining c)
      (omega arith) e

claim_fits :
    (each remaining : ℕ) (c : Claim) (cs : List Claim)
    → each * count_asking (c ∷ cs) ≤ remaining
    → ltb c.share c.want ≡ true
    → each ≤ remaining
unfolding count_asking asking
claim_fits each remaining c cs e = each_fits (ltb c.share c.want) each remaining (count_asking cs) e

-- A round with enough for everybody lifts the level.
full_round :
    (each remaining l : ℕ) (cs : List Claim)
    → 0 < each
    → each * count_asking cs ≤ remaining
    → Level l cs
    → Level (l + each) (give_round each remaining cs).0
unfolding give_round count_asking asking
full_round each remaining l [] p e h = tt
full_round each zero l (c ∷ cs) p e h =
    Level-none_asking l each (c ∷ cs) (no_product each (count_asking (c ∷ cs)) p e) h
full_round each (suc r) l (c ∷ cs) p e h =
    let give = if ltb c.share c.want then grant each (suc r) c else 0 in
    ground (
      arith,
      claim_fits each (suc r) c cs e,
      full_round each (suc r - give) l cs p (round_fits each (suc r) c cs e) h.1,
    )

-- A round of single slots with too few for everybody spends them all.
last_round :
    (remaining l : ℕ) (cs : List Claim)
    → remaining ≤ count_asking cs
    → Level l cs
    → NearLevel l (give_round 1 remaining cs).0 × ((give_round 1 remaining cs).1 ≡ 0)
unfolding give_round count_asking asking
last_round remaining l [] e h = ground arith
last_round remaining l (c ∷ cs) e h =
    let give = if ltb c.share c.want then grant 1 remaining c else 0 in
    ground (arith, Level-Near l (c ∷ cs) h, last_round (remaining - give) l cs (ground arith) h.1)

-- The level that is left at the end.
record Fair (cs : List Claim) : Type 0 where
  level : ℕ
  near : NearLevel level cs

-- The share of a round: all of what remains over, or one each of too few.
each_of_cases :
    (remaining n : ℕ)
    → 0 < n
    → ((0 < each_of remaining n) × (each_of remaining n * n ≤ remaining))
      ⊎ ((each_of remaining n ≡ 1) × (remaining ≤ n))
unfolding each_of
each_of_cases remaining n p = elim (Bool-cases (ltb (remaining / n) 1)) [
  | inl small ↦ rw small (inr (refl, grind arith))
  | inr large ↦ rw large (inl (ground arith, div-mul-le_self remaining n))
]

fill_spent : (fuel : ℕ) (cs : List Claim) → fill fuel 0 cs ≡ cs
unfolding fill
fill_spent zero cs = refl
fill_spent (suc fuel) cs = refl

fill_lem :
    (fuel remaining : ℕ) (cs : List Claim)
    → let next = give_round (each_of remaining (count_asking cs)) remaining cs in
      fill (suc fuel) remaining cs
      ≡ (if remaining == 0 || count_asking cs == 0 then cs else fill fuel next.1 next.0)
unfolding fill
fill_lem fuel remaining cs = ground arith

fill-Fair : (fuel remaining l : ℕ) (cs : List Claim) → Level l cs → Fair (fill fuel remaining cs)
fill-Fair zero remaining l cs h = unfold fill in record { level = l; near = Level-Near l cs h }
fill-Fair (suc fuel) remaining l cs h = elim (Bool-cases (remaining == 0 || count_asking cs == 0)) [
  | inl stop ↦ rw (fill_lem, stop) (record { level = l; near = Level-Near l cs h })
  | inr more ↦
      rw (fill_lem, more)
        (elim (each_of_cases remaining (count_asking cs) (ground arith)) [
          | inl (p, e) ↦
              fill-Fair fuel _ (l + each_of remaining (count_asking cs)) _
                (full_round _ remaining l cs p e h)
          | inr (one, e) ↦
              let (near, spent) = last_round remaining l cs e h in
              rw (one, spent, fill_spent) (record { level = l; near = near })
        ])
]

candidates-Level : (demand : List (String × ℕ)) → Level 0 (candidates demand)
unfolding candidates
candidates-Level [] = tt
candidates-Level ((provider, want) ∷ demand) = ground (arith, candidates-Level demand)

insert_claim-Level :
    (l : ℕ) (c : Claim) (cs : List Claim) → Level l (c ∷ cs) → Level l (insert_claim c cs)
unfolding insert_claim
insert_claim-Level l c [] h = h
insert_claim-Level l c (d ∷ ds) h = ground (arith, insert_claim-Level l c ds (h.0, h.1.1))

sort_claims-Level : (l : ℕ) (cs : List Claim) → Level l cs → Level l (sort_claims cs)
unfolding sort_claims
sort_claims-Level l [] h = tt
sort_claims-Level l (c ∷ cs) h =
    insert_claim-Level l c (sort_claims cs) (h.0, sort_claims-Level l cs h.1)

append-Level : (l : ℕ) (c : Claim) (cs : List Claim) → Level l (c ∷ cs) → Level l (cs ++ c ∷ [])
append-Level l c [] h = h
append-Level l c (d ∷ ds) h = (h.1.0, append-Level l c ds (h.0, h.1.1))

rotate-Level : (n l : ℕ) (cs : List Claim) → Level l cs → Level l (rotate n cs)
unfolding rotate
rotate-Level zero l cs h = h
rotate-Level (suc n) l [] h = tt
rotate-Level (suc n) l (c ∷ cs) h = rotate-Level n l (cs ++ c ∷ []) (append-Level l c cs h)

Fair-le :
    (cs : List Claim) (c d : Claim)
    → Fair cs
    → Memᴰ c cs
    → Memᴰ d cs
    → c.share < c.want
    → d.share ≤ c.share + 1
Fair-le cs c d f mc md h = omega (arith, All-mem _ mc f.near, All-mem _ md f.near)

-- The division is max-min fair: a provider that did not get all it could use is behind no other by
-- more than one slot, whatever the others ask for and wherever the rotation starts.
pub share_slots_fair :
    (free : ℕ) (demand : List (String × ℕ)) (tick : ℕ) (c d : Claim)
    → Memᴰ c (share_slots free demand tick)
    → Memᴰ d (share_slots free demand tick)
    → c.share < c.want
    → d.share ≤ c.share + 1
share_slots_fair free demand tick c d mc md h =
    Fair-le (share_slots free demand tick) c d fair mc md h
  where
    fair : Fair (share_slots free demand tick)
    fair =
        unfold share_slots in
        fill-Fair free free 0 _
          (rotate-Level _ 0 _ (sort_claims-Level 0 (candidates demand) (candidates-Level demand)))

-- The guarantee of the older queue: with two slots or more and both queues asking, first attempts get
-- at least one slot and no more than there are of them, and the older queue at least one.
pub split_phases_both :
    (limit fresh retries tick : ℕ)
    → 2 ≤ limit
    → 0 < fresh
    → 0 < retries
    → let (first, rest) = split_phases limit fresh retries tick in
      (1 ≤ first) × (first ≤ fresh) × (1 ≤ rest) × (first + rest ≡ limit)
unfolding split_phases
split_phases_both limit fresh retries tick l f r = ground arith

-- At a single slot the two queues take turns, and no slot is ever lost: the shares add up to the
-- limit.
pub split_phases_turns :
    (fresh retries tick : ℕ)
    → 0 < fresh
    → 0 < retries
    → ((split_phases 1 fresh retries tick).0 + (split_phases 1 fresh retries (tick + 1)).0 ≡ 1)
      × ((split_phases 1 fresh retries tick).1 + (split_phases 1 fresh retries (tick + 1)).1 ≡ 1)
unfolding split_phases
split_phases_turns fresh retries tick f r = ground arith
