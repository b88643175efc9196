-- ===== src/Outbound/Slots/Examples.antt =====
-- The division of slots at concrete inputs.
use tokayops.Prelude.{String, ℕ, ◌+◌, ◌≤◌, min, ◌≡◌, List, [], ◌∷◌, Memᴰ, refl, arith}
use tokayops.Outbound.Slots.{Claim, share_slots, split_phases}
use tokayops.Outbound.Slots.Shares.{total_share, total_demand, Fits, share_slots-total}
use tokayops.Outbound.Slots.Fairness.{share_slots_fair, split_phases_turns}

-- A provider that is down asks for everything.
abbrev backlog : List (String × ℕ)
backlog = ("telegram", 40) ∷ ("slack", 3) ∷ ("phone", 0) ∷ []

abbrev granted : String → ℕ → ℕ → Claim
granted provider want share = record { provider = provider; want = want; share = share }

divided : share_slots 8 backlog 1 ≡ granted "telegram" 40 5 ∷ granted "slack" 3 3 ∷ []
unfolding share_slots
divided = refl

scarce : share_slots 1 backlog 1 ≡ granted "telegram" 40 1 ∷ granted "slack" 3 0 ∷ []
unfolding share_slots
scarce = refl

share_slots-total_example :
    (total_share (share_slots 8 backlog 1) ≡ min 8 (total_demand backlog))
    × Fits (share_slots 8 backlog 1)
share_slots-total_example = share_slots-total 8 backlog 1

share_slots_fair_example : 3 ≤ 5 + 1
unfolding share_slots
share_slots_fair_example =
    share_slots_fair 8 backlog 1 (granted "telegram" 40 5) (granted "slack" 3 3) (Memᴰ.head refl)
      (Memᴰ.tail (Memᴰ.head refl)) (omega arith)

split_phases_turns_example :
    ((split_phases 1 20 2 4).0 + (split_phases 1 20 2 5).0 ≡ 1)
    × ((split_phases 1 20 2 4).1 + (split_phases 1 20 2 5).1 ≡ 1)
split_phases_turns_example = split_phases_turns 20 2 4 (omega arith) (omega arith)
