-- ===== src/Outbound/Keys/Admission/Sorting.antt =====
-- The order of the keys, in which an admission's commitments are inserted.
use mathlib.Core.List.{Permᴰ}
use tokayops.Prelude.{refl, inl, inr, Bool-cases, List, [], ◌∷◌, map, Perm}
use tokayops.Outbound.Keys.Codec.{is_before}
use tokayops.Outbound.Keys.Commitment.{EscalationCommitment}
use tokayops.Outbound.Keys.Admission.{AdmittedCommitment, insert_keyed, sort_keyed}

-- The commitments of what is admitted
abbrev pub promised : List AdmittedCommitment → List EscalationCommitment
promised = map (λ (a : AdmittedCommitment). a.commitment)

permᴰ_refl : (cs : List EscalationCommitment) → Permᴰ cs cs
permᴰ_refl [] = Permᴰ.nil
permᴰ_refl (c ∷ cs) = Permᴰ.cons refl (permᴰ_refl cs)

insert_keyed-permᴰ :
    (a : AdmittedCommitment) (bs : List AdmittedCommitment)
    → Permᴰ (promised (insert_keyed a bs)) (a.commitment ∷ promised bs)
insert_keyed-permᴰ a [] = Permᴰ.cons refl Permᴰ.nil
insert_keyed-permᴰ a (b ∷ bs) = elim (Bool-cases (is_before b.idempotency_key a.idempotency_key)) [
  | inl before ↦
      rw before (Permᴰ.trans (Permᴰ.cons refl (insert_keyed-permᴰ a bs)) (Permᴰ.swap refl refl))
  | inr behind ↦ rw behind (permᴰ_refl (a.commitment ∷ b.commitment ∷ promised bs))
]

sort_keyed-permᴰ :
    (admissions : List AdmittedCommitment)
    → Permᴰ (promised (sort_keyed admissions)) (promised admissions)
sort_keyed-permᴰ [] = Permᴰ.nil
sort_keyed-permᴰ (a ∷ admissions) =
    Permᴰ.trans (insert_keyed-permᴰ a (sort_keyed admissions))
      (Permᴰ.cons refl (sort_keyed-permᴰ admissions))

-- Sorting by the keys keeps the commitments.
pub sort_keyed-perm :
    (admissions : List AdmittedCommitment)
    → Perm (promised (sort_keyed admissions)) (promised admissions)
sort_keyed-perm admissions = ∣ sort_keyed-permᴰ admissions ∣₁
