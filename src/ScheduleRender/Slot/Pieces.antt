-- ===== src/ScheduleRender/Slot/Pieces.antt =====
-- What the pieces of a slot serve (internal/schedulerender/slot.go).
use tokayops.Prelude.{
  ℕ, ◌≤◌, ◌≡◌, Bool, true, false, ◌&&◌, ◌||◌, none, some, List, [], ◌∷◌, leb, ltb, ◌==◌, eq_iff,
  any, All, arith, refl, Bool-cases, Option-cases, inl, inr,
}
use tokayops.ScheduleRender.{Assignment}
use tokayops.ScheduleRender.Merge.Duty.{Question, assignment_serves, IsForward, equal_ids-eq}
use tokayops.ScheduleRender.Slot.{
  OverrideRevision, SlotInput, same_assignment, append_assignment, piece, override_piece,
  base_piece, append_piece,
}

joins : Assignment → Assignment → Bool
joins last next = last.assignment_end == next.assignment_start && same_assignment last next

-- A piece joined to the last one serves what both did.
joined-serves :
    (q : Question) (at : ℕ) (last next : Assignment)
    → IsForward last
    → IsForward next
    → joins last next ≡ true
    → assignment_serves q at (record last { assignment_end = next.assignment_end })
      ≡ (assignment_serves q at last || assignment_serves q at next)
unfolding joins same_assignment
joined-serves q at last next forward ahead h =
    let layer : last.layer ≡ next.layer = ground (arith, eq_iff last.layer next.layer) in
    let source : last.source ≡ next.source = ground (arith, eq_iff last.source next.source) in
    let group : last.group_id ≡ next.group_id =
      ground (arith, eq_iff last.group_id next.group_id) in
    let override : last.override_id ≡ next.override_id =
      ground (arith, eq_iff last.override_id next.override_id) in
    let revision : last.override_revision_id ≡ next.override_revision_id =
      ground (arith, eq_iff last.override_revision_id next.override_revision_id) in
    let users : last.user_ids ≡ next.user_ids =
      equal_ids-eq last.user_ids next.user_ids (ground arith) in
    let same : q last.layer last.source last.group_id last.user_ids last.override_id
          last.override_revision_id
        ≡ q next.layer next.source next.group_id next.user_ids next.override_id
            next.override_revision_id =
      cc in
    ground arith

append_assignment-serves :
    (q : Question) (at : ℕ) (out : List Assignment) (next : Assignment)
    → All IsForward out
    → IsForward next
    → any (assignment_serves q at) (append_assignment out next)
      ≡ (any (assignment_serves q at) out || assignment_serves q at next)
unfolding append_assignment joins
append_assignment-serves q at [] next h ahead = ground arith
append_assignment-serves q at (last ∷ []) next h ahead = elim (Bool-cases (joins last next)) [
  | inl e ↦ let both = joined-serves q at last next h.0 ahead e in ground arith
  | inr e ↦ ground arith
]
append_assignment-serves q at (a ∷ b ∷ out) next h ahead =
    let rest = append_assignment-serves q at (b ∷ out) next h.1 ahead in ground arith

append_assignment_joined :
    (last next : Assignment)
    → joins last next ≡ true
    → append_assignment (last ∷ []) next ≡ record last { assignment_end = next.assignment_end } ∷ []
unfolding append_assignment joins
append_assignment_joined last next e = ground arith

append_assignment_apart :
    (last next : Assignment)
    → joins last next ≡ false
    → append_assignment (last ∷ []) next ≡ last ∷ next ∷ []
unfolding append_assignment joins
append_assignment_apart last next e = ground arith

append_assignment_further :
    (a b : Assignment) (out : List Assignment) (next : Assignment)
    → append_assignment (a ∷ b ∷ out) next ≡ a ∷ append_assignment (b ∷ out) next
unfolding append_assignment
append_assignment_further a b out next = refl

joins_forward :
    (last next : Assignment)
    → IsForward last
    → IsForward next
    → joins last next ≡ true
    → last.assignment_start ≤ next.assignment_end
unfolding joins
joins_forward last next forward ahead e = ground arith

append_assignment-IsForward :
    (out : List Assignment) (next : Assignment)
    → All IsForward out
    → IsForward next
    → All IsForward (append_assignment out next)
append_assignment-IsForward [] next h ahead = unfold append_assignment in (ahead, tt)
append_assignment-IsForward (last ∷ []) next h ahead = elim (Bool-cases (joins last next)) [
  | inl e ↦ rw (append_assignment_joined last next e) (joins_forward last next h.0 ahead e, tt)
  | inr e ↦ rw (append_assignment_apart last next e) (h.0, (ahead, tt))
]
append_assignment-IsForward (a ∷ b ∷ out) next h ahead =
    rw (append_assignment_further a b out next)
      (h.0, append_assignment-IsForward (b ∷ out) next h.1 ahead)

-- Whether the one on duty, when these overrides are active, is such a one: the holder of the only
-- override, or the group of the rotation when there is none.
unfoldable pub duty : Question → SlotInput → List OverrideRevision → Bool
duty q i (o ∷ []) = q i.layer "override" o.override_id (o.user_id ∷ []) o.override_id o.revision_id
duty q i (o ∷ p ∷ active) = false
duty q i [] = elim i.base [
  | none ↦ false
  | some base ↦ q i.layer "rotation" base.group_id base.user_ids "" ""
]

pub append_piece-serves :
    (q : Question) (at : ℕ) (i : SlotInput) (out : List Assignment) (p r : ℕ)
    (active : List OverrideRevision)
    → All IsForward out
    → p ≤ r
    → any
        (assignment_serves q at)
        (append_piece out (piece i (record { start = p; end = r }) active))
      ≡ (any (assignment_serves q at) out || (duty q i active && leb p at && ltb at r))
unfolding piece duty
append_piece-serves q at i out p r (o ∷ []) h le =
    append_assignment-serves q at out (override_piece i (record { start = p; end = r }) o) h le
append_piece-serves q at i out p r (o ∷ x ∷ active) h le = ground arith
append_piece-serves q at i out p r [] h le = elim (Option-cases i.base) [
  | inl e ↦ rw e (ground arith)
  | inr (base, e) ↦
      rw e
        (append_assignment-serves q at out (base_piece i (record { start = p; end = r }) base) h le)
]

pub append_piece-IsForward :
    (i : SlotInput) (out : List Assignment) (p r : ℕ) (active : List OverrideRevision)
    → All IsForward out
    → p ≤ r
    → All IsForward (append_piece out (piece i (record { start = p; end = r }) active))
unfolding piece
append_piece-IsForward i out p r (o ∷ []) h le =
    append_assignment-IsForward out (override_piece i (record { start = p; end = r }) o) h le
append_piece-IsForward i out p r (o ∷ x ∷ active) h le = h
append_piece-IsForward i out p r [] h le = elim (Option-cases i.base) [
  | inl e ↦ rw e h
  | inr (base, e) ↦
      rw e
        (append_assignment-IsForward out (base_piece i (record { start = p; end = r }) base) h le)
]
