-- ===== src/ScheduleRender/Merge/Duty.antt =====
-- What joining keeps, and that it joins all it can (internal/schedulerender/merge.go).
use tokayops.Prelude.{
  String, ℕ, ◌≤◌, ◌≡◌, Bool, true, false, ◌&&◌, ◌||◌, List, [], ◌∷◌, leb, ltb, ◌==◌, str_eq, eq_iff,
  any, All, arith, refl, Bool-cases, inl, inr, ◌∙◌,
}
use tokayops.ScheduleRender.{Assignment}
use tokayops.ScheduleRender.Merge.{
  Shift, ids_match, equal_ids, new_shift, can_extend, extend, merge_into, merge_adjacent,
}

ids_match-eq : (xs ys : List String) → ids_match xs ys ≡ true → xs ≡ ys
unfolding ids_match
ids_match-eq [] [] h = refl
ids_match-eq [] (y ∷ ys) h = ground arith
ids_match-eq (x ∷ xs) [] h = ground arith
ids_match-eq (x ∷ xs) (y ∷ ys) h =
    let head : x ≡ y = ground (arith, eq_iff x y) in
    let tail : xs ≡ ys = ids_match-eq xs ys (ground arith) in cc

pub equal_ids-eq : (xs ys : List String) → equal_ids xs ys ≡ true → xs ≡ ys
unfolding equal_ids
equal_ids-eq xs ys h = ids_match-eq xs ys (ground arith)

-- A question about a duty: its layer, source, group, members, override and the override's revision.
abbrev pub Question : Type 0
Question = String → String → String → List String → String → String → Bool

-- Whether the duty of a shift, or of an assignment, is such a one and covers the instant.
abbrev pub shift_serves : Question → ℕ → Shift → Bool
shift_serves q at s =
    q s.layer s.source s.group_id s.user_ids s.override_id s.override_revision_id
    && leb s.start at
    && ltb at s.end

abbrev pub assignment_serves : Question → ℕ → Assignment → Bool
assignment_serves q at a =
    q a.layer a.source a.group_id a.user_ids a.override_id a.override_revision_id
    && leb a.assignment_start at
    && ltb at a.assignment_end

-- What `canExtend` says.
record Extends (s : Shift) (a : Assignment) : Type 0 where
  layer : s.layer ≡ a.layer
  source : s.source ≡ a.source
  group : s.group_id ≡ a.group_id
  users : s.user_ids ≡ a.user_ids
  override : s.override_id ≡ a.override_id
  revision : s.override_revision_id ≡ a.override_revision_id
  joined : s.end ≡ a.assignment_start

can_extend-Extends : (s : Shift) (a : Assignment) → can_extend s a ≡ true → Extends s a
unfolding can_extend
can_extend-Extends s a h = record {
  layer = ground (arith, eq_iff s.layer a.layer);
  source = ground (arith, eq_iff s.source a.source);
  group = ground (arith, eq_iff s.group_id a.group_id);
  users = equal_ids-eq s.user_ids a.user_ids (ground arith);
  override = ground (arith, eq_iff s.override_id a.override_id);
  revision = ground (arith, eq_iff s.override_revision_id a.override_revision_id);
  joined = ground arith;
}

-- An assignment that does not end before it starts.
abbrev pub IsForward : Assignment → Type 0
IsForward a = a.assignment_start ≤ a.assignment_end

extend-serves :
    (q : Question) (at : ℕ) (s : Shift) (a : Assignment)
    → s.start ≤ s.end
    → IsForward a
    → can_extend s a ≡ true
    → shift_serves q at (extend s a) ≡ (shift_serves q at s || assignment_serves q at a)
unfolding extend
extend-serves q at s a forward ahead h =
    let e = can_extend-Extends s a h in
    let same : q s.layer s.source s.group_id s.user_ids s.override_id s.override_revision_id
        ≡ q a.layer a.source a.group_id a.user_ids a.override_id a.override_revision_id =
      cc (e.layer, e.source, e.group, e.users, e.override, e.revision) in
    ground (arith, same, e.joined)

merge_into_joins :
    (s : Shift) (a : Assignment) (items : List Assignment)
    → can_extend s a ≡ true
    → merge_into s (a ∷ items) ≡ merge_into (extend s a) items
unfolding merge_into
merge_into_joins s a items e = ground arith

merge_into_starts :
    (s : Shift) (a : Assignment) (items : List Assignment)
    → can_extend s a ≡ false
    → merge_into s (a ∷ items) ≡ s ∷ merge_into (new_shift a) items
unfolding merge_into
merge_into_starts s a items e = ground arith

merge_into-nil : (s : Shift) → merge_into s [] ≡ s ∷ []
unfolding merge_into
merge_into-nil s = refl

new_shift-serves :
    (q : Question) (at : ℕ) (a : Assignment)
    → shift_serves q at (new_shift a) ≡ assignment_serves q at a
unfolding new_shift
new_shift-serves q at a = refl

extend_forward :
    (s : Shift) (a : Assignment)
    → s.start ≤ s.end
    → IsForward a
    → can_extend s a ≡ true
    → (extend s a).start ≤ (extend s a).end
unfolding extend
extend_forward s a forward ahead h = let joined = (can_extend-Extends s a h).joined in ground arith

new_shift_forward : (a : Assignment) → IsForward a → (new_shift a).start ≤ (new_shift a).end
unfolding new_shift
new_shift_forward a h = h

or_assoc : (a b c : Bool) → ((a || b) || c) ≡ (a || (b || c))
or_assoc a b c = ground arith

merge_into-serves :
    (q : Question) (at : ℕ) (s : Shift) (items : List Assignment)
    → s.start ≤ s.end
    → All IsForward items
    → any (shift_serves q at) (merge_into s items)
      ≡ (shift_serves q at s || any (assignment_serves q at) items)
merge_into-serves q at s [] forward h = cc (merge_into-nil s)
merge_into-serves q at s (a ∷ items) forward h = elim (Bool-cases (can_extend s a)) [
  | inl e ↦
      let rest = merge_into-serves q at (extend s a) items (extend_forward s a forward h.0 e) h.1 in
      rw (merge_into_joins s a items e, rest, extend-serves q at s a forward h.0 e)
        (or_assoc (shift_serves q at s) (assignment_serves q at a)
          (any (assignment_serves q at) items))
  | inr e ↦
      let rest = merge_into-serves q at (new_shift a) items (new_shift_forward a h.0) h.1 in
      rw (merge_into_starts s a items e, rest, new_shift-serves q at a) refl
]

-- Joining keeps every duty at every instant: whatever is asked about a duty - its layer, source, group,
-- members, override and the override's revision - a joined shift of such a duty covers the instant
-- if and only if one of the assignments did, when no assignment ends before it starts.
pub merge_adjacent-serves :
    (q : Question) (at : ℕ) (items : List Assignment)
    → All IsForward items
    → any (shift_serves q at) (merge_adjacent items) ≡ any (assignment_serves q at) items
unfolding merge_adjacent
merge_adjacent-serves q at [] h = refl
merge_adjacent-serves q at (a ∷ items) h =
    merge_into-serves q at (new_shift a) items (new_shift_forward a h.0) h.1

-- Whether the second shift could go on where the first ends: the test of `canExtend`, of two shifts.
abbrev pub goes_on : Shift → Shift → Bool
goes_on s t =
    str_eq s.layer t.layer
    && str_eq s.source t.source
    && str_eq s.group_id t.group_id
    && str_eq s.override_id t.override_id
    && str_eq s.override_revision_id t.override_revision_id
    && equal_ids s.user_ids t.user_ids
    && s.end == t.start

abbrev pub goes_on_first : Shift → List Shift → Bool
goes_on_first s [] = false
goes_on_first s (t ∷ shifts) = goes_on s t

-- No shift of the list goes on with the one before it.
abbrev pub IsJoined : List Shift → Type 0
IsJoined [] = Unit
IsJoined (s ∷ shifts) = (goes_on_first s shifts ≡ false) × IsJoined shifts

goes_on-extend : (r s : Shift) (a : Assignment) → goes_on r (extend s a) ≡ goes_on r s
unfolding extend
goes_on-extend r s a = refl

goes_on-new_shift : (s : Shift) (a : Assignment) → goes_on s (new_shift a) ≡ can_extend s a
unfolding new_shift can_extend
goes_on-new_shift s a = refl

-- The first shift has the duty and the start of the builder.
merge_into_head :
    (r s : Shift) (items : List Assignment) → goes_on_first r (merge_into s items) ≡ goes_on r s
merge_into_head r s [] = cc (merge_into-nil s)
merge_into_head r s (a ∷ items) = elim (Bool-cases (can_extend s a)) [
  | inl e ↦
      rw (merge_into_joins s a items e, merge_into_head r (extend s a) items) (goes_on-extend r s a)
  | inr e ↦ rw (merge_into_starts s a items e) refl
]

merge_into-IsJoined : (s : Shift) (items : List Assignment) → IsJoined (merge_into s items)
merge_into-IsJoined s [] = rw (merge_into-nil s) (refl, tt)
merge_into-IsJoined s (a ∷ items) = elim (Bool-cases (can_extend s a)) [
  | inl e ↦ rw (merge_into_joins s a items e) (merge_into-IsJoined (extend s a) items)
  | inr e ↦ rw (merge_into_starts s a items e) (
    merge_into_head s (new_shift a) items ∙ goes_on-new_shift s a ∙ e,
    merge_into-IsJoined (new_shift a) items,
  )
]

-- Joining joins all that it can: of no two neighbours among the shifts could the second have gone on
-- with the first.
pub merge_adjacent-IsJoined : (items : List Assignment) → IsJoined (merge_adjacent items)
unfolding merge_adjacent
merge_adjacent-IsJoined [] = tt
merge_adjacent-IsJoined (a ∷ items) = merge_into-IsJoined (new_shift a) items
