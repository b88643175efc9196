-- ===== src/ScheduleRender/Merge.antt =====
-- Joining adjacent assignments to shifts (internal/schedulerender/merge.go).
--
-- A builder holds the shift and nothing else, so it is the shift.
pub mod Duty
use tokayops.Prelude.{
  String, ℕ, Bool, true, false, ◌&&◌, List, [], ◌∷◌, str_eq, ◌==◌, length, if◌then◌else◌,
}
use tokayops.ScheduleRender.{Assignment}

pub record Shift : Type 0 where
  pub layer : String
  pub source : String
  pub group_id : String
  pub user_ids : List String
  pub start : ℕ
  pub end : ℕ
  pub override_id : String
  pub override_revision_id : String

-- The loop of `equalIDs` (slot.go), of lists of one length.
unfoldable pub ids_match : List String → List String → Bool
ids_match [] [] = true
ids_match (x ∷ xs) (y ∷ ys) = str_eq x y && ids_match xs ys
ids_match _ _ = false

unfoldable pub equal_ids : List String → List String → Bool
unfolding ids_match
equal_ids a b = length a == length b && ids_match a b

unfoldable pub new_shift : Assignment → Shift
new_shift a = record {
  layer = a.layer;
  source = a.source;
  group_id = a.group_id;
  user_ids = a.user_ids;
  start = a.assignment_start;
  end = a.assignment_end;
  override_id = a.override_id;
  override_revision_id = a.override_revision_id;
}

unfoldable pub can_extend : Shift → Assignment → Bool
unfolding equal_ids
can_extend s a =
    str_eq s.layer a.layer
    && str_eq s.source a.source
    && str_eq s.group_id a.group_id
    && str_eq s.override_id a.override_id
    && str_eq s.override_revision_id a.override_revision_id
    && equal_ids s.user_ids a.user_ids
    && s.end == a.assignment_start

unfoldable pub extend : Shift → Assignment → Shift
extend s a = record s { end = a.assignment_end }

-- The loop of `MergeAdjacent`, with its last builder; the builders before it do not change any more.
unfoldable pub merge_into : Shift → List Assignment → List Shift
unfolding can_extend extend new_shift
merge_into last [] = last ∷ []
merge_into last (a ∷ assignments) = elim (can_extend last a) [
  | true ↦ merge_into (extend last a) assignments
  | false ↦ last ∷ merge_into (new_shift a) assignments
]

unfoldable pub merge_adjacent : List Assignment → List Shift
unfolding new_shift merge_into
merge_adjacent [] = []
merge_adjacent (a ∷ assignments) = merge_into (new_shift a) assignments
