-- ===== src/Rotation/Transition.antt =====
-- What is said of a planned layer (internal/rotation/transition.go).
pub data PhaseAction : Type 0 where
  carry reanchor clear : PhaseAction

pub data GroupSelection : Type 0 where
  preserve successor first none : GroupSelection

pub record LayerTransition : Type 0 where
  pub phase_action : PhaseAction
  pub group_selection : GroupSelection
