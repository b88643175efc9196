-- ===== src/Outbound/Kinds.antt =====
-- internal/outbound/kinds.go, and the kinds of claim of internal/outbound/keys/keys.go.
--
-- A Go string type with declared constants is a data type with a constructor for each constant, and
-- `unlisted s` for any other text, which Go lets through and the code's `default` branches see.
use tokayops.Prelude.{String, Bool, true, false, Result, ok, err}

pub data Kind : Type 0 where
  escalation escalation_replay handoff webhook_event webhook_replay : Kind
  unlisted : String → Kind

pub data Operation : Type 0 where
  send update resolve deliver : Operation
  unlisted : String → Operation

pub data KindError : Type 0 where
  acceptances_not_judged effects_not_restarted deliveries_not_named : Kind → KindError

unfoldable pub acceptance_names_object : Kind → Result KindError Bool
acceptance_names_object Kind.escalation = ok true
acceptance_names_object Kind.escalation_replay = ok true
acceptance_names_object Kind.handoff = ok true
acceptance_names_object Kind.webhook_event = ok false
acceptance_names_object Kind.webhook_replay = ok false
acceptance_names_object (Kind.unlisted s) = err (acceptances_not_judged (Kind.unlisted s))

-- Which command may start a new external effect for a commitment that has ended.
pub data EffectDoor : Type 0 where
  resolve_ambiguity replay : EffectDoor

unfoldable pub new_effect_door : Kind → Result KindError EffectDoor
new_effect_door Kind.escalation = ok resolve_ambiguity
new_effect_door Kind.escalation_replay = ok resolve_ambiguity
new_effect_door Kind.handoff = ok resolve_ambiguity
new_effect_door Kind.webhook_event = ok replay
new_effect_door Kind.webhook_replay = ok replay
new_effect_door (Kind.unlisted s) = err (effects_not_restarted (Kind.unlisted s))

unfoldable pub create_operation_of : Kind → Result KindError Operation
create_operation_of Kind.escalation = ok send
create_operation_of Kind.escalation_replay = ok send
create_operation_of Kind.handoff = ok send
create_operation_of Kind.webhook_event = ok deliver
create_operation_of Kind.webhook_replay = ok deliver
create_operation_of (Kind.unlisted s) = err (deliveries_not_named (Kind.unlisted s))
