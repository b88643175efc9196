-- ===== src/Lib.antt =====
-- TokayOps: escalation of alerts, and delivery of notifications that survives crashes.
--
-- Alertmanager posts notifications; `internal/ingester` merges each into the open incident of its
-- group (`internal/alertgroup`). The engine plans an escalation from the group's policy and the
-- schedule on duty (`internal/rotation`), and admits commitments: promises to put one effect at one
-- provider (`internal/outbound`). A worker divides its free slots between the providers, leases due
-- commitments, asks the providers, and hands every answer to one pure function, `Decide`, whose
-- transition the store writes. Calls end later, with events that fold into effects and give a verdict.
-- `internal/rbac` says who may do what by hand.
--
-- The files:
--   Prelude, Prelude/*: results, Boolean tests on the native numbers, lists, maps as lists of pairs.
--   Outbound/Kinds, Outbound/Intent: internal/outbound/kinds.go and intent.go: the kinds of claims with
--     their tables, the commitment and its statuses (`Terminal` is `terminal`, `Ended` is `ended`).
--   Outbound/Machine and Outbound/Machine/*: internal/outbound/machine.go. `Decide` is `decide`, the
--     unexported `decide` is `decide_alone`, and each handler has its own name: `decideFinish` is
--     `decide_finish`. `Types` has the input, the effects and the refusals, `Settle` where a success
--     lands, `Attempts` the begin, the end and the loss of an attempt, `Verdicts` and `Operator` the
--     provider's and a person's word.
--   Outbound/Keys, Outbound/Keys/*: internal/outbound/keys. `Codec` is codec.go, with a reader of its
--     grammar in Codec/Reading; `Digest` is `digestKey`, over SHA-256 as the interface `Sha256`;
--     `Grammar` is what keys.go says of kinds, versions, slots, targets and request ids; `Escalation`,
--     `Provider`, `Webhook` and `Handoff` are the keys (`escalationIntent.key` is `intent_key`),
--     `Fingerprint` is fingerprint.go. The modules Identity, and those below Fingerprint, hold the
--     theorems, each of the form: one key, one thing, or the materials of these two things differ and have
--     one digest.
--   Outbound/Retention: internal/outbound/retention.go, `Pass` being `pass`. The store's
--     `SweepDeliveryHistory` (internal/store, not modelled) is a parameter; it need not empty what is before
--     the cutoff, since the cards above what a chunk removes and what is locked stay behind. Outbound/Policy: internal/outbound/policy.go, and the lanes of series.go.
--   Outbound/Leases, Endings, Evidence, Queueing, Withdrawal, Progress: the theorems on the machine,
--     by what they are about.
--   Outbound/Receipt, Outbound/Receipt/*: internal/outbound/receipt.go: `FoldEffect`,
--     `GenerationVerdict`, and the theorems on them.
--   Outbound/Slots, Outbound/Slots/*: internal/outbound/schedule.go: `shareSlots`, `splitPhases`.
--   AlertGroup/Alert, AlertGroup/Merge, AlertGroup/Merge/*: internal/model/types.go and
--     internal/alertgroup/merge.go: `Apply` and what it is made of.
--   ScheduleRender, ScheduleRender/Merge, ScheduleRender/Slot: internal/schedulerender/types.go,
--     merge.go and slot.go: `MergeAdjacent` and `renderSlot`, with their theorems below them.
--   Rbac, Rbac/Grounds: internal/rbac/rbac.go.
--   Rotation, Rotation/Transition, Rotation/Integers, Rotation/Position, Rotation/Planning:
--     internal/rotation/policy.go, snapshot.go, position.go and transition.go: `PositionAt`,
--     `ActiveGroupAt` and `planLayer`. There a grid is the interface `Grid` of grid.go, and `NewGrid` a
--     parameter: what the plan relies on of a grid is `IsGrid`, from the contract that grid.go states.
--   Rotation/Zone, Rotation/Calendar: the grid itself, grid.go and the parsing of policy.go. time.Location
--     is the interface `Zone`; `resolveLocalBoundary` is `resolve_boundary`, `slotContaining` is
--     `cursors_around`. Calendar/Walk has the loops, Contract, Counts and Policy the theorems, for grids
--     on which the boundary of a date is no later than that of the next (`IsCalendar`).
--     Rotation/Planning/Duty, Succession and Phase hold the theorems.
--   Engine/Types, Roster, Resolver, Steps, Records, Plan, Tick: internal/engine/plan.go and engine.go: the records
--     it reads, `roster`, `scheduleResolver`, `commitments`, `buildPlan`, and the tick. Roster/Memory and
--     Resolver/Answers say that one question has one answer; below Steps, Once, Owed, Accepted and
--     Accompanied hold the theorems on the promises (over Loop, Distinct, Names, Asked, Backing and Cards); below
--     Plan, Agreement (over Growth) and Deferral those on the record of who is on duty and on what puts a plan off.
--     Outbound/Keys/Commitment is the commitment that a plan proposes, with its `validate`, and
--     Outbound/Keys/Admission the admission of the batch: `EscalationBatch.Admit` is `admit`, its loops
--     `admit_each` and `follow_cards`, and Outbound/Keys/Material its materials: `submitIntent.encode` is `encode_submit`. Admission/Made and
--     Admission/Taken follow what makes an admission go through (over Sorting, the order of the keys); Plan/Admitted joins them to `buildPlan`, and
--     Tick/Deferral the deferral to the tick.
--   */Examples: the definitions at concrete values.
--
-- How the code is written here. A Go string type with declared constants is a data type with one
-- constructor for each constant and `unlisted s` for any other text, which the `default` branches see.
-- An error is `err` of a data type that says which error it is; its text is not modelled. Times,
-- durations, counters and revisions are natural numbers: the code compares and adds them and never
-- wraps one. A nil pointer is `none`. A map is a list of pairs, and where Go leaves the order of its
-- iteration open the code sorts; the sorts are insertions by the code's own order.
--
-- `fill`, the outer loop of `shareSlots`, recurs on fuel, with as much as there are free slots: each
-- round gives at least one slot away (Outbound/Slots/Shares), so no run is cut short. The loops of a
-- grid walk over dates on fuel: a boundary lies less than a day before its date and less than four days
-- after, which bounds each walk (Rotation/Calendar/Walk, Counts); dates are counted from year 1, and the
-- theorems speak of instants from fifty days later on, where no walk back leaves the count. The binary
-- search of `gapSize` has 48 rounds for 60 hours of nanoseconds. Every other loop is structural.
--
-- In internal/outbound/keys a string is the list of its bytes, and an int that may be negative is an
-- integer; a length is written modulo 2^32, so the theorems ask for texts below 4 GiB.
--
-- In internal/engine a read of the store or of the projection takes the state of the world and gives the
-- next one: what others do between two reads is in it. An offset is an int64 of nanoseconds that wraps.
--
-- The jitter of a wait after a failure is floating point over a random source and is left out.
--
-- What is not modelled: SQL, HTTP, the adapters of the providers, and the timers of the workers. They
-- hold no decision of their own or belong to code outside the repository. The reads of the directory
-- of users are a parameter of the access checks.
mod Prelude
pub mod Outbound
pub mod AlertGroup
pub mod Rotation
pub mod ScheduleRender
pub mod Engine
pub mod Rbac
